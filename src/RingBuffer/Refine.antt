-- ===== src/RingBuffer/Refine.antt =====
-- A valid ring of kernel/core/ringbuffer.c holds a queue of bytes.
use Prim.Native.Nat.{min}
use mathlib.Core.List.{append-nil}
use yak_kernel.Prelude.{
  ℕ, ◌+◌, ◌-◌, ◌%◌, ◌≤◌, ◌<◌, ◌≡◌, ◌∙◌, sym, ap, subst, List, ◌++◌, [], some, refl, ◌^◌, arith,
  length, get_or, take, drop, tabulate, tabulate-cong, tabulate-append, take-tabulate,
  take-of-tabulate, drop-of-tabulate, sub_size, sub_size_small, add_size_small,
}
use yak_kernel.MemCopy.{memcpy, length-memcpy, get_or-memcpy_inside, get_or-memcpy_outside}
use yak_kernel.RingBuffer.{
  RingBuffer, put_bytes, ringbuffer_put, get_bytes, ringbuffer_get, first_chunk, min_size,
  ringbuffer_init,
}
use yak_kernel.Status.{success}
use native.Mathlib.Nat.{mod-eq_of_lt}
use yak_kernel.RingBuffer.Bounds.{IsValid, wrap_once, mod_step}

-- The stored bytes, oldest first.
abbrev pub contents : RingBuffer → List ℕ
contents rb = tabulate rb.size (λ i. get_or rb.bytes ((rb.tail + i) % rb.capacity) 0)

module _ (rb : RingBuffer) (v : IsValid rb) (buf : List ℕ) (n : ℕ)
    (fits : n ≤ rb.capacity - rb.size) where
  -- `put_bytes` stores the `n` new bytes behind the old ones.
  put_bytes-new :
      (k : ℕ) → k < n → get_or (put_bytes rb buf n) ((rb.head + k) % rb.capacity) 0 ≡ get_or buf k 0
  unfolding put_bytes
  put_bytes-new k lt =
      let first = first_chunk (rb.capacity - rb.head) n in
      let one = memcpy rb.bytes rb.head buf 0 first in
      ground (
        arith,
        wrap_once (rb.head + k) rb.capacity,
        sub_size_small rb.capacity rb.head,
        sub_size_small n first,
        get_or-memcpy_inside rb.bytes rb.head buf 0 first k,
        length-memcpy rb.bytes rb.head buf 0 first,
        get_or-memcpy_outside one 0 buf first (n - first) (rb.head + k),
        get_or-memcpy_inside one 0 buf first (n - first) (k - first),
      )

  -- It leaves the stored bytes alone.
  put_bytes-old :
      (i : ℕ)
      → i < rb.size
      → get_or (put_bytes rb buf n) ((rb.tail + i) % rb.capacity) 0
        ≡ get_or rb.bytes ((rb.tail + i) % rb.capacity) 0
  unfolding put_bytes
  put_bytes-old i lt =
      let first = first_chunk (rb.capacity - rb.head) n in
      let one = memcpy rb.bytes rb.head buf 0 first in
      let q = (rb.tail + i) % rb.capacity in
      ground (
        arith,
        wrap_once (rb.tail + i) rb.capacity,
        wrap_once (rb.tail + rb.size) rb.capacity,
        sub_size_small rb.capacity rb.head,
        sub_size_small n first,
        get_or-memcpy_outside rb.bytes rb.head buf 0 first q,
        get_or-memcpy_outside one 0 buf first (n - first) q,
      )

module _ (rb : RingBuffer) (v : IsValid rb) (buf : List ℕ) (n : ℕ) (fits : n ≤ rb.size)
    (room : n ≤ length buf) where
  get_bytes-read :
      (k : ℕ)
      → k < n
      → get_or (get_bytes rb buf n) k 0 ≡ get_or rb.bytes ((rb.tail + k) % rb.capacity) 0
  unfolding get_bytes
  get_bytes-read k lt =
      let first = first_chunk (rb.capacity - rb.tail) n in
      let one = memcpy buf 0 rb.bytes rb.tail first in
      ground (
        arith,
        wrap_once (rb.tail + k) rb.capacity,
        sub_size_small rb.capacity rb.tail,
        sub_size_small n first,
        get_or-memcpy_inside buf 0 rb.bytes rb.tail first k,
        length-memcpy buf 0 rb.bytes rb.tail first,
        get_or-memcpy_outside one first rb.bytes 0 (n - first) k,
        get_or-memcpy_inside one first rb.bytes 0 (n - first) (k - first),
      )

  get_bytes-rest : (k : ℕ) → n ≤ k → get_or (get_bytes rb buf n) k 0 ≡ get_or buf k 0
  unfolding get_bytes
  get_bytes-rest k lt =
      let first = first_chunk (rb.capacity - rb.tail) n in
      let one = memcpy buf 0 rb.bytes rb.tail first in
      ground (
        arith,
        wrap_once (rb.tail + k) rb.capacity,
        sub_size_small rb.capacity rb.tail,
        sub_size_small n first,
        get_or-memcpy_outside buf 0 rb.bytes rb.tail first k,
        get_or-memcpy_outside one first rb.bytes 0 (n - first) k,
      )

length-get_bytes :
    (rb : RingBuffer) (buf : List ℕ) (n : ℕ) → length (get_bytes rb buf n) ≡ length buf
unfolding get_bytes
length-get_bytes rb buf n =
    let first = first_chunk (sub_size rb.capacity rb.tail) n in
    ground (
      arith,
      length-memcpy buf 0 rb.bytes rb.tail first,
      length-memcpy (memcpy buf 0 rb.bytes rb.tail first) first rb.bytes 0 (sub_size n first),
    )

pub length-ringbuffer_get :
    (rb : RingBuffer) (buf : List ℕ) (n : ℕ) → length (ringbuffer_get rb buf n).1 ≡ length buf
unfolding ringbuffer_get
length-ringbuffer_get rb buf n = ground (arith, length-get_bytes rb buf (min_size n rb.size))

put_contents :
    (rb : RingBuffer) (v : IsValid rb) (buf : List ℕ) (n : ℕ)
    → n ≤ rb.capacity - rb.size
    → n ≤ length buf
    → contents (record rb {
      bytes = put_bytes rb buf n;
      head = (rb.head + n) % rb.capacity;
      size = rb.size + n;
    })
      ≡ contents rb ++ take n buf
put_contents rb v buf n fits room = rw (take-tabulate n buf 0 room) (
    tabulate-append rb.size n _ _ _ (λ i lt. put_bytes-old rb v buf n fits i lt)
      (λ i lt.
        ap (λ p. get_or (put_bytes rb buf n) p 0)
          (rw v.head_is (sym (mod_step rb.tail rb.size i rb.capacity)))
        ∙ put_bytes-new rb v buf n fits i lt))

get_rest :
    (rb : RingBuffer) (v : IsValid rb) (buf : List ℕ) (n k : ℕ)
    → n ≤ rb.size
    → n ≤ length buf
    → n ≤ k
    → get_or (get_bytes rb buf n) k 0 ≡ get_or buf k 0
get_rest rb v buf n k fits room le = get_bytes-rest rb v buf n fits room k le

get_front :
    (rb : RingBuffer) (v : IsValid rb) (buf : List ℕ) (n : ℕ)
    → n ≤ rb.size
    → n ≤ length buf
    → take n (get_bytes rb buf n) ≡ take n (contents rb)
get_front rb v buf n fits room =
    rw
      (
        take-of-tabulate n rb.size (λ i. get_or rb.bytes ((rb.tail + i) % rb.capacity) 0) fits,
        take-tabulate n (get_bytes rb buf n) 0 (omega (arith, length-get_bytes rb buf n)),
      )
      (tabulate-cong n _ _ (get_bytes-read rb v buf n fits room))

get_contents :
    (rb : RingBuffer) (n : ℕ)
    → n ≤ rb.size
    → contents (record rb { tail = (rb.tail + n) % rb.capacity; size = rb.size - n })
      ≡ drop n (contents rb)
get_contents rb n fits =
    let at = λ (i : ℕ). get_or rb.bytes ((rb.tail + i) % rb.capacity) 0 in
    let at' = λ (i : ℕ). get_or rb.bytes (((rb.tail + n) % rb.capacity + i) % rb.capacity) 0 in
    let whole : n + (rb.size - n) ≡ rb.size = omega arith in
    sym (
      subst (λ k. drop n (tabulate k at) ≡ tabulate (rb.size - n) at') whole
        (drop-of-tabulate n (rb.size - n) at at'
          (λ i lt. ap (λ p. get_or rb.bytes p 0) (mod_step rb.tail n i rb.capacity))))

-- `ringbuffer_put` on a valid ring takes as many of the `count` bytes offered as fit, returns their
-- number, and appends exactly these bytes, in order, to the stored ones.
pub ringbuffer_put_refines :
    {rb : RingBuffer} (buf : List ℕ) (count : ℕ)
    → IsValid rb
    → count ≤ length buf
    → let (n, rb') = ringbuffer_put rb buf count in
      (n ≡ min count (rb.capacity - rb.size)) × (contents rb' ≡ contents rb ++ take n buf)
unfolding ringbuffer_put
ringbuffer_put_refines {rb} buf count v h =
    let n = min_size count (rb.capacity - rb.size) in
    ground (
      arith,
      sub_size_small rb.capacity rb.size,
      add_size_small rb.head n,
      add_size_small rb.size n,
      append-nil (contents rb),
      put_contents rb v buf n,
    )

-- `ringbuffer_get` on a valid ring, into a buffer that holds `count` bytes, hands over the oldest
-- bytes, as many as are stored and asked for, and returns their number. It removes exactly these
-- from the ring, and leaves the rest of the caller's buffer as it was.
pub ringbuffer_get_refines :
    {rb : RingBuffer} (buf : List ℕ) (count : ℕ)
    → IsValid rb
    → count ≤ length buf
    → let (n, out, rb') = ringbuffer_get rb buf count in
      (n ≡ min count rb.size)
      × (take n out ≡ take n (contents rb))
      × ((k : ℕ) → n ≤ k → get_or out k 0 ≡ get_or buf k 0)
      × (contents rb' ≡ drop n (contents rb))
unfolding ringbuffer_get
ringbuffer_get_refines {rb} buf count v h =
    let n = min_size count rb.size in
    (
      ground arith,
      ground (arith, get_front rb v buf n),
      λ k le. ground (arith, get_rest rb v buf n k),
      ground (arith, sub_size_small rb.size n, add_size_small rb.tail n, get_contents rb n),
    )

-- With memory for a positive capacity of at most 2 ^ 63 bytes, `ringbuffer_init` succeeds with a
-- valid, empty ring.
pub ringbuffer_init_empty :
    (rb : RingBuffer) (cap : ℕ) (storage : List ℕ)
    → 0 < cap
    → cap ≤ 2 ^ 63
    → length storage ≡ cap
    → (rb' : RingBuffer) × (ringbuffer_init (some rb) cap (some storage) ≡ (success, some rb'))
      × IsValid rb'
      × (contents rb' ≡ [])
unfolding ringbuffer_init
ringbuffer_init_empty rb cap storage h k e = (
  record { bytes = storage; capacity = cap; size = 0; head = 0; tail = 0 },
  ground arith,
  record {
    storage = e;
    nonempty = h;
    small = k;
    size_in = omega arith;
    tail_in = h;
    head_in = h;
    head_is = sym (mod-eq_of_lt h);
  },
  refl,
)
