-- ===== src/RingBuffer/Bounds.antt =====
-- The representation invariant of `struct ringbuffer` (kernel/core/ringbuffer.c).
use Prim.Native.Nat.{min}
use yak_kernel.Prelude.{
  ℕ, ◌+◌, ◌-◌, ◌*◌, ◌%◌, ◌^◌, ◌≤◌, ◌<◌, ◌≡◌, ◌∙◌, ap, List, length, arith, if◌then◌else◌, ltb,
  sub_size, add_size_small, sub_size_small,
}
use yak_kernel.MemCopy.{memcpy, length-memcpy}
use yak_kernel.RingBuffer.{
  RingBuffer, put_bytes, ringbuffer_put, ringbuffer_get, first_chunk, min_size,
}
use native.Mathlib.Nat.{mod-eq_of_lt, mod-eq-sub-mod, mod-lt, mod-add-mod}

-- `capacity` is at most half the address space, so that `head + n` does not wrap.
pub record IsValid (rb : RingBuffer) : Type 0 where
  pub storage : length rb.bytes ≡ rb.capacity
  pub nonempty : 0 < rb.capacity
  pub small : rb.capacity ≤ 2 ^ 63
  pub size_in : rb.size ≤ rb.capacity
  pub tail_in : rb.tail < rb.capacity
  pub head_in : rb.head < rb.capacity
  pub head_is : rb.head ≡ (rb.tail + rb.size) % rb.capacity

pub wrap_once : (x c : ℕ) → 0 < c → x < 2 * c → x % c ≡ (if ltb x c then x else x - c)
wrap_once x c h k = ground (
  arith,
  mod-eq_of_lt {n = x} {m = c},
  mod-eq-sub-mod {n = x} {m = c},
  mod-eq_of_lt {n = x - c} {m = c},
)

pub length-put_bytes :
    (rb : RingBuffer) (buf : List ℕ) (n : ℕ) → length (put_bytes rb buf n) ≡ length rb.bytes
unfolding put_bytes
length-put_bytes rb buf n =
    let first = first_chunk (sub_size rb.capacity rb.head) n in
    ground (
      arith,
      length-memcpy rb.bytes rb.head buf 0 first,
      length-memcpy (memcpy rb.bytes rb.head buf 0 first) 0 buf first (sub_size n first),
    )

-- What `ringbuffer_put` does to a valid ring, in numbers that do not wrap.
pub ringbuffer_put-count :
    {rb : RingBuffer} (buf : List ℕ) (count : ℕ)
    → IsValid rb
    → let n = min count (rb.capacity - rb.size) in (ringbuffer_put rb buf count).0 ≡ n
unfolding ringbuffer_put
ringbuffer_put-count {rb} buf count v = ground (arith, sub_size_small rb.capacity rb.size)

-- The index after `n` more bytes, whether the ring or the plain sum went round.
pub mod_step : (a b n c : ℕ) → ((a + b) % c + n) % c ≡ (a + (b + n)) % c
mod_step a b n c = mod-add-mod (a + b) c n ∙ ap (λ x. x % c) (omega arith)

pub mod_unstep : (a b n c : ℕ) → n ≤ b → ((a + n) % c + (b - n)) % c ≡ (a + b) % c
mod_unstep a b n c h = mod-add-mod (a + n) c (b - n) ∙ ap (λ x. x % c) (omega arith)

-- `ringbuffer_put` keeps the invariant.
pub ringbuffer_put-IsValid :
    {rb : RingBuffer} (buf : List ℕ) (count : ℕ)
    → IsValid rb
    → IsValid (ringbuffer_put rb buf count).1
unfolding ringbuffer_put
ringbuffer_put-IsValid {rb} buf count v =
    let n = min_size count (rb.capacity - rb.size) in
    ground (
      arith,
      sub_size_small rb.capacity rb.size,
      length-put_bytes rb buf n,
      add_size_small rb.head n,
      add_size_small rb.size n,
      mod-lt (rb.head + n) {m = rb.capacity},
      mod_step rb.tail rb.size n rb.capacity,
    )

-- `ringbuffer_get` keeps the invariant.
pub ringbuffer_get-IsValid :
    {rb : RingBuffer} (buf : List ℕ) (count : ℕ)
    → IsValid rb
    → IsValid (ringbuffer_get rb buf count).2
unfolding ringbuffer_get
ringbuffer_get-IsValid {rb} buf count v =
    let n = min_size count rb.size in
    ground (
      arith,
      sub_size_small rb.size n,
      add_size_small rb.tail n,
      mod-lt (rb.tail + n) {m = rb.capacity},
      mod_unstep rb.tail rb.size n rb.capacity,
    )

pub ringbuffer_put-capacity :
    (rb : RingBuffer) (buf : List ℕ) (n : ℕ) → (ringbuffer_put rb buf n).1.capacity ≡ rb.capacity
unfolding ringbuffer_put
ringbuffer_put-capacity rb buf n = ground arith
