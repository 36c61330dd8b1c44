-- ===== src/Tty/Raw.antt =====
-- kernel/io/tty/n_tty.c: reads in raw mode, of which some never end.
use Prim.Native.Nat.{min}
use yak_kernel.Prelude.{
  ℕ, zero, suc, ◌+◌, ◌-◌, ◌^◌, ◌≤◌, ◌<◌, ◌≡◌, refl, subst, sym, ◌∙◌, ap, ap₂, Bool, true, false,
  not, List, none, some, arith, length, length-append, length-drop, length-tabulate, take, drop,
  ltb, ◌==◌, if-true, if-false, sub_size, sub_size_small,
}
use yak_kernel.RingBuffer.{ringbuffer_available, ringbuffer_get, min_size}
use yak_kernel.RingBuffer.Bounds.{ringbuffer_get-IsValid}
use yak_kernel.RingBuffer.Refine.{ringbuffer_get_refines, length-ringbuffer_get}
use yak_kernel.Tty.{Termios, Tty, got, Wakeup, leave_read, wants_more, raw_take, raw_loop}
use yak_kernel.Tty.Read.{leave_read_same}
use yak_kernel.Tty.View.{IsValid, queue, length-take}

module _ (t : Tty) (v : IsValid t) (n : ℕ) (buf : List ℕ) (len : ℕ) (le : n ≤ len)
    (small : len < 2 ^ 64) (room : len ≤ length buf) where
  -- A turn that finds data takes as much of it as fits into the rest of the buffer.
  raw_take_lem :
      ((raw_take n buf len t).0 ≡ n + min t.read_buf.size (len - n))
      × (queue ((raw_take n buf len t).2) ≡ drop (min t.read_buf.size (len - n)) (queue t))
      × IsValid ((raw_take n buf len t).2)
      × ((raw_take n buf len t).2.termios ≡ t.termios)
      × (length ((raw_take n buf len t).1) ≡ length buf)
  unfolding raw_take ringbuffer_available
  raw_take_lem =
      let k = min_size t.read_buf.size (sub_size len n) in
      let left = sub_size_small len n le small in
      let fits : k ≤ length (drop n buf) = ground (arith, left, length-drop n buf) in
      let (count, _, _, rest) = ringbuffer_get_refines (drop n buf) k v.ring fits in
      let exact : (ringbuffer_get t.read_buf (drop n buf) k).0 ≡ min t.read_buf.size (len - n) =
        ground (arith, count, left) in
      (
        ap (λ x. n + x) exact,
        rest ∙ ap (λ x. drop x (queue t)) exact,
        record {
          ring = ringbuffer_get-IsValid (drop n buf) k v.ring;
          line_buf = v.line_buf;
          line_fits = v.line_fits;
        },
        refl,
        length-append (take n buf) _
            ∙ omega (
              arith,
              length-take n buf (omega arith),
              length-ringbuffer_get t.read_buf (drop n buf) k,
              length-drop n buf,
            ),
      )

size_queue : (t : Tty) → t.read_buf.size ≡ length (queue t)
size_queue t = sym (length-tabulate t.read_buf.size _)

still_wants : (tm : Termios) (n : ℕ) → n < tm.vmin → wants_more tm n ≡ true
unfolding wants_more
still_wants tm n h = ground arith

-- A turn that takes bytes and goes on.
takes_on :
    (fuel : ℕ) (wakeups : List Wakeup) (first : Bool) (n : ℕ) (t : Tty) (buf : List ℕ) (len : ℕ)
    → wants_more t.termios n ≡ true
    → 0 < t.termios.vmin
    → 0 < t.read_buf.size
    → raw_loop (suc fuel) wakeups first n buf len t
      ≡ (let (n', buf', t') = raw_take n buf len t in raw_loop fuel wakeups false n' buf' len t')
unfolding raw_loop ringbuffer_available
takes_on fuel wakeups first n t buf len more pos ready =
    let goes_on : not (wants_more t.termios n) ≡ false = ground arith in
    let data_there : ltb 0 t.read_buf.size ≡ true = ground arith in
    let blocks : (t.termios.vmin == 0) ≡ false = ground arith in
    if-false _ goes_on ∙ if-true _ data_there ∙ if-false _ blocks

-- A raw read whose buffer is full, and that wants more bytes, goes round for ever while there are any.
full_spins :
    (fuel : ℕ) (wakeups : List Wakeup) (first : Bool) (n : ℕ) (t : Tty) (buf : List ℕ) (len : ℕ)
    → n ≡ len
    → IsValid t
    → len < 2 ^ 64
    → len < t.termios.vmin
    → 0 < t.read_buf.size
    → len ≤ length buf
    → raw_loop fuel wakeups first n buf len t ≡ none
unfolding raw_loop
full_spins zero wakeups first n t buf len full v small more ready room = refl
full_spins (suc fuel) wakeups first n t buf len full v small more ready room =
    let (n', buf', t') = raw_take n buf len t in
    let (count, rest, v', tm, long) = raw_take_lem t v n buf len (omega (arith, full)) small room in
    let same : length (queue t') ≡ length (queue t) =
      ap length rest
      ∙ length-drop (min t.read_buf.size (len - n)) (queue t)
      ∙ omega (arith, full) in
    takes_on fuel wakeups first n t buf len (still_wants t.termios n (omega (arith, full)))
      (omega arith) ready
    ∙ full_spins fuel wakeups false n' t' buf' len (omega (arith, count, full)) v' small
        (omega (arith, ap (λ m. m.vmin) tm)) (omega (arith, size_queue t', size_queue t, same))
        (omega (arith, long))

-- On a valid terminal a raw read, into a buffer that holds what it asks for, of fewer bytes than VMIN
-- never ends where more bytes are ready than that: the loop does not return, however many turns it is
-- given.
pub raw_loop-spins :
    (fuel : ℕ) (wakeups : List Wakeup) (t : Tty) (buf : List ℕ) (len : ℕ)
    → IsValid t
    → len < 2 ^ 64
    → len < t.termios.vmin
    → len < t.read_buf.size
    → len ≤ length buf
    → raw_loop fuel wakeups true 0 buf len t ≡ none
unfolding raw_loop
raw_loop-spins zero wakeups t buf len v small more ready room = refl
raw_loop-spins (suc fuel) wakeups t buf len v small more ready room =
    let (n', buf', t') = raw_take 0 buf len t in
    let (count, rest, v', tm, long) = raw_take_lem t v 0 buf len (omega arith) small room in
    let left : length (queue t') ≡ length (queue t) - len =
      ap length rest
      ∙ length-drop (min t.read_buf.size (len - 0)) (queue t)
      ∙ omega (arith, size_queue t) in
    takes_on fuel wakeups true 0 t buf len (still_wants t.termios 0 (omega arith)) (omega arith)
      (omega arith)
    ∙ full_spins fuel wakeups false n' t' buf' len (omega (arith, count)) v' small
        (omega (arith, ap (λ m. m.vmin) tm)) (omega (arith, size_queue t', size_queue t, left))
        (omega (arith, long))

raw_take_front :
    (t : Tty) (v : IsValid t) (buf : List ℕ) (len : ℕ)
    → len < 2 ^ 64
    → len ≤ length buf
    → let m = min t.read_buf.size len in take m (raw_take 0 buf len t).1 ≡ take m (queue t)
unfolding raw_take ringbuffer_available
raw_take_front t v buf len small room =
    let k = min_size t.read_buf.size (sub_size len 0) in
    let left = sub_size_small len 0 (omega arith) small in
    let fits : k ≤ length buf = ground (arith, left) in
    let (count, front, _, _) = ringbuffer_get_refines buf k v.ring fits in
    let exact : (ringbuffer_get t.read_buf buf k).0 ≡ min t.read_buf.size len =
      ground (arith, count, left) in
    subst (λ m. take m (ringbuffer_get t.read_buf buf k).1 ≡ take m (queue t)) exact front

-- What the end of the raw loop comes to once it has enough.
has_enough :
    (fuel : ℕ) (wakeups : List Wakeup) (first : Bool) (n : ℕ) (t : Tty) (buf : List ℕ) (len : ℕ)
    → 0 < n
    → t.termios.vmin ≤ n
    → raw_loop (suc fuel) wakeups first n buf len t ≡ some (got n buf (leave_read t))
unfolding raw_loop wants_more
has_enough fuel wakeups first n t buf len pos enough =
    let ends : not (wants_more t.termios n) ≡ true = ground arith in if-true _ ends

-- With VMIN at 1, as a new terminal has it, a raw read for some bytes on a valid terminal, into a
-- buffer that holds them, ends within two turns where some are ready. It hands over the oldest ones, as
-- many as there are and were asked for, and leaves the rest.
pub raw_loop-gets :
    (fuel : ℕ) (wakeups : List Wakeup) (t : Tty) (buf : List ℕ) (len : ℕ)
    → IsValid t
    → len < 2 ^ 64
    → t.termios.vmin ≡ 1
    → 0 < t.read_buf.size
    → 0 < len
    → len ≤ length buf
    → let n = min t.read_buf.size len in
      (out : List ℕ) × (t' : Tty) × (raw_loop (suc (suc fuel)) wakeups true 0 buf len t
        ≡ some (got n out t'))
      × (take n out ≡ take n (queue t))
      × (queue t' ≡ drop n (queue t))
raw_loop-gets fuel wakeups t buf len v small one ready asked room =
    let (n', buf', t1) = raw_take 0 buf len t in
    let (count, rest, v', tm, long) = raw_take_lem t v 0 buf len (omega arith) small room in
    let (b, is) = leave_read_same t1 in
    let exact : n' ≡ min t.read_buf.size len = omega (arith, count) in
    let cut : min t.read_buf.size (len - 0) ≡ min t.read_buf.size len = omega arith in
    (
      buf',
      record t1 { data_available = b },
      takes_on (suc fuel) wakeups true 0 t buf len (still_wants t.termios 0 (omega (arith, one)))
            (omega (arith, one)) ready
          ∙ has_enough fuel wakeups false n' t1 buf' len (omega (arith, exact))
              (omega (arith, exact, ap (λ m. m.vmin) tm, one))
          ∙ ap₂ (λ k u. some (got k buf' u)) exact is,
      raw_take_front t v buf len small room,
      rest ∙ ap (λ k. drop k (queue t)) cut,
    )
