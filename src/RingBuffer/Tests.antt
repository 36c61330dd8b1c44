-- ===== src/RingBuffer/Tests.antt =====
-- Runs of kernel/core/ringbuffer.c, and the theorems at a ring that wraps round.
use Prim.Native.Nat.{min}
use yak_kernel.Prelude.{
  ℕ, ◌-◌, ◌^◌, ◌<◌, ◌≤◌, ◌≡◌, refl, List, [], ◌∷◌, ◌++◌, length, get_or, take, drop, arith,
}
use yak_kernel.RingBuffer.{RingBuffer, ringbuffer_put, ringbuffer_get}
use yak_kernel.RingBuffer.Bounds.{IsValid}
use yak_kernel.RingBuffer.Refine.{contents, ringbuffer_put_refines, ringbuffer_get_refines}

-- Four places, of which the last and the first are used.
abbrev wrapped : RingBuffer
wrapped = record { bytes = 12 ∷ 0 ∷ 0 ∷ 11 ∷ []; capacity = 4; size = 2; head = 1; tail = 3 }

abbrev incoming : List ℕ
incoming = 21 ∷ 22 ∷ 23 ∷ []

abbrev storage_of_six : List ℕ
storage_of_six = 1 ∷ 2 ∷ 3 ∷ 4 ∷ 5 ∷ 6 ∷ []

wrapped-IsValid : IsValid wrapped
wrapped-IsValid = record {
  storage = refl;
  nonempty = omega arith;
  small = omega arith;
  size_in = omega arith;
  tail_in = omega arith;
  head_in = omega arith;
  head_is = refl;
}

three : 3 ≤ length incoming
three = omega arith

ringbuffer_put_refines_example :
    let (n, rb') = ringbuffer_put wrapped incoming 3 in
    (n ≡ min 3 (4 - 2)) × (contents rb' ≡ contents wrapped ++ take n incoming)
ringbuffer_put_refines_example = ringbuffer_put_refines incoming 3 wrapped-IsValid three

ringbuffer_get_refines_example :
    let (n, out, rb') = ringbuffer_get wrapped incoming 3 in
    (n ≡ min 3 2)
    × (take n out ≡ take n (contents wrapped))
    × ((k : ℕ) → n ≤ k → get_or out k 0 ≡ get_or incoming k 0)
    × (contents rb' ≡ drop n (contents wrapped))
ringbuffer_get_refines_example = ringbuffer_get_refines incoming 3 wrapped-IsValid three

six : 0 < length storage_of_six
six = omega arith

six_small : length storage_of_six ≤ 2 ^ 63
six_small = omega arith
