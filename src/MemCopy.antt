-- ===== src/MemCopy.antt =====
-- `memcpy` of kernel/lib/string.c, on arrays as lists with offsets. A read behind the end of an array
-- gives 0, and a write there is lost.
use yak_kernel.Prelude.{
  ℕ, zero, suc, ◌+◌, ◌≤◌, ◌<◌, ◌≡◌, ◌∙◌, refl, ◌⊎◌, inl, inr, List, arith, length, length-set,
  get_or, get_or-set_self, get_or-set_ne, set, ◌==◌, Bool-cases, ==_iff,
}

-- The loop from index `i`, with `n` rounds left: `dest[i] = src[i]`, with `dest` the array `d` from
-- offset `doff` and `src` the array `s` from offset `soff`.
pub memcpy_from : ℕ → ℕ → List ℕ → ℕ → List ℕ → ℕ → List ℕ
memcpy_from i zero d doff s soff = d
memcpy_from i (suc n) d doff s soff =
    memcpy_from (i + 1) n (set d (doff + i) (get_or s (soff + i) 0)) doff s soff

pub memcpy : List ℕ → ℕ → List ℕ → ℕ → ℕ → List ℕ
memcpy d doff s soff n = memcpy_from 0 n d doff s soff

length-memcpy_from :
    (i n : ℕ) (d : List ℕ) (doff : ℕ) (s : List ℕ) (soff : ℕ)
    → length (memcpy_from i n d doff s soff) ≡ length d
unfolding memcpy_from
length-memcpy_from i zero d doff s soff = refl
length-memcpy_from i (suc n) d doff s soff = omega (
  arith,
  length-memcpy_from (i + 1) n (set d (doff + i) (get_or s (soff + i) 0)) doff s soff,
  length-set d (doff + i) (get_or s (soff + i) 0),
)

pub length-memcpy :
    (d : List ℕ) (doff : ℕ) (s : List ℕ) (soff n : ℕ) → length (memcpy d doff s soff n) ≡ length d
unfolding memcpy
length-memcpy d doff s soff n = length-memcpy_from 0 n d doff s soff

outside_from :
    (i n : ℕ) (d : List ℕ) (doff : ℕ) (s : List ℕ) (soff j : ℕ)
    → (j < doff + i) ⊎ (doff + i + n ≤ j)
    → get_or (memcpy_from i n d doff s soff) j 0 ≡ get_or d j 0
unfolding memcpy_from
outside_from i zero d doff s soff j h = refl
outside_from i (suc n) d doff s soff j h =
    outside_from (i + 1) n (set d (doff + i) (get_or s (soff + i) 0)) doff s soff j (omega arith)
    ∙ get_or-set_ne d (doff + i) j (get_or s (soff + i) 0) 0 (omega arith)

inside_from :
    (i n : ℕ) (d : List ℕ) (doff : ℕ) (s : List ℕ) (soff k : ℕ)
    → doff + i + n ≤ length d
    → i ≤ k
    → k < i + n
    → get_or (memcpy_from i n d doff s soff) (doff + k) 0 ≡ get_or s (soff + k) 0
unfolding memcpy_from
inside_from i zero d doff s soff k h a b = absurd (omega arith)
inside_from i (suc n) d doff s soff k h a b = elim (Bool-cases (k == i)) [
  | inl e ↦
      let e' : k ≡ i = (==_iff k i).0 e in
      rw e' (
        outside_from (i + 1) n (set d (doff + i) (get_or s (soff + i) 0)) doff s soff (doff + i)
          (omega arith)
        ∙ get_or-set_self d (doff + i) (get_or s (soff + i) 0) 0 (omega arith))
  | inr ne ↦
      inside_from (i + 1) n (set d (doff + i) (get_or s (soff + i) 0)) doff s soff k
        (omega (arith, length-set d (doff + i) (get_or s (soff + i) 0))) (ground arith)
        (omega arith)
]

-- Outside the copied range the destination is as it was.
pub get_or-memcpy_outside :
    (d : List ℕ) (doff : ℕ) (s : List ℕ) (soff n j : ℕ)
    → (j < doff) ⊎ (doff + n ≤ j)
    → get_or (memcpy d doff s soff n) j 0 ≡ get_or d j 0
unfolding memcpy
get_or-memcpy_outside d doff s soff n j h = outside_from 0 n d doff s soff j (omega arith)

-- Inside it holds the source's bytes.
pub get_or-memcpy_inside :
    (d : List ℕ) (doff : ℕ) (s : List ℕ) (soff n k : ℕ)
    → doff + n ≤ length d
    → k < n
    → get_or (memcpy d doff s soff n) (doff + k) 0 ≡ get_or s (soff + k) 0
unfolding memcpy
get_or-memcpy_inside d doff s soff n k h a =
    inside_from 0 n d doff s soff k (omega arith) (omega arith) (omega arith)
