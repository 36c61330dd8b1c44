-- ===== src/Wait/Lists.antt =====
-- How often a wait block is on a wait list (`obj_wait_list`).
use yak_kernel.Prelude.{
  ℕ, suc, ◌+◌, ◌<◌, ◌≡◌, refl, ap, true, List, [], ◌∷◌, ◌++◌, arith, if◌then◌else◌, length, inl,
  inr, Bool-cases,
}
use yak_kernel.Wait.{Block, inline_block, timeout_block, block_eq}
use yak_kernel.Wait.Step.{is_on, remove}

abbrev pub occurs : Block → List Block → ℕ
occurs b [] = 0
occurs b (c ∷ bs) = if block_eq b c then suc (occurs b bs) else occurs b bs

pub block_eq-eq : (b c : Block) → block_eq b c ≡ true → b ≡ c
block_eq-eq (inline_block t) (inline_block u) e =
    let same : t ≡ u = ground arith in ap inline_block same
block_eq-eq (inline_block t) (timeout_block u) e = absurd (cc)
block_eq-eq (timeout_block t) (inline_block u) e = absurd (cc)
block_eq-eq (timeout_block t) (timeout_block u) e =
    let same : t ≡ u = ground arith in ap timeout_block same

pub block_eq_refl : (b : Block) → block_eq b b ≡ true
block_eq_refl (inline_block t) = ground arith
block_eq_refl (timeout_block t) = ground arith

pub occurs-append :
    (b c : Block) (bs : List Block)
    → occurs b (bs ++ c ∷ []) ≡ occurs b bs + (if block_eq b c then 1 else 0)
occurs-append b c [] = ground arith
occurs-append b c (d ∷ bs) = ground (arith, occurs-append b c bs)

pub occurs-remove :
    (b c : Block) (bs : List Block)
    → is_on c bs ≡ true
    → occurs b (remove c bs) + (if block_eq b c then 1 else 0) ≡ occurs b bs
occurs-remove b c [] on = absurd (cc)
occurs-remove b c (d ∷ bs) on = elim (Bool-cases (block_eq c d)) [
  | inl e ↦ rw (e, block_eq-eq c d e) (ground arith)
  | inr e ↦ ground (arith, e, occurs-remove b c bs)
]

pub length-remove :
    (c : Block) (bs : List Block) → is_on c bs ≡ true → length (remove c bs) + 1 ≡ length bs
length-remove c [] on = absurd (cc)
length-remove c (d ∷ bs) on = ground (arith, length-remove c bs)

pub occurs-is_on : (b : Block) (bs : List Block) → 0 < occurs b bs → is_on b bs ≡ true
occurs-is_on b [] lt = absurd (omega arith)
occurs-is_on b (c ∷ bs) lt = ground (arith, occurs-is_on b bs)

-- A list on which no block is is empty.
pub occurs-empty : (bs : List Block) → ((b : Block) → occurs b bs ≡ 0) → bs ≡ []
occurs-empty [] none_on = refl
occurs-empty (b ∷ bs) none_on = absurd (ground (arith, none_on b, block_eq_refl b))
