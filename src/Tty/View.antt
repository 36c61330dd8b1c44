-- ===== src/Tty/View.antt =====
-- kernel/io/tty/n_tty.c as two lists: the line that is being typed, and what is ready to be read.
use yak_kernel.Prelude.{
  ℕ, zero, suc, ◌-◌, ◌≤◌, ◌<◌, ◌≡◌, refl, ap, List, [], ◌∷◌, ◌++◌, arith, length, set, take, ltb,
  ◌==◌, if◌then◌else◌,
}
use yak_kernel.RingBuffer.Bounds as Ring
use yak_kernel.RingBuffer.Refine.{contents}
use yak_kernel.Tty.{Termios, Tty, tty_buf_size, newline}

pub record IsValid (t : Tty) : Type 0 where
  pub ring : Ring.IsValid t.read_buf
  pub line_buf : length t.canonical_buf ≡ tty_buf_size
  pub line_fits : t.canonical_pos < tty_buf_size

abbrev pub pending : Tty → List ℕ
pending t = take t.canonical_pos t.canonical_buf

abbrev pub queue : Tty → List ℕ
queue t = contents t.read_buf

-- A committed line goes to the queue, of which `room` bytes are free, and is cut to that.
abbrev pub commit : ℕ → List ℕ × List ℕ → List ℕ × List ℕ
commit room (p, q) = ([], q ++ take room p)

-- What a character does to a line that is typed, which is one byte shorter than its buffer at most.
unfoldable pub canonical_feed : Termios → ℕ → ℕ → List ℕ → List ℕ → List ℕ × List ℕ
canonical_feed tm room c p q =
    let p' = if ltb (length p) (tty_buf_size - 1) then p ++ c ∷ [] else p in
    if c == tm.verase
    then (take (length p - 1) p, q)
    else if c == tm.vkill
    then ([], q)
    else if c == tm.veof
    then commit room (p, q)
    else if c == newline
    then commit room (p', q)
    else (p', q)

-- What it does to the two lists, with a queue of `capacity` bytes.
unfoldable pub feed : Termios → ℕ → ℕ → List ℕ × List ℕ → List ℕ × List ℕ
feed tm capacity c (p, q) =
    let room = capacity - length q in
    if tm.icanon then canonical_feed tm room c p q else (p, q ++ take room (c ∷ []))

module _ {ℓ} {A : Type ℓ} where
  pub length-take : (n : ℕ) (xs : List A) → n ≤ length xs → length (take n xs) ≡ n
  length-take zero xs h = refl
  length-take (suc n) [] h = absurd (omega arith)
  length-take (suc n) (x ∷ xs) h = ap suc (length-take n xs (omega arith))

  pub take-take_le : (m n : ℕ) (xs : List A) → m ≤ n → take m (take n xs) ≡ take m xs
  take-take_le zero n xs h = refl
  take-take_le (suc m) zero xs h = absurd (omega arith)
  take-take_le (suc m) (suc n) [] h = refl
  take-take_le (suc m) (suc n) (x ∷ xs) h = ap (λ l. x ∷ l) (take-take_le m n xs (omega arith))

  pub take_all : (n : ℕ) (xs : List A) → length xs ≤ n → take n xs ≡ xs
  take_all zero [] h = refl
  take_all zero (x ∷ xs) h = absurd (omega arith)
  take_all (suc n) [] h = refl
  take_all (suc n) (x ∷ xs) h = ap (λ l. x ∷ l) (take_all n xs (omega arith))

  pub take-set :
      (n : ℕ) (xs : List A) (x : A)
      → n < length xs
      → take (suc n) (set xs n x) ≡ take n xs ++ x ∷ []
  take-set zero [] x h = absurd (omega arith)
  take-set zero (y ∷ xs) x h = refl
  take-set (suc n) [] x h = absurd (omega arith)
  take-set (suc n) (y ∷ xs) x h = ap (λ l. y ∷ l) (take-set n xs x (omega arith))
