-- ===== src/CString/Laws.antt =====
-- What the routines of kernel/lib/string.c compute on strings with a terminator.
use yak_kernel.Prelude.{
  ℕ, zero, suc, ◌≤◌, ◌<◌, ◌≡◌, refl, ◌↔◌, ap, List, [], ◌∷◌, ◌++◌, some, arith, length, get_or, set,
  get_or-set_self, get_or-set_ne, length-set, drop, if◌then◌else◌, leb,
}
use yak_kernel.Prelude.Int.{pos}
use yak_kernel.CString.{strcmp, strcpy, strcpy_loop, strlen, strnlen, bzero}

-- No character is the terminator.
pub data IsText : List ℕ → Type 0 where
  empty : IsText []
  char : {s : List ℕ} (c : ℕ) → IsText s → IsText (suc c ∷ s)

-- `strlen` counts the characters in front of the terminator.
pub strlen-text : (s rest : List ℕ) → IsText s → strlen (s ++ 0 ∷ rest) ≡ some (length s)
unfolding strlen
strlen-text [] rest empty = refl
strlen-text (zero ∷ s) rest t = elim t [ ]
strlen-text (suc c ∷ s) rest (char _ t) = rw (strlen-text s rest t, strlen) (ap some (omega arith))

-- `strcmp` returns 0 on two strings just when they are the same text.
pub strcmp-eq :
    (s t r1 r2 : List ℕ)
    → IsText s
    → IsText t
    → (strcmp (s ++ 0 ∷ r1) (t ++ 0 ∷ r2) ≡ some (pos 0)) ↔ (s ≡ t)
unfolding strcmp
strcmp-eq [] [] r1 r2 empty empty = ground arith
strcmp-eq [] (zero ∷ t) r1 r2 u v = elim v [ ]
strcmp-eq (zero ∷ s) t r1 r2 u v = elim u [ ]
strcmp-eq (suc a ∷ s) (zero ∷ t) r1 r2 u v = elim v [ ]
strcmp-eq [] (suc b ∷ t) r1 r2 empty (char _ v) = ground arith
strcmp-eq (suc a ∷ s) [] r1 r2 (char _ u) empty = ground arith
strcmp-eq (suc a ∷ s) (suc b ∷ t) r1 r2 (char _ u) (char _ v) =
    ground (arith, strcmp-eq s t r1 r2 u v)

strcpy_loop-text :
    (dest s rest : List ℕ)
    → IsText s
    → length s < length dest
    → strcpy_loop dest (s ++ 0 ∷ rest) ≡ some (s ++ 0 ∷ drop (suc (length s)) dest)
unfolding strcpy_loop
strcpy_loop-text [] s rest t fits = absurd (omega arith)
strcpy_loop-text (d ∷ dest) [] rest empty fits = refl
strcpy_loop-text (d ∷ dest) (zero ∷ s) rest t fits = elim t [ ]
strcpy_loop-text (d ∷ dest) (suc c ∷ s) rest (char _ t) fits =
    rw (strcpy_loop-text dest s rest t (omega arith), strcpy_loop) refl

-- `strcpy` into a large enough array writes the text and its terminator, and nothing behind them.
pub strcpy-text :
    (dest s rest : List ℕ)
    → IsText s
    → length s < length dest
    → strcpy (some dest) (s ++ 0 ∷ rest) ≡ some (some (s ++ 0 ∷ drop (suc (length s)) dest))
unfolding strcpy
strcpy-text dest s rest t fits = rw (strcpy_loop-text dest s rest t fits, strcpy)

-- `strnlen` is `strlen` cut off at `maxlen`.
pub strnlen-text :
    (s rest : List ℕ) (maxlen : ℕ)
    → IsText s
    → strnlen (s ++ 0 ∷ rest) maxlen ≡ some (if leb maxlen (length s) then maxlen else length s)
unfolding strnlen
strnlen-text s rest zero t = ground arith
strnlen-text [] rest (suc m) empty = ground arith
strnlen-text (zero ∷ s) rest (suc m) t = elim t [ ]
strnlen-text (suc c ∷ s) rest (suc m) (char _ t) =
    rw (strnlen-text s rest m t, strnlen) (ground arith)

-- `bzero` clears the first `n` bytes and no other.
pub bzero-clears :
    (n : ℕ) (s : List ℕ) (i : ℕ)
    → n ≤ length s
    → get_or (bzero s n) i 0 ≡ (if leb n i then get_or s i 0 else 0)
unfolding bzero
bzero-clears zero s i le = ground arith
bzero-clears (suc n) s i le = ground (
  arith,
  bzero-clears n (set s n 0) i,
  length-set s n 0,
  get_or-set_self s n 0 0,
  get_or-set_ne s n i 0 0,
)
