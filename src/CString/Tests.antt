-- ===== src/CString/Tests.antt =====
-- Runs of kernel/lib/string.c, and the theorems at concrete strings.
use yak_kernel.Prelude.{ℕ, ◌≤◌, ◌<◌, ◌≡◌, refl, List, [], ◌∷◌, some, arith, length, get_or, ◌+◌}
use yak_kernel.Prelude.Int.{negsuc}
use yak_kernel.CString.{memcmp, strncmp, strncpy}
use yak_kernel.CString.Laws.{IsText, empty, char}
use yak_kernel.MemMove.{memmove, memmove-moves}

abbrev hi : List ℕ
hi = 104 ∷ 105 ∷ []

abbrev ho : List ℕ
ho = 104 ∷ 111 ∷ []

hi-IsText : IsText hi
hi-IsText = char 103 (char 104 empty)

ho-IsText : IsText ho
ho-IsText = char 103 (char 110 empty)

-- `strncpy` does not terminate the copy.
strncpy_run : strncpy (1 ∷ 2 ∷ 3 ∷ 4 ∷ []) (104 ∷ 105 ∷ 0 ∷ []) 4 ≡ some (104 ∷ 105 ∷ 3 ∷ 4 ∷ [])
unfolding strncpy
strncpy_run = refl

strncmp_run : strncmp (104 ∷ 105 ∷ 0 ∷ []) (104 ∷ 111 ∷ 0 ∷ []) 2 ≡ some (negsuc 5)
unfolding strncmp
strncmp_run = refl

memcmp_run : memcmp hi ho 2 ≡ some (negsuc 0)
unfolding memcmp
memcmp_run = refl

abbrev buffer : List ℕ
buffer = 1 ∷ 2 ∷ 3 ∷ 4 ∷ 5 ∷ []

hi_fits : length hi < length buffer
hi_fits = omega arith

three_fit : 3 ≤ length buffer
three_fit = omega arith

-- Three bytes move up by one, onto themselves.
four_fit : 1 + 3 ≤ length buffer
four_fit = omega arith

memmove-moves_example : get_or (memmove buffer 1 0 3) 2 0 ≡ 2
memmove-moves_example = memmove-moves buffer 1 0 3 2 four_fit
