-- ===== src/CString.antt =====
-- The string routines of kernel/lib/string.c. A `char *` that is read or written is the list of the
-- `unsigned char`s from where it points to the end of its array, and moving the pointer is taking the
-- tail. `none` is an access outside the array, or running out of memory. A negative result of a
-- comparison is `negsuc`.
pub mod Laws
mod Tests
use yak_kernel.Prelude.{
  ℕ, zero, suc, ◌+◌, ◌-◌, Bool, true, false, List, [], ◌∷◌, Option, none, some, length, set, get_or,
  leb, ltb, ◌==◌, if◌then◌else◌, Option-cases, replicate, add_size,
}
use yak_kernel.Prelude.Int.{ℤ, pos, negsuc}
use yak_kernel.MemCopy.{memcpy}

-- `(int)a - (int)b` on two characters.
abbrev pub sub_chars : ℕ → ℕ → ℤ
sub_chars a b = if leb b a then pos (a - b) else negsuc (b - a - 1)

-- The loop with `n` rounds left.
unfoldable pub memcmp : List ℕ → List ℕ → ℕ → Option ℤ
memcmp s1 s2 zero = some (pos 0)
memcmp [] s2 (suc n) = none
memcmp (a ∷ s1) [] (suc n) = none
memcmp (a ∷ s1) (b ∷ s2) (suc n) =
    if a == b then memcmp s1 s2 n else some (if ltb a b then negsuc 0 else pos 1)

-- What is in the destination afterwards. `len--` is unsigned, and tested before it wraps.
unfoldable pub strncpy : List ℕ → List ℕ → ℕ → Option (List ℕ)
strncpy dest [] len = none
strncpy dest (zero ∷ src) len = some dest
strncpy dest (suc c ∷ src) zero = some dest
strncpy [] (suc c ∷ src) (suc len) = none
strncpy (d ∷ dest) (suc c ∷ src) (suc len) = elim (strncpy dest src len) [
  | none ↦ none
  | some out ↦ some (suc c ∷ out)
]

unfoldable pub strncmp : List ℕ → List ℕ → ℕ → Option ℤ
strncmp s1 s2 zero = some (pos 0)
strncmp [] s2 (suc n) = none
strncmp (a ∷ s1) [] (suc n) = none
strncmp (zero ∷ s1) (b ∷ s2) (suc n) = some (sub_chars 0 b)
strncmp (suc a ∷ s1) (b ∷ s2) (suc n) =
    if suc a == b then strncmp s1 s2 n else some (sub_chars (suc a) b)

unfoldable pub strcmp : List ℕ → List ℕ → Option ℤ
strcmp [] s2 = none
strcmp (a ∷ s1) [] = none
strcmp (zero ∷ s1) (b ∷ s2) = some (sub_chars 0 b)
strcmp (suc a ∷ s1) (b ∷ s2) = if suc a == b then strcmp s1 s2 else some (sub_chars (suc a) b)

-- What is in the destination afterwards.
unfoldable pub strcpy_loop : List ℕ → List ℕ → Option (List ℕ)
strcpy_loop dest [] = none
strcpy_loop [] (c ∷ src) = none
strcpy_loop (d ∷ dest) (zero ∷ src) = some (0 ∷ dest)
strcpy_loop (d ∷ dest) (suc c ∷ src) = elim (strcpy_loop dest src) [
  | none ↦ none
  | some out ↦ some (suc c ∷ out)
]

-- `none` as the destination is NULL, which comes back.
unfoldable pub strcpy : Option (List ℕ) → List ℕ → Option (Option (List ℕ))
unfolding strcpy_loop
strcpy none src = some none
strcpy (some dest) src = elim (strcpy_loop dest src) [ none ↦ none | some out ↦ some (some out) ]

unfoldable pub strlen : List ℕ → Option ℕ
strlen [] = none
strlen (zero ∷ str) = some 0
strlen (suc c ∷ str) = elim (strlen str) [ none ↦ none | some len ↦ some (len + 1) ]

unfoldable pub strnlen : List ℕ → ℕ → Option ℕ
strnlen str zero = some 0
strnlen [] (suc maxlen) = none
strnlen (zero ∷ str) (suc maxlen) = some 0
strnlen (suc c ∷ str) (suc maxlen) = elim (strnlen str maxlen) [
  | none ↦ none
  | some len ↦ some (len + 1)
]

-- `buf` is what `kmalloc` returns for a size: an array of that length, with whatever is in it, or NULL.
-- NULL comes back as it is.
unfoldable pub strdup : List ℕ → (ℕ → Option (List ℕ)) → Option (Option (List ℕ))
unfolding strlen
strdup src buf = elim (strlen src) [
  | none ↦ none
  | some len ↦ elim (buf (add_size len 1)) [
    | none ↦ some none
    | some fresh ↦ some (some (memcpy fresh 0 src 0 (add_size len 1)))
  ]
]

-- The terminator goes behind the array of `size` bytes: `set` shows it as lost.
unfoldable pub strndup : List ℕ → ℕ → (ℕ → Option (List ℕ)) → Option (Option (List ℕ))
strndup src size buf = elim (buf size) [
  | none ↦ some none
  | some fresh ↦
      if ltb size (length fresh) then some (some (set (memcpy fresh 0 src 0 size) size 0)) else none
]

-- `while (n--) _s[n] = 0`: from the end.
unfoldable pub bzero : List ℕ → ℕ → List ℕ
bzero s zero = s
bzero s (suc n) = bzero (set s n 0) n
