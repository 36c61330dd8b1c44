-- ===== src/HashTable/Str.antt =====
-- kernel/core/hashtable.c: the hash and the comparison for keys of bytes, on a 64-bit target. A key is the
-- list of its bytes, so that its length is the list's.
use Prim.Native.Nat.{bit_xor}
use yak_kernel.Prelude.{
  ℕ, zero, ◌*◌, ◌%◌, ◌^◌, ◌≡◌, refl, subst, Bool, true, false, List, [], ◌∷◌, length, some, arith,
}
use yak_kernel.Prelude.Int.{pos}
use yak_kernel.CString.{memcmp}
use yak_kernel.HashTable.{Keys, same_key}
use yak_kernel.HashTable.Slots.{IsLawful}

abbrev prime : ℕ
prime = 0x100000001b3

-- The loop of `ht_hash_str`. A byte is below 2 ^ 8, so that the cast keeps it.
pub hash_bytes : ℕ → List ℕ → ℕ
hash_bytes hash [] = hash
hash_bytes hash (value ∷ key) = hash_bytes (bit_xor hash value * prime % 2 ^ 64) key

unfoldable pub ht_hash_str : List ℕ → ℕ
unfolding hash_bytes
ht_hash_str key = hash_bytes 0xcbf29ce484222325 key

pub ht_eq_str : List ℕ → List ℕ → Bool
ht_eq_str a b = elim (memcmp a b (length a)) [ some (pos zero) ↦ true | _ ↦ false ]

pub str_keys : Keys (List ℕ)
str_keys = record { hash = ht_hash_str; key_len = length; eq = ht_eq_str }

memcmp_same : (a : List ℕ) → memcmp a a (length a) ≡ some (pos 0)
unfolding memcmp
memcmp_same [] = refl
memcmp_same (x ∷ a) = ground (arith, memcmp_same a)

same_eq : (a b : List ℕ) → length a ≡ length b → ht_eq_str a b ≡ true → a ≡ b
unfolding memcmp ht_eq_str
same_eq [] [] e h = refl
same_eq [] (y ∷ b) e h = absurd (omega arith)
same_eq (x ∷ a) [] e h = absurd (omega arith)
same_eq (x ∷ a) (y ∷ b) e h = ground (arith, same_eq a b)

eq_same : (a : List ℕ) → ht_eq_str a a ≡ true
unfolding ht_eq_str
eq_same a = rw (ht_eq_str, memcmp_same a) refl

self : (a : List ℕ) → same_key ⦃keys = str_keys⦄ a a ≡ true
unfolding same_key str_keys
self a = ground (arith, eq_same a)

-- `ht_eq_str` tells keys of the same length apart by their bytes.
pub str_keys-IsLawful : IsLawful str_keys
unfolding same_key str_keys
str_keys-IsLawful a b = (
  λ h. same_eq a b (ground arith) (ground arith),
  λ e. subst (λ x. same_key ⦃keys = str_keys⦄ a x ≡ true) e (self a),
)
