-- ===== src/VmMap/Protect.antt =====
-- kernel/vm/map.c, `vm_protect`: its loop, against what the map says of each address.
pub mod Turns
use yak_kernel.Prelude.{
  add_size, ℕ, ◌+◌, ◌-◌, ◌%◌, ◌≤◌, ◌≡◌, refl, sym, ap, ◌∙◌, Bool, true, false, not, ◌&&◌, ◌||◌,
  ◌==◌, if◌then◌else◌, List, [], ◌∷◌, ◌++◌, arith, inl, inr, ltb→lt, if-false, Bool-cases, Option,
  some, none, ltb, leb,
}
use yak_kernel.Status.{success, perm_denied, invalid_args}
use yak_kernel.VmMap.{
  Prot, Entry, Env, Unmapped, piece, carve_entry, before, behind, max_addr, min_addr, vm_check_prot,
  lower_bound, or_max, or_previous, page_size,
}
use yak_kernel.VmMap.View.{within, view, IsFrom, AllPlain, view-below}
use yak_kernel.VmMap.Carve.{at_address-piece, carve_entry-both, carve_entry-end}
use yak_kernel.VmMap.Unmap.{HasTwo}

-- The entry with its new protection, and `VM_MAP_SETMAXPROT`.
abbrev pub protected : Prot → Bool → Entry → Entry
protected prot setmax e = record e {
  protection = prot;
  max_protection = if setmax then prot else e.max_protection;
}

abbrev pub protected_all : Prot → Bool → List Entry → List Entry
protected_all prot setmax [] = []
protected_all prot setmax (e ∷ es) = protected prot setmax e ∷ protected_all prot setmax es

abbrev pub allows : Prot → Bool → Entry → Bool
allows prot setmax e = setmax || vm_check_prot e.max_protection prot

-- The loop of `vm_protect`, on `current` and the entries behind it.
unfoldable pub protect_loop : Prot → Bool → ℕ → ℕ → List Entry → Env → Unmapped
protect_loop prot setmax start stop [] v = some (success, [], v)
protect_loop prot setmax start stop (e ∷ es) v = elim (ltb e.base stop) [
  | false ↦ some (success, e ∷ es, v)
  | true ↦ elim (leb e.end start || leb stop e.base) [
    | true ↦ before (e ∷ []) (protect_loop prot setmax start stop es v)
    | false ↦ elim (e.base == max_addr e.base start && e.end == min_addr e.end stop) [
      | true ↦ elim (allows prot setmax e) [
        | false ↦ some (perm_denied, e ∷ es, v)
        | true ↦ before (protected prot setmax e ∷ []) (protect_loop prot setmax start stop es v)
      ]
      | false ↦ elim (carve_entry e (max_addr e.base start) (min_addr e.end stop) v) [
        | none ↦ none
        | some (c, v') ↦ elim (c.status) [
          | success ↦ elim (allows prot setmax e) [
            | false ↦ some (perm_denied, c.left ++ c.middle ++ c.right ++ es, v')
            | true ↦
                before (c.left ++ protected_all prot setmax c.middle ++ c.right)
                  (protect_loop prot setmax start stop es v')
          ]
          | st ↦ some (st, c.left ++ c.right ++ es, v')
        ]
      ]
    ]
  ]
]

-- `vm_protect`. The end of the range wraps at 2 ^ 64.
unfoldable pub vm_protect : ℕ → ℕ → Prot → Bool → List Entry → Env → Unmapped
vm_protect va length prot setmax es v =
    let (passed, rest) = or_previous va (or_max (lower_bound va [] es)) in
    if not (va % page_size == 0) || not (length % page_size == 0)
    then some (invalid_args, es, v)
    else behind passed (protect_loop prot setmax va (add_size va length) rest v)

-- Every entry that the range touches allows the protection.
abbrev pub AllAllow : Prot → Bool → ℕ → ℕ → List Entry → Type 0
AllAllow prot setmax start stop [] = Unit {0}
AllAllow prot setmax start stop (e ∷ es) =
    (ltb e.base stop ≡ true → leb e.end start ≡ false → allows prot setmax e ≡ true)
    × AllAllow prot setmax start stop es

abbrev pub on_some : (Entry → Entry) → Option Entry → Option Entry
on_some f none = none
on_some f (some e) = some (f e)

-- What protecting makes of what the map says.
abbrev pub protected_view : Prot → Bool → ℕ → ℕ → List Entry → ℕ → Option Entry
protected_view prot setmax start stop es a =
    if within start stop a then on_some (protected prot setmax) (view es a) else view es a

pub record IsProtected (prot : Prot) (setmax : Bool) (lo start stop : ℕ) (es es' : List Entry)
    : Type 0 where
  pub in_order : IsFrom lo es'
  pub says : (a : ℕ) → view es' a ≡ protected_view prot setmax start stop es a

abbrev pub Protects : Prot → Bool → ℕ → ℕ → ℕ → List Entry → Env → Type 0
Protects prot setmax lo start stop es v =
    (es' : List Entry) × (v' : Env) × (protect_loop prot setmax start stop es v
      ≡ some (success, es', v'))
    × IsProtected prot setmax lo start stop es es'
