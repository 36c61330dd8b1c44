-- ===== src/VmMap/Unmap.antt =====
-- The loop of `vm_unmap` (kernel/vm/map.c), against what the map says of each address.
pub mod Turns
pub mod Loop
use yak_kernel.Prelude.{
  ℕ, ◌+◌, ◌-◌, ◌≤◌, ◌≡◌, refl, Bool, true, false, ◌&&◌, ◌||◌, ◌==◌, if◌then◌else◌, List, [], ◌∷◌,
  arith, inl, inr, ltb→lt, Bool-cases, Option, some, none, ltb, leb,
}
use yak_kernel.Status.{success}
use yak_kernel.VmMap.{
  Entry, Env, is_obj, piece, carve_entry, unmap_loop, drop_entry, deref_entry, max_addr, min_addr,
}
use yak_kernel.VmMap.View.{within, view, IsFrom, IsPlain, AllPlain, view-below, weaken-IsFrom}
use yak_kernel.VmMap.Carve.{at_address-piece, carve_entry-both, carve_entry-end}

-- The range starts inside the entry and reaches its end.
abbrev pub cuts_tail : ℕ → ℕ → Entry → Bool
cuts_tail start stop e = ltb e.base start && ltb start e.end && leb e.end stop

abbrev pub NoTail : ℕ → ℕ → List Entry → Type 0
NoTail start stop [] = Unit {0}
NoTail start stop (e ∷ es) = (cuts_tail start stop e ≡ false) × NoTail start stop es

-- What unmapping leaves of what the map says.
abbrev pub without : ℕ → ℕ → List Entry → ℕ → Option Entry
without start stop es a = if within start stop a then none else view es a

pub record IsUnmapped (lo start stop : ℕ) (es es' : List Entry) : Type 0 where
  pub in_order : IsFrom lo es'
  pub says : (a : ℕ) → view es' a ≡ without start stop es a

-- Two allocations succeed.
abbrev pub HasTwo : Env → Type 0
HasTwo v = (rest : List Bool) × (v.allocs ≡ true ∷ true ∷ rest)

abbrev pub Unmaps : ℕ → ℕ → ℕ → List Entry → Env → Type 0
Unmaps lo start stop es v =
    (es' : List Entry) × (v' : Env) × (unmap_loop start stop es v ≡ some (success, es', v'))
    × IsUnmapped lo start stop es es'
