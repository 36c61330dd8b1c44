-- ===== src/VmMap/Tests.antt =====
-- A map of three entries (kernel/vm/map.c), and operations on it.
use yak_kernel.Prelude.{
  add_size, sub_size, ◌^◌, ◌≢◌, ℕ, ◌≡◌, refl, true, false, List, [], ◌∷◌, arith, Option, some, none,
}
use yak_kernel.Status.{Status, success}
use yak_kernel.VmMap.{
  Prot, EntryType, ent_obj, ent_reserved, inherit_shared, Entry, Env, vm_unmap, unmap_loop,
  carve_entry,
}
use yak_kernel.VmMap.View.{IsFrom, AllPlain}
use yak_kernel.VmMap.Tail.{has_tail}
use yak_kernel.VmMap.Tree.{
  Tree, leaf, node, vm_map_lookup_entry_locked, vm_map_lookup_entry_locked-find,
}
use yak_kernel.VmMap.Alloc.{Limits, AllBelow, search_range}
use yak_kernel.VmMap.Alloc.Returns.{search_range-returns}
use yak_kernel.VmMap.Place.{Request, Places, alloc_map_range_locked, alloc_map_range_locked-Places}
use yak_kernel.VmMap.Protect.{vm_protect, IsProtected}
use yak_kernel.VmMap.Guard.{vm_protect-protects}

abbrev read_write : Prot
read_write = record { read = true; write = true; execute = false }

abbrev read_only : Prot
read_only = record { read = true; write = false; execute = false }

abbrev entry : ℕ → ℕ → EntryType → ℕ → Entry
entry base end type backing = record {
  base = base;
  end = end;
  type = type;
  backing = backing;
  offset = 0;
  is_cow = false;
  amap = 0;
  protection = read_write;
  max_protection = read_write;
  inheritance = inherit_shared;
  cache = 0;
}

abbrev heap_entry : Entry
heap_entry = entry 4096 16384 ent_obj 5

abbrev guard_entry : Entry
guard_entry = entry 16384 20480 ent_reserved 0

abbrev stack_entry : Entry
stack_entry = entry 32768 36864 ent_obj 6

abbrev three : List Entry
three = heap_entry ∷ guard_entry ∷ stack_entry ∷ []

abbrev three_tree : Tree
three_tree = node (node leaf heap_entry leaf) guard_entry (node leaf stack_entry leaf)

abbrev env : Env
env = record { objects = λ p. 1; amaps = λ p. 0; allocs = true ∷ true ∷ [] }

three-IsFrom : IsFrom 0 three
three-IsFrom =
    (omega arith, omega arith, (omega arith, omega arith, (omega arith, omega arith, tt)))

three-AllPlain : AllPlain three
three-AllPlain = (
  (refl, λ e. absurd (cc), λ e. refl),
  ((refl, λ e. (refl, refl), λ e. absurd (cc)), ((refl, λ e. absurd (cc), λ e. refl), tt)),
)

last_page_fails : has_tail 12288 16384 three ≡ true
last_page_fails = refl

vm_map_lookup_entry_locked-find_example :
    vm_map_lookup_entry_locked three_tree 33000 ≡ some stack_entry
vm_map_lookup_entry_locked-find_example =
    vm_map_lookup_entry_locked-find three_tree 0 33000 three-IsFrom

abbrev bases : Option (Status × List Entry × Env) → List ℕ
bases none = []
bases (some (st, es, v)) = starts es
  where
    starts : List Entry → List ℕ
    starts [] = []
    starts (e ∷ es) = e.base ∷ starts es

unmapped_bases : bases (vm_unmap 8192 4096 three env) ≡ 4096 ∷ 12288 ∷ 16384 ∷ 32768 ∷ []
unfolding vm_unmap unmap_loop carve_entry add_size
unmapped_bases = refl

-- The addresses of a process, without the first page.
abbrev user : Limits
user = record { low = 4096; high = 2 ^ 47 }

abbrev request : ℕ → Request
request hint = record {
  hint = hint;
  size = 8192;
  prot = read_write;
  inheritance = inherit_shared;
  cache = 0;
  offset = 0;
  type = ent_obj;
  fixed = false;
  overwrite = false;
}

three-IsFrom_user : IsFrom 4096 three
three-IsFrom_user =
    (omega arith, omega arith, (omega arith, omega arith, (omega arith, omega arith, tt)))

three-AllBelow : AllBelow (2 ^ 47) three
three-AllBelow = (omega arith, (omega arith, (omega arith, tt)))

alloc_map_range_locked-Places_example :
    Places 4096 three (alloc_map_range_locked user (request 0) three env)
alloc_map_range_locked-Places_example =
    alloc_map_range_locked-Places user (omega arith) (request 0) three env refl (omega arith)
      three-IsFrom_user three-AllBelow

search_range-returns_example : search_range user 0 8192 three ≢ none
search_range-returns_example =
    search_range-returns user 0 8192 heap_entry guard_entry (stack_entry ∷ []) (omega arith)

-- The gap between the second and the third entry.
searched_gap : search_range user 0 8192 three ≡ some (some 20480)
unfolding search_range sub_size
searched_gap = refl

-- The second page of the first entry made read-only.
vm_protect-protects_example :
    (es' : List Entry) × (v' : Env) × (vm_protect 8192 4096 read_only false three env
      ≡ some (success, es', v'))
    × IsProtected read_only false 0 8192 12288 three es'
vm_protect-protects_example =
    vm_protect-protects 8192 4096 read_only false three env refl refl (omega arith) three-IsFrom
      three-AllPlain (refl, (refl, (refl, tt))) (λ a b. refl, (λ a b. refl, (λ a b. refl, tt)))
      ([], refl) (omega arith)
