-- ===== src/Fd/Machine.antt =====
-- The state that kernel/core/file.c works on, and its primitive steps: allocation, and the
-- references of open files (`file_ref`, `file_deref`, `file_cleanup`, `file_init`).
use yak_kernel.Prelude.{
  ℕ, suc, Bool, true, List, [], ◌∷◌, Option, none, some, arith, ◌≡◌, refl, ◌==◌, if◌then◌else◌,
  add_size, sub_size, get_or, set,
}

-- `struct file`. Its lock is not modelled: an operation runs with the descriptor mutex held.
pub record File : Type 0 where
  pub vnode : Option ℕ
  pub refcnt : ℕ
  pub offset : ℕ
  pub flags : ℕ

-- `struct fd`: the address of the open file (`none` for NULL), and the descriptor's flags.
pub record Fd : Type 0 where
  pub file : Option ℕ
  pub flags : ℕ

-- `slots` is `proc->fds`, of length `proc->fd_cap`; the empty list stands for the null pointer.
-- `allocs` says of the next allocations which succeed: all, when it is used up. `vnode_derefs` is
-- the trace of the calls of `vnode_deref`.
pub record State : Type 0 where
  pub slots : List (Option Fd)
  pub files : ℕ → Option File
  pub next : ℕ
  pub allocs : List Bool
  pub vnode_derefs : List ℕ

abbrev pub M : Type 0 → Type 0
M A = State → Option (A × State)

abbrev pub pure : {A : Type 0} → A → M A
pure a s = some (a, s)

infixl 5 ◌>>=◌ ◌>>◌
abbrev pub ◌>>=◌ : {A B : Type 0} → M A → (A → M B) → M B
◌>>=◌ m f s = elim (m s) [ none ↦ none | some (a, s') ↦ f a s' ]

abbrev pub ◌>>◌ : {B : Type 0} → M (Unit {0}) → M B → M B
m >> k = m >>= λ _. k

-- `kmalloc`, `kcalloc`, `kzalloc`: whether memory was found.
unfoldable pub alloc : M Bool
alloc s = elim s.allocs [
  | [] ↦ some (true, s)
  | found ∷ rest ↦ some (found, record s { allocs = rest })
]

-- An allocation changes nothing but the outcomes that are left.
pub alloc-cases :
    (s : State) → (b : Bool) × (rest : List Bool) × (alloc s ≡ some (b, record s { allocs = rest }))
unfolding alloc
alloc-cases s = by_outcomes s.allocs refl
  where
    by_outcomes :
        (outcomes : List Bool)
        → s.allocs ≡ outcomes
        → (b : Bool) × (rest : List Bool) × (alloc s ≡ some (b, record s { allocs = rest }))
    by_outcomes [] e = (true, [], ground arith)
    by_outcomes (found ∷ rest) e = (found, rest, rw (alloc, e))

abbrev pub update : (ℕ → Option File) → ℕ → Option File → ℕ → Option File
update files p f q = if p == q then f else files q

abbrev pub slot : List (Option Fd) → ℕ → Option Fd
slot slots i = get_or slots i none

-- `proc->fds[i] = d`; the callers stay inside the table.
abbrev pub set_slot : ℕ → Option Fd → M (Unit {0})
set_slot i d s = some (tt, record s { slots = set s.slots i d })

-- A descriptor fresh from `kzalloc`.
abbrev pub empty_fd : Fd
empty_fd = record { file = none; flags = 0 }

-- `file_init`, on memory from `kzalloc`.
abbrev pub init_file : File
init_file = record { vnode = none; refcnt = 1; offset = 0; flags = 0 }

-- `file_ref`
unfoldable pub file_ref : Option ℕ → M (Unit {0})
file_ref none s = none
file_ref (some p) s = elim (s.files p) [
  | none ↦ none
  | some f ↦
      some (
        tt,
        record s { files = update s.files p (some (record f { refcnt = add_size f.refcnt 1 })) },
      )
]

-- `file_cleanup`
unfoldable pub file_cleanup : ℕ → File → M (Unit {0})
file_cleanup p f s = elim f.vnode [
  | none ↦ none
  | some v ↦
      some (tt, record s { files = update s.files p none; vnode_derefs = v ∷ s.vnode_derefs })
]

-- `file_deref`
unfoldable pub file_deref : ℕ → M (Unit {0})
unfolding file_cleanup
file_deref p s = elim (s.files p) [
  | none ↦ none
  | some f ↦
      if f.refcnt == 1
      then file_cleanup p f s
      else some (
        tt,
        record s { files = update s.files p (some (record f { refcnt = sub_size f.refcnt 1 })) },
      )
]

-- `file->vnode` set by the opener, as `openat` does.
unfoldable pub new_file : M ℕ
new_file s =
    some (s.next, record s { files = update s.files s.next (some init_file); next = suc s.next })
