-- ===== src/Fd/Examples.antt =====
-- The theorems on kernel/core/file.c at concrete tables.
use yak_kernel.Prelude.{
  ℕ, ◌+◌, ◌^◌, ◌≤◌, ◌<◌, ◌≡◌, refl, ◌≢◌, List, [], ◌∷◌, Option, none, some, arith, length, zero,
  suc, replicate, length-replicate,
}
use yak_kernel.Prelude.Int.{pos}
use yak_kernel.Fd.Machine.{State, File, Fd, update, slot, empty_fd}
use yak_kernel.Fd.Alloc.{fd_limit, fd_grow_by}
use yak_kernel.Fd.Duplicate.{fd_duplicate, fd_clone, close_all}
use yak_kernel.Fd.After.{After}
use yak_kernel.Fd.Deref.{count_of}
use yak_kernel.Fd.Refs.{refs}
use yak_kernel.Fd.Counted.{IsCounted}
use yak_kernel.Fd.Dup.{fd_duplicate-IsCounted}
use yak_kernel.Fd.Fork.{fd_clone-IsCounted}
use yak_kernel.Fd.Returns.{HasVnodes, close_all-returns}

-- One file that descriptors 0 and 2 share.
abbrev shared : File
shared = record { vnode = some 7; refcnt = 2; offset = 0; flags = 3 }

abbrev table : List (Option Fd)
table =
    some (record { file = some 0; flags = 0 })
    ∷ none
    ∷ some (record { file = some 0; flags = 1 })
    ∷ none
    ∷ []

abbrev sharing : State
sharing = record {
  slots = table;
  files = update (λ p. none) 0 (some shared);
  next = 1;
  allocs = [];
  vnode_derefs = [];
}

abbrev nowhere : ℕ → ℕ
nowhere p = 0

sharing-IsCounted : IsCounted nowhere sharing
sharing-IsCounted = record {
  counted = λ p. ground arith;
  live = λ p f e. ground arith;
  fresh = λ p le. ground arith;
  small = omega arith;
  room = λ p. omega arith;
}

-- `dup2(0, 2)`, where 2 is closed first.
fd_duplicate-IsCounted_example :
    After (λ r t. IsCounted nowhere t) (fd_duplicate (pos 0) (pos 2) 1 sharing)
fd_duplicate-IsCounted_example =
    fd_duplicate-IsCounted nowhere sharing (pos 0) (pos 2) 1 sharing-IsCounted

few_shared : (p : ℕ) → nowhere p + length sharing.slots ≤ 2 ^ 63
few_shared p = omega arith

fd_clone-IsCounted_example :
    After
      (λ new t. IsCounted (λ p. nowhere p + refs p new) t × (t.slots ≡ table) × (new ≡ table))
      (fd_clone sharing)
fd_clone-IsCounted_example = fd_clone-IsCounted nowhere sharing few_shared sharing-IsCounted

room_to_grow : length sharing.slots + fd_grow_by ≤ fd_limit
room_to_grow = omega arith

two_inside : 2 ≤ length sharing.slots
two_inside = omega arith

ten_outside : length sharing.slots < 10
ten_outside = omega arith

-- Every descriptor in use.
abbrev full : State
full = record {
  slots = replicate fd_limit (some empty_fd);
  files = λ p. none;
  next = 0;
  allocs = [];
  vnode_derefs = [];
}

all_used : (n j : ℕ) → j < n → slot (replicate n (some empty_fd)) j ≢ none
all_used zero j lt = absurd (omega arith)
all_used (suc n) zero lt = cc
all_used (suc n) (suc j) lt = all_used n j (omega arith)

full_behind : fd_limit < length full.slots + fd_grow_by
full_behind = omega (arith, length-replicate fd_limit (some empty_fd))

full_at_limit : length full.slots ≤ fd_limit
full_at_limit = omega (arith, length-replicate fd_limit (some empty_fd))

sharing-HasVnodes : HasVnodes sharing
sharing-HasVnodes p f e = ground arith

close_all-returns_example :
    (t : State) × (close_all sharing ≡ some (tt, t))
    × ((p : ℕ) → (count_of (t.files p) ≡ nowhere p) × (nowhere p ≡ 0 → t.files p ≡ none))
close_all-returns_example = close_all-returns nowhere sharing sharing-HasVnodes sharing-IsCounted

two_used : slot sharing.slots 2 ≡ some (record { file = some 0; flags = 1 })
two_used = refl
