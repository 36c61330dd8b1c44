-- ===== src/VmMap/Tail.antt =====
-- `vm_unmap` (kernel/vm/map.c) on a range that starts inside an entry and reaches its end.
use yak_kernel.Prelude.{ℕ, Bool, false, ◌||◌, List, [], ◌∷◌}
use yak_kernel.VmMap.{Entry}
use yak_kernel.VmMap.Unmap.{cuts_tail}

-- Whether the range starts inside an entry of which it reaches the end.
abbrev pub has_tail : ℕ → ℕ → List Entry → Bool
has_tail start stop [] = false
has_tail start stop (e ∷ es) = cuts_tail start stop e || has_tail start stop es
