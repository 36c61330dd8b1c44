-- ===== src/Syscall/Tests.antt =====
-- The theorems on the system calls of kernel/core/syscall/file.c and fcntl.c at concrete files.
use yak_kernel.Prelude.{ℕ, ◌^◌, ◌≤◌, ◌<◌, ◌≡◌, refl, List, [], ◌∷◌, none, some, arith, add_size}
use yak_kernel.Prelude.Int.{pos}
use yak_kernel.Status.{success, einval}
use yak_kernel.Fd.Machine.{File, State, update}
use yak_kernel.Syscall.{Vnodes, vreg, sys_ok, sys_err, sys_write, sys_read}
use yak_kernel.Syscall.Fcntl.{sys_fcntl, f_setfd}
use yak_kernel.Syscall.Laws.{Opened, Changed, sys_write-advances, sys_read-advances}

-- Regular files that take and give at most three bytes at a time.
abbrev short_files : Vnodes
short_files = record {
  vtype = λ vn. vreg;
  filesize = λ vn. 100;
  write = λ vn offset buf count. (success, 3);
  read = λ vn offset count. (success, 3);
  fallocate = λ vn mode offset size. success;
  ioctl = λ vn op. (success, 0);
}

abbrev data_file : File
data_file = record { vnode = some 7; refcnt = 1; offset = 10; flags = 3 }

abbrev one_open : State
one_open = record {
  slots = none ∷ some (record { file = some 0; flags = 0 }) ∷ none ∷ [];
  files = update (λ p. none) 0 (some data_file);
  next = 1;
  allocs = [];
  vnode_derefs = [];
}

one_open-Opened : Opened one_open 1 0 data_file 7
one_open-Opened = record {
  desc = record { file = some 0; flags = 0 };
  at = refl;
  refers = refl;
  held = refl;
  node = refl;
  counted = (omega arith, omega arith);
}

-- `fcntl(1, F_SETFD, FD_CLOEXEC)` and an unknown flag.
setfd_unknown : sys_fcntl (pos 1) f_setfd 2 one_open ≡ some (sys_err einval, one_open)
unfolding sys_fcntl
setfd_unknown = refl

abbrev bytes : List ℕ
bytes = 1 ∷ 2 ∷ 3 ∷ 4 ∷ []

sys_write-advances_example :
    (t : State) × (sys_write short_files (pos 1) bytes 4 one_open ≡ some (sys_ok 3, t))
    × Changed one_open 0 (record data_file { offset = add_size 10 3 }) t
sys_write-advances_example =
    sys_write-advances short_files one_open 1 0 data_file 7 bytes 4 one_open-Opened

sys_read-advances_example :
    (t : State) × (sys_read short_files (pos 1) 4 one_open ≡ some (sys_ok 3, t))
    × Changed one_open 0 (record data_file { offset = add_size 10 3 }) t
sys_read-advances_example = sys_read-advances short_files one_open 1 0 data_file 7 4 one_open-Opened

ten_small : data_file.offset < 2 ^ 63
ten_small = omega arith

some_back : (λ (n : ℕ). n) 0 < 12
some_back = omega arith

few_back : 12 ≤ 2 ^ 63
few_back = omega arith
