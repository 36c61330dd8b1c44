-- ===== src/Syscall/Fcntl.antt =====
-- `fcntl` of kernel/core/syscall/fcntl.c, and the access modes of kernel/core/syscall/common.h.
use yak_kernel.Prelude.{ℕ, ◌+◌, ◌-◌, ◌%◌, ◌^◌, Option, none, some, leb, ltb, ◌==◌, if◌then◌else◌}
use yak_kernel.Prelude.Int.{ℤ, pos, negsuc}
use yak_kernel.Status.{success, badf, invalid_args, enotsup}
use yak_kernel.Fd.Machine.{Fd, State, M, set_slot}
use yak_kernel.Fd.Alloc.{fd_safe_get}
use yak_kernel.Fd.Duplicate.{
  has_bit, fd_duplicate, fd_dupe_nocloexec, fd_dupe_cloexec, fd_dupe_minimum,
}
use yak_kernel.Syscall.{Reply, sys_ok, sys_err, reply, reply_fd, with_file, file_read, file_write}

abbrev pub o_path : ℕ
o_path = 2 ^ 21

-- `flags & O_ACCMODE`, where `O_ACCMODE` is `03 | O_PATH`.
abbrev pub accmode : ℕ → ℕ
accmode flags = flags % 4 + (if has_bit flags o_path then o_path else 0)

-- `O_RDONLY`, `O_WRONLY` and `O_RDWR` to `FILE_READ` and `FILE_WRITE`; `none` is -1.
abbrev pub rwmode_to_internal : ℕ → Option ℕ
rwmode_to_internal flags =
    let mode = accmode flags in
    if mode == 0
    then some file_read
    else if mode == 1
    then some file_write
    else if mode == 2
    then some (file_read + file_write)
    else none

-- On `flags & (FILE_READ | FILE_WRITE)`; `none` is the panic.
abbrev pub internal_to_rwmode : ℕ → Option ℕ
internal_to_rwmode flags =
    let mode = flags % 4 in
    if mode == file_read
    then some 0
    else if mode == file_write
    then some 1
    else if mode == file_read + file_write
    then some 2
    else none

-- `(int)arg`
abbrev pub to_int : ℕ → ℤ
to_int arg =
    let low = arg % 2 ^ 32 in if ltb low (2 ^ 31) then pos low else negsuc (2 ^ 32 - low - 1)

-- `op`, by its names in kernel/include/yak-abi/fcntl.h.
pub data Op : Type 0 where
  f_dupfd f_dupfd_cloexec f_getfd f_setfd f_getfl f_setfl other_op : Op

-- `*desc` written through the pointer that `fd_safe_get` returned.
unfoldable pub set_fd_flags : ℤ → Fd → ℕ → M (Unit {0})
set_fd_flags (negsuc n) desc arg s = none
set_fd_flags (pos fd) desc arg s = set_slot fd (some (record desc { flags = arg })) s

unfoldable pub get_flags : ℕ → M Reply
get_flags p t = elim (t.files p) [
  | none ↦ none
  | some f ↦ elim (internal_to_rwmode f.flags) [ none ↦ none | some mode ↦ some (sys_ok mode, t) ]
]

-- `F_GETFD` reads the file behind the descriptor for its message.
unfoldable pub getfd_found : Option (Option Fd × State) → Option (Reply × State)
getfd_found none = none
getfd_found (some (none, t)) = some (reply badf 0, t)
getfd_found (some (some desc, t)) = elim desc.file [
  | none ↦ none
  | some p ↦ some (sys_ok desc.flags, t)
]

unfoldable pub setfd_found : ℤ → ℕ → Option (Option Fd × State) → Option (Reply × State)
unfolding set_fd_flags
setfd_found fd arg none = none
setfd_found fd arg (some (none, t)) = some (reply badf 0, t)
setfd_found fd arg (some (some desc, t)) =
    if leb arg 1
    then elim (set_fd_flags fd desc arg t) [
      | none ↦ none
      | some (u, t') ↦ some (reply success 0, t')
    ]
    else some (reply invalid_args 0, t)

unfoldable pub sys_fcntl : ℤ → Op → ℕ → M Reply
unfolding fd_duplicate reply_fd getfd_found setfd_found get_flags with_file fd_safe_get
sys_fcntl fd f_dupfd arg s =
    reply_fd 0 (fd_duplicate fd (to_int arg) (fd_dupe_nocloexec + fd_dupe_minimum) s)
sys_fcntl fd f_dupfd_cloexec arg s =
    reply_fd 0 (fd_duplicate fd (to_int arg) (fd_dupe_cloexec + fd_dupe_minimum) s)
sys_fcntl fd f_getfd arg s = getfd_found (fd_safe_get fd s)
sys_fcntl fd f_setfd arg s = setfd_found fd arg (fd_safe_get fd s)
sys_fcntl fd f_getfl arg s = with_file fd get_flags s
sys_fcntl fd f_setfl arg s = with_file fd (λ p t. some (sys_ok 0, t)) s
sys_fcntl fd other_op arg s = some (sys_err enotsup, s)
