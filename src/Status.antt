-- ===== src/Status.antt =====
-- kernel/include/yak/status.h and kernel/core/status.c: the kernel's status codes, and the errno
-- that a system call reports for each.

use yak_kernel.Prelude.{ℕ, Bool, true, false}

-- `status_t`. `wait_success i` is `YAK_WAIT_SUCCESS + i`.
pub data Status : Type 0 where
  success noent null_deref not_implemented not_supported busy oom timeout cancelled io : Status
  invalid_args unknown_fs nodev nodir exists nospace eof mfile perm_denied badf notty : Status
  cross_device isdir : Status
  wait_success : ℕ → Status

-- `IS_ERR`: all but `YAK_SUCCESS`, the successful waits on one of several objects included.
abbrev pub is_err : Status → Bool
is_err success = false
is_err _ = true

-- `IS_WAIT_OK`
abbrev pub is_wait_ok : Status → Bool
is_wait_ok success = true
is_wait_ok (wait_success i) = true
is_wait_ok _ = false

-- `status_errno`: what the system calls negate. The names of kernel/include/yak-abi/errno.h.
pub data Errno : Type 0 where
  zero_errno enoent efault enosys ebusy enomem etimedout eintr eio einval enodev enotdir eexist :
      Errno
  enospc enotsup eperm ebadf enotty exdev eisdir espipe : Errno

abbrev pub status_errno : Status → Errno
status_errno success = zero_errno
status_errno noent = enoent
status_errno null_deref = efault
status_errno not_implemented = enosys
status_errno busy = ebusy
status_errno oom = enomem
status_errno timeout = etimedout
status_errno cancelled = eintr
status_errno io = eio
status_errno invalid_args = einval
status_errno unknown_fs = enodev
status_errno nodev = enodev
status_errno nodir = enotdir
status_errno exists = eexist
status_errno nospace = enospc
status_errno not_supported = enotsup
status_errno perm_denied = eperm
status_errno badf = ebadf
status_errno notty = enotty
status_errno cross_device = exdev
status_errno isdir = eisdir
status_errno eof = zero_errno
status_errno _ = einval
