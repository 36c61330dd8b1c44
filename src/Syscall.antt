-- ===== src/Syscall.antt =====
-- The system calls on descriptors: kernel/core/syscall/file.c, fcntl.c and common.h. A call is a step on
-- the state of Fd: one call at a time. A vnode is reached through its operations, which a filesystem fills
-- in: they are the record `Vnodes`, and what a call has written or read is their result. `off_t` is
-- the 64-bit word.
pub mod Fcntl
pub mod Laws
pub mod Modes
mod Tests
use yak_kernel.Prelude.{
  ℕ, zero, suc, ◌+◌, ◌-◌, ◌%◌, ◌^◌, Bool, true, false, ◌&&◌, ◌||◌, not, List, Option, none, some,
  leb, ltb, ◌==◌, if◌then◌else◌, add_size,
}
use yak_kernel.Prelude.Int.{ℤ, pos, negsuc}
use yak_kernel.Status.{
  Status, success, eof, is_err, Errno, ebadf, einval, espipe, enotty, enotdir, status_errno,
}
use yak_kernel.Fd.Machine.{File, Fd, State, M, pure, ◌>>=◌, ◌>>◌, update, file_ref, file_deref}
use yak_kernel.Fd.Alloc.{fd_safe_get, fd_close}
use yak_kernel.Fd.Duplicate.{has_bit, fd_duplicate, fd_dupe_nocloexec}

abbrev pub file_read : ℕ
file_read = 1

abbrev pub file_write : ℕ
file_write = 2

-- `enum vtype`
pub data Vtype : Type 0 where
  vreg vblk vdir vchr vfifo vlnk vsock : Vtype

-- The fields of a vnode and its operations, by its address. `write vnode offset buf count` is the
-- status, and the number written through `writep`.
pub record Vnodes : Type 0 where
  pub vtype : ℕ → Vtype
  pub filesize : ℕ → ℕ
  pub write : ℕ → ℕ → List ℕ → ℕ → Status × ℕ
  pub read : ℕ → ℕ → ℕ → Status × ℕ
  pub fallocate : ℕ → ℕ → ℕ → ℕ → Status
  pub ioctl : ℕ → ℕ → Status × ℕ

-- `SYS_OK` and `SYS_ERR`
pub data Reply : Type 0 where
  sys_ok : ℕ → Reply
  sys_err : Errno → Reply

-- The test of `RET_ERRNO_ON_ERR`
abbrev pub is_eof : Status → Bool
is_eof eof = true
is_eof _ = false

abbrev pub fails : Status → Bool
fails rv = is_err rv && not (is_eof rv)

-- `RET_ERRNO_ON_ERR(rv); return SYS_OK(n);`
abbrev pub reply : Status → ℕ → Reply
reply rv n = if fails rv then sys_err (status_errno rv) else sys_ok n

-- `getfile_ref`: the file of a descriptor, with a reference taken.
unfoldable pub getfile_ref : ℤ → M (Option ℕ)
unfolding fd_safe_get file_ref
getfile_ref fd s = elim (fd_safe_get fd s) [
  | none ↦ none
  | some (none, t) ↦ some (none, t)
  | some (some desc, t) ↦ elim (file_ref desc.file t) [
    | none ↦ none
    | some (u, t') ↦ some (desc.file, t')
  ]
]

-- `if (!file) return SYS_ERR(EBADF); guard_ref_adopt(file, file); ...`
unfoldable pub with_file : ℤ → (ℕ → M Reply) → M Reply
unfolding getfile_ref file_deref
with_file fd body s = elim (getfile_ref fd s) [
  | none ↦ none
  | some (none, t) ↦ some (sys_err ebadf, t)
  | some (some p, t) ↦ (do r ← body p; file_deref p; pure r) t
]

-- The file at `p`, and the vnode that it must have.
unfoldable pub with_vnode : ℕ → (File → ℕ → M Reply) → M Reply
with_vnode p body t = elim (t.files p) [
  | none ↦ none
  | some f ↦ elim f.vnode [ none ↦ none | some vn ↦ body f vn t ]
]

-- `__atomic_fetch_add(&file->offset, n)`
abbrev pub move_offset : ℕ → File → ℕ → State → State
move_offset p f n t = record t {
  files = update t.files p (some (record f { offset = add_size f.offset n }));
}

unfoldable pub sys_close : ℤ → M Reply
unfolding fd_safe_get fd_close
sys_close fd s = elim (fd_safe_get fd s) [
  | none ↦ none
  | some (none, t) ↦ some (sys_err ebadf, t)
  | some (some desc, t) ↦ elim fd [
    | negsuc n ↦ none
    | pos i ↦ elim (fd_close i t) [ none ↦ none | some (u, t') ↦ some (sys_ok 0, t') ]
  ]
]

-- What a call of `fd_duplicate` leads to; `otherwise` is in `*outfd` when it is not written.
unfoldable pub reply_fd : ℕ → Option ((Status × Option ℕ) × State) → Option (Reply × State)
reply_fd otherwise none = none
reply_fd otherwise (some ((rv, none), t)) = some (reply rv otherwise, t)
reply_fd otherwise (some ((rv, some fd), t)) = some (reply rv fd, t)

unfoldable pub sys_dup : ℤ → M Reply
unfolding fd_duplicate reply_fd
sys_dup fd s = reply_fd 0 (fd_duplicate fd (negsuc 0) fd_dupe_nocloexec s)

abbrev pub as_word : ℤ → ℕ
as_word (pos n) = n
as_word (negsuc n) = 2 ^ 64 - (n + 1)

unfoldable pub sys_dup2 : ℤ → ℤ → M Reply
unfolding fd_duplicate reply_fd
sys_dup2 oldfd newfd s = reply_fd (as_word newfd) (fd_duplicate oldfd newfd fd_dupe_nocloexec s)

-- `vnode_call rv n next`: `RET_ERRNO_ON_ERR`, and what follows with the count.
unfoldable pub count_on : Status × ℕ → State → State → Option (Reply × State)
count_on (rv, n) t moved = some (reply rv n, if fails rv then t else moved)

module _ (v : Vnodes) where
  -- `sys_write` behind `getfile_ref`.
  unfoldable pub write_vnode : List ℕ → ℕ → ℕ → File → ℕ → M Reply
  unfolding count_on
  write_vnode buf count p f vn t =
      if not (has_bit f.flags file_write)
      then some (sys_err ebadf, t)
      else count_on (v.write vn f.offset buf count) t
          (move_offset p f (v.write vn f.offset buf count).1 t)

  unfoldable pub write_file : List ℕ → ℕ → ℕ → M Reply
  unfolding with_vnode write_vnode
  write_file buf count p = with_vnode p (write_vnode buf count p)

  unfoldable pub sys_write : ℤ → List ℕ → ℕ → M Reply
  unfolding with_file write_file
  sys_write fd buf count = with_file fd (write_file buf count)

  -- `sys_pwrite` behind `getfile_ref`.
  unfoldable pub pwrite_vnode : List ℕ → ℕ → ℕ → File → ℕ → M Reply
  unfolding count_on
  pwrite_vnode buf count offset f vn t =
      if not (has_bit f.flags file_write)
      then some (sys_err ebadf, t)
      else count_on (v.write vn offset buf count) t t

  unfoldable pub pwrite_file : List ℕ → ℕ → ℕ → ℕ → M Reply
  unfolding with_vnode pwrite_vnode
  pwrite_file buf count offset p = with_vnode p (pwrite_vnode buf count offset)

  unfoldable pub sys_pwrite : ℤ → List ℕ → ℕ → ℕ → M Reply
  unfolding with_file pwrite_file
  sys_pwrite fd buf count offset = with_file fd (pwrite_file buf count offset)

  -- `sys_read` behind `getfile_ref`.
  unfoldable pub read_vnode : ℕ → ℕ → File → ℕ → M Reply
  unfolding count_on
  read_vnode count p f vn t =
      if not (has_bit f.flags file_read)
      then some (sys_err ebadf, t)
      else count_on (v.read vn f.offset count) t (move_offset p f (v.read vn f.offset count).1 t)

  unfoldable pub read_file : ℕ → ℕ → M Reply
  unfolding with_vnode read_vnode
  read_file count p = with_vnode p (read_vnode count p)

  unfoldable pub sys_read : ℤ → ℕ → M Reply
  unfolding with_file read_file
  sys_read fd count = with_file fd (read_file count)

  -- `sys_pread` behind `getfile_ref`.
  unfoldable pub pread_vnode : ℕ → ℕ → File → ℕ → M Reply
  unfolding count_on
  pread_vnode count offset f vn t =
      if not (has_bit f.flags file_read)
      then some (sys_err ebadf, t)
      else count_on (v.read vn offset count) t t

  unfoldable pub pread_file : ℕ → ℕ → ℕ → M Reply
  unfolding with_vnode pread_vnode
  pread_file count offset p = with_vnode p (pread_vnode count offset)

  unfoldable pub sys_pread : ℤ → ℕ → ℕ → M Reply
  unfolding with_file pread_file
  sys_pread fd count offset = with_file fd (pread_file count offset)

  unfoldable pub sys_fallocate : ℤ → ℕ → ℕ → ℕ → M Reply
  unfolding with_file with_vnode
  sys_fallocate fd mode offset size = with_file fd (λ p. with_vnode p (λ f vn t.
      if not (has_bit f.flags file_write)
      then some (sys_err ebadf, t)
      else some (reply (v.fallocate vn mode offset size) 0, t)))

  abbrev pub is_device : Vtype → Bool
  is_device vchr = true
  is_device vblk = true
  is_device _ = false

  unfoldable pub sys_ioctl : ℤ → ℕ → M Reply
  unfolding with_file with_vnode count_on
  sys_ioctl fd op = with_file fd (λ p. with_vnode p (λ f vn t.
      if not (is_device (v.vtype vn))
      then some (sys_err enotty, t)
      else count_on (v.ioctl vn op) t t))

  abbrev pub is_regular : Vtype → Bool
  is_regular vreg = true
  is_regular _ = false

  -- A word that is negative as an `off_t`.
  abbrev pub is_negative : ℕ → Bool
  is_negative w = leb (2 ^ 63) w

  -- `SEEK_SET`, `SEEK_CUR`, `SEEK_END` and any other: the new offset, or `EINVAL`.
  unfoldable pub seek_to : File → ℕ → ℕ → ℕ → Option ℕ
  seek_to f vn offset zero = some offset
  seek_to f vn offset (suc zero) =
      if is_negative (add_size f.offset offset) then none else some (add_size f.offset offset)
  seek_to f vn offset (suc (suc zero)) = some (add_size (v.filesize vn) offset)
  seek_to f vn offset (suc (suc (suc whence))) = none

  unfoldable pub seek_file : ℕ → ℕ → ℕ → M Reply
  unfolding seek_to with_vnode
  seek_file p offset whence = with_vnode p (λ f vn t.
      if not (is_regular (v.vtype vn))
      then some (sys_err espipe, t)
      else elim (seek_to f vn offset whence) [
        | none ↦ some (sys_err einval, t)
        | some n ↦
            some (sys_ok n, record t { files = update t.files p (some (record f { offset = n })) })
      ])

  unfoldable pub sys_seek : ℤ → ℕ → ℕ → M Reply
  unfolding seek_file fd_safe_get
  sys_seek fd offset whence s = elim (fd_safe_get fd s) [
    | none ↦ none
    | some (none, t) ↦ some (sys_err ebadf, t)
    | some (some desc, t) ↦ elim desc.file [ none ↦ none | some p ↦ seek_file p offset whence t ]
  ]
