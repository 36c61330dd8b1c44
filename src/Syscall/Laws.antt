-- ===== src/Syscall/Laws.antt =====
-- What the system calls of kernel/core/syscall/file.c do to an open file.
use yak_kernel.Prelude.{
  false, ◌&&◌, not, ℕ, zero, suc, ◌+◌, ◌-◌, ◌^◌, ◌≤◌, ◌<◌, ◌≡◌, refl, ◌∙◌, ◌≢◌, ◌⊎◌, inl, inr, true,
  false, List, [], ◌∷◌, Option, none, some, arith, leb, length, ◌==◌, if◌then◌else◌, Bool-cases,
  add_size, sub_size, add_size_small, sub_size_small,
}
use yak_kernel.Prelude.Int.{pos}
use yak_kernel.Status.{Status, ebadf, einval, status_errno}
use yak_kernel.Fd.Machine.{File, Fd, State, M, ◌>>=◌, slot, update, file_ref, file_deref}
use yak_kernel.Fd.Alloc.{fd_safe_get}
use yak_kernel.Fd.Duplicate.{has_bit}
use yak_kernel.Syscall.{
  Vnodes, Reply, sys_ok, sys_err, reply, fails, getfile_ref, with_file, with_vnode, count_on,
  file_write, file_read, sys_close, sys_write, write_vnode, read_vnode, pwrite_vnode, pwrite_file,
  write_file, read_file, sys_pwrite, sys_read, sys_seek, vreg, seek_to, seek_file,
}

-- The descriptor `fd` refers to the file `f` at `p`, whose vnode is `vn`.
pub record Opened (s : State) (fd p : ℕ) (f : File) (vn : ℕ) : Type 0 where
  pub desc : Fd
  pub at : slot s.slots fd ≡ some desc
  pub refers : desc.file ≡ some p
  pub held : s.files p ≡ some f
  pub node : f.vnode ≡ some vn
  pub counted : (0 < f.refcnt) × (f.refcnt < 2 ^ 64 - 1)

used-inside : (ds : List (Option Fd)) (i : ℕ) {d : Fd} → slot ds i ≡ some d → i < length ds
used-inside [] i e = absurd (cc)
used-inside (d ∷ ds) zero e = omega arith
used-inside (d ∷ ds) (suc i) e = omega (arith, used-inside ds i e)

-- The file with one more reference.
abbrev pub held_twice : State → ℕ → File → State
held_twice s p f = record s {
  files = update s.files p (some (record f { refcnt = add_size f.refcnt 1 }));
}

getfile_ref-Opened :
    (s : State) (fd p : ℕ) (f : File) (vn : ℕ)
    → Opened s fd p f vn
    → getfile_ref (pos fd) s ≡ some (some p, held_twice s p f)
unfolding getfile_ref fd_safe_get file_ref
getfile_ref-Opened s fd p f vn o =
    let inside = used-inside s.slots fd o.at in
    let found : leb (length s.slots) fd ≡ false = ground arith in
    rw (getfile_ref, fd_safe_get, found, o.at, o.refers, file_ref, o.held, o.refers)

==-self : (p : ℕ) → (p == p) ≡ true
==-self p = ground arith

-- A call that takes the reference, runs to its end, and drops it again.
with_file-Opened :
    (s t : State) (fd p : ℕ) (f g : File) (vn : ℕ) (body : ℕ → M Reply) (r : Reply)
    → Opened s fd p f vn
    → body p (held_twice s p f) ≡ some (r, t)
    → t.files p ≡ some g
    → g.refcnt ≡ add_size f.refcnt 1
    → with_file (pos fd) body s
      ≡ some (r, record t { files = update t.files p (some (record g { refcnt = f.refcnt })) })
unfolding with_file file_deref
with_file-Opened s t fd p f g vn body r o runs kept twice =
    let plus = add_size_small f.refcnt 1 (omega (arith, o.counted)) in
    let not_last : (g.refcnt == 1) ≡ false = ground (arith, twice, plus, o.counted) in
    let back : sub_size g.refcnt 1 ≡ f.refcnt =
      sub_size_small g.refcnt 1 (omega (arith, twice, plus)) (omega (arith, twice, plus, o.counted))
      ∙ omega (arith, twice, plus) in
    rw (with_file, getfile_ref-Opened s fd p f vn o, ◌>>=◌, runs, file_deref, kept, not_last, back)

with_vnode-at :
    (body : File → ℕ → M Reply) (t : State) (p : ℕ) (f : File) (vn : ℕ) (r : Option (Reply × State))
    → t.files p ≡ some f
    → f.vnode ≡ some vn
    → body f vn t ≡ r
    → with_vnode p body t ≡ r
unfolding with_vnode
with_vnode-at body t p f vn r held node e = rw (with_vnode, held, node) e

-- The file at `p` is now `g`; the descriptors and the other files are as they were.
pub record Changed (s : State) (p : ℕ) (g : File) (t : State) : Type 0 where
  pub file_now : t.files p ≡ some g
  pub other_files : (q : ℕ) → q ≢ p → t.files q ≡ s.files q
  pub same_slots : t.slots ≡ s.slots

-- A call that has left `g` where `f` was, but for the reference that it drops at its end.
pub dropped :
    (s : State) (fd p : ℕ) (f g : File) (vn : ℕ) (body : ℕ → M Reply) (r : Reply)
    → Opened s fd p f vn
    → (t : State) → g.refcnt ≡ f.refcnt
    → Changed s p (record g { refcnt = add_size f.refcnt 1 }) t
    → body p (held_twice s p f) ≡ some (r, t)
    → (u : State) × (with_file (pos fd) body s ≡ some (r, u)) × Changed s p g u
dropped s fd p f g vn body r o t same c runs = (
  _,
  with_file-Opened s t fd p f (record g { refcnt = add_size f.refcnt 1 }) vn body r o runs
      c.file_now refl,
  record {
    file_now = ground (arith, same);
    other_files = λ q ne. ground (arith, c.other_files q ne);
    same_slots = c.same_slots;
  },
)

module _ (v : Vnodes) where
  -- `write` on a descriptor that refers to a file of a vnode, which counts from 1 to 2^64 - 2 references.
  -- Where the file is open for writing, the call returns the number of bytes that the vnode took and moves the
  -- file's offset by it, modulo 2^64; where the vnode's operation fails, other than by the end of file, it returns that error and
  -- the offset stays; where the file is not open for writing, it fails with EBADF. The
  -- reference count, the other files and the table are left alone in all three cases.
  pub sys_write-advances :
      (s : State) (fd p : ℕ) (f : File) (vn : ℕ) (buf : List ℕ) (count : ℕ)
      → Opened s fd p f vn
      → let (rv, n) = v.write vn f.offset buf count in
        let allowed = has_bit f.flags file_write in
        (t : State) × (sys_write v (pos fd) buf count s
          ≡ some (if allowed then reply rv n else sys_err ebadf, t))
        × Changed s p
            (if allowed && not (fails rv) then record f { offset = add_size f.offset n } else f)
            t
  unfolding sys_write write_file write_vnode count_on
  sys_write-advances s fd p f vn buf count o =
      let (rv, n) = v.write vn f.offset buf count in
      let twice : File = record f { refcnt = add_size f.refcnt 1 } in
      let runs = with_vnode-at (write_vnode v buf count p) (held_twice s p f) p twice vn in
      elim (Bool-cases (has_bit f.flags file_write)) [
        | inr k ↦ rw k (
            dropped s fd p f f vn (write_file v buf count) (sys_err ebadf) o (held_twice s p f) refl
              (record {
                file_now = ground arith;
                other_files = λ q ne. ground arith;
                same_slots = refl;
              })
              (runs _ (rw (==-self p)) o.node (rw (write_vnode, k))))
        | inl k ↦ elim (Bool-cases (fails rv)) [
          | inl e ↦
              rw (k, e)
                (dropped s fd p f f vn (write_file v buf count) (sys_err (status_errno rv)) o
                  (held_twice s p f) refl
                  (record {
                    file_now = ground arith;
                    other_files = λ q ne. ground arith;
                    same_slots = refl;
                  })
                  (runs _ (rw (==-self p)) o.node (rw (write_vnode, k, count_on, e))))
          | inr e ↦
              let g : File = record f { offset = add_size f.offset n } in
              rw (k, e)
                (dropped s fd p f g vn (write_file v buf count) (sys_ok n) o
                  (record s {
                    files =
                        update (held_twice s p f).files p
                          (some (record g { refcnt = add_size f.refcnt 1 }));
                  })
                  refl
                  (record {
                    file_now = ground arith;
                    other_files = λ q ne. ground arith;
                    same_slots = refl;
                  })
                  (runs _ (rw (==-self p)) o.node (rw (write_vnode, k, count_on, e))))
        ]
      ]

  -- `read` on a descriptor that refers to a file of a vnode, which counts from 1 to 2^64 - 2 references.
  -- Where the file is open for reading, the call returns the number of bytes that the vnode gave and moves the
  -- file's offset by it, modulo 2^64; where the vnode's operation fails, other than by the end of file, it returns that error and
  -- the offset stays; where the file is not open for reading, it fails with EBADF. The
  -- reference count, the other files and the table are left alone in all three cases.
  pub sys_read-advances :
      (s : State) (fd p : ℕ) (f : File) (vn : ℕ) (count : ℕ)
      → Opened s fd p f vn
      → let (rv, n) = v.read vn f.offset count in
        let allowed = has_bit f.flags file_read in
        (t : State) × (sys_read v (pos fd) count s
          ≡ some (if allowed then reply rv n else sys_err ebadf, t))
        × Changed s p
            (if allowed && not (fails rv) then record f { offset = add_size f.offset n } else f)
            t
  unfolding sys_read read_file read_vnode count_on
  sys_read-advances s fd p f vn count o =
      let (rv, n) = v.read vn f.offset count in
      let twice : File = record f { refcnt = add_size f.refcnt 1 } in
      let runs = with_vnode-at (read_vnode v count p) (held_twice s p f) p twice vn in
      elim (Bool-cases (has_bit f.flags file_read)) [
        | inr k ↦ rw k (
            dropped s fd p f f vn (read_file v count) (sys_err ebadf) o (held_twice s p f) refl
              (record {
                file_now = ground arith;
                other_files = λ q ne. ground arith;
                same_slots = refl;
              })
              (runs _ (rw (==-self p)) o.node (rw (read_vnode, k))))
        | inl k ↦ elim (Bool-cases (fails rv)) [
          | inl e ↦
              rw (k, e)
                (dropped s fd p f f vn (read_file v count) (sys_err (status_errno rv)) o
                  (held_twice s p f) refl
                  (record {
                    file_now = ground arith;
                    other_files = λ q ne. ground arith;
                    same_slots = refl;
                  })
                  (runs _ (rw (==-self p)) o.node (rw (read_vnode, k, count_on, e))))
          | inr e ↦
              let g : File = record f { offset = add_size f.offset n } in
              rw (k, e)
                (dropped s fd p f g vn (read_file v count) (sys_ok n) o
                  (record s {
                    files =
                        update (held_twice s p f).files p
                          (some (record g { refcnt = add_size f.refcnt 1 }));
                  })
                  refl
                  (record {
                    file_now = ground arith;
                    other_files = λ q ne. ground arith;
                    same_slots = refl;
                  })
                  (runs _ (rw (==-self p)) o.node (rw (read_vnode, k, count_on, e))))
        ]
      ]

  -- `pwrite` on a descriptor open for writing returns what the vnode's operation gives at the offset of
  -- the call, its error or the number of bytes, and changes no file.
  pub sys_pwrite-stays :
      (s : State) (fd p : ℕ) (f : File) (vn : ℕ) (buf : List ℕ) (count offset : ℕ)
      → Opened s fd p f vn
      → has_bit f.flags file_write ≡ true
      → let (rv, n) = v.write vn offset buf count in
        (t : State) × (sys_pwrite v (pos fd) buf count offset s ≡ some (reply rv n, t))
        × Changed s p f t
  unfolding sys_pwrite pwrite_file write_vnode count_on
  sys_pwrite-stays s fd p f vn buf count offset o writable =
      let (rv, n) = v.write vn offset buf count in
      let g : File = record f { refcnt = add_size f.refcnt 1 } in
      (
        _,
        with_file-Opened s (held_twice s p f) fd p f g vn (pwrite_file v buf count offset)
            (reply rv n) o
            (with_vnode-at (pwrite_vnode v buf count offset) (held_twice s p f) p
              (record f { refcnt = add_size f.refcnt 1 }) vn _ (rw (==-self p)) o.node
              (rw (pwrite_vnode, writable, count_on) (either rv n)))
            (ground arith) refl,
        record { file_now = ground arith; other_files = λ q ne. ground arith; same_slots = refl },
      )
    where
      either :
          (rv : Status) (n : ℕ)
          → ◌≡◌ {A = Option (Reply × State)}
              (some (reply rv n, if fails rv then held_twice s p f else held_twice s p f))
              (some (reply rv n, held_twice s p f))
      either rv n = elim (Bool-cases (fails rv)) [ inl e ↦ rw e | inr e ↦ rw e ]

  -- `seek` with `SEEK_CUR` in a regular file, `back` bytes back: as far as the start of the file it
  -- moves the offset and returns it; farther it fails with EINVAL and changes nothing.
  pub sys_seek-back :
      (s : State) (fd p : ℕ) (f : File) (vn back : ℕ)
      → Opened s fd p f vn
      → v.vtype vn ≡ vreg
      → f.offset < 2 ^ 63
      → 0 < back
      → back ≤ 2 ^ 63
      → ((back ≤ f.offset)
          × ((t : State) × (sys_seek v (pos fd) (2 ^ 64 - back) 1 s
                ≡ some (sys_ok (f.offset - back), t))
              × Changed s p (record f { offset = f.offset - back }) t))
        ⊎ ((f.offset < back) × (sys_seek v (pos fd) (2 ^ 64 - back) 1 s ≡ some (sys_err einval, s)))
  unfolding sys_seek seek_file seek_to fd_safe_get with_vnode add_size
  sys_seek-back s fd p f vn back o regular small some_back few =
      let found : leb (length s.slots) fd ≡ false = ground (arith, used-inside s.slots fd o.at) in
      elim (Bool-cases (leb back f.offset)) [
        | inl le ↦
            let fits : back ≤ f.offset = ground arith in
            let sum : add_size f.offset (2 ^ 64 - back) ≡ f.offset - back = omega arith in
            let positive : leb (2 ^ 63) (f.offset - back) ≡ false = ground arith in
            inl (
              fits,
              (
                record s {
                  files = update s.files p (some (record f { offset = f.offset - back }));
                },
                simp (
                  sys_seek, fd_safe_get, found, o.at, o.refers, seek_file, with_vnode, o.held,
                  o.node, regular, seek_to, sum, positive,
                ),
                record {
                  file_now = ground arith;
                  other_files = λ q ne. ground arith;
                  same_slots = refl;
                },
              ),
            )
        | inr gt ↦
            let far : f.offset < back = ground arith in
            let sum : add_size f.offset (2 ^ 64 - back) ≡ f.offset + 2 ^ 64 - back = omega arith in
            let negative : leb (2 ^ 63) (f.offset + 2 ^ 64 - back) ≡ true = ground arith in
            inr (
              far,
              simp (
                sys_seek, fd_safe_get, found, o.at, o.refers, seek_file, with_vnode, o.held, o.node,
                regular, seek_to, sum, negative,
              ),
            )
      ]

-- `close` on a descriptor that is free or outside the table fails with EBADF and changes nothing.
pub sys_close-ebadf :
    (s : State) (fd : ℕ) → slot s.slots fd ≡ none → sys_close (pos fd) s ≡ some (sys_err ebadf, s)
unfolding sys_close fd_safe_get
sys_close-ebadf s fd free = elim (Bool-cases (leb (length s.slots) fd)) [
  | inl e ↦ rw (sys_close, fd_safe_get, e)
  | inr e ↦ rw (sys_close, fd_safe_get, e, free)
]
