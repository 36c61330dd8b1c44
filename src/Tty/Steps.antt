-- ===== src/Tty/Steps.antt =====
-- kernel/io/tty/n_tty.c: what each step of `receive_char` does to the two lists of Tty.View.
use mathlib.Core.List.{append-nil}
use Prim.Native.Nat.{min}
use yak_kernel.Prelude.{
  ℕ, zero, suc, ◌+◌, ◌-◌, ◌≤◌, ◌<◌, ◌≡◌, refl, subst, sym, ◌∙◌, ap, ◌&&◌, inl, inr, List, [], ◌∷◌,
  ◌++◌, arith, length, length-set, length-tabulate, set, take, ltb, leb, ◌==◌, if◌then◌else◌,
  if-true, if-false, Bool-cases,
}
use yak_kernel.RingBuffer.{ringbuffer_put}
use yak_kernel.RingBuffer.Refine.{contents, ringbuffer_put_refines}
use yak_kernel.RingBuffer.Bounds.{ringbuffer_put-IsValid, ringbuffer_put-capacity}
use yak_kernel.Tty.{
  Tty, tty_buf_size, newline, deliver, driver_write, commit_line, do_echo, rub_out, rub_out_line,
  erase_char, kill_line, store_char,
}
use yak_kernel.Tty.View.{
  IsValid, pending, queue, commit, length-take, take-take_le, take_all, take-set,
}

-- What an operation comes to: a valid terminal with the same settings, and the two lists.
abbrev pub Becomes : Tty → Tty → List ℕ × List ℕ → Type 0
Becomes t t' v =
    IsValid t'
    × (t'.termios ≡ t.termios)
    × (t'.read_buf.capacity ≡ t.read_buf.capacity)
    × (pending t' ≡ v.0)
    × (queue t' ≡ v.1)

no_bytes : {p : List ℕ} (k : ℕ) → p ≡ [] → take k p ≡ []
no_bytes k e = ap (take k) e ∙ take_all k [] (omega arith)

-- The driver's output changes nothing else.
pub do_echo_output : (c : ℕ) (t : Tty) → (out : List ℕ) × (do_echo c t ≡ record t { output = out })
unfolding do_echo
do_echo_output c t = elim (Bool-cases t.termios.echo) [
  | inl on ↦ (t.output ++ c ∷ [], rw on refl)
  | inr off ↦ elim (Bool-cases ((c == newline) && t.termios.echonl)) [
    | inl shown ↦ (t.output ++ c ∷ [], rw (off, shown) refl)
    | inr hidden ↦ (t.output, rw (off, hidden) refl)
  ]
]

rub_out_line_output :
    (n : ℕ) (t : Tty)
    → t.canonical_pos ≡ n
    → (out : List ℕ) × (rub_out_line n t ≡ record t { canonical_pos = 0; output = out })
unfolding rub_out_line
rub_out_line_output zero t e = (t.output, ap (λ k. record t { canonical_pos = k }) e)
rub_out_line_output (suc n) t e =
    rub_out_line_output n (driver_write rub_out (record t { canonical_pos = n })) refl

module _ (t : Tty) (v : IsValid t) where
  length-pending : length (pending t) ≡ t.canonical_pos
  length-pending =
      length-take t.canonical_pos t.canonical_buf (omega (arith, v.line_buf, v.line_fits))

  length-queue : length (queue t) ≡ t.read_buf.size
  length-queue = length-tabulate t.read_buf.size _

  -- Bytes put into the ring are queued as far as there is room.
  pub put_queue :
      (buf : List ℕ) (n : ℕ)
      → n ≤ length buf
      → contents (ringbuffer_put t.read_buf buf n).1
        ≡ queue t ++ take (t.read_buf.capacity - length (queue t)) (take n buf)
  put_queue buf n h =
      let room = t.read_buf.capacity - t.read_buf.size in
      let (count, is) = ringbuffer_put_refines buf n v.ring h in
      is
      ∙ ap (λ l. queue t ++ l)
          (ap (λ k. take k buf) count
            ∙ min_take
            ∙ ap (λ k. take (t.read_buf.capacity - k) (take n buf)) (sym length-queue))
    where
      min_take :
          take (min n (t.read_buf.capacity - t.read_buf.size)) buf
          ≡ take (t.read_buf.capacity - t.read_buf.size) (take n buf)
      min_take = elim (Bool-cases (leb n (t.read_buf.capacity - t.read_buf.size))) [
        | inl fits ↦
            ap (λ k. take k buf) (ground arith)
            ∙ sym (
                take_all (t.read_buf.capacity - t.read_buf.size) (take n buf)
                  (ground (arith, length-take n buf h)))
        | inr over ↦
            ap (λ k. take k buf) (ground arith)
            ∙ sym (take-take_le (t.read_buf.capacity - t.read_buf.size) n buf (ground arith))
      ]

  pub put-IsValid :
      (buf : List ℕ) (n pos : ℕ)
      → n ≤ length buf
      → pos < tty_buf_size
      → IsValid (record (deliver buf n t) { canonical_pos = pos })
  put-IsValid buf n pos h lt = record {
    ring = ringbuffer_put-IsValid buf n v.ring;
    line_buf = v.line_buf;
    line_fits = lt;
  }

  pub along : {u u' : Tty} {x : List ℕ × List ℕ} → u ≡ u' → Becomes t u' x → Becomes t u x
  along {x = x} e b = subst (λ w. Becomes t w x) (sym e) b

  -- Where only the position and the output change.
  moved :
      (k : ℕ) (out : List ℕ)
      → k < tty_buf_size
      → Becomes t (record t { canonical_pos = k; output = out }) (take k t.canonical_buf, queue t)
  moved k out lt =
      (record { ring = v.ring; line_buf = v.line_buf; line_fits = lt }, refl, refl, refl, refl)

  same : Becomes t t (pending t, queue t)
  same = (v, refl, refl, refl, refl)

  pending_back :
      take (t.canonical_pos - 1) t.canonical_buf ≡ take (length (pending t) - 1) (pending t)
  pending_back = sym (
      ap (λ k. take (k - 1) (pending t)) length-pending
      ∙ take-take_le (t.canonical_pos - 1) t.canonical_pos t.canonical_buf (omega arith))

  pub erase_char-Becomes :
      Becomes t (erase_char t) (take (length (pending t) - 1) (pending t), queue t)
  unfolding erase_char
  erase_char-Becomes =
      let back = λ (out : List ℕ).
        subst
          (λ p.
            Becomes t (record t { canonical_pos = t.canonical_pos - 1; output = out }) (p, queue t))
          pending_back (moved (t.canonical_pos - 1) out (omega (arith, v.line_fits))) in
      elim (Bool-cases (ltb 0 t.canonical_pos)) [
        | inr empty ↦ along (if-false _ empty) (
            subst (λ p. Becomes t t (p, queue t))
              (sym (take_all (length (pending t) - 1) (pending t) (ground (arith, length-pending))))
              same)
        | inl some_left ↦ elim (Bool-cases t.termios.echo) [
          | inl on ↦ along (if-true _ some_left ∙ if-true _ on) (back (t.output ++ rub_out))
          | inr off ↦ along (if-true _ some_left ∙ if-false _ off) (back t.output)
        ]
      ]

  pub kill_line-Becomes : Becomes t (kill_line t) ([], queue t)
  unfolding kill_line
  kill_line-Becomes =
      let (out, is) = rub_out_line_output t.canonical_pos t refl in
      elim (Bool-cases t.termios.echo) [
        | inl on ↦ along (if-true _ on ∙ is) (moved 0 out (omega arith))
        | inr off ↦ along (if-false _ off) (moved 0 t.output (omega arith))
      ]

  pub commit_line-Becomes :
      Becomes t
        (commit_line t)
        (commit (t.read_buf.capacity - length (queue t)) (pending t, queue t))
  unfolding commit_line
  commit_line-Becomes = elim (Bool-cases (t.canonical_pos == 0)) [
    | inl empty ↦
        let zero_pos : t.canonical_pos ≡ 0 = ground arith in
        let nothing : pending t ≡ [] = ap (λ k. take k t.canonical_buf) zero_pos in
        along (if-true _ empty) (
          v,
          refl,
          refl,
          nothing,
          sym (append-nil (queue t))
              ∙ ap (λ l. queue t ++ l)
                  (sym (no_bytes (t.read_buf.capacity - length (queue t)) nothing)),
        )
    | inr full ↦ along (if-false _ full) (
      put-IsValid t.canonical_buf t.canonical_pos 0 (omega (arith, v.line_buf, v.line_fits))
          (omega arith),
      refl,
      ringbuffer_put-capacity t.read_buf t.canonical_buf t.canonical_pos,
      refl,
      put_queue t.canonical_buf t.canonical_pos (omega (arith, v.line_buf, v.line_fits)),
    )
  ]

  pub store_char-Becomes :
      (c : ℕ)
      → Becomes t (store_char c t) (
        (if ltb (length (pending t)) (tty_buf_size - 1) then pending t ++ c ∷ [] else pending t),
        queue t,
      )
  unfolding store_char
  store_char-Becomes c =
      let next : t.canonical_pos + 1 ≡ suc t.canonical_pos = omega arith in
      elim (Bool-cases (ltb t.canonical_pos (tty_buf_size - 1))) [
        | inr full ↦ along (if-false _ full) (
            subst (λ p. Becomes t t (p, queue t))
              (sym (if-false _ (ap (λ k. ltb k (tty_buf_size - 1)) length-pending ∙ full))) same)
        | inl room ↦ along (if-true _ room) (
          record {
            ring = v.ring;
            line_buf = length-set t.canonical_buf t.canonical_pos c ∙ v.line_buf;
            line_fits = ground arith;
          },
          refl,
          refl,
          ap (λ k. take k (set t.canonical_buf t.canonical_pos c)) next
              ∙ take-set t.canonical_pos t.canonical_buf c (ground (arith, v.line_buf))
              ∙ sym (if-true _ (ap (λ k. ltb k (tty_buf_size - 1)) length-pending ∙ room)),
          refl,
        )
      ]
