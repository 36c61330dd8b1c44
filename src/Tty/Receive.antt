-- ===== src/Tty/Receive.antt =====
-- kernel/io/tty/n_tty.c: `receive_char` does to the two lists of Tty.View what `feed` says.
use yak_kernel.Prelude.{
  ℕ, ◌-◌, ◌≡◌, refl, subst, sym, ◌∙◌, ap, ap₂, Bool, true, false, inl, inr, List, [], ◌∷◌, ◌++◌,
  arith, length, take, ltb, ◌==◌, if◌then◌else◌, if-true, if-false, Bool-cases,
}
use yak_kernel.RingBuffer.Bounds.{ringbuffer_put-capacity}
use yak_kernel.Tty.{
  Termios, Tty, tty_buf_size, newline, deliver, commit_line, do_echo, store_char, receive_canonical,
  receive_char, receive_all,
}
use yak_kernel.Tty.View.{IsValid, pending, queue, commit, canonical_feed, feed}
use yak_kernel.Tty.Steps.{
  Becomes, do_echo_output, put_queue, put-IsValid, along, erase_char-Becomes, kill_line-Becomes,
  commit_line-Becomes, store_char-Becomes,
}

-- A commit after another step.
commit_after :
    (t t1 : Tty) (p q : List ℕ)
    → Becomes t t1 (p, q)
    → Becomes t (commit_line t1) (commit (t.read_buf.capacity - length q) (p, q))
commit_after t t1 p q (v1, tm1, cap1, p1, q1) =
    let (v2, tm2, cap2, p2, q2) = commit_line-Becomes t1 v1 in
    (
      v2,
      tm2 ∙ tm1,
      cap2 ∙ cap1,
      p2,
      q2 ∙ ap₂ (λ l r. l ++ r) q1 (ap₂ (λ k l. take k l) (ap₂ (λ k l. k - length l) cap1 q1) p1),
    )

branch :
    (t : Tty) {u w : Tty} {x y : List ℕ × List ℕ} (b : Bool)
    → Becomes t u x
    → Becomes t w y
    → Becomes t (if b then u else w) (if b then x else y)
branch t true h k = h
branch t false h k = k

module _ (t : Tty) (v : IsValid t) (c : ℕ) where
  abbrev line_after : List ℕ
  line_after =
      if ltb (length (pending t)) (tty_buf_size - 1) then pending t ++ c ∷ [] else pending t

  echoed : Becomes t (do_echo c (store_char c t)) (line_after, queue t)
  echoed =
      let (out, is) = do_echo_output c (store_char c t) in
      let (v', tm, cap, p, q) = store_char-Becomes t v c in
      subst (λ u. Becomes t u (line_after, queue t)) (sym is)
        (record { ring = v'.ring; line_buf = v'.line_buf; line_fits = v'.line_fits }, tm, cap, p, q)

  canonical :
      Becomes t
        (receive_canonical c t)
        (canonical_feed t.termios (t.read_buf.capacity - length (queue t)) c (pending t) (queue t))
  unfolding receive_canonical canonical_feed
  canonical = branch t (c == t.termios.verase) (erase_char-Becomes t v) (
      branch t (c == t.termios.vkill) (kill_line-Becomes t v) (
        branch t (c == t.termios.veof) (commit_line-Becomes t v) (
          branch t (c == newline)
            (commit_after t (do_echo c (store_char c t)) line_after (queue t) echoed) echoed)))

  -- A character received by a valid terminal does to the line that is typed and to the bytes that are
  -- ready to be read what `feed` says, whatever is echoed, and leaves the terminal valid.
  pub receive_char-Becomes :
      Becomes t (receive_char c t) (feed t.termios t.read_buf.capacity c (pending t, queue t))
  unfolding receive_char receive_canonical feed
  receive_char-Becomes =
      let tm = t.termios in
      elim (Bool-cases tm.icanon) [
        | inr raw ↦ along t v (if-false _ raw) (
            subst (Becomes t (deliver (c ∷ []) 1 t)) (sym (if-false _ raw)) (
              put-IsValid t v (c ∷ []) 1 t.canonical_pos (omega arith) v.line_fits,
              refl,
              ringbuffer_put-capacity t.read_buf (c ∷ []) 1,
              refl,
              put_queue t v (c ∷ []) 1 (omega arith),
            ))
        | inl lines ↦
            along t v (if-true _ lines)
              (subst (Becomes t (receive_canonical c t)) (sym (if-true _ lines)) canonical)
      ]

-- `feed` for one character after the other.
unfoldable pub feed_all : Termios → ℕ → List ℕ → List ℕ × List ℕ → List ℕ × List ℕ
feed_all tm capacity [] x = x
feed_all tm capacity (c ∷ cs) x = feed_all tm capacity cs (feed tm capacity c x)

-- A valid terminal that receives any characters, one after the other, is valid at the end, with the
-- same settings and the same ring capacity, and has as the line that is typed and the bytes that are
-- ready what `feed` makes of the two lists it had.
pub receive_all-Becomes :
    (cs : List ℕ) (t : Tty)
    → IsValid t
    → Becomes t (receive_all cs t) (feed_all t.termios t.read_buf.capacity cs (pending t, queue t))
unfolding receive_all feed_all
receive_all-Becomes [] t v = (v, refl, refl, refl, refl)
receive_all-Becomes (c ∷ cs) t v =
    let (v1, tm1, cap1, p1, q1) = receive_char-Becomes t v c in
    let (v2, tm2, cap2, p2, q2) = receive_all-Becomes cs (receive_char c t) v1 in
    let t1 = receive_char c t in
    let tm = t.termios in
    let k = t.read_buf.capacity in
    let same : feed_all t1.termios t1.read_buf.capacity cs (pending t1, queue t1)
        ≡ feed_all tm k cs (feed tm k c (pending t, queue t)) =
      ap (λ m. feed_all m t1.read_buf.capacity cs (pending t1, queue t1)) tm1
      ∙ ap (λ n. feed_all tm n cs (pending t1, queue t1)) cap1
      ∙ ap₂ (λ p q. feed_all tm k cs (p, q)) p1 q1 in
    (v2, tm2 ∙ tm1, cap2 ∙ cap1, p2 ∙ ap (λ w. w.0) same, q2 ∙ ap (λ w. w.1) same)
