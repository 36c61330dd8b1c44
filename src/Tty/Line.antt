-- ===== src/Tty/Line.antt =====
-- kernel/io/tty/n_tty.c: the lines of a canonical terminal, from the keys to the queue of ready bytes.
use mathlib.Core.List.{append_assoc}
use yak_kernel.Prelude.{
  ℕ, zero, suc, ◌+◌, ◌-◌, ◌%◌, ◌<◌, ◌≡◌, refl, ◌∙◌, ap, true, false, List, [], ◌∷◌, ◌++◌, arith,
  length, length-append, tabulate, get_or, take, lt→ltb, ◌==◌, if◌then◌else◌, if-true, if-false,
}
use yak_kernel.RingBuffer.{RingBuffer, ringbuffer_available}
use yak_kernel.RingBuffer.Refine.{contents}
use yak_kernel.Tty.{Termios, Tty, tty_buf_size, newline, check_loop, check_line, receive_all}
use yak_kernel.Tty.View.{IsValid, pending, queue, commit, canonical_feed, feed}
use yak_kernel.Tty.Receive.{feed_all, receive_all-Becomes}

-- The length of the first line with its newline, 0 if there is no newline.
unfoldable pub first_line : List ℕ → ℕ
first_line [] = 0
first_line (c ∷ cs) =
    if c == newline then 1 else if first_line cs == 0 then 0 else suc (first_line cs)

module _ (rb : RingBuffer) where
  byte_at : ℕ → ℕ
  byte_at i = get_or rb.bytes ((rb.tail + i) % rb.capacity) 0

  -- The loop from the index `i`, in terms of the bytes from there on.
  check_loop-first_line :
      (n i : ℕ) (f : ℕ → ℕ)
      → ((j : ℕ) → f j ≡ byte_at (i + j))
      → check_loop n i rb
        ≡ (if first_line (tabulate n f) == 0 then 0 else i + first_line (tabulate n f))
  unfolding check_loop first_line byte_at
  check_loop-first_line zero i f e = refl
  check_loop-first_line (suc n) i f e =
      let at_i : i + 0 ≡ i = omega arith in
      let here : f 0 ≡ get_or rb.bytes ((rb.tail + i) % rb.capacity) 0 = e 0 ∙ ap byte_at at_i in
      let later : (j : ℕ) → f (suc j) ≡ byte_at (i + 1 + j) =
        λ j. let step : i + suc j ≡ i + 1 + j = omega arith in e (suc j) ∙ ap byte_at step in
      ground (arith, here, check_loop-first_line n (i + 1) (λ j. f (suc j)) later)

  -- `check_line` is the length of the first line of the ring's bytes, with its newline, and 0 if no newline is
  -- among them.
  pub check_line-first_line : check_line rb ≡ first_line (contents rb)
  unfolding check_line ringbuffer_available byte_at
  check_line-first_line =
      let bytes = λ (j : ℕ). get_or rb.bytes ((rb.tail + j) % rb.capacity) 0 in
      let from_0 : (j : ℕ) → bytes j ≡ byte_at (0 + j) =
        λ j. let plain : j ≡ 0 + j = omega arith in ap byte_at plain in
      ground (arith, check_loop-first_line rb.size 0 bytes from_0)

-- A character that is no control character of the terminal.
abbrev pub IsPlain : Termios → ℕ → Type 0
IsPlain tm c =
    ((c == tm.verase) ≡ false)
    × ((c == tm.vkill) ≡ false)
    × ((c == tm.veof) ≡ false)
    × ((c == newline) ≡ false)

abbrev pub ArePlain : Termios → List ℕ → Type 0
ArePlain tm [] = Unit
ArePlain tm (c ∷ cs) = IsPlain tm c × ArePlain tm cs

module _ (tm : Termios) (cap : ℕ) (lines : tm.icanon ≡ true) where
  feed_plain :
      (c : ℕ) (p q : List ℕ)
      → IsPlain tm c
      → length p < tty_buf_size - 1
      → feed tm cap c (p, q) ≡ (p ++ c ∷ [], q)
  unfolding feed canonical_feed
  feed_plain c p q (a, b, d, e) lt =
      if-true _ lines
      ∙ if-false _ a
      ∙ if-false _ b
      ∙ if-false _ d
      ∙ if-false _ e
      ∙ ap (λ l. (l, q)) (if-true _ (lt→ltb (length p) (tty_buf_size - 1) lt))

  feed-newline :
      (p q : List ℕ)
      → length p < tty_buf_size - 1
      → (newline == tm.verase) ≡ false
      → (newline == tm.vkill) ≡ false
      → (newline == tm.veof) ≡ false
      → feed tm cap newline (p, q) ≡ ([], q ++ take (cap - length q) (p ++ newline ∷ []))
  unfolding feed canonical_feed
  feed-newline p q lt a b d =
      if-true _ lines
      ∙ if-false _ a
      ∙ if-false _ b
      ∙ if-false _ d
      ∙ ap (λ l. commit (cap - length q) (l, q))
          (if-true _ (lt→ltb (length p) (tty_buf_size - 1) lt))

  feed_line :
      (cs p q : List ℕ)
      → ArePlain tm cs
      → length p + length cs < tty_buf_size - 1
      → (newline == tm.verase) ≡ false
      → (newline == tm.vkill) ≡ false
      → (newline == tm.veof) ≡ false
      → feed_all tm cap (cs ++ newline ∷ []) (p, q)
        ≡ ([], q ++ take (cap - length q) (p ++ (cs ++ newline ∷ [])))
  unfolding feed_all
  feed_line [] p q plain lt a b d = feed-newline p q (omega arith) a b d
  feed_line (c ∷ cs) p q (one, more) lt a b d =
      ap (feed_all tm cap (cs ++ newline ∷ [])) (feed_plain c p q one (omega arith))
      ∙ feed_line cs (p ++ c ∷ []) q more (omega (arith, length-append p (c ∷ []))) a b d
      ∙ ap (λ l. ([], q ++ take (cap - length q) l)) (append_assoc p (c ∷ []) (cs ++ newline ∷ []))

-- A terminal in canonical mode whose control characters are not the newline.
pub record TakesLines (t : Tty) : Type 0 where
  pub lines : t.termios.icanon ≡ true
  pub not_erase : (newline == t.termios.verase) ≡ false
  pub not_kill : (newline == t.termios.vkill) ≡ false
  pub not_eof : (newline == t.termios.veof) ≡ false

-- Where nothing is typed so far, characters that are no control characters, fewer than 4,095, and then a
-- newline, leave nothing typed. The bytes that are ready get the line with its newline, as far as the ring
-- has room for it.
pub receive_all-line :
    (t : Tty) (cs : List ℕ)
    → IsValid t
    → TakesLines t
    → pending t ≡ []
    → ArePlain t.termios cs
    → length cs < tty_buf_size - 1
    → let t' = receive_all (cs ++ newline ∷ []) t in
      IsValid t'
      × (pending t' ≡ [])
      × (queue t' ≡ queue t ++ take (t.read_buf.capacity - length (queue t)) (cs ++ newline ∷ []))
receive_all-line t cs v ok empty plain lt =
    let (v', _, _, p, q) = receive_all-Becomes (cs ++ newline ∷ []) t v in
    let cap = t.read_buf.capacity in
    let fed : feed_all t.termios cap (cs ++ newline ∷ []) (pending t, queue t)
        ≡ ([], queue t ++ take (cap - length (queue t)) (cs ++ newline ∷ [])) =
      ap (λ l. feed_all t.termios cap (cs ++ newline ∷ []) (l, queue t)) empty
      ∙ feed_line t.termios cap ok.lines cs [] (queue t) plain (omega arith) ok.not_erase
          ok.not_kill ok.not_eof in
    (v', p ∙ ap (λ w. w.0) fed, q ∙ ap (λ w. w.1) fed)
