-- ===== src/Tty/Read.antt =====
-- kernel/io/tty/n_tty.c: a canonical read gets one line at most, the oldest.
use Prim.Native.Nat.{min}
use yak_kernel.Prelude.{
  ℕ, suc, ◌+◌, ◌-◌, ◌%◌, ◌≤◌, ◌<◌, ◌≡◌, refl, subst, ◌∙◌, ap, ap₂, Bool, true, false, inl, inr,
  List, [], ◌∷◌, ◌++◌, arith, length, length-append, length-tabulate, get_or, take, drop,
  drop-outside, ltb, ◌==◌, if◌then◌else◌, if-true, if-false, Bool-cases,
}
use yak_kernel.RingBuffer.{RingBuffer, ringbuffer_available, ringbuffer_get, min_size}
use yak_kernel.RingBuffer.Bounds.{ringbuffer_get-IsValid}
use yak_kernel.RingBuffer.Refine.{contents, ringbuffer_get_refines}
use yak_kernel.Tty.{
  Termios, Tty, Turn, got, wait, tty_buf_size, newline, line_size, canonical_turn, clear_data,
  leave_read, read_canonical, receive_all,
}
use yak_kernel.Tty.View.{IsValid, pending, queue, take_all}
use yak_kernel.Tty.Line.{first_line, check_line-first_line, ArePlain, TakesLines, receive_all-line}

-- What a canonical read is offered of the ready bytes: the first line, and all of them if there is no newline.
pub offered : List ℕ → ℕ
offered q = if first_line q == 0 then length q else first_line q

module _ (rb : RingBuffer) where
  line_size-offered : line_size rb ≡ offered (contents rb)
  unfolding line_size offered ringbuffer_available
  line_size-offered = ground (
    arith,
    check_line-first_line rb,
    length-tabulate rb.size (λ i. get_or rb.bytes ((rb.tail + i) % rb.capacity) 0),
  )

first_line-le : (q : List ℕ) → first_line q ≤ length q
unfolding first_line
first_line-le [] = omega arith
first_line-le (c ∷ q) = ground (arith, first_line-le q)

offered-le : (q : List ℕ) → offered q ≤ length q
unfolding offered
offered-le q = ground (arith, first_line-le q)

offered-pos : (q : List ℕ) → 0 < length q → 0 < offered q
unfolding offered
offered-pos q h = ground arith

pub leave_read_same : (t : Tty) → (b : Bool) × (leave_read t ≡ record t { data_available = b })
unfolding leave_read
leave_read_same t = elim (Bool-cases (ringbuffer_available t.read_buf == 0)) [
  | inl none_left ↦ (false, if-true _ none_left)
  | inr some_left ↦ (t.data_available, if-false _ some_left)
]

-- What a read that gets something comes to.
abbrev pub Gets : List ℕ → ℕ → Tty → Turn → Type 0
Gets buf len t turn =
    let n = min (offered (queue t)) len in
    (out : List ℕ) × (t' : Tty) × (turn ≡ got n out t')
    × (take n out ≡ take n (queue t))
    × (queue t' ≡ drop n (queue t))
    × (pending t' ≡ pending t)
    × IsValid t'

module _ (t : Tty) (v : IsValid t) (buf : List ℕ) (len : ℕ) (room : len ≤ length buf) where
  -- A turn of the canonical loop that finds bytes ready hands over the first line, or as much of it as
  -- was asked for, and leaves the other bytes as they are.
  pub canonical_turn-Gets : 0 < length (queue t) → Gets buf len t (canonical_turn buf len t)
  unfolding canonical_turn
  canonical_turn-Gets some_ready =
      let n = min_size (line_size t.read_buf) len in
      let m = min (offered (queue t)) len in
      let size = line_size-offered t.read_buf in
      let all =
        length-tabulate t.read_buf.size
          (λ i. get_or t.read_buf.bytes ((t.read_buf.tail + i) % t.read_buf.capacity) 0) in
      let fits : n ≤ length buf = ground arith in
      let (count, front, _, rest) = ringbuffer_get_refines buf n v.ring fits in
      let r = ringbuffer_get t.read_buf buf n in
      let (b, is) = leave_read_same (record (clear_data t) { read_buf = r.2 }) in
      let exact : r.0 ≡ m = ground (arith, count, size, all, offered-le (queue t)) in
      let line : ltb 0 (line_size t.read_buf) ≡ true =
        ground (arith, size, offered-pos (queue t) some_ready) in
      (
        r.1,
        record t { data_available = b; read_buf = r.2 },
        if-true _ line
            ∙ ap (λ k. got k r.1 (leave_read (record (clear_data t) { read_buf = r.2 }))) exact
            ∙ ap (got m r.1) is,
        subst (λ k. take k r.1 ≡ take k (queue t)) exact front,
        rest ∙ ap (λ k. drop k (queue t)) exact,
        refl,
        record {
          ring = ringbuffer_get-IsValid buf n v.ring;
          line_buf = v.line_buf;
          line_fits = v.line_fits;
        },
      )

plain_line :
    (tm : Termios) (cs : List ℕ)
    → ArePlain tm cs
    → first_line (cs ++ newline ∷ []) ≡ suc (length cs)
unfolding first_line
plain_line tm [] plain = refl
plain_line tm (c ∷ cs) ((_, _, _, other), more) = ground (arith, plain_line tm cs more)

offered_plain :
    (tm : Termios) (cs : List ℕ) → ArePlain tm cs → offered (cs ++ newline ∷ []) ≡ suc (length cs)
unfolding offered
offered_plain tm cs plain = ground (arith, plain_line tm cs plain)

-- Without ready bytes a turn waits.
turn_waits :
    (t : Tty) (buf : List ℕ) (len : ℕ)
    → queue t ≡ []
    → canonical_turn buf len t ≡ wait 0 buf (clear_data t)
unfolding canonical_turn offered first_line
turn_waits t buf len none_ready =
    let none_offered : line_size t.read_buf ≡ 0 =
      line_size-offered t.read_buf ∙ ap offered none_ready in
    if-false _ (ap (λ k. ltb 0 k) none_offered)

after_wait :
    (cs : List ℕ) (later : List (List ℕ)) (t : Tty) (buf : List ℕ) (len : ℕ)
    → queue t ≡ []
    → read_canonical (cs ∷ later) buf len t
      ≡ read_canonical later buf len (receive_all cs (clear_data t))
unfolding read_canonical
after_wait cs later t buf len none_ready = rw (read_canonical, turn_waits t buf len none_ready) refl

first_turn :
    (later : List (List ℕ)) (t : Tty) (buf : List ℕ) (len n : ℕ) (out : List ℕ) (t' : Tty)
    → canonical_turn buf len t ≡ got n out t'
    → read_canonical later buf len t ≡ got n out t'
unfolding read_canonical
first_turn [] t buf len n out t' e = e
first_turn (cs ∷ later) t buf len n out t' e = rw (read_canonical, e) refl

-- A read that waits on a valid, empty terminal in canonical mode, with no newline among its control
-- characters, gets the next line that is typed, with its newline, where the characters are no control
-- characters, fewer than 4,095, and fit into the ring and the reader's buffer with the newline. Nothing is
-- left to be read.
pub read_canonical-line :
    (t : Tty) (cs buf : List ℕ) (len : ℕ) (later : List (List ℕ))
    → IsValid t
    → TakesLines t
    → pending t ≡ []
    → queue t ≡ []
    → ArePlain t.termios cs
    → length cs < tty_buf_size - 1
    → length cs < t.read_buf.capacity
    → length cs < len
    → len ≤ length buf
    → (out : List ℕ) × (t' : Tty) × (read_canonical ((cs ++ newline ∷ []) ∷ later) buf len t
        ≡ got (suc (length cs)) out t')
      × (take (suc (length cs)) out ≡ cs ++ newline ∷ [])
      × (queue t' ≡ [])
read_canonical-line t cs buf len later v ok empty none_ready plain short fits asked room =
    let line = cs ++ newline ∷ [] in
    let t0 = clear_data t in
    let t1 = receive_all line t0 in
    let long : length line ≡ suc (length cs) = omega (arith, length-append cs (newline ∷ [])) in
    let v0 : IsValid t0 = record {
      ring = v.ring;
      line_buf = v.line_buf;
      line_fits = v.line_fits;
    } in
    let (v1, _, q1) =
      receive_all-line t0 cs v0
        (record {
          lines = ok.lines;
          not_erase = ok.not_erase;
          not_kill = ok.not_kill;
          not_eof = ok.not_eof;
        })
        empty plain short in
    let ready : queue t1 ≡ line =
      q1
      ∙ ap (λ q. q ++ take (t.read_buf.capacity - length q) line) none_ready
      ∙ take_all (t.read_buf.capacity - 0) line (omega (arith, long)) in
    let n : min (offered (queue t1)) len ≡ suc (length cs) =
      ap (λ q. min (offered q) len) ready
      ∙ ap (λ k. min k len) (offered_plain t.termios cs plain)
      ∙ omega arith in
    let (out, t', is, front, rest, _, _) =
      canonical_turn-Gets t1 v1 buf len room (omega (arith, ap length ready, long)) in
    (
      out,
      t',
      after_wait line later t buf len none_ready
          ∙ first_turn later t1 buf len _ out t' is
          ∙ ap (λ k. got k out t') n,
      subst (λ k. take k out ≡ take k (queue t1)) n front
          ∙ ap (take (suc (length cs))) ready
          ∙ take_all (suc (length cs)) line (omega (arith, long)),
      rest ∙ ap₂ drop n ready ∙ drop-outside (suc (length cs)) line (omega (arith, long)),
    )
