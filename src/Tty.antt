-- ===== src/Tty.antt =====
-- kernel/io/tty/n_tty.c: the line discipline of a terminal. Each function here is what the code does under one
-- hold of `read_mutex`. A character is a byte below 128, so that the sign of `char` is of no account. What the
-- driver is given to write is kept in order; the two events are whether they are signalled.
pub mod View
pub mod Steps
pub mod Receive
pub mod Line
pub mod Read
pub mod Raw
mod Tests
use yak_kernel.Prelude.{
  ℕ, zero, suc, ◌+◌, ◌-◌, ◌*◌, ◌%◌, Bool, true, false, ◌&&◌, ◌||◌, not, List, [], ◌∷◌, ◌++◌, Option,
  none, some, get_or, set, take, drop, ltb, ◌==◌, if◌then◌else◌, sub_size,
}
use yak_kernel.RingBuffer.{
  RingBuffer, ringbuffer_put, ringbuffer_get, ringbuffer_available, min_size,
}

-- The fields of `struct termios` that the line discipline reads: `c_lflag`, `c_oflag` and `c_cc`.
pub record Termios : Type 0 where
  pub icanon : Bool
  pub echo : Bool
  pub echonl : Bool
  pub opost : Bool
  pub onlcr : Bool
  pub ocrnl : Bool
  pub verase : ℕ
  pub vkill : ℕ
  pub veof : ℕ
  pub vmin : ℕ
  pub vtime : ℕ

-- `struct tty`, with the events `data_available` and `vnode->poll_event`.
pub record Tty : Type 0 where
  pub termios : Termios
  pub read_buf : RingBuffer
  pub canonical_buf : List ℕ
  pub canonical_pos : ℕ
  pub data_available : Bool
  pub poll_event : Bool
  pub output : List ℕ

abbrev pub tty_buf_size : ℕ
tty_buf_size = 4096

abbrev pub newline : ℕ
newline = 10

abbrev pub return : ℕ
return = 13

-- `"\b \b"`
abbrev pub rub_out : List ℕ
rub_out = 8 ∷ 32 ∷ 8 ∷ []

abbrev pub driver_write : List ℕ → Tty → Tty
driver_write bytes t = record t { output = t.output ++ bytes }

-- Bytes are put into `read_buf`, and both events are alarmed.
abbrev pub deliver : List ℕ → ℕ → Tty → Tty
deliver bytes n t = record t {
  read_buf = (ringbuffer_put t.read_buf bytes n).1;
  data_available = true;
  poll_event = true;
}

pub commit_line : Tty → Tty
commit_line t =
    if t.canonical_pos == 0
    then t
    else record (deliver t.canonical_buf t.canonical_pos t) { canonical_pos = 0 }

pub do_echo : ℕ → Tty → Tty
do_echo c t =
    if not t.termios.echo
    then (if (c == newline) && t.termios.echonl then driver_write (c ∷ []) t else t)
    else driver_write (c ∷ []) t

-- The loop of the line delete: `n` is `canonical_pos`.
pub rub_out_line : ℕ → Tty → Tty
rub_out_line zero t = t
rub_out_line (suc n) t = rub_out_line n (driver_write rub_out (record t { canonical_pos = n }))

pub erase_char : Tty → Tty
erase_char t =
    let t' : Tty = record t { canonical_pos = t.canonical_pos - 1 } in
    if ltb 0 t.canonical_pos then (if t.termios.echo then driver_write rub_out t' else t') else t

pub kill_line : Tty → Tty
kill_line t =
    if t.termios.echo then rub_out_line t.canonical_pos t else record t { canonical_pos = 0 }

pub store_char : ℕ → Tty → Tty
store_char c t =
    if ltb t.canonical_pos (tty_buf_size - 1)
    then record t {
      canonical_buf = set t.canonical_buf t.canonical_pos c;
      canonical_pos = t.canonical_pos + 1;
    }
    else t

pub receive_canonical : ℕ → Tty → Tty
receive_canonical c t =
    let stored = do_echo c (store_char c t) in
    if c == t.termios.verase
    then erase_char t
    else if c == t.termios.vkill
    then kill_line t
    else if c == t.termios.veof
    then commit_line t
    else if c == newline
    then commit_line stored
    else stored

pub receive_char : ℕ → Tty → Tty
receive_char c t = if t.termios.icanon then receive_canonical c t else deliver (c ∷ []) 1 t

-- The loop of `check_line`, with `n` turns left from the index `i`.
pub check_loop : ℕ → ℕ → RingBuffer → ℕ
check_loop zero i rb = 0
check_loop (suc n) i rb =
    let rest = check_loop n (i + 1) rb in
    if get_or rb.bytes ((rb.tail + i) % rb.capacity) 0 == newline then i + 1 else rest

pub check_line : RingBuffer → ℕ
check_line rb = check_loop (ringbuffer_available rb) 0 rb

-- The number of bytes that a canonical read is offered: a line, or what there is of one.
pub line_size : RingBuffer → ℕ
line_size rb =
    let n = check_line rb in
    if (n == 0) && ltb 0 (ringbuffer_available rb) then ringbuffer_available rb else n

-- What a turn of a reading loop comes to: bytes got into the caller's buffer, or a wait for data.
pub data Turn : Type 0 where
  got wait : ℕ → List ℕ → Tty → Turn

abbrev pub clear_data : Tty → Tty
clear_data t = record t { data_available = false }

-- The event is cleared behind the loops, when nothing is left.
pub leave_read : Tty → Tty
leave_read t = if ringbuffer_available t.read_buf == 0 then clear_data t else t

-- A turn of the canonical loop, up to the wait.
pub canonical_turn : List ℕ → ℕ → Tty → Turn
canonical_turn buf len t =
    let n = line_size t.read_buf in
    let r = ringbuffer_get t.read_buf buf (min_size n len) in
    if ltb 0 n
    then got r.0 r.1 (leave_read (record (clear_data t) { read_buf = r.2 }))
    else wait 0 buf (clear_data t)

pub receive_all : List ℕ → Tty → Tty
receive_all [] t = t
receive_all (c ∷ cs) t = receive_all cs (receive_char c t)

-- A canonical read. Each wait ends after some characters have come in, with the mutex free. `wait` as the
-- result is a read that still waits when the list is at its end.
pub read_canonical : List (List ℕ) → List ℕ → ℕ → Tty → Turn
read_canonical [] buf len t = canonical_turn buf len t
read_canonical (cs ∷ later) buf len t = elim (canonical_turn buf len t) [
  | got n out t' ↦ got n out t'
  | wait n out t' ↦ read_canonical later buf len (receive_all cs t')
]

-- A wait of a raw read that ends: whether `sched_wait` reports no error, and what has come in meanwhile.
pub record Wakeup : Type 0 where
  pub in_time : Bool
  pub chars : List ℕ

-- The condition of the raw loop.
pub wants_more : Termios → ℕ → Bool
wants_more tm n = (n == 0) || (ltb 0 tm.vmin && ltb n tm.vmin)

-- A turn of the raw loop that finds data: `n` bytes are in the buffer, and `buf + n` is what follows them.
pub raw_take : ℕ → List ℕ → ℕ → Tty → ℕ × List ℕ × Tty
raw_take n buf len t =
    let avail = ringbuffer_available t.read_buf in
    let r = ringbuffer_get t.read_buf (drop n buf) (min_size avail (sub_size len n)) in
    (n + r.0, take n buf ++ r.1, record (clear_data t) { read_buf = r.2 })

-- The raw loop. `none` is a loop that is out of fuel, `first` the variable `first_byte`.
pub raw_loop : ℕ → List Wakeup → Bool → ℕ → List ℕ → ℕ → Tty → Option Turn
raw_loop zero wakeups first n buf len t = none
raw_loop (suc fuel) wakeups first n buf len t =
    let tm = t.termios in
    let (n', buf', t') = raw_take n buf len t in
    let next = raw_loop fuel wakeups false n' buf' len t' in
    let waited : Option Turn = elim wakeups [
      | [] ↦ some (wait n buf (clear_data t))
      | w ∷ later ↦
          let u = receive_all w.chars (clear_data t) in
          let rest = raw_loop fuel later first n buf len u in
          let idle = ltb 0 tm.vtime && not first && (ringbuffer_available u.read_buf == 0) in
          if not w.in_time
          then some (got n buf (leave_read u))
          else if idle
          then some (got n buf (leave_read u))
          else rest
    ] in
    if not (wants_more tm n)
    then some (got n buf (leave_read t))
    else if ltb 0 (ringbuffer_available t.read_buf)
    then (if tm.vmin == 0 then some (got n' buf' (leave_read t')) else next)
    else waited

-- What `write` gives the driver for a character.
pub written : Termios → ℕ → List ℕ
written tm c =
    if tm.opost
    then (if (c == newline) && tm.onlcr
        then return ∷ newline ∷ []
        else if (c == return) && tm.ocrnl
        then newline ∷ []
        else c ∷ [])
    else c ∷ []

pub write_loop : List ℕ → Tty → Tty
write_loop [] t = t
write_loop (c ∷ cs) t = write_loop cs (driver_write (written t.termios c) t)

-- `buf` holds `len` bytes, all of which are written.
pub write : List ℕ → Tty → Tty
write buf t = write_loop buf t

-- `poll` for `POLLIN` and `POLLOUT` in the mask: which of them it sets.
pub poll : Bool → Bool → Tty → Bool × Bool
poll want_in want_out t =
    let lines = ltb 0 (check_line t.read_buf) in
    let bytes = ltb 0 (ringbuffer_available t.read_buf) in
    (want_in && (if t.termios.icanon then lines else bytes), want_out)
