-- ===== src/Tty/Tests.antt =====
-- Runs of the line discipline of kernel/io/tty/n_tty.c, and the theorems at them.
use yak_kernel.Prelude.{
  ℕ, ◌≡◌, ◌<◌, refl, true, false, none, some, arith, List, [], ◌∷◌, length, length-replicate,
  replicate, take, drop,
}
use Prim.Native.Nat.{min}
use yak_kernel.RingBuffer.{RingBuffer}
use yak_kernel.Tty.{Termios, Tty, got, tty_buf_size, receive_all, read_canonical, raw_loop, written}
use yak_kernel.Tty.View.{IsValid, pending, queue}
use yak_kernel.Tty.Steps.{Becomes}
use yak_kernel.Tty.Receive.{feed_all, receive_all-Becomes}
use yak_kernel.Tty.Line.{TakesLines}
use yak_kernel.Tty.Read.{read_canonical-line}
use yak_kernel.Tty.Raw.{raw_loop-spins, raw_loop-gets}

-- As `default_termios` has them.
abbrev cooked : Termios
cooked = record {
  icanon = true;
  echo = true;
  echonl = false;
  opost = true;
  onlcr = true;
  ocrnl = false;
  verase = 0x7f;
  vkill = 0x15;
  veof = 4;
  vmin = 1;
  vtime = 0;
}

abbrev ring : List ℕ → ℕ → RingBuffer
ring bytes n = record { bytes = bytes; capacity = 8; size = n; head = n; tail = 0 }

unfoldable line_storage : List ℕ
line_storage = replicate tty_buf_size 0

abbrev quiet : Termios → List ℕ → ℕ → Tty
quiet tm bytes n = record {
  termios = tm;
  read_buf = ring bytes n;
  canonical_buf = line_storage;
  canonical_pos = 0;
  data_available = false;
  poll_event = false;
  output = [];
}

abbrev idle_tty : Tty
idle_tty = quiet cooked (replicate 8 0) 0

-- "hi\n"
abbrev ready_tty : Tty
ready_tty =
    quiet (record cooked { icanon = false; vmin = 1 }) (104 ∷ 105 ∷ 10 ∷ 0 ∷ 0 ∷ 0 ∷ 0 ∷ 0 ∷ []) 3

abbrev greedy_tty : Tty
greedy_tty = record ready_tty { termios = record cooked { icanon = false; vmin = 2 } }

storage_long : length line_storage ≡ tty_buf_size
unfolding line_storage
storage_long = length-replicate {A = ℕ} tty_buf_size 0

quiet-IsValid :
    (tm : Termios) (bytes : List ℕ) (n : ℕ) → length bytes ≡ 8 → n < 8 → IsValid (quiet tm bytes n)
quiet-IsValid tm bytes n e lt = record {
  ring = record {
    storage = e;
    nonempty = omega arith;
    small = omega arith;
    size_in = omega arith;
    tail_in = omega arith;
    head_in = lt;
    head_is = ground arith;
  };
  line_buf = storage_long;
  line_fits = omega arith;
}

idle_tty-IsValid : IsValid idle_tty
idle_tty-IsValid = quiet-IsValid cooked (replicate 8 0) 0 refl (omega arith)

ready_tty-IsValid : IsValid ready_tty
ready_tty-IsValid = quiet-IsValid ready_tty.termios ready_tty.read_buf.bytes 3 refl (omega arith)

greedy_tty-IsValid : IsValid greedy_tty
greedy_tty-IsValid = quiet-IsValid greedy_tty.termios ready_tty.read_buf.bytes 3 refl (omega arith)

idle_tty-TakesLines : TakesLines idle_tty
idle_tty-TakesLines = record { lines = refl; not_erase = refl; not_kill = refl; not_eof = refl }

newlines : written cooked 10 ≡ 13 ∷ 10 ∷ []
unfolding written
newlines = refl

-- 'h' is no control character.
receive_all-Becomes_example :
    Becomes idle_tty
      (receive_all (104 ∷ 10 ∷ []) idle_tty)
      (feed_all cooked 8 (104 ∷ 10 ∷ []) (pending idle_tty, queue idle_tty))
receive_all-Becomes_example = receive_all-Becomes (104 ∷ 10 ∷ []) idle_tty idle_tty-IsValid

read_canonical-line_example :
    (out : List ℕ) × (t' : Tty) × (read_canonical
        ((104 ∷ 105 ∷ 10 ∷ []) ∷ [])
        (replicate 6 0)
        6
        idle_tty
      ≡ got 3 out t')
    × (take 3 out ≡ 104 ∷ 105 ∷ 10 ∷ [])
    × (queue t' ≡ [])
read_canonical-line_example =
    read_canonical-line idle_tty (104 ∷ 105 ∷ []) (replicate 6 0) 6 [] idle_tty-IsValid
      idle_tty-TakesLines refl refl ((refl, refl, refl, refl), ((refl, refl, refl, refl), tt))
      (omega arith) (omega arith) (omega arith) (omega arith)

raw_loop-spins_example : raw_loop 1000 [] true 0 (0 ∷ []) 1 greedy_tty ≡ none
raw_loop-spins_example =
    raw_loop-spins 1000 [] greedy_tty (0 ∷ []) 1 greedy_tty-IsValid (omega arith) (omega arith)
      (omega arith) (omega arith)

raw_loop-gets_example :
    let n = min 3 2 in
    (out : List ℕ) × (t' : Tty) × (raw_loop 2 [] true 0 (0 ∷ 0 ∷ []) 2 ready_tty
      ≡ some (got n out t'))
    × (take n out ≡ take n (queue ready_tty))
    × (queue t' ≡ drop n (queue ready_tty))
raw_loop-gets_example =
    raw_loop-gets 0 [] ready_tty (0 ∷ 0 ∷ []) 2 ready_tty-IsValid (omega arith) refl (omega arith)
      (omega arith) (omega arith)
