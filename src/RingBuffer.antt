-- ===== src/RingBuffer.antt =====
-- kernel/core/ringbuffer.c: a byte ring over a buffer of fixed capacity. An operation that updates
-- `*rb` returns the new ring beside its result. `size_t` sums and differences wrap at 2^64. The
-- buffer that `kmalloc` returns is an argument, `none` for NULL.
pub mod Bounds
pub mod Refine
mod Tests
use yak_kernel.Prelude.{
  ℕ, ◌+◌, ◌%◌, Bool, List, length, Option, none, some, ltb, ◌==◌, if◌then◌else◌, add_size, sub_size,
}
use yak_kernel.Status.{Status, success, invalid_args, oom}
use yak_kernel.MemCopy.{memcpy}

-- `struct ringbuffer`
pub record RingBuffer : Type 0 where
  pub bytes : List ℕ
  pub capacity : ℕ
  pub size : ℕ
  pub head : ℕ
  pub tail : ℕ

abbrev fresh : List ℕ → ℕ → RingBuffer
fresh storage cap = record { bytes = storage; capacity = cap; size = 0; head = 0; tail = 0 }

-- `none` as the ring is a null `rb`.
pub ringbuffer_init : Option RingBuffer → ℕ → Option (List ℕ) → Status × Option RingBuffer
ringbuffer_init none cap storage = (invalid_args, none)
ringbuffer_init (some rb) cap none = if cap == 0 then (invalid_args, some rb) else (oom, some rb)
ringbuffer_init (some rb) cap (some storage) =
    if cap == 0 then (invalid_args, some rb) else (success, some (fresh storage cap))

pub ringbuffer_static_init : Option RingBuffer → ℕ → Option (List ℕ) → Status × Option RingBuffer
ringbuffer_static_init none cap backing = (invalid_args, none)
ringbuffer_static_init (some rb) cap none = (invalid_args, some rb)
ringbuffer_static_init (some rb) cap (some backing) =
    if cap == 0 then (invalid_args, some rb) else (success, some (fresh backing cap))

abbrev pub min_size : ℕ → ℕ → ℕ
min_size a b = if ltb a b then a else b

-- `first_chunk`: what fits between the index and the end of the buffer.
abbrev pub first_chunk : ℕ → ℕ → ℕ
first_chunk room n = if ltb n room then n else room

-- The two copies of `ringbuffer_put`.
pub put_bytes : RingBuffer → List ℕ → ℕ → List ℕ
put_bytes rb buf n =
    let first = first_chunk (sub_size rb.capacity rb.head) n in
    let once = memcpy rb.bytes rb.head buf 0 first in
    let remaining = sub_size n first in
    if ltb 0 remaining then memcpy once 0 buf first remaining else once

pub ringbuffer_put : RingBuffer → List ℕ → ℕ → ℕ × RingBuffer
ringbuffer_put rb buf count =
    let free = sub_size rb.capacity rb.size in
    let n = min_size count free in
    let after : RingBuffer = record rb {
      bytes = put_bytes rb buf n;
      head = add_size rb.head n % rb.capacity;
      size = add_size rb.size n;
    } in
    if count == 0 then (0, rb) else if free == 0 then (0, rb) else (n, after)

-- The two copies of `ringbuffer_get`, into the caller's buffer.
pub get_bytes : RingBuffer → List ℕ → ℕ → List ℕ
get_bytes rb buf n =
    let first = first_chunk (sub_size rb.capacity rb.tail) n in
    let once = memcpy buf 0 rb.bytes rb.tail first in
    let remaining = sub_size n first in
    if ltb 0 remaining then memcpy once first rb.bytes 0 remaining else once

pub ringbuffer_get : RingBuffer → List ℕ → ℕ → ℕ × List ℕ × RingBuffer
ringbuffer_get rb buf count =
    let n = min_size count rb.size in
    let after : RingBuffer = record rb {
      tail = add_size rb.tail n % rb.capacity;
      size = sub_size rb.size n;
    } in
    if count == 0
    then (0, buf, rb)
    else if rb.size == 0
    then (0, buf, rb)
    else (n, get_bytes rb buf n, after)

unfoldable pub ringbuffer_available : RingBuffer → ℕ
ringbuffer_available rb = rb.size
