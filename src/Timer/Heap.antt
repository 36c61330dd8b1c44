-- ===== src/Timer/Heap.antt =====
-- What the timers of kernel/core/timer.c rely on of a heap: that it holds the entries that were inserted and
-- not removed, and gives the one with the least deadline.
use yak_kernel.Prelude.{ℕ, ◌<◌, ◌≤◌, ◌≡◌, ◌≢◌, Option, none, some, ◌==◌, if◌then◌else◌}
use yak_kernel.Timer.{TimerHeap}

-- `has h i` is the deadline of the entry `i`, if the heap has it, and `size` the number of entries.
pub record IsHeap (heap : TimerHeap) : Type 0 where
  pub has : heap.Heap → ℕ → Option ℕ
  pub size : heap.Heap → ℕ
  pub has_insert :
      (d i : ℕ) (h : heap.Heap) (j : ℕ)
      → has h i ≡ none
      → has (heap.insert d i h) j ≡ (if i == j then some d else has h j)
  pub has_remove :
      (i : ℕ) (h : heap.Heap) (d j : ℕ)
      → has h i ≡ some d
      → has (heap.remove i h) j ≡ (if i == j then none else has h j)
  pub has_pop :
      (h : heap.Heap) (i j : ℕ)
      → heap.peek h ≡ some i
      → has (heap.pop h) j ≡ (if i == j then none else has h j)
  pub peek_has : (h : heap.Heap) (i : ℕ) → heap.peek h ≡ some i → has h i ≢ none
  pub peek_least :
      (h : heap.Heap) (i j d e : ℕ)
      → heap.peek h ≡ some i
      → has h i ≡ some d
      → has h j ≡ some e
      → d ≤ e
  pub peek_none : (h : heap.Heap) (j : ℕ) → heap.peek h ≡ none → has h j ≡ none
  pub size_pop : (h : heap.Heap) (i : ℕ) → heap.peek h ≡ some i → size (heap.pop h) < size h
