-- ===== src/Timer/Order.antt =====
-- The heap order of the event queue, and the check that the kernel makes of it.
use project_islay.Prelude.{ℕ, zero, suc, ◌-◌, ◌≤◌, ◌<◌, ◌≡◌, true, List, arith, length, take}
use project_islay.Timer.{
  Event, Timer, stamp, parent, left_child, right_child, verify_minheap_property,
}

-- Every entry below the root is due no earlier than its parent.
abbrev pub IsHeap : List Event → ℕ → Type 0
IsHeap a size = (c : ℕ) → 0 < c → c < size → stamp a (parent c) ≤ stamp a c

-- the events in the queue
abbrev pub items : Timer → List Event
items t = take t.size t.array

-- The array holds the queue, the queue is within its allocation, and it is ordered.
pub record IsValid (t : Timer) : Type 0 where
  pub fits : t.size ≤ t.max_size
  pub stored : t.max_size ≤ length t.array
  pub ordered : IsHeap t.array t.size

-- The root of a heap is the earliest entry.
pub root_least :
    (k : ℕ) (a : List Event) (size i : ℕ) → IsHeap a size → i < k → i < size → stamp a 0 ≤ stamp a i
root_least zero a size i h f p = absurd (omega arith)
root_least (suc k) a size zero h f p = omega arith
root_least (suc k) a size (suc i) h f p = omega (
  arith,
  h (suc i) (omega arith) p,
  root_least k a size (parent (suc i)) h (omega arith) (omega arith),
)

pub left_parent : (index : ℕ) → parent (left_child index) ≡ index
left_parent index = omega arith

pub right_parent : (index : ℕ) → parent (right_child index) ≡ index
right_parent index = omega arith

-- Both edges below `index` are in order.
pub children_ordered :
    (a : List Event) (size index : ℕ)
    → IsHeap a size
    → (left_child index < size → stamp a index ≤ stamp a (left_child index))
      × (right_child index < size → stamp a index ≤ stamp a (right_child index))
children_ordered a size index h = (
  λ p. rw (left_parent index) at (h (left_child index) (omega arith) p),
  λ p. rw (right_parent index) at (h (right_child index) (omega arith) p),
)

-- On an ordered queue the check of `VERIFY_HEAP` succeeds.
pub verify_minheap_property_lem :
    (k : ℕ) (a : List Event) (size index : ℕ)
    → IsHeap a size
    → size - index < k
    → verify_minheap_property k a size index ≡ true
unfolding verify_minheap_property
verify_minheap_property_lem zero a size index h f = absurd (omega arith)
verify_minheap_property_lem (suc k) a size index h f = ground (
  arith,
  children_ordered a size index h,
  verify_minheap_property_lem k a size (left_child index) h,
  verify_minheap_property_lem k a size (right_child index) h,
)
