-- ===== src/Timer.antt =====
-- kernel/devices/timer.c: the time since boot and the queue of timed events, a binary heap in an
-- array.
pub mod Order
pub mod Heapify
pub mod Extract
pub mod Register
pub mod Pulse
mod Tests
use project_islay.Prelude.{
  ℕ, zero, suc, ◌+◌, ◌-◌, ◌*◌, ◌/◌, ◌%◌, ◌^◌, Bool, true, false, not, ◌&&◌, Option, none, some, ◌⊎◌,
  inl, inr, List, [], ◌∷◌, if◌then◌else◌, ltb, leb, ◌==◌, ◌>>=◌, get_or, set,
}
use project_islay.Prelude.Arrays.{swap}

-- `timed_event_t`; a callback is known by its address.
pub record Event : Type 0 where
  pub timestamp_ns : ℕ
  pub callback : ℕ

-- `event_queue` and `time_since_boot_ns`. `array` is the allocated memory.
pub record Timer : Type 0 where
  pub array : List Event
  pub size : ℕ
  pub max_size : ℕ
  pub time_since_boot_ns : ℕ

abbrev pub no_event : Event
no_event = record { timestamp_ns = 0; callback = 0 }

abbrev pub timed_event : ℕ → ℕ → Event
timed_event t c = record { timestamp_ns = t; callback = c }

-- `event_queue.array[i]`; the invariant keeps every read inside the array.
abbrev pub entry : List Event → ℕ → Event
entry a i = get_or a i no_event

-- `get_entry(i)->timestamp_ns`
abbrev pub stamp : List Event → ℕ → ℕ
stamp a i = (entry a i).timestamp_ns

-- `GET_PARENT` for `n != 0`, `GET_LEFT_CHILD`, `GET_RIGHT_CHILD`
abbrev pub parent : ℕ → ℕ
parent n = (n - 1) / 2

abbrev pub left_child : ℕ → ℕ
left_child n = n * 2 + 1

abbrev pub right_child : ℕ → ℕ
right_child n = n * 2 + 2

-- The check of `VERIFY_HEAP` on fuel: does every entry below `index` respect the order?
unfoldable pub verify_minheap_property : ℕ → List Event → ℕ → ℕ → Bool
verify_minheap_property zero a size index = false
verify_minheap_property (suc k) a size index =
    let left = left_child index in
    let right = right_child index in
    let below_left = verify_minheap_property k a size left in
    let below_right = verify_minheap_property k a size right in
    let left_ok =
      if ltb left size
      then (if ltb (stamp a left) (stamp a index) then false else below_left)
      else true in
    let right_ok =
      if ltb right size
      then (if ltb (stamp a right) (stamp a index) then false else below_right)
      else true in
    if left_ok then right_ok else false

-- the entry that `heapify` puts on top: of `index` and its children inside the heap the least
unfoldable pub smallest_of : List Event → ℕ → ℕ → ℕ
smallest_of a size index =
    let left = left_child index in
    let right = right_child index in
    let smallest = if ltb left size && ltb (stamp a left) (stamp a index) then left else index in
    if ltb right size && ltb (stamp a right) (stamp a smallest) then right else smallest

-- `none`: the fuel ran out.
unfoldable pub heapify : ℕ → List Event → ℕ → ℕ → Option (List Event)
unfolding smallest_of swap
heapify zero a size index = none
heapify (suc k) a size index =
    let smallest = smallest_of a size index in
    let rest = heapify k (swap no_event a smallest index) size smallest in
    if smallest == index then some a else rest

-- `VERIFY_HEAP()`, a panic if the order is broken
unfoldable pub verify_heap : Timer → Option Timer
verify_heap t = if verify_minheap_property (t.size + 1) t.array t.size 0 then some t else none

unfoldable pub extract_min_element : Timer → Option (Event × Timer)
extract_min_element t = do
  let event = entry t.array 0
  let size = t.size - 1
  array ← heapify (size + 1) (set t.array 0 (entry t.array size)) size 0
  t' ← verify_heap (record t { array = array; size = size })
  some (event, t')

-- `while (i != 0 && get_parent(i)->timestamp_ns > timestamp_ns)` on fuel
unfoldable pub sift_up : ℕ → List Event → ℕ → ℕ → Option (List Event)
unfolding swap
sift_up zero a i timestamp_ns = none
sift_up (suc k) a i timestamp_ns =
    let rest = sift_up k (swap no_event a (parent i) i) (parent i) timestamp_ns in
    if not (i == 0) && ltb timestamp_ns (stamp a (parent i)) then rest else some a

abbrev pub initial_queue_size : ℕ
initial_queue_size = 10

-- `sizeof(timed_event_t)` on i686
abbrev pub event_bytes : ℕ
event_bytes = 12

-- `krealloc` of the heap allocator on the array: the new block, or NULL with what is left of the old block, which
-- is then free and belongs to the allocator again.
abbrev pub Krealloc : Type 0
Krealloc = List Event → ℕ → List Event ⊎ List Event

-- `if (event_queue.size == event_queue.max_size) ...`, and whether the registration goes on
unfoldable pub grow : Krealloc → Timer → Bool × Timer
grow krealloc t =
    if t.size == t.max_size
    then (let new_max_size =
          if t.max_size == 0 then initial_queue_size else t.max_size * 2 % 2 ^ 32 in
        elim (krealloc t.array (event_bytes * new_max_size % 2 ^ 32)) [
          | inl old_array ↦ (false, record t { array = old_array })
          | inr new_array ↦ (true, record t { array = new_array; max_size = new_max_size })
        ])
    else (true, t)

-- The result is `false` if the array cannot grow; `event_queue` then still points to the old array, which
-- `krealloc` has freed. `none` is a panic of the check at the end, or fuel that ran out.
unfoldable pub timer_register_timed_event : Krealloc → Timer → ℕ → ℕ → Option (Bool × Timer)
timer_register_timed_event krealloc t timestamp_ns callback =
    let (grown, t') = grow krealloc t in
    if grown
    then (do
      let i = t'.size
      array ← sift_up (i + 1) (set t'.array i (timed_event timestamp_ns callback)) i timestamp_ns
      t'' ← verify_heap (record t' { array = array; size = t'.size + 1 })
      some (true, t''))
    else some (false, t')

unfoldable pub timer_get_time_since_boot : Timer → ℕ
timer_get_time_since_boot t = t.time_since_boot_ns

-- A callback is run on the timer, since it may register further events; `none` is a panic inside it.
abbrev pub Callback : Type 0
Callback = Event → ℕ → Timer → Option Timer

-- The loop of `timer_report_clock_pulse` on fuel, with the events that it ran.
unfoldable pub run_events : Callback → ℕ → Timer → Option (List Event × Timer)
run_events callback zero t = none
run_events callback (suc k) t =
    let rest = (do
      (event, t') ← extract_min_element t
      t'' ← callback event t.time_since_boot_ns t'
      (events, t''') ← run_events callback k t''
      some (event ∷ events, t''')) in
    if ltb 0 t.size && leb (stamp t.array 0) t.time_since_boot_ns then rest else some ([], t)

unfoldable pub timer_report_clock_pulse : Callback → ℕ → Timer → ℕ → Option (List Event × Timer)
timer_report_clock_pulse callback fuel t period_ns =
    run_events callback fuel
      (record t { time_since_boot_ns = (t.time_since_boot_ns + period_ns) % 2 ^ 64 })
