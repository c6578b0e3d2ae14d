-- ===== src/Memory/Heap/Segments.antt =====
-- kernel/memory/heap_allocator.c: heap segments and `internal_alloc`.
use project_islay.Prelude.{
  ℕ, zero, suc, ◌+◌, ◌-◌, ◌/◌, Bool, true, false, Option, none, some, ◌==◌, ltb, ◌>>=◌,
  if◌then◌else◌,
}
use project_islay.Memory.Heap.{
  Heap, dead, add_word, sub_word, clear_alloc_bit, tag_size, store, verify_free_block,
  align_by_multiple, total_size, find_fit, take_block,
}

-- `2 * sizeof(boundary_tag_t) + sizeof(heap_segment_t)`
abbrev pub header_size : ℕ
header_size = 20

-- `8 * PAGE_SIZE`
abbrev pub eight_pages : ℕ
eight_pages = 32768

-- `SEGMENT_SIZE`
abbrev pub segment_size : ℕ
segment_size = 65536

-- the `next`, `prev` and `size` fields of a segment
abbrev pub segment_next : Heap → ℕ → ℕ
segment_next h seg = h.mem seg

unfoldable pub set_segment : Heap → ℕ → ℕ → Heap
unfolding store
set_segment h seg size = store (store (store h (seg + 8) size) seg 0) (seg + 4) 0

-- `alloc_size` in `alloc_heap_segment`
unfoldable pub alloc_size : ℕ → ℕ
unfolding align_by_multiple
alloc_size size =
    let wanted = add_word size header_size in
    align_by_multiple (if ltb segment_size wanted then wanted else segment_size) eight_pages

-- The header, the boundary tags and the free block between them.
unfoldable pub lay_segment : Heap → ℕ → ℕ → Option Heap
unfolding set_segment store verify_free_block
lay_segment h seg size =
    let heap_start = seg + 12 in
    let heap_end = sub_word (add_word seg size) 4 in
    let h1 = store (store (set_segment h seg size) heap_start 1) heap_end 1 in
    let start = heap_start + 4 in
    let end_tag = sub_word heap_end 4 in
    let h2 =
      store (store h1 start (sub_word size header_size)) end_tag (sub_word size header_size) in
    let h3 = store h2 (start + 4) dead in
    if verify_free_block h3 start end_tag then some h3 else none

unfoldable pub create_entry_for_segment : Heap → ℕ → ℕ × Heap
unfolding store
create_entry_for_segment h segment =
    let start = segment + 16 in
    let head = start + 8 in
    (
      head,
      store (store (store h (head + 4) 0) head 0) (head + 8) (clear_alloc_bit (tag_size h start)),
    )

-- the last segment of the list
unfoldable pub find_last_segment : ℕ → Heap → ℕ → Option ℕ
find_last_segment zero h seg = none
find_last_segment (suc fuel) h seg =
    let rest = find_last_segment fuel h (segment_next h seg) in
    if segment_next h seg == 0 then some seg else rest

unfoldable pub append_heap_segment : ℕ → Heap → ℕ → Option Heap
unfolding find_last_segment store
append_heap_segment fuel h segment = if h.segments == 0 then none else (do
  seg ← find_last_segment fuel h h.segments
  some (store (store (store h seg segment) (segment + 4) seg) segment 0))

-- The new entry in front of the free list.
unfoldable pub prepend_entry : Heap → ℕ → Heap
unfolding store
prepend_entry h new_entry =
    let prev_head = h.free_list in
    let h1 = store (record h { free_list = new_entry }) (new_entry + 4) prev_head in
    if prev_head == 0 then h1 else store h1 prev_head new_entry

-- `spinlock_lock(&global_heap_lock)` and `spinlock_unlock`
unfoldable pub lock_heap : Heap → Option Heap
lock_heap h = if h.lock == 0 then some (record h { lock = 1 }) else none

unfoldable pub unlock_heap : Heap → Heap
unlock_heap h = record h { lock = h.lock - 1 }

-- `alignment` is `alignof(max_align_t)`. `request` is `vmem_request_free_pages(FPO_CLEAR, n)`, on the state of
-- the virtual memory manager; it returns 0 when it has no pages. `fuel` bounds the loops over the lists.
module _ {V : Type 0} (alignment : ℕ) (request : V → ℕ → Option (ℕ × V)) (fuel : ℕ) where
  -- `alloc_heap_segment`, which returns the segment or 0
  unfoldable pub alloc_heap_segment : V → Heap → ℕ → Option (ℕ × V × Heap)
  unfolding lay_segment alloc_size
  alloc_heap_segment v h size = do
    (seg, v') ← request v (alloc_size size / eight_pages)
    if seg == 0
        then some (0, v', h)
        else (do h' ← lay_segment h seg (alloc_size size); some (seg, v', h'))

  -- The first segment, if the heap has none; `false` if there is no memory for it.
  unfoldable pub init_heap : V → Heap → ℕ → Option (Bool × V × Heap)
  unfolding alloc_heap_segment create_entry_for_segment
  init_heap v h total =
      if h.segments == 0
      then (do
        (seg, v', h') ← alloc_heap_segment v h total
        let (head, h'') = create_entry_for_segment (record h' { segments = seg }) seg
        if seg == 0
            then some (false, v', record h' { segments = 0 })
            else some (true, v', record h'' { free_list = head }))
      else some (true, v, h)

  -- A new segment, in the list of segments, its block in front of the free list; `false` if there is none.
  unfoldable pub extend_heap : V → Heap → ℕ → Option (Bool × V × Heap)
  unfolding alloc_heap_segment append_heap_segment create_entry_for_segment prepend_entry
  extend_heap v h total = do
    (seg, v', h1) ← alloc_heap_segment v h total
    if seg == 0 then some (false, v', h1) else (do
      h2 ← append_heap_segment fuel h1 seg
      let (entry, h3) = create_entry_for_segment h2 seg
      some (true, v', prepend_entry h3 entry))

  -- From `search_free_list` on; `rounds` bounds the jumps back to it.
  unfoldable pub search_free_list : ℕ → V → Heap → ℕ → Option (ℕ × V × Heap)
  unfolding find_fit take_block extend_heap unlock_heap
  search_free_list zero v h total = none
  search_free_list (suc rounds) v h total = do
    entry ← find_fit fuel h total h.free_list
    elim (entry == 0) [
      | false ↦ do h' ← take_block fuel h entry total; some (entry, v, h')
      | true ↦ do
        (grown, v', h') ← extend_heap v h total
        elim grown [
          | true ↦ search_free_list rounds v' h' total
          | false ↦ some (0, v', unlock_heap h')
        ]
    ]

  unfoldable pub internal_alloc : ℕ → V → Heap → ℕ → Option (ℕ × V × Heap)
  unfolding lock_heap init_heap search_free_list unlock_heap total_size
  internal_alloc rounds v h size = if size == 0 then some (0, v, h) else (do
    h1 ← lock_heap h
    (ready, v', h2) ← init_heap v h1 (total_size alignment size)
    if ready
        then search_free_list rounds v' h2 (total_size alignment size)
        else some (0, v', unlock_heap h2))
