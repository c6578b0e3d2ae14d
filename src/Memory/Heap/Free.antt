-- ===== src/Memory/Heap/Free.antt =====
-- kernel/memory/heap_allocator.c: `kfree`, `kalloc` and `krealloc`.
use project_islay.Prelude.{
  ℕ, zero, suc, ◌+◌, ◌-◌, ◌*◌, ◌/◌, ◌%◌, ◌^◌, Option, none, some, ◌==◌, ltb, ◌>>=◌, if◌then◌else◌,
}
use project_islay.Memory.Heap.{
  Heap, magic_number, dead, add_word, sub_word, clear_alloc_bit, flip_alloc_bit, tag_size, magic,
  get_start_tag, get_end_tag, get_start_tag_from_end, store, verify_free_block, check_free_list,
  unlink_entry, replace_entry,
}
use project_islay.Memory.Heap.Segments.{lock_heap, unlock_heap, internal_alloc}

-- A block that is being freed: its tags, and the tags of the blocks around it.
pub record Freed : Type 0 where
  pub start : ℕ
  pub end_tag : ℕ
  pub next_block_start : ℕ
  pub next_block_end : ℕ
  pub prev_block_end : ℕ

-- The block joins the free block in front of it, and the one behind it if that is free too. What comes back
-- are the tags of the joined block.
unfoldable pub merge_prev : Heap → Freed → ℕ × ℕ × Heap
unfolding store unlink_entry
merge_prev h b =
    let prev_start = get_start_tag_from_end h b.prev_block_end in
    let size = add_word (tag_size h prev_start) (tag_size h b.start) in
    let next_free = tag_size h b.next_block_start % 2 == 0 in
    let new_size = if next_free then add_word size (tag_size h b.next_block_start) else size in
    let end_tag = if next_free then b.next_block_end else b.end_tag in
    let h1 = if next_free then unlink_entry h (b.next_block_start + 8) else h in
    (
      prev_start,
      end_tag,
      store (store (store h1 prev_start new_size) end_tag new_size) (prev_start + 8 + 8) new_size,
    )

-- The block joins the free block behind it.
unfoldable pub merge_next : Heap → Freed → ℕ × ℕ × Heap
unfolding store replace_entry
merge_next h b =
    let new_size = add_word (tag_size h b.start) (tag_size h b.next_block_start) in
    let entry = b.start + 8 in
    let h1 =
      store (store (store h b.start new_size) b.next_block_end new_size) (entry + 8) new_size in
    (b.start, b.next_block_end, replace_entry h1 (b.next_block_start + 8) entry)

-- The block becomes the first of the free list.
unfoldable pub insert_first : Heap → Freed → ℕ → ℕ × ℕ × Heap
unfolding store
insert_first h b ptr =
    let h1 = if h.free_list == 0 then h else store h h.free_list ptr in
    let h2 =
      store (store (store h1 ptr 0) (ptr + 4) h1.free_list) (ptr + 8)
        (clear_alloc_bit (tag_size h1 b.start)) in
    (b.start, b.end_tag, record h2 { free_list = ptr })

unfoldable pub coalesce : Heap → Freed → ℕ → ℕ × ℕ × Heap
unfolding merge_prev merge_next insert_first
coalesce h b ptr =
    if tag_size h b.prev_block_end % 2 == 0
    then merge_prev h b
    else if tag_size h b.next_block_start % 2 == 0
    then merge_next h b
    else insert_first h b ptr

-- `Clear allocation bit`
unfoldable pub clear_bits : Heap → ℕ → ℕ → Heap
unfolding store
clear_bits h start end_tag =
    let h1 = store h start (flip_alloc_bit (tag_size h start)) in
    store h1 end_tag (flip_alloc_bit (tag_size h1 end_tag))

-- the tags of the blocks around a block
unfoldable pub neighbours : Heap → ℕ → ℕ → Freed
neighbours h start end_tag = record {
  start = start;
  end_tag = end_tag;
  next_block_start = end_tag + 4;
  next_block_end = get_end_tag (end_tag + 4) (tag_size h (end_tag + 4));
  prev_block_end = sub_word start 4;
}

-- `kfree` on a pointer that is not NULL, up to the release of the lock. A pointer whose block is not marked
-- by the magic number is a panic.
unfoldable pub free_block : ℕ → Heap → ℕ → Option Heap
unfolding clear_bits neighbours coalesce store verify_free_block check_free_list
free_block fuel h ptr =
    let start = get_start_tag ptr in
    let end_tag = get_end_tag start (tag_size h start) in
    let h1 = clear_bits h start end_tag in
    let joined = coalesce h1 (neighbours h1 start end_tag) ptr in
    let h2 = store joined.2 (joined.0 + 4) dead in
    if magic h start == magic_number
    then (if verify_free_block h2 joined.0 joined.1 then check_free_list fuel h2 else none)
    else none

unfoldable pub kfree : ℕ → Heap → ℕ → Option Heap
unfolding lock_heap free_block unlock_heap
kfree fuel h ptr =
    if ptr == 0
    then some h
    else (do h1 ← lock_heap h; h2 ← free_block fuel h1 ptr; some (unlock_heap h2))

-- `memset(ret, 0, size)` on words, the last of which may keep its upper bytes
unfoldable pub clear_bytes : ℕ → Heap → ℕ → ℕ → Heap
unfolding store
clear_bytes zero h a rest = if rest == 0 then h else store h a (h.mem a - h.mem a % 2 ^ (8 * rest))
clear_bytes (suc words) h a rest = clear_bytes words (store h a 0) (a + 4) rest

-- `memcpy` of whole words: the size of a block less its tags is a multiple of 4.
unfoldable pub copy_words : ℕ → Heap → ℕ → ℕ → Heap
unfolding store
copy_words zero h to from = h
copy_words (suc words) h to from = copy_words words (store h to (h.mem from)) (to + 4) (from + 4)

module _ {V : Type 0} (alignment : ℕ) (request : V → ℕ → Option (ℕ × V)) (fuel rounds : ℕ) where
  unfoldable pub kalloc : V → Heap → ℕ → Option (ℕ × V × Heap)
  unfolding internal_alloc clear_bytes
  kalloc v h size = do
    (ret, v', h') ← internal_alloc alignment request fuel rounds v h size
    if ret == 0 then some (0, v', h') else some (ret, v', clear_bytes (size / 4) h' ret (size % 4))

  -- The block is too small: a new one is allocated, the bytes are copied if that worked, and the old one
  -- is freed.
  unfoldable pub move_block : V → Heap → ℕ → ℕ → ℕ → Option (ℕ × V × Heap)
  unfolding internal_alloc copy_words kfree
  move_block v h ptr size new_size = do
    (ret, v', h1) ← internal_alloc alignment request fuel rounds v h new_size
    h2 ← kfree fuel (if ret == 0 then h1 else copy_words (size / 4) h1 ret ptr) ptr
    some (ret, v', h2)

  unfoldable pub krealloc : V → Heap → ℕ → ℕ → Option (ℕ × V × Heap)
  unfolding internal_alloc kfree move_block
  krealloc v h ptr new_size =
      if ptr == 0
      then internal_alloc alignment request fuel rounds v h new_size
      else if new_size == 0
      then (do h' ← kfree fuel h ptr; some (0, v, h'))
      else (let start = get_start_tag ptr in
          let size = sub_word (get_end_tag start (tag_size h start)) ptr in
          if magic h start == magic_number
          then (if ltb size new_size then move_block v h ptr size new_size else some (ptr, v, h))
          else none)
