-- ===== src/Memory/Heap.antt =====
-- kernel/memory/heap_allocator.c: the free list, the tags of the blocks and the three operations.
-- `alignment` is `alignof(max_align_t)`, a power of two. The pages come from a virtual memory manager with
-- the state `V`. `none` is a panic, or fuel that ran out.
pub mod Segments
pub mod FreeList
pub mod Sizes
pub mod Unlink
pub mod Replace
mod Tests
pub mod Free
use project_islay.Prelude.{
  ℕ, zero, suc, ◌+◌, ◌-◌, ◌*◌, ◌/◌, ◌%◌, ◌^◌, Bool, true, false, not, ◌&&◌, Option, none, some,
  ◌==◌, ltb, leb, ◌>>=◌, if◌then◌else◌, update,
}

-- The 32-bit word at each address, the heads of the two lists (0 is NULL), and the flag of the lock.
pub record Heap : Type 0 where
  pub mem : ℕ → ℕ
  pub free_list : ℕ
  pub segments : ℕ
  pub lock : ℕ

abbrev pub u32 : ℕ
u32 = 2 ^ 32

abbrev pub magic_number : ℕ
magic_number = 0xc001c0de

abbrev pub dead : ℕ
dead = 0xdeadbeef

-- `sizeof(start_tag_t) + sizeof(end_tag_t)`
abbrev pub tags_size : ℕ
tags_size = 12

-- `sizeof(free_list_t)`
abbrev pub entry_size : ℕ
entry_size = 12

unfoldable pub store : Heap → ℕ → ℕ → Heap
store h a v = record h { mem = update h.mem a v }

-- `x + k` and `x - k` on `uintptr_t` and `size_t`
abbrev pub add_word : ℕ → ℕ → ℕ
add_word x k = (x + k) % u32

abbrev pub sub_word : ℕ → ℕ → ℕ
sub_word x k = (x + u32 - k) % u32

-- `CLEAR_ALLOC_BIT`
abbrev pub clear_alloc_bit : ℕ → ℕ
clear_alloc_bit v = v - v % 2

-- `value |= 0x01` and `value ^= 0x01`
abbrev pub set_alloc_bit : ℕ → ℕ
set_alloc_bit v = clear_alloc_bit v + 1

abbrev pub flip_alloc_bit : ℕ → ℕ
flip_alloc_bit v = if v % 2 == 0 then v + 1 else v - 1

-- The fields of a start tag and of an entry of the free list.
abbrev pub tag_size : Heap → ℕ → ℕ
tag_size h tag = h.mem tag

abbrev pub magic : Heap → ℕ → ℕ
magic h start = h.mem (start + 4)

abbrev pub entry_prev : Heap → ℕ → ℕ
entry_prev h entry = h.mem entry

abbrev pub entry_next : Heap → ℕ → ℕ
entry_next h entry = h.mem (entry + 4)

abbrev pub block_size : Heap → ℕ → ℕ
block_size h entry = h.mem (entry + 8)

-- `GET_START_TAG`, `GET_END_TAG`, `GET_START_TAG_FROM_END`
abbrev pub get_start_tag : ℕ → ℕ
get_start_tag entry = sub_word entry 8

abbrev pub get_end_tag : ℕ → ℕ → ℕ
get_end_tag start size = sub_word (add_word start (clear_alloc_bit size)) 4

abbrev pub get_start_tag_from_end : Heap → ℕ → ℕ
get_start_tag_from_end h end_tag = sub_word (end_tag + 4) (clear_alloc_bit (tag_size h end_tag))

-- `VERIFY_FREE_BLOCK`
unfoldable pub verify_free_block : Heap → ℕ → ℕ → Bool
verify_free_block h start end_tag =
    tag_size h start % 2 == 0
    && tag_size h end_tag % 2 == 0
    && tag_size h start == tag_size h end_tag
    && magic h start == dead

-- `HIGHER_HALF_ADDR`
abbrev pub higher_half_addr : ℕ
higher_half_addr = 0xe0000000

-- the checks of `verify_free_list` on one entry
unfoldable pub verify_entry : Heap → ℕ → Bool
unfolding verify_free_block
verify_entry h entry =
    let start = get_start_tag entry in
    (if entry_next h entry == 0 then true else entry_prev h (entry_next h entry) == entry)
    && leb higher_half_addr entry
    && verify_free_block h start (get_end_tag start (tag_size h start))

unfoldable pub verify_free_list : ℕ → Heap → ℕ → Option Bool
verify_free_list zero h entry = none
verify_free_list (suc fuel) h entry = elim (entry == 0) [
  | true ↦ some true
  | false ↦ do
    rest ← verify_free_list fuel h (entry_next h entry)
    some (verify_entry h entry && rest)
]

-- `VERIFY_FREE_LIST()`: a list that is not well formed is a panic.
unfoldable pub check_free_list : ℕ → Heap → Option Heap
check_free_list fuel h = do
  correct ← verify_free_list fuel h h.free_list
  if correct then some h else none

unfoldable pub unlink_entry : Heap → ℕ → Heap
unfolding store
unlink_entry h entry =
    let h1 = if entry == h.free_list then record h { free_list = entry_next h entry } else h in
    let h2 =
      if entry_next h1 entry == 0
      then h1
      else store h1 (entry_next h1 entry) (entry_prev h1 entry) in
    if entry_prev h2 entry == 0
    then h2
    else store h2 (entry_prev h2 entry + 4) (entry_next h2 entry)

-- `old` and `new` are `former` and `latter`.
unfoldable pub replace_entry : Heap → ℕ → ℕ → Heap
unfolding store
replace_entry h former latter =
    let h1 = store h (latter + 4) (entry_next h former) in
    let h2 = store h1 latter (entry_prev h1 former) in
    let h3 = if former == h2.free_list then record h2 { free_list = latter } else h2 in
    let h4 = if entry_prev h3 former == 0 then h3 else store h3 (entry_prev h3 former + 4) latter in
    if entry_next h4 former == 0 then h4 else store h4 (entry_next h4 former) latter

-- `ALIGN_BY_MULTIPLE`, where `n` is a power of two
unfoldable pub align_by_multiple : ℕ → ℕ → ℕ
align_by_multiple num n = let sum = add_word num (n - 1) in sum - sum % n

-- the size of the block for a request
unfoldable pub total_size : ℕ → ℕ → ℕ
unfolding align_by_multiple
total_size alignment size =
    align_by_multiple (add_word (if ltb entry_size size then size else entry_size) tags_size)
      alignment

-- The first entry of the free list that is large enough; 0 if there is none.
unfoldable pub find_fit : ℕ → Heap → ℕ → ℕ → Option ℕ
find_fit zero h total entry = none
find_fit (suc fuel) h total entry =
    let rest = find_fit fuel h total (entry_next h entry) in
    if entry == 0 then some 0 else if leb total (block_size h entry) then some entry else rest

-- A free block is cut in two, and the entry of the second part takes the place of the first.
unfoldable pub split_block : Heap → ℕ → ℕ → ℕ → Option Heap
unfolding store verify_free_block replace_entry
split_block h entry total space_left = do
  let start = get_start_tag entry
  let new_start = add_word start total
  let new_end = get_end_tag new_start space_left
  let h1 = store (store (store h new_start space_left) new_end space_left) (new_start + 4) dead
  let end_tag = get_end_tag start total
  let h2 = store (store h1 start total) end_tag total
  if end_tag + 4 == new_start
        && verify_free_block h2 start end_tag
        && verify_free_block h2 new_start new_end
      then some (replace_entry (store h2 (new_start + 8 + 8) space_left) entry (new_start + 8))
      else none

-- The block of an entry, with `total` bytes of it if it can be split; the end tag of what is taken.
unfoldable pub carve : Heap → ℕ → ℕ → Option (ℕ × Heap)
unfolding split_block unlink_entry verify_free_block
carve h entry total =
    let start = get_start_tag entry in
    let end_tag = get_end_tag start (tag_size h start) in
    let space_left = sub_word (block_size h entry) total in
    if verify_free_block h start end_tag
    then (if ltb (tags_size + entry_size) space_left
        then (do h' ← split_block h entry total space_left; some (get_end_tag start total, h'))
        else some (end_tag, unlink_entry h entry))
    else none

-- The block that is taken is marked.
unfoldable pub take_block : ℕ → Heap → ℕ → ℕ → Option Heap
unfolding carve store check_free_list
take_block fuel h entry total = do
  let start = get_start_tag entry
  (end_tag, h1) ← carve h entry total
  let h2 = store h1 start (set_alloc_bit (tag_size h1 start))
  h3 ← check_free_list fuel (store h2 end_tag (set_alloc_bit (tag_size h2 end_tag)))
  let h4 = store h3 (start + 4) magic_number
  some (record h4 { lock = h4.lock - 1 })
