-- ===== src/Memory/PageFrame.antt =====
-- kernel/memory/page_frame_allocator.c: the bitmap of physical page frames.
pub mod Words
pub mod Init
pub mod Search
pub mod Mark
pub mod Alloc
pub mod Ownership
pub mod Release
mod Tests
use Prim.Native.Nat.{bit_and}
use project_islay.Prelude.{
  ℕ, zero, suc, ◌+◌, ◌-◌, ◌*◌, ◌/◌, ◌%◌, ◌^◌, Bool, true, false, not, ◌&&◌, Option, none, some,
  if◌then◌else◌, ltb, ◌==◌, ◌>>=◌, update,
}
use project_islay.Prelude.Bits.{set_bit, clr_bit, mask_bit}

-- The globals of the file. `bitmap i` is the byte `memory_bitmap[i]`; past the array it is the
-- memory that follows it, which C code that runs over the end reads and writes. `lock` is the flag
-- of `page_alloc_lock`.
pub record Frames : Type 0 where
  pub bitmap : ℕ → ℕ
  pub first_available_frame_idx : ℕ
  pub n_available_frames : ℕ
  pub lock : ℕ

abbrev pub page_size : ℕ
page_size = 4096

-- `sizeof(memory_bitmap)`
abbrev pub bitmap_size : ℕ
bitmap_size = 65536

abbrev pub u32 : ℕ
u32 = 2 ^ 32

-- `unsigned char idx = BITMAP_INDX(page_num)`
abbrev pub byte_idx : ℕ → ℕ
byte_idx page_num = page_num / 8 % 256

-- `spinlock_lock` asserts that the lock is free: `none` is the panic.
unfoldable pub lock_frames : Frames → Option Frames
lock_frames st = if st.lock == 0 then some (record st { lock = 1 }) else none

unfoldable pub unlock_frames : Frames → Frames
unlock_frames st = record st { lock = st.lock - 1 }

unfoldable pub check_page_available : Frames → ℕ → Bool
unfolding mask_bit
check_page_available st page_num =
    not (mask_bit (st.bitmap (byte_idx page_num)) (page_num % 8) == 0)

unfoldable pub mark_page : Frames → ℕ → Bool → Frames
mark_page st page_num available =
    let idx = byte_idx page_num in
    let bit = page_num % 8 in
    if available
    then record st {
      bitmap = update st.bitmap idx (set_bit (st.bitmap idx) bit);
      n_available_frames = (st.n_available_frames + 1) % u32;
      first_available_frame_idx =
          if ltb idx st.first_available_frame_idx then idx else st.first_available_frame_idx;
    }
    else record st {
      bitmap = update st.bitmap idx (clr_bit (st.bitmap idx) bit);
      n_available_frames = (st.n_available_frames + u32 - 1) % u32;
    }

-- One round of the loop of `mark_8n_pages`.
unfoldable pub mark_byte : ℕ → ℕ → Bool → Frames → Frames
mark_byte idx i available st =
    if available
    then record st {
      bitmap = update st.bitmap (idx + i) 0xff;
      n_available_frames = (st.n_available_frames + 8) % u32;
      first_available_frame_idx =
          if ltb idx st.first_available_frame_idx then idx else st.first_available_frame_idx;
    }
    else record st {
      bitmap = update st.bitmap (idx + i) 0x00;
      n_available_frames = (st.n_available_frames + u32 - 8) % u32;
    }

-- The loop over `i`, with `k` rounds left.
unfoldable pub mark_bytes : ℕ → ℕ → ℕ → Bool → Frames → Frames
mark_bytes idx zero i available st = st
mark_bytes idx (suc k) i available st =
    mark_bytes idx k (i + 1) available (mark_byte idx i available st)

unfoldable pub mark_8n_pages : Frames → ℕ → ℕ → Bool → Frames
mark_8n_pages st page_num n available = mark_bytes (byte_idx page_num) n 0 available st

-- `*(uint32_t *)(memory_bitmap + i)`, little-endian
abbrev pub word : (ℕ → ℕ) → ℕ → ℕ
word m i = m i + 2 ^ 8 * m (i + 1) + 2 ^ 16 * m (i + 2) + 2 ^ 24 * m (i + 3)

-- `first_available_frame_idx & ~(0b11)`
abbrev pub search_start : Frames → ℕ
search_start st = st.first_available_frame_idx - st.first_available_frame_idx % 4

-- The loop over `j` of `find_available_page`, with `k` rounds left.
unfoldable pub find_bit : ℕ → ℕ → ℕ → Option ℕ
find_bit zero j bytes = none
find_bit (suc k) j bytes =
    let rest = find_bit k (j + 1) bytes in if mask_bit bytes j == 0 then rest else some j

-- The loop over `i` of `find_available_page` on fuel.
unfoldable pub find_word : ℕ → ℕ → Frames → ℕ × Frames
find_word zero i st = (0, st)
find_word (suc k) i st =
    let bytes = word st.bitmap i in
    let st' = record st { first_available_frame_idx = i } in
    let skip = find_word k (i + 4) st in
    let next = find_word k (i + 4) st' in
    if ltb i bitmap_size
    then (if bytes == 0
        then skip
        else (elim (find_bit 32 0 bytes) [ some j ↦ (i * 8 + j, st') | none ↦ next ]))
    else (0, st)

-- One round for each word of the bitmap is enough fuel.
unfoldable pub find_available_page : Frames → ℕ × Frames
find_available_page st = find_word (bitmap_size / 4) (search_start st) st

-- The offset that the four tests pick; `>>` binds tighter than `&`.
unfoldable pub byte_offset : ℕ → Option ℕ
byte_offset bytes =
    if bit_and bytes 0x000000ff == 0xff
    then some 0
    else if bit_and bytes (0x0000ff00 / 2 ^ 8) == 0xff
    then some 1
    else if bit_and bytes (0x00ff0000 / 2 ^ 16) == 0xff
    then some 2
    else if bit_and bytes (0xff000000 / 2 ^ 24) == 0xff
    then some 3
    else none

-- The loop over `j`, with `k` rounds left: are the bytes from `a` on all 0xff?
unfoldable pub all_free : ℕ → ℕ → (ℕ → ℕ) → Bool
all_free zero a m = true
all_free (suc k) a m = m a == 0xff && all_free k (a + 1) m

-- The loop over `i` of `find_available_8n_pages` on fuel.
unfoldable pub find_run : ℕ → ℕ → ℕ → Bool → Frames → ℕ × Frames
find_run zero n i found_free st = (0, st)
find_run (suc k) n i found_free st =
    let bytes = word st.bitmap i in
    let st' = if found_free then st else record st { first_available_frame_idx = i } in
    let skip = find_run k n (i + 4) found_free st in
    let next = find_run k n (i + 4) true st' in
    if ltb i bitmap_size
    then (if bytes == 0 then skip else (elim (byte_offset bytes) [
      | some offset ↦ if all_free n (i + offset) st.bitmap then ((i + offset) * 8, st') else next
      | none ↦ next
    ]))
    else (0, st)

unfoldable pub find_available_8n_pages : Frames → ℕ → ℕ × Frames
find_available_8n_pages st n = find_run (bitmap_size / 4) n (search_start st) false st

-- `options` is a `uint8_t`; bit 0 asks for high memory, which panics. On failure the function
-- returns with the lock taken, as the source does.
unfoldable pub page_frame_alloc_page : Frames → ℕ → Option (ℕ × Frames)
unfolding lock_frames unlock_frames
page_frame_alloc_page st options =
    if mask_bit options 0 == 0
    then (do
      st' ← lock_frames st
      let (page_num, st'') = find_available_page st'
      if page_num == 0
          then some (0, st'')
          else some (page_num * page_size % u32, unlock_frames (mark_page st'' page_num false)))
    else none

unfoldable pub page_frame_alloc_pages : Frames → ℕ → ℕ → Option (ℕ × Frames)
unfolding lock_frames unlock_frames
page_frame_alloc_pages st options n =
    if mask_bit options 0 == 0
    then (if n == 0 then some (0, st) else (do
      st' ← lock_frames st
      let (page_num, st'') = find_available_8n_pages st' n
      if page_num == 0
          then some (0, st'')
          else some
              (page_num * page_size % u32, unlock_frames (mark_8n_pages st'' page_num n false))))
    else none

-- `none` is the panic of the alignment check, of the lock or on a double free.
unfoldable pub page_frame_free : Frames → ℕ → ℕ → Option Frames
unfolding lock_frames unlock_frames
page_frame_free st addr n =
    if addr % page_size == 0
    then (do
      st' ← lock_frames st
      let page_num = addr / page_size
      if check_page_available st' page_num
          then none
          else (if n == 0
              then some (unlock_frames (mark_page st' page_num true))
              else some (unlock_frames (mark_8n_pages st' page_num n true))))
    else none
