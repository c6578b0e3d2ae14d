-- ===== src/Memory/PageFrame/Init.antt =====
-- kernel/memory/page_frame_allocator.c: the bitmap at boot, and the statistics.
pub mod Marking
pub mod Segment
pub mod Boot
use project_islay.Prelude.{
  ℕ, zero, suc, ◌+◌, ◌-◌, ◌*◌, ◌/◌, ◌%◌, ◌^◌, Bool, true, false, ◌&&◌, Option, none, some, List, [],
  ◌∷◌, ◌==◌, ◌>>=◌, if◌then◌else◌, ltb, update,
}
use project_islay.Prelude.Bits.{set_bit, clr_bit}
use project_islay.Memory.PageFrame.{Frames, page_size, bitmap_size, u32}

-- A bit of the byte `idx`.
unfoldable pub mark_bit : ℕ → ℕ → Bool → Frames → Frames
mark_bit idx i true st = record st {
  bitmap = update st.bitmap idx (set_bit (st.bitmap idx) i);
  n_available_frames = (st.n_available_frames + 1) % u32;
}
mark_bit idx i false st = record st {
  bitmap = update st.bitmap idx (clr_bit (st.bitmap idx) i);
  n_available_frames = (st.n_available_frames + u32 - 1) % u32;
}

-- The loop over the bits of a byte from `i` on, with `k` rounds left, which ends when the pages are marked: the pages
-- that are left, and the bitmap.
unfoldable pub mark_bits : ℕ → ℕ → ℕ → Bool → ℕ → Frames → ℕ × Frames
unfolding mark_bit
mark_bits zero idx i available page_count st = (page_count, st)
mark_bits (suc k) idx i available page_count st =
    let rest = mark_bits k idx (i + 1) available (page_count - 1) (mark_bit idx i available st) in
    if page_count == 0 then (page_count, st) else rest

-- One round of `Fill all the bytes from start until end index`.
unfoldable pub fill_byte : ℕ → Bool → Frames → Frames
fill_byte i true st = record st {
  bitmap = update st.bitmap i 0xff;
  n_available_frames = (st.n_available_frames + 8) % u32;
}
fill_byte i false st = record st {
  bitmap = update st.bitmap i 0x00;
  n_available_frames = (st.n_available_frames + u32 - 8) % u32;
}

-- The loop with `k` rounds left from byte `i` on.
unfoldable pub fill_bytes : ℕ → ℕ → Bool → ℕ → Frames → ℕ × Frames
unfolding fill_byte
fill_bytes zero i available page_count st = (page_count, st)
fill_bytes (suc k) i available page_count st =
    fill_bytes k (i + 1) available ((page_count + u32 - 8) % u32) (fill_byte i available st)

-- the first byte, if the segment starts in its middle
unfoldable pub mark_head : ℕ → Bool → ℕ → Frames → ℕ × Frames
unfolding mark_bits
mark_head start_frame available page_count st =
    if start_frame % 8 == 0
    then (page_count, st)
    else mark_bits (8 - start_frame % 8) (start_frame / 8) (start_frame % 8) available page_count st

-- the last byte, if the segment ends in its middle
unfoldable pub mark_tail : ℕ → Bool → ℕ → Frames → ℕ × Frames
unfolding mark_bits
mark_tail end_frame available page_count st =
    mark_bits (end_frame % 8) (end_frame / 8) 0 available page_count st

-- `none` is a failed assertion.
unfoldable pub init_mark_segment : Frames → ℕ → ℕ → Bool → Option Frames
unfolding mark_head fill_bytes mark_tail
init_mark_segment st addr length available =
    let start_frame = addr / page_size in
    let end_frame = (addr + length) % u32 / page_size in
    let first =
      mark_head start_frame available (length / page_size)
        (record st { first_available_frame_idx = 0 }) in
    let start_idx = if start_frame % 8 == 0 then start_frame / 8 else start_frame / 8 + 1 in
    let filled = fill_bytes (end_frame / 8 - start_idx) start_idx available first.0 first.1 in
    let last = mark_tail end_frame available filled.0 filled.1 in
    if addr % page_size == 0 && length % page_size == 0 then some last.1 else none

-- `memory_segment_t`
pub record MemorySegment : Type 0 where
  pub addr : ℕ
  pub length : ℕ

-- `struct boot_data`; `mmap_segments` are its first `mmap_size` entries.
pub record BootData : Type 0 where
  pub initrd_start : ℕ
  pub initrd_size : ℕ
  pub mem_size : ℕ
  pub mmap_segments : List MemorySegment

-- `memory_stats_t`
pub record MemoryStats : Type 0 where
  pub memory_amount : ℕ
  pub n_available_frames : ℕ
  pub n_frames : ℕ

unfoldable pub mark_segments : List MemorySegment → Frames → Option Frames
unfolding init_mark_segment
mark_segments [] st = some st
mark_segments (segment ∷ rest) st = do
  st' ← init_mark_segment st segment.addr segment.length true
  mark_segments rest st'

-- `ALIGN_BY_PAGE_SIZE`
abbrev pub align_by_page_size : ℕ → ℕ
align_by_page_size num = let sum = (num + (page_size - 1)) % u32 in sum - sum % page_size

-- `kernel_start` and `kernel_size` are the linker's `KERNEL_START` and the size of the kernel. What comes back are
-- the bitmap and the statistics. The bitmap is cleared first.
unfoldable pub page_frame_manager_init : ℕ → ℕ → Frames → BootData → Option (Frames × MemoryStats)
unfolding mark_segments init_mark_segment
page_frame_manager_init kernel_start kernel_size st boot_data = do
  let cleared : Frames = record st { bitmap = λ i. if ltb i bitmap_size then 0 else st.bitmap i }
  st1 ← mark_segments boot_data.mmap_segments cleared
  st2 ← init_mark_segment st1 kernel_start (align_by_page_size kernel_size) false
  st3 ←
      init_mark_segment st2 boot_data.initrd_start (align_by_page_size boot_data.initrd_size) false
  some (
    st3,
    record {
      memory_amount = boot_data.mem_size;
      n_available_frames = st3.n_available_frames;
      n_frames = st1.n_available_frames;
    },
  )
