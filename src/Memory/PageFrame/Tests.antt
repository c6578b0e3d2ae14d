-- ===== src/Memory/PageFrame/Tests.antt =====
-- Concrete runs of kernel/memory/page_frame_allocator.c.
use project_islay.Prelude.{
  ℕ, ◌*◌, ◌<◌, ◌||◌, [], ◌∷◌, ◌≡◌, refl, inr, true, none, some, arith, ◌==◌, if◌then◌else◌, Returns,
  ◌>>=◌,
}
use project_islay.Prelude.Bits.{mask_bit}
use project_islay.Memory.PageFrame.Init.{BootData, align_by_page_size, page_frame_manager_init}
use project_islay.Memory.PageFrame.Init.Boot.{in_segment, in_segments, page_frame_manager_init_lem}
use project_islay.Memory.PageFrame.{
  Frames, page_size, bitmap_size, lock_frames, unlock_frames, mark_page, check_page_available,
  page_frame_alloc_page, page_frame_free,
}
use project_islay.Memory.PageFrame.Words.{frame_bit, Bytes}
use project_islay.Memory.PageFrame.Alloc.{IsFirst}
use project_islay.Memory.PageFrame.Ownership.{
  Allocated, alloc_page-Allocated, alloc_page_twice, Stuck, alloc_page-Stuck,
}
use project_islay.Memory.PageFrame.Release.{free_twice, Restored, alloc-free}

-- one frame is available, the first of byte `idx`, where the search starts
abbrev one_byte : ℕ → ℕ → ℕ
one_byte idx x = if x == idx then 1 else 0

abbrev frames : ℕ → Frames
frames idx = record {
  bitmap = one_byte idx;
  first_available_frame_idx = idx;
  n_available_frames = 1;
  lock = 0;
}

one_byte-Bytes : (idx : ℕ) → Bytes (one_byte idx)
one_byte-Bytes idx x = ground arith

frames_4-IsFirst : IsFirst (frames 4) 32
frames_4-IsFirst = record {
  from = omega arith;
  inside = omega arith;
  available = refl;
  before = λ page lo hi. absurd (omega (arith, lo, hi));
}

frames_256-IsFirst : IsFirst (frames 256) 2048
frames_256-IsFirst = record {
  from = omega arith;
  inside = omega arith;
  available = refl;
  before = λ page lo hi. absurd (omega (arith, lo, hi));
}

frames_0-IsFirst : IsFirst (frames 0) 0
frames_0-IsFirst = record {
  from = omega arith;
  inside = omega arith;
  available = refl;
  before = λ page lo hi. absurd (omega (arith, lo, hi));
}

alloc_page_example : Returns (Allocated (frames 4) 32) (page_frame_alloc_page (frames 4) 0)
alloc_page_example =
    alloc_page-Allocated (frames 4) 0 32 (one_byte-Bytes 4) refl refl frames_4-IsFirst (omega arith)

alloc_page_twice_example :
    (addr : ℕ) × (st' : Frames) × (st'' : Frames) × (page_frame_alloc_page (frames 256) 0
      ≡ some (addr, st'))
    × (page_frame_alloc_page st' 0 ≡ some (addr, st''))
alloc_page_twice_example =
    alloc_page_twice (frames 256) 0 2048 (one_byte-Bytes 256) refl refl frames_256-IsFirst
      (omega arith)

alloc_page-Stuck_example : Returns (Stuck (frames 0)) (page_frame_alloc_page (frames 0) 0)
alloc_page-Stuck_example =
    alloc_page-Stuck (frames 0) 0 (one_byte-Bytes 0) refl refl (inr frames_0-IsFirst)

-- frame 8 released
abbrev freed_8 : Frames
freed_8 = unlock_frames (mark_page (record (frames 4) { lock = 1 }) 8 true)

freed_8-run : page_frame_free (frames 4) (8 * page_size) 0 ≡ some freed_8
unfolding page_frame_free lock_frames check_page_available mask_bit
freed_8-run = refl

free_twice_example : page_frame_free freed_8 (8 * page_size) 8 ≡ none
free_twice_example =
    free_twice (frames 4) freed_8 (8 * page_size) 0 8 (one_byte-Bytes 4) freed_8-run

alloc-free_example :
    Returns
      (Restored (frames 4))
      (page_frame_alloc_page (frames 4) 0 >>= λ (addr, st'). page_frame_free st' addr 0)
alloc-free_example =
    alloc-free (frames 4) 0 32 (one_byte-Bytes 4) refl refl frames_4-IsFirst (omega arith)
      (omega arith) (omega arith) (omega arith)

-- 636 KiB and 127 MiB of memory, with the initial ramdisk at 8 MiB
abbrev boot_data : BootData
boot_data = record {
  initrd_start = 0x800000;
  initrd_size = 100000;
  mem_size = 0x8000000;
  mmap_segments =
      record { addr = 0; length = 0x9f000 } ∷ record { addr = 0x100000; length = 0x7f00000 } ∷ [];
}

page_frame_manager_init_example :
    Returns
      (λ r.
        (q : ℕ)
        → q < bitmap_size * 8
        → frame_bit r.0.bitmap q ≡ (
            if in_segment q 0x100000 (align_by_page_size 333364)
              || in_segment q boot_data.initrd_start (align_by_page_size boot_data.initrd_size)
            then 0
            else if in_segments q boot_data.mmap_segments
            then 1
            else 0))
      (page_frame_manager_init 0x100000 333364 (frames 4) boot_data)
page_frame_manager_init_example =
    page_frame_manager_init_lem 0x100000 333364 (frames 4) boot_data (one_byte-Bytes 4)
      (omega arith) ((refl, refl, omega arith), ((refl, refl, omega arith), tt))
      (refl, refl, omega arith) (refl, refl, omega arith)
