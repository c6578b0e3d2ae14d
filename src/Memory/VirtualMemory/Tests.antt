-- ===== src/Memory/VirtualMemory/Tests.antt =====
-- A page that is requested and freed, with one page table for the kernel and frame 32 free.
use project_islay.Prelude.{ℕ, refl, arith, [], ◌==◌, if◌then◌else◌, Returns, ◌>>=◌}
use project_islay.Memory.PageFrame.Words.{Bytes}
use project_islay.Memory.PageFrame.Alloc.{IsFirst}
use project_islay.Memory.VirtualMemory.{PageTables, vmem_request_free_page, vmem_free_page}
use project_islay.Memory.VirtualMemory.Pages.{IsUndone, request-free}

abbrev bitmap : ℕ → ℕ
bitmap x = if x == 4 then 1 else 0

abbrev tables : PageTables
tables = record {
  boot_page_directory = λ i. 0x100003;
  words = λ a. 0;
  frames = record {
    bitmap = bitmap;
    first_available_frame_idx = 4;
    n_available_frames = 1;
    lock = 0;
  };
  cleared = [];
}

bitmap-Bytes : Bytes bitmap
bitmap-Bytes x = ground arith

frame_32-IsFirst : IsFirst tables.frames 32
frame_32-IsFirst = record {
  from = omega arith;
  inside = omega arith;
  available = refl;
  before = λ page lo hi. absurd (omega (arith, lo, hi));
}

request-free_example :
    Returns
      (IsUndone tables)
      (vmem_request_free_page tables 3 >>= λ (addr, v'). vmem_free_page v' addr)
request-free_example =
    request-free tables 3 32 bitmap-Bytes refl frame_32-IsFirst (omega arith) (omega arith)
      (omega arith) (omega arith) (λ e. absurd (omega (arith, e))) refl
