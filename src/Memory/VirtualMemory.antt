-- ===== src/Memory/VirtualMemory.antt =====
-- kernel/arch/i686/paging.c and kernel/memory/vmem_manager.c: the page tables, and the pages of the kernel.
-- `none` is a panic.
pub mod Pages
mod Tests
use Prim.Native.Nat.{bit_or}
use project_islay.Prelude.{
  ℕ, zero, suc, ◌+◌, ◌-◌, ◌*◌, ◌/◌, ◌%◌, ◌^◌, Bool, true, false, ◌||◌, Option, none, some, List, [],
  ◌∷◌, ◌==◌, ◌>>=◌, if◌then◌else◌, update,
}
use project_islay.Prelude.Bits.{mask_bit}
use project_islay.Memory.PageFrame.{
  Frames, page_size, u32, page_frame_alloc_page, page_frame_alloc_pages, page_frame_free,
}
use project_islay.Memory.Heap.{higher_half_addr}

-- The entries of `boot_page_directory`, the 32-bit word at each address of the page tables, the page frames,
-- and the ranges that were cleared, as an address and a length.
pub record PageTables : Type 0 where
  pub boot_page_directory : ℕ → ℕ
  pub words : ℕ → ℕ
  pub frames : Frames
  pub cleared : List (ℕ × ℕ)

abbrev pub fpo_highmem : ℕ
fpo_highmem = 1

abbrev pub fpo_clear : ℕ
fpo_clear = 2

-- `PAGE_OPTION_WRITABLE`
abbrev pub page_option_writable : ℕ
page_option_writable = 2

-- `P2L` and `L2P`
abbrev pub p2l : ℕ → ℕ
p2l paddr = (paddr + higher_half_addr) % u32

abbrev pub l2p : ℕ → ℕ
l2p laddr = (laddr + u32 - higher_half_addr) % u32

abbrev pub dir_index : ℕ → ℕ
dir_index virtaddr = virtaddr / 2 ^ 22

-- `value & ~0xfff`
abbrev pub page_base : ℕ → ℕ
page_base value = value - value % 4096

-- the address of the entry of a page in its page table
unfoldable pub page_entry : (ℕ → ℕ) → ℕ → ℕ
page_entry directory virtaddr =
    (page_base (directory (dir_index virtaddr)) + higher_half_addr) % u32
    + 4 * (virtaddr / 2 ^ 12 % 2 ^ 10)

-- `value | 0x01`
abbrev pub set_present : ℕ → ℕ
set_present value = value - value % 2 + 1

unfoldable pub map_page : PageTables → ℕ → ℕ → ℕ → Option PageTables
map_page v physaddr virtaddr flags =
    let a = page_entry v.boot_page_directory virtaddr in
    let entry = set_present (bit_or physaddr (flags % 4096)) in
    if v.boot_page_directory (dir_index virtaddr) == 0
    then none
    else if page_base (v.words a) == physaddr || v.words a == 0
    then some (record v { words = update v.words a entry })
    else none

unfoldable pub unmap_page : PageTables → ℕ → Option PageTables
unmap_page v virtaddr =
    let a = page_entry v.boot_page_directory virtaddr in
    if v.boot_page_directory (dir_index virtaddr) == 0
    then none
    else if v.words a == 0
    then none
    else some (record v { words = update v.words a 0 })

-- The test masks the bit with the number `fpo_highmem`, and compares what is left with 1.
abbrev pub wants_highmem : ℕ → Bool
wants_highmem fpo = mask_bit fpo fpo_highmem == 1

abbrev pub wants_clear : ℕ → Bool
wants_clear fpo = mask_bit fpo fpo_clear == 1

-- `memset(virtaddr, 0, length)`, if the pages are to be cleared
abbrev pub clear_if : Bool → ℕ → ℕ → PageTables → PageTables
clear_if wanted virtaddr length v =
    if wanted then record v { cleared = (virtaddr, length) ∷ v.cleared } else v

-- the address of the page, or 0 if there is none
unfoldable pub vmem_request_free_page : PageTables → ℕ → Option (ℕ × PageTables)
unfolding map_page
vmem_request_free_page v fpo = if wants_highmem fpo then none else (do
  (physaddr, frames) ← page_frame_alloc_page v.frames 0
  if physaddr == 0 then some (0, record v { frames = frames }) else (do
    v' ← map_page (record v { frames = frames }) physaddr (p2l physaddr) page_option_writable
    some (p2l physaddr, clear_if (wants_clear fpo) (p2l physaddr) page_size v')))

-- The loop over the pages, with `k` rounds left from page `i` on.
unfoldable pub map_pages : ℕ → ℕ → ℕ → ℕ → PageTables → Option PageTables
unfolding map_page
map_pages zero i physaddr virtaddr v = some v
map_pages (suc k) i physaddr virtaddr v = do
  v' ←
      map_page v ((physaddr + i * page_size) % u32) ((virtaddr + i * page_size) % u32)
        page_option_writable
  map_pages k (i + 1) physaddr virtaddr v'

unfoldable pub vmem_request_free_pages : PageTables → ℕ → ℕ → Option (ℕ × PageTables)
unfolding map_pages
vmem_request_free_pages v fpo n = if wants_highmem fpo then none else (do
  (physaddr, frames) ← page_frame_alloc_pages v.frames 0 n
  if physaddr == 0 then some (0, record v { frames = frames }) else (do
    v' ← map_pages (n * 8 % u32) 0 physaddr (p2l physaddr) (record v { frames = frames })
    some (
      p2l physaddr,
      clear_if (wants_clear fpo) (p2l physaddr) (page_size * (n * 8 % u32) % u32) v',
    )))

unfoldable pub vmem_free_page : PageTables → ℕ → Option PageTables
unfolding unmap_page
vmem_free_page v addr = do
  v' ← unmap_page v addr
  frames ← page_frame_free v'.frames (l2p addr) 0
  some (record v' { frames = frames })

unfoldable pub unmap_pages : ℕ → ℕ → ℕ → PageTables → Option PageTables
unfolding unmap_page
unmap_pages zero i addr v = some v
unmap_pages (suc k) i addr v = do
  v' ← unmap_page v ((addr + i * page_size) % u32)
  unmap_pages k (i + 1) addr v'

unfoldable pub vmem_free_pages : PageTables → ℕ → ℕ → Option PageTables
unfolding unmap_pages
vmem_free_pages v addr n = do
  v' ← unmap_pages (n * 8 % u32) 0 addr v
  frames ← page_frame_free v'.frames (l2p addr) n
  some (record v' { frames = frames })
