-- ===== src/Memory/VirtualMemory/Pages.antt =====
-- A page of kernel/memory/vmem_manager.c that is requested and freed again.
use Prim.Native.Nat.{bit_or}
use project_islay.Prelude.{
  ℕ, ◌*◌, ◌%◌, ◌<◌, ◌≡◌, ◌≢◌, refl, ap, false, some, ◌>>=◌, arith, update, update_at, ==-false,
  ℕ_discrete, Returns, returns, Returns-bind,
}
use project_islay.Prelude.Bits.{mask_bit, mask_bit-digit}
use project_islay.Memory.PageFrame.{page_size, u32, page_frame_free}
use project_islay.Memory.PageFrame.Words.{Bytes}
use project_islay.Memory.PageFrame.Alloc.{IsFirst, taken, alloc_page-first}
use project_islay.Memory.PageFrame.Release.{Restored, alloc-free}
use project_islay.Memory.VirtualMemory.{
  PageTables, p2l, l2p, dir_index, set_present, page_entry, map_page, unmap_page, wants_highmem,
  wants_clear, page_option_writable, vmem_request_free_page, vmem_free_page,
}

-- No options make the tests true.
options-ignored : (fpo : ℕ) → (wants_highmem fpo ≡ false) × (wants_clear fpo ≡ false)
options-ignored fpo = (
  ==-false (mask_bit fpo 1) 1 (λ e. absurd (omega (arith, e, mask_bit-digit 1 fpo))),
  ==-false (mask_bit fpo 2) 1 (λ e. absurd (omega (arith, e, mask_bit-digit 2 fpo))),
)

map_page-free :
    (v : PageTables) (physaddr virtaddr flags : ℕ)
    → v.boot_page_directory (dir_index virtaddr) ≢ 0
    → v.words (page_entry v.boot_page_directory virtaddr) ≡ 0
    → map_page v physaddr virtaddr flags
      ≡ some (record v {
        words =
            update v.words
              (page_entry v.boot_page_directory virtaddr)
              (set_present (bit_or physaddr (flags % 4096)));
      })
unfolding map_page
map_page-free v physaddr virtaddr flags d z =
    rw (==-false (v.boot_page_directory (dir_index virtaddr)) 0 d) (ground (arith, z))

-- Unmapping a page that is mapped clears its entry.
unmap_page-mapped :
    (v : PageTables) (virtaddr value : ℕ)
    → v.boot_page_directory (dir_index virtaddr) ≢ 0
    → value ≢ 0
    → unmap_page
        (record v { words = update v.words (page_entry v.boot_page_directory virtaddr) value })
        virtaddr
      ≡ some (record v {
        words =
            update
              (update v.words (page_entry v.boot_page_directory virtaddr) value)
              (page_entry v.boot_page_directory virtaddr)
              0;
      })
unfolding unmap_page
unmap_page-mapped v virtaddr value d n =
    let a = page_entry v.boot_page_directory virtaddr in
    rw (==-false (v.boot_page_directory (dir_index virtaddr)) 0 d)
      (rw (update_at v.words a value, ==-false value 0 n) refl)

back_at : (page : ℕ) → page < 2048 → l2p (p2l (page * page_size)) ≡ page * page_size
back_at page small = omega (arith, small)

update_back : (f : ℕ → ℕ) (a x value : ℕ) → f a ≡ 0 → update (update f a value) a 0 x ≡ f x
update_back f a x value z = elim (ℕ_discrete x a) [
  | yes e ↦ ground (arith, e, z, ap f e)
  | no n ↦ ground (arith, n)
]

-- The page tables and the frames are as before.
pub record IsUndone (v v' : PageTables) : Type 0 where
  pub words : (a : ℕ) → v'.words a ≡ v.words a
  pub directory : v'.boot_page_directory ≡ v.boot_page_directory
  pub frames : Restored v.frames v'.frames
  pub cleared : v'.cleared ≡ v.cleared

-- Where the first available frame lies between 1 and 2047, its page has a page table with a free entry, the lock is
-- free and the count of frames in range, a page that is requested and freed again leaves the page tables and the
-- frames as they were, whatever the options; and nothing was cleared.
pub request-free :
    (v : PageTables) (fpo page : ℕ)
    → Bytes v.frames.bitmap
    → v.frames.lock ≡ 0
    → IsFirst v.frames page
    → 0 < page
    → page < 2048
    → 0 < v.frames.n_available_frames
    → v.frames.n_available_frames < u32
    → v.boot_page_directory (dir_index (p2l (page * page_size))) ≢ 0
    → v.words (page_entry v.boot_page_directory (p2l (page * page_size))) ≡ 0
    → Returns (IsUndone v) (vmem_request_free_page v fpo >>= λ (addr, v'). vmem_free_page v' addr)
unfolding vmem_request_free_page vmem_free_page
request-free v fpo page bytes free f pos small some_left fits d z =
    let o = options-ignored fpo in
    let addr = p2l (page * page_size) in
    let first =
      alloc_page-first v.frames 0 page bytes free refl f (λ e. absurd (omega (arith, e, pos))) in
    let m =
      map_page-free (record v { frames = taken v.frames page }) (page * page_size) addr
        page_option_writable d z in
    let a = page_entry v.boot_page_directory addr in
    let value = set_present (bit_or (page * page_size) (page_option_writable % 4096)) in
    let u =
      unmap_page-mapped (record v { frames = taken v.frames page }) addr value d
        (λ e. absurd (omega (arith, e))) in
    let back = alloc-free v.frames 0 page bytes free refl f pos small some_left fits in
    let back' : Returns (Restored v.frames)
        (page_frame_free (taken v.frames page) (page * page_size) 0) =
      rw first at back in
    rw
      (
        o.0,
        first,
        ==-false (page * page_size) 0 (λ e. absurd (omega (arith, e, pos))),
        m,
        o.1,
        u,
        back_at page small,
      )
      (Returns-bind back' (λ frames r. returns (record {
        words = λ x. update_back v.words a x value z;
        directory = refl;
        frames = r;
        cleared = refl;
      })))
