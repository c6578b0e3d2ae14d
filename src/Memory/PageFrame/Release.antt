-- ===== src/Memory/PageFrame/Release.antt =====
-- `page_frame_free` and `mark_8n_pages` of kernel/memory/page_frame_allocator.c.
use project_islay.Prelude.{
  ℕ, zero, suc, ◌+◌, ◌*◌, ◌/◌, ◌%◌, ◌^◌, ◌<◌, ◌≡◌, refl, ap, ◌∙◌, Bool, true, false, none, some,
  arith, ◌==◌, leb, ltb, ◌&&◌, if◌then◌else◌, ==-true, Returns, returns, ◌>>=◌,
}
use project_islay.Prelude.Bits.{digit, digit-cases}
use project_islay.Memory.PageFrame.{
  Frames, page_size, u32, byte_idx, lock_frames, unlock_frames, mark_page, mark_byte, mark_bytes,
  page_frame_alloc_page, page_frame_free, mark_8n_pages,
}
use project_islay.Memory.PageFrame.Words.{frame_bit, Bytes, below_eight}
use project_islay.Memory.PageFrame.Mark.{
  frame_bit-mark_page, mark_page-Bytes, check_page_available-frame_bit,
}
use project_islay.Memory.PageFrame.Alloc.{IsFirst, at_word, taken, alloc_page-first}

-- the byte that a run of marks writes
abbrev pub byte_of : Bool → ℕ
byte_of true = 255
byte_of false = 0

-- A run of marks writes the bytes from `idx + i` on and no others, and leaves the lock.
pub bitmap-mark_bytes :
    (idx k i : ℕ) (a : Bool) (st : Frames) (x : ℕ)
    → ((mark_bytes idx k i a st).bitmap x
        ≡ (if leb (idx + i) x && ltb x (idx + i + k) then byte_of a else st.bitmap x))
      × ((mark_bytes idx k i a st).lock ≡ st.lock)
unfolding mark_bytes mark_byte
bitmap-mark_bytes idx zero i a st x = ground arith
bitmap-mark_bytes idx (suc k) i true st x =
    ground (arith, bitmap-mark_bytes idx k (i + 1) true (mark_byte idx i true st) x)
bitmap-mark_bytes idx (suc k) i false st x =
    ground (arith, bitmap-mark_bytes idx k (i + 1) false (mark_byte idx i false st) x)

module _ (st : Frames) (addr : ℕ) where
  -- the frame whose bit the release of `addr` writes
  abbrev freed : ℕ
  freed = addr / page_size

  abbrev held : Frames
  held = record st { lock = 1 }

  -- what a release that does not panic leaves
  abbrev released : ℕ → Frames
  released n =
      unlock_frames (if n == 0 then mark_page held freed true else mark_8n_pages held freed n true)

  pub free-some :
      (n : ℕ)
      → addr % page_size ≡ 0
      → st.lock ≡ 0
      → frame_bit st.bitmap (freed % 2048) ≡ 0
      → page_frame_free st addr n ≡ some (released n)
  unfolding page_frame_free lock_frames
  free-some n aligned free z =
      rw
        (
          ==-true (addr % page_size) 0 aligned,
          ==-true st.lock 0 free,
          check_page_available-frame_bit held freed,
          z,
        )
        (ground arith)

  pub free-panic :
      (n : ℕ) → frame_bit st.bitmap (freed % 2048) ≡ 1 → page_frame_free st addr n ≡ none
  unfolding page_frame_free lock_frames
  free-panic n one = ground (arith, check_page_available-frame_bit held freed)

  free_inv :
      (n : ℕ) {st' : Frames}
      → page_frame_free st addr n ≡ some st'
      → (addr % page_size ≡ 0) × (st.lock ≡ 0) × (frame_bit st.bitmap (freed % 2048) ≡ 0)
  unfolding page_frame_free lock_frames
  free_inv n h = ground (
    arith,
    check_page_available-frame_bit held freed,
    digit-cases (st.bitmap (freed % 2048 / 8) / 2 ^ (freed % 2048 % 8)),
  )

pub all_ones : (s : ℕ) → s < 8 → digit 255 s ≡ 1
all_ones = below_eight (λ s. digit 255 s ≡ 1) refl refl refl refl refl refl refl refl

-- Marking a frame or a run available sets the bit of frame `page % 2048`.
marked_bit :
    (st : Frames) (page n : ℕ)
    → Bytes st.bitmap
    → frame_bit
        (if n == 0 then mark_page st page true else mark_8n_pages st page n true).bitmap
        (page % 2048)
      ≡ 1
unfolding mark_8n_pages
marked_bit st page zero bytes =
    frame_bit-mark_page st page (page % 2048) bytes true
    ∙ rw (==-true (page % 2048) (page % 2048) refl)
marked_bit st page (suc n) bytes =
    let x = page % 2048 / 8 in
    let s = page % 2048 % 8 in
    ap (λ b. digit b s) (ground (arith, bitmap-mark_bytes (byte_idx page) (suc n) 0 true st x))
    ∙ all_ones s (omega arith)

unlocked-bitmap : (st : Frames) → (unlock_frames st).bitmap ≡ st.bitmap
unfolding unlock_frames
unlocked-bitmap st = refl

-- Releasing a frame twice panics, whichever sizes the two calls give.
pub free_twice :
    (st st' : Frames) (addr n n' : ℕ)
    → Bytes st.bitmap
    → page_frame_free st addr n ≡ some st'
    → page_frame_free st' addr n' ≡ none
unfolding unlock_frames
free_twice st st' addr n n' bytes h =
    let (aligned, free, z) = free_inv st addr n h in
    let e : st' ≡ released st addr n = cc (free-some st addr n aligned free z) in
    free-panic st' addr n' (
      ap (λ f. frame_bit f.bitmap (addr / page_size % 2048)) e
      ∙ marked_bit (record st { lock = 1 }) (addr / page_size) n bytes)

-- The frames are as in `st`: every bit, the count, and the lock free.
pub record Restored (st st' : Frames) : Type 0 where
  pub bits : (q : ℕ) → frame_bit st'.bitmap q ≡ frame_bit st.bitmap q
  pub counted : st'.n_available_frames ≡ st.n_available_frames
  pub unlocked : st'.lock ≡ 0

-- Below frame 2048, releasing what an allocation returned restores the allocator, but for the
-- remembered word.
pub alloc-free :
    (st : Frames) (options page : ℕ)
    → Bytes st.bitmap
    → st.lock ≡ 0
    → options % 2 ≡ 0
    → IsFirst st page
    → 0 < page
    → page < 2048
    → 0 < st.n_available_frames
    → st.n_available_frames < u32
    → Returns
        (Restored st)
        (page_frame_alloc_page st options >>= λ (addr, st'). page_frame_free st' addr 0)
unfolding unlock_frames mark_page
alloc-free st options page bytes free low f pos small some_left fits =
    let st' = taken st page in
    let back : page * page_size / page_size % 2048 ≡ page = omega arith in
    let after = frame_bit-mark_page (at_word st page) page in
    let gone : frame_bit st'.bitmap (page * page_size / page_size % 2048) ≡ 0 =
      rw back (ground (arith, after page bytes false)) in
    let held' = record st' { lock = 1 } in
    let undone = frame_bit-mark_page held' (page * page_size / page_size) in
    let bytes' : Bytes held'.bitmap = mark_page-Bytes (at_word st page) page false bytes in
    rw (alloc_page-first st options page bytes free low f (omega arith)) (
      rw (free-some st' (page * page_size) 0 (omega arith) refl gone) (
        returns (record {
          bits = λ q. ground (arith, undone q bytes' true, after q bytes false, f.available);
          counted = omega arith;
          unlocked = refl;
        })))
