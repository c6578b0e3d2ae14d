-- ===== src/Memory/PageFrame/Alloc.antt =====
-- `page_frame_alloc_page` of kernel/memory/page_frame_allocator.c.
use project_islay.Prelude.{
  ℕ, ◌*◌, ◌/◌, ◌%◌, ◌≤◌, ◌<◌, ◌≡◌, ◌≢◌, ap, false, some, arith, dec_lt, ==-false, ==-true,
}
use project_islay.Prelude.Bits.{mask_bit_test}
use project_islay.Memory.PageFrame.{
  Frames, page_size, bitmap_size, search_start, lock_frames, unlock_frames, mark_page,
  find_available_page, page_frame_alloc_page,
}
use project_islay.Memory.PageFrame.Words.{Available, NoneIn, Bytes}
use project_islay.Memory.PageFrame.Search.{Outcome, found, missing, find_available_page_lem}

-- `page` is the first available frame at or after the word where the search starts.
pub record IsFirst (st : Frames) (page : ℕ) : Type 0 where
  pub from : search_start st * 8 ≤ page
  pub inside : page < 8 * bitmap_size
  pub available : Available st.bitmap page
  pub before : NoneIn st.bitmap (search_start st * 8) page

pub held-IsFirst :
    (st : Frames) (page : ℕ) → IsFirst st page → IsFirst (record st { lock = 1 }) page
held-IsFirst st page f = record {
  from = f.from;
  inside = f.inside;
  available = f.available;
  before = f.before;
}

-- the frames with the word of `page` remembered
abbrev pub at_word : Frames → ℕ → Frames
at_word st page = record st { first_available_frame_idx = page / 32 * 4 }

pub find-first :
    (st : Frames) (page : ℕ) (r : ℕ × Frames)
    → IsFirst st page
    → Outcome st (search_start st * 8) r
    → r ≡ (page, at_word st page)
find-first st page (p, st') f (found (lo, hi, one, before, e)) =
    let same : p ≡ page = elim (dec_lt p page) [
      | yes below ↦ absurd (omega (arith, f.before p lo below))
      | no above ↦ elim (dec_lt page p) [
        | yes below ↦ absurd (omega (arith, before page f.from below, f.available))
        | no equal ↦ omega arith
      ]
    ] in
    ground (arith, same, e, ap (at_word st) same)
find-first st page (p, st') f (missing (z, none_left, e)) =
    absurd (omega (arith, none_left page f.from f.inside, f.available))

pub find_available_page-first :
    (st : Frames) (page : ℕ)
    → Bytes st.bitmap
    → IsFirst st page
    → find_available_page st ≡ (page, at_word st page)
find_available_page-first st page bytes f =
    find-first st page (find_available_page st) f (find_available_page_lem st bytes)

-- The state that a successful allocation of `page` leaves.
abbrev pub taken : Frames → ℕ → Frames
taken st page = record (mark_page (at_word st page) page false) { lock = 0 }

-- An allocation with the lock free returns the address of the first available frame and the state that `mark_page`
-- leaves, with the lock free, provided that the frame is not frame 0.
pub alloc_page-first :
    (st : Frames) (options page : ℕ)
    → Bytes st.bitmap
    → st.lock ≡ 0
    → options % 2 ≡ 0
    → IsFirst st page
    → page ≢ 0
    → page_frame_alloc_page st options ≡ some (page * page_size, taken st page)
unfolding page_frame_alloc_page lock_frames unlock_frames mark_page
alloc_page-first st options page bytes free low f nz =
    let f' = held-IsFirst st page f in
    rw
      (
        mask_bit_test options 0,
        ==-true (options / 1 % 2) 0 (omega arith),
        ==-true st.lock 0 free,
        find_available_page-first (record st { lock = 1 }) page bytes f',
        ==-false page 0 nz,
      )
      (ap (λ (a : ℕ). some (a, taken st page)) (omega (arith, f.inside)))
