-- ===== src/Memory/PageFrame/Ownership.antt =====
-- What allocation and release of single frames guarantee to their callers, in
-- kernel/memory/page_frame_allocator.c.
use project_islay.Prelude.{
  ℕ, ◌+◌, ◌-◌, ◌*◌, ◌/◌, ◌%◌, ◌≤◌, ◌≡◌, ◌≢◌, refl, ap, ◌∙◌, ◌⊎◌, inl, inr, false, none, some, arith,
  ==-true, Returns, returns,
}
use project_islay.Prelude.Bits.{mask_bit_test}
use project_islay.Memory.PageFrame.{
  Frames, page_size, bitmap_size, u32, search_start, lock_frames, mark_page, find_available_page,
  page_frame_alloc_page, page_frame_free,
}
use project_islay.Memory.PageFrame.Words.{frame_bit, NoneIn, Bytes}
use project_islay.Memory.PageFrame.Search.{Outcome, found, missing, find_available_page_lem}
use project_islay.Memory.PageFrame.Mark.{frame_bit-mark_page, mark_page-Bytes}
use project_islay.Memory.PageFrame.Alloc.{
  IsFirst, held-IsFirst, find-first, at_word, taken, alloc_page-first,
}

-- The frame was handed out: its address is returned, the bit of frame `page % 2048` is cleared and no
-- other, the count went down by one, the word of the frame is remembered and the lock is free.
pub record Allocated (st : Frames) (page : ℕ) (r : ℕ × Frames) : Type 0 where
  pub address : r.0 ≡ page * page_size
  pub gone : frame_bit r.1.bitmap (page % 2048) ≡ 0
  pub others : (q : ℕ) → q ≢ page % 2048 → frame_bit r.1.bitmap q ≡ frame_bit st.bitmap q
  pub counted : r.1.n_available_frames ≡ (st.n_available_frames + u32 - 1) % u32
  pub remembered : r.1.first_available_frame_idx ≡ page / 32 * 4
  pub unlocked : r.1.lock ≡ 0

taken-Allocated :
    (st : Frames) (page : ℕ) → Bytes st.bitmap → Allocated st page (page * page_size, taken st page)
unfolding mark_page
taken-Allocated st page bytes = record {
  address = refl;
  gone = ground (arith, frame_bit-mark_page (at_word st page) page (page % 2048) bytes false);
  others = λ q ne. ground (arith, frame_bit-mark_page (at_word st page) page q bytes false);
  counted = refl;
  remembered = refl;
  unlocked = refl;
}

module _ (st : Frames) (options page : ℕ) (bytes : Bytes st.bitmap) (free : st.lock ≡ 0)
    (low : options % 2 ≡ 0) (first : IsFirst st page) where
  -- On a bitmap of bytes, with the lock free and low memory asked for, `page_frame_alloc_page` returns the address of
  -- the first available frame from the remembered word on, if that is not frame 0. It clears the bit of the frame
  -- modulo 2048, which is the frame's own below 2048, and no other bit, takes one off the count, remembers the word
  -- of the frame and frees the lock.
  pub alloc_page-Allocated :
      page ≢ 0 → Returns (Allocated st page) (page_frame_alloc_page st options)
  alloc_page-Allocated nz =
      rw (alloc_page-first st options page bytes free low first nz)
        (returns (taken-Allocated st page bytes))

  aliased_bit :
      (q : ℕ) → q ≢ page % 2048 → frame_bit (taken st page).bitmap q ≡ frame_bit st.bitmap q
  aliased_bit q ne = ground (arith, frame_bit-mark_page (at_word st page) page q bytes false)

  cleared_or_same : (q : ℕ) → frame_bit st.bitmap q ≡ 0 → frame_bit (taken st page).bitmap q ≡ 0
  cleared_or_same q z = ground (arith, frame_bit-mark_page (at_word st page) page q bytes false)

  taken-Bytes : Bytes (taken st page).bitmap
  taken-Bytes = mark_page-Bytes (at_word st page) page false bytes

  -- the frame is the first available one again, in the state that its own allocation leaves
  again-IsFirst : 2048 ≤ page → IsFirst (taken st page) page
  unfolding mark_page
  again-IsFirst high = record {
    from = omega arith;
    inside = first.inside;
    available = aliased_bit page (omega arith) ∙ first.available;
    before = λ q lo hi. cleared_or_same q (first.before q (omega (arith, first.from)) hi);
  }

  -- From frame 2048 on, two allocations in a row hand out the same address.
  pub alloc_page_twice :
      2048 ≤ page
      → (addr : ℕ) × (st' : Frames) × (st'' : Frames) × (page_frame_alloc_page st options
          ≡ some (addr, st'))
        × (page_frame_alloc_page st' options ≡ some (addr, st''))
  alloc_page_twice high = (
    page * page_size,
    taken st page,
    taken (taken st page) page,
    alloc_page-first st options page bytes free low first (omega arith),
    alloc_page-first (taken st page) options page taken-Bytes refl low (again-IsFirst high)
        (omega arith),
  )

-- The result of an allocation that fails: address 0, no frame changed, and a lock that stays taken, so
-- that every later call of the allocator panics.
pub record Stuck (st : Frames) (r : ℕ × Frames) : Type 0 where
  pub address : r.0 ≡ 0
  pub kept : r.1.bitmap ≡ st.bitmap
  pub no_alloc : (options : ℕ) → page_frame_alloc_page r.1 options ≡ none
  pub no_free : (addr n : ℕ) → page_frame_free r.1 addr n ≡ none

locked-alloc : (st : Frames) (options : ℕ) → st.lock ≡ 1 → page_frame_alloc_page st options ≡ none
unfolding page_frame_alloc_page lock_frames
locked-alloc st options h = ground arith

locked-free : (st : Frames) (addr n : ℕ) → st.lock ≡ 1 → page_frame_free st addr n ≡ none
unfolding page_frame_free lock_frames
locked-free st addr n h = ground arith

-- No frame is available where the search looks, or frame 0 is the first one that is.
abbrev pub Exhausted : Frames → Type 0
Exhausted st = NoneIn st.bitmap (search_start st * 8) (8 * bitmap_size) ⊎ IsFirst st 0

search-Exhausted :
    (st : Frames) (r : ℕ × Frames)
    → Exhausted st
    → Outcome st (search_start st * 8) r
    → (r.0 ≡ 0) × (r.1.lock ≡ st.lock) × (r.1.bitmap ≡ st.bitmap)
search-Exhausted st (p, st') (inl none_left) (found (lo, hi, one, before, e)) =
    absurd (omega (arith, none_left p lo hi))
search-Exhausted st (p, st') (inl none_left) (missing (z, _, e)) =
    (z, ap (λ s. s.lock) e, ap (λ s. s.bitmap) e)
search-Exhausted st r (inr first) o =
    let e = find-first st 0 r first o in
    (ap (λ x. x.0) e, ap (λ x. x.1.lock) e, ap (λ x. x.1.bitmap) e)

-- An allocation that finds no frame, or finds frame 0, fails and leaves the allocator locked.
pub alloc_page-Stuck :
    (st : Frames) (options : ℕ)
    → Bytes st.bitmap
    → st.lock ≡ 0
    → options % 2 ≡ 0
    → Exhausted st
    → Returns (Stuck st) (page_frame_alloc_page st options)
unfolding page_frame_alloc_page lock_frames
alloc_page-Stuck st options bytes free low e =
    let held : Frames = record st { lock = 1 } in
    let e' : Exhausted held = elim e [ inl n ↦ inl n | inr f ↦ inr (held-IsFirst st 0 f) ] in
    let (zero_page, locked, same) =
      search-Exhausted held (find_available_page held) e' (find_available_page_lem held bytes) in
    rw
      (
        mask_bit_test options 0,
        ==-true (options / 1 % 2) 0 (omega arith),
        ==-true st.lock 0 free,
        ==-true (find_available_page held).0 0 zero_page,
      )
      (returns (record {
        address = refl;
        kept = same;
        no_alloc = λ o. locked-alloc _ o locked;
        no_free = λ a n. locked-free _ a n locked;
      }))
