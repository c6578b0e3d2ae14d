-- ===== src/Memory/PageFrame/Mark.antt =====
-- What `mark_page` and `check_page_available` of kernel/memory/page_frame_allocator.c do to the bit of
-- each frame. The byte index is kept in an `unsigned char`, so that frames which differ by a multiple
-- of 2048 share a bit.
use project_islay.Prelude.{
  ℕ, ◌+◌, ◌*◌, ◌/◌, ◌%◌, ◌^◌, ◌<◌, ◌≡◌, ◌≢◌, ap, sym, ◌∙◌, Bool, true, false, arith, ◌==◌,
  if◌then◌else◌, update, ℕ_discrete, ==-false,
}
use project_islay.Prelude.Bits.{
  digit, mask_bit_test, digit-cases, set_bit-lt, clr_bit-lt, digit-set_bit, digit-clr_bit,
}
use project_islay.Memory.PageFrame.{Frames, byte_idx, check_page_available, mark_page}
use project_islay.Memory.PageFrame.Words.{frame_bit, Bytes}

-- the bit that a mark writes
abbrev pub bit_of : Bool → ℕ
bit_of true = 1
bit_of false = 0

pub mark_page-Bytes :
    (st : Frames) (page : ℕ) (a : Bool) → Bytes st.bitmap → Bytes (mark_page st page a).bitmap
unfolding mark_page
mark_page-Bytes st page true bytes i =
    let idx = byte_idx page in
    ground (arith, bytes i, set_bit-lt (st.bitmap idx) (page % 8) (bytes idx) (omega arith))
mark_page-Bytes st page false bytes i =
    let idx = byte_idx page in
    ground (arith, bytes i, clr_bit-lt (st.bitmap idx) (page % 8) (bytes idx) (omega arith))

pub frame_bit-same :
    (m : ℕ → ℕ) (idx v q : ℕ) → q / 8 ≢ idx → frame_bit (update m idx v) q ≡ frame_bit m q
frame_bit-same m idx v q h = ap (λ (b : ℕ). digit b (q % 8)) (ground arith)

pub frame_bit-here :
    (m : ℕ → ℕ) (idx v q : ℕ) → q / 8 ≡ idx → frame_bit (update m idx v) q ≡ digit v (q % 8)
frame_bit-here m idx v q h = ap (λ (b : ℕ). digit b (q % 8)) (ground arith)

pub write_bit :
    (m : ℕ → ℕ) (idx v bit val q : ℕ)
    → bit < 8
    → ((s : ℕ) → s < 8 → digit v s ≡ (if bit == s then val else digit (m idx) s))
    → frame_bit (update m idx v) q ≡ (if q == idx * 8 + bit then val else frame_bit m q)
write_bit m idx v bit val q hb h = elim (ℕ_discrete (q / 8) idx) [
  | no n ↦ frame_bit-same m idx v q n ∙ rw (==-false q (idx * 8 + bit) (omega arith))
  | yes e ↦
      let old : digit (m idx) (q % 8) ≡ frame_bit m q = ap (λ k. digit (m k) (q % 8)) (sym e) in
      frame_bit-here m idx v q e ∙ h (q % 8) (omega arith) ∙ ground (arith, old)
]

module _ (st : Frames) (page q : ℕ) (bytes : Bytes st.bitmap) where
  aliased :
      (val : ℕ)
      → (if q == byte_idx page * 8 + page % 8 then val else frame_bit st.bitmap q)
        ≡ (if q == page % 2048 then val else frame_bit st.bitmap q)
  aliased val = ap (λ k. if q == k then val else frame_bit st.bitmap q) (omega arith)

  -- Marking a frame writes the bit of frame `page % 2048` and leaves every other bit.
  pub frame_bit-mark_page :
      (a : Bool)
      → frame_bit (mark_page st page a).bitmap q
        ≡ (if q == page % 2048 then bit_of a else frame_bit st.bitmap q)
  unfolding mark_page
  frame_bit-mark_page true =
      let idx = byte_idx page in
      write_bit st.bitmap idx _ (page % 8) 1 q (omega arith)
        (digit-set_bit (st.bitmap idx) (page % 8) (bytes idx) (omega arith))
      ∙ aliased 1
  frame_bit-mark_page false =
      let idx = byte_idx page in
      write_bit st.bitmap idx _ (page % 8) 0 q (omega arith)
        (digit-clr_bit (st.bitmap idx) (page % 8) (bytes idx) (omega arith))
      ∙ aliased 0

-- The check reads the bit of frame `page % 2048`.
pub check_page_available-frame_bit :
    (st : Frames) (page : ℕ)
    → check_page_available st page ≡ (frame_bit st.bitmap (page % 2048) == 1)
unfolding check_page_available
check_page_available-frame_bit st page =
    let b = st.bitmap (byte_idx page) in
    let at : frame_bit st.bitmap (page % 2048) ≡ digit b (page % 8) =
      ap (λ k. digit (st.bitmap k) (page % 2048 % 8)) (omega arith) ∙ ap (digit b) (omega arith) in
    rw (mask_bit_test b (page % 8), at) (ground (arith, digit-cases (b / 2 ^ (page % 8))))
