-- ===== src/Memory/PageFrame/Search.antt =====
-- `find_available_page` of kernel/memory/page_frame_allocator.c finds the first available frame.
use project_islay.Prelude.{
  ℕ, zero, suc, ◌+◌, ◌-◌, ◌*◌, ◌/◌, ◌%◌, ◌^◌, ◌≤◌, ◌<◌, ◌≡◌, refl, ◌∙◌, ◌⊎◌, inl, inr, Option, none,
  some, arith, lt→ltb, ==-false, ℕ_discrete, dec_lt, ap, ◌≢◌,
}
use project_islay.Prelude.Bits.{digit, digit-cases, mask_bit_test, zero_of_digits, digit-zero}
use project_islay.Memory.PageFrame.{
  Frames, bitmap_size, word, search_start, find_bit, find_word, find_available_page,
}
use project_islay.Memory.PageFrame.Words.{Available, NoneIn, Bytes, frame_bit-word, word-lt}

-- the first one among the `k` binary digits from `j` on
abbrev BitFound : ℕ → ℕ → ℕ → Option ℕ → Type 0
BitFound k j b none = (q : ℕ) → j ≤ q → q < j + k → digit b q ≡ 0
BitFound k j b (some r) =
    (j ≤ r) × (r < j + k) × (digit b r ≡ 1) × ((q : ℕ) → j ≤ q → q < r → digit b q ≡ 0)

eq_or_next : (j q : ℕ) → j ≤ q → (q ≡ j) ⊎ (j + 1 ≤ q)
eq_or_next j q h = elim (ℕ_discrete q j) [ yes e ↦ inl e | no n ↦ inr (omega arith) ]

clear_from :
    (f : ℕ → ℕ) (j hi : ℕ)
    → f j ≡ 0
    → ((q : ℕ) → j + 1 ≤ q → q < hi → f q ≡ 0)
    → (q : ℕ) → j ≤ q
    → q < hi
    → f q ≡ 0
clear_from f j hi z h q p r = elim (eq_or_next j q p) [ inl e ↦ rw e z | inr n ↦ h q n r ]

BitFound-next :
    (k j b : ℕ) (o : Option ℕ) → digit b j ≡ 0 → BitFound k (j + 1) b o → BitFound (suc k) j b o
BitFound-next k j b none z h = λ q p r. clear_from (digit b) j (j + 1 + k) z h q p (omega arith)
BitFound-next k j b (some r) z h = (omega arith, omega arith, h.2, clear_from (digit b) j r z h.3)

find_bit-BitFound : (k j b : ℕ) → BitFound k j b (find_bit k j b)
unfolding find_bit
find_bit-BitFound zero j b = λ q p r. absurd (omega arith)
find_bit-BitFound (suc k) j b = rw (mask_bit_test b j) (elim (digit-cases (b / 2 ^ j)) [
  | inl z ↦ rw z (BitFound-next k j b _ z (find_bit-BitFound k (j + 1) b))
  | inr o ↦ rw o (omega arith, omega arith, o, λ q p r. absurd (omega arith))
])

-- The search from frame `lo` found the first available one, and remembers its word.
abbrev pub Found : Frames → ℕ → ℕ × Frames → Type 0
Found st lo (p, st') =
    (lo ≤ p)
    × (p < 8 * bitmap_size)
    × Available st.bitmap p
    × NoneIn st.bitmap lo p
    × (st' ≡ record st { first_available_frame_idx = p / 32 * 4 })

-- The search from frame `lo` found nothing, and there is nothing.
abbrev pub Missing : Frames → ℕ → ℕ × Frames → Type 0
Missing st lo (p, st') = (p ≡ 0) × NoneIn st.bitmap lo (8 * bitmap_size) × (st' ≡ st)

clear_word :
    (m : ℕ → ℕ) (i hi : ℕ) → Bytes m → word m i ≡ 0 → NoneIn m (i * 8 + 32) hi → NoneIn m (i * 8) hi
clear_word m i hi bytes z rest page lo below = elim (dec_lt page (i * 8 + 32)) [
  | yes p ↦ frame_bit-word m i page bytes lo p ∙ rw (z, digit-zero)
  | no p ↦ rest page (omega arith) below
]

module _ (st : Frames) (bytes : Bytes st.bitmap) (i : ℕ) (aligned : i % 4 ≡ 0) where
  bit-Found :
      (j : ℕ)
      → i < bitmap_size
      → BitFound 32 0 (word st.bitmap i) (some j)
      → Found st (i * 8) (i * 8 + j, record st { first_available_frame_idx = i })
  bit-Found j inside (lo, hi, one, before) =
      let at = frame_bit-word st.bitmap i in
      (
        omega arith,
        omega arith,
        at (i * 8 + j) bytes (omega arith) (omega arith)
            ∙ ap (digit (word st.bitmap i)) (omega arith)
            ∙ one,
        λ page p q.
            at page bytes p (omega arith) ∙ before (page - i * 8) (omega arith) (omega arith),
        ap (λ (k : ℕ). record st { first_available_frame_idx = k }) (omega arith),
      )

  no_bit : BitFound 32 0 (word st.bitmap i) none → word st.bitmap i ≡ 0
  no_bit h =
      zero_of_digits 32 (word st.bitmap i) (word-lt st.bitmap i bytes) (λ j p. h j (omega arith) p)

pub data Outcome (st : Frames) (lo : ℕ) (r : ℕ × Frames) : Type 0 where
  found : Found st lo r → Outcome st lo r
  missing : Missing st lo r → Outcome st lo r

skip_word :
    (st : Frames) (i : ℕ) (r : ℕ × Frames)
    → Bytes st.bitmap
    → word st.bitmap i ≡ 0
    → Outcome st ((i + 4) * 8) r
    → Outcome st (i * 8) r
skip_word st i (p, st') bytes z (found (lo, hi, one, before, e)) = found (
  omega arith,
  hi,
  one,
  clear_word st.bitmap i p bytes z (λ page l h. before page (omega arith) h),
  e,
)
skip_word st i (p, st') bytes z (missing (e, none_left, same)) = missing (
  e,
  clear_word st.bitmap i (8 * bitmap_size) bytes z (λ page l h. none_left page (omega arith) h),
  same,
)

find_word_past : (k i : ℕ) (st : Frames) → bitmap_size ≤ i → find_word k i st ≡ (0, st)
unfolding find_word
find_word_past zero i st h = refl
find_word_past (suc k) i st h = ground arith

module _ (k i : ℕ) (st : Frames) (inside : i < bitmap_size) where
  find_word_skip : word st.bitmap i ≡ 0 → find_word (suc k) i st ≡ find_word k (i + 4) st
  unfolding find_word
  find_word_skip z = rw (lt→ltb i bitmap_size inside, z)

  find_word_hit :
      (j : ℕ)
      → word st.bitmap i ≢ 0
      → find_bit 32 0 (word st.bitmap i) ≡ some j
      → find_word (suc k) i st ≡ (i * 8 + j, record st { first_available_frame_idx = i })
  unfolding find_word
  find_word_hit j nz e = rw (lt→ltb i bitmap_size inside, ==-false _ _ nz, e)

find_word_at :
    (k i : ℕ) (st : Frames)
    → Bytes st.bitmap
    → i % 4 ≡ 0
    → i < bitmap_size
    → Outcome st ((i + 4) * 8) (find_word k (i + 4) st)
    → (o : Option ℕ) → find_bit 32 0 (word st.bitmap i) ≡ o
    → BitFound 32 0 (word st.bitmap i) o
    → Outcome st (i * 8) (find_word (suc k) i st)
find_word_at k i st bytes a inside rest none e b =
    let z = no_bit st bytes i a b in
    rw (find_word_skip k i st inside z) (skip_word st i _ bytes z rest)
find_word_at k i st bytes a inside rest (some j) e b = elim (ℕ_discrete (word st.bitmap i) 0) [
  | yes z ↦ rw (find_word_skip k i st inside z) (skip_word st i _ bytes z rest)
  | no nz ↦ rw (find_word_hit k i st inside j nz e) (found (bit-Found st bytes i a j inside b))
]

-- The search from byte `i` on finds the first available frame, if there is one.
pub find_word_lem :
    (k i : ℕ) (st : Frames)
    → Bytes st.bitmap
    → i % 4 ≡ 0
    → bitmap_size ≤ i + 4 * k
    → Outcome st (i * 8) (find_word k i st)
find_word_lem zero i st bytes a fuel =
    rw (find_word_past 0 i st (omega arith))
      (missing (refl, λ page p q. absurd (omega arith), refl))
find_word_lem (suc k) i st bytes a fuel = elim (dec_lt i bitmap_size) [
  | no past ↦
      rw (find_word_past (suc k) i st (omega arith))
        (missing (refl, λ page p q. absurd (omega arith), refl))
  | yes inside ↦
      let rest = find_word_lem k (i + 4) st bytes (omega arith) (omega arith) in
      find_word_at k i st bytes a inside rest _ refl (find_bit-BitFound 32 0 (word st.bitmap i))
]

-- The search returns the first available frame at or after its starting word, leaves the bitmap as
-- it is and remembers the word of that frame; it returns 0 and changes nothing if no frame from
-- there on is available.
pub find_available_page_lem :
    (st : Frames) → Bytes st.bitmap → Outcome st (search_start st * 8) (find_available_page st)
unfolding find_available_page
find_available_page_lem st bytes =
    find_word_lem (bitmap_size / 4) (search_start st) st bytes (omega arith) (omega arith)
