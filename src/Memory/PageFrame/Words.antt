-- ===== src/Memory/PageFrame/Words.antt =====
-- Frames and the bits of the bitmap of kernel/memory/page_frame_allocator.c, read byte by byte or as
-- 32-bit words.
use project_islay.Prelude.{
  ℕ, zero, suc, ◌+◌, ◌-◌, ◌*◌, ◌/◌, ◌%◌, ◌^◌, ◌≤◌, ◌<◌, ◌≡◌, refl, sym, ap, ◌∙◌, arith,
  if◌then◌else◌, ◌==◌, ℕ_discrete,
}
use project_islay.Prelude.Bits.{digit, digit-suc}
use native.Mathlib.Numerals.{towards_suc}
use project_islay.Memory.PageFrame.{word}

-- The bit of frame `page` in the bitmap, at the index that the page number asks for.
abbrev pub frame_bit : (ℕ → ℕ) → ℕ → ℕ
frame_bit m page = digit (m (page / 8)) (page % 8)

abbrev pub Available : (ℕ → ℕ) → ℕ → Type 0
Available m page = frame_bit m page ≡ 1

-- No frame from `lo` up to `hi` is available.
abbrev pub NoneIn : (ℕ → ℕ) → ℕ → ℕ → Type 0
NoneIn m lo hi = (page : ℕ) → lo ≤ page → page < hi → frame_bit m page ≡ 0

-- Every cell of the bitmap is an `unsigned char`.
abbrev pub Bytes : (ℕ → ℕ) → Type 0
Bytes m = (i : ℕ) → m i < 256

pub below_eight :
    (P : ℕ → Type 0) → P 0 → P 1 → P 2 → P 3 → P 4 → P 5 → P 6 → P 7 → (r : ℕ) → r < 8 → P r
below_eight P a b c d e f g h zero p = a
below_eight P a b c d e f g h (suc zero) p = b
below_eight P a b c d e f g h (suc (suc zero)) p = c
below_eight P a b c d e f g h (suc (suc (suc zero))) p = d
below_eight P a b c d e f g h (suc (suc (suc (suc zero)))) p = e
below_eight P a b c d e f g h (suc (suc (suc (suc (suc zero))))) p = f
below_eight P a b c d e f g h (suc (suc (suc (suc (suc (suc zero)))))) p = g
below_eight P a b c d e f g h (suc (suc (suc (suc (suc (suc (suc zero))))))) p = h
below_eight P a b c d e f g h (suc (suc (suc (suc (suc (suc (suc (suc r)))))))) p =
    absurd (omega arith)

module _ (b h : ℕ) (hb : b < 256) where
  digit_low : (r : ℕ) → r < 8 → digit (b + 256 * h) r ≡ digit b r
  digit_low =
      below_eight (λ r. digit (b + 256 * h) r ≡ digit b r) (omega arith) (omega arith) (omega arith)
        (omega arith) (omega arith) (omega arith) (omega arith) (omega arith)

  digit_high : (r : ℕ) → digit (b + 256 * h) (r + 8) ≡ digit h r
  digit_high r =
      let w = b + 256 * h in
      simp towards_suc (
        rw
          (
            digit-suc w,
            digit-suc (w / 2),
            digit-suc (w / 2 / 2),
            digit-suc (w / 2 / 2 / 2),
            digit-suc (w / 2 / 2 / 2 / 2),
            digit-suc (w / 2 / 2 / 2 / 2 / 2),
            digit-suc (w / 2 / 2 / 2 / 2 / 2 / 2),
            digit-suc (w / 2 / 2 / 2 / 2 / 2 / 2 / 2),
          )
          (ap (λ (t : ℕ). digit t r) (omega arith)))

  digit_split :
      (r q s : ℕ)
      → s < 8
      → r ≡ q * 8 + s
      → digit (b + 256 * h) r ≡ (if q == 0 then digit b s else digit h ((q - 1) * 8 + s))
  digit_split r q s p e = elim (ℕ_discrete q 0) [
    | yes z ↦ ap (digit (b + 256 * h)) (omega arith) ∙ digit_low s p ∙ ground (arith, z)
    | no n ↦
        ap (digit (b + 256 * h)) (omega arith) ∙ digit_high ((q - 1) * 8 + s) ∙ ground (arith, n)
  ]

-- Bit `q * 8 + s` of the word at byte `i` is bit `s` of byte `i + q`.
digit-word :
    (m : ℕ → ℕ) (i q s : ℕ)
    → Bytes m
    → q < 4
    → s < 8
    → digit (word m i) (q * 8 + s) ≡ digit (m (i + q)) s
digit-word m i q s bytes hq hs =
    let w2 = m (i + 2) + 256 * m (i + 3) in
    let w1 = m (i + 1) + 256 * w2 in
    let whole : word m i ≡ m i + 256 * w1 = omega arith in
    rw whole (
      ground (
        arith,
        digit_split (m i) w1 (bytes i) (q * 8 + s) q s hs refl,
        digit_split (m (i + 1)) w2 (bytes (i + 1)) ((q - 1) * 8 + s) (q - 1) s hs refl,
        digit_split (m (i + 2)) (m (i + 3)) (bytes (i + 2)) ((q - 2) * 8 + s) (q - 2) s hs refl,
      ))

-- The bit of a frame, read from the word at byte `i`.
pub frame_bit-word :
    (m : ℕ → ℕ) (i page : ℕ)
    → Bytes m
    → i * 8 ≤ page
    → page < i * 8 + 32
    → frame_bit m page ≡ digit (word m i) (page - i * 8)
frame_bit-word m i page bytes lo hi =
    let q = page / 8 - i in
    let s = page % 8 in
    ap (λ k. digit (m k) s) (omega arith)
    ∙ sym (digit-word m i q s bytes (omega arith) (omega arith))
    ∙ ap (digit (word m i)) (omega arith)

pub word-lt : (m : ℕ → ℕ) (i : ℕ) → Bytes m → word m i < 2 ^ 32
word-lt m i bytes = omega (arith, bytes i, bytes (i + 1), bytes (i + 2), bytes (i + 3))
