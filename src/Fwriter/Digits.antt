-- ===== src/Fwriter/Digits.antt =====
-- The digits that `itoa` of kernel/utils/__fwriter.c writes.
use mathlib.Core.Path.{subst}
use native.Mathlib.Nat.{
  mod-lt, mod-add-div, div-lt_iff_lt-mul, pow-suc, pow-zero, add_comm, mul_comm,
}
use project_islay.Prelude.{
  ℕ, zero, suc, ◌+◌, ◌-◌, ◌*◌, ◌/◌, ◌%◌, ◌^◌, ◌≤◌, ◌<◌, ◌≡◌, ◌≢◌, ◌⊎◌, inl, inr, dec_lt, ltb-false,
  refl, sym, ap, ◌∙◌, ltb, leb, ◌&&◌, arith, update, update_at, update_apart, ℕ_discrete,
  if◌then◌else◌, ==-false, lt→ltb,
}
use project_islay.Libc.{Bytes}
use project_islay.Fwriter.{digit_char, write_digits, reverse_buffer, divisor_of, itoa}

-- the digit of a character
unfoldable pub digit_of : ℕ → ℕ
digit_of c = if ltb c 58 then c - 48 else c - 87

-- the character is a decimal digit or a letter from `a` on
IsDigitChar : ℕ → Type 0
IsDigitChar c = ((48 ≤ c) × (c < 58)) ⊎ (97 ≤ c)

digit_char-IsDigitChar : (c : ℕ) → IsDigitChar (digit_char c)
unfolding IsDigitChar digit_char
digit_char-IsDigitChar c = elim (dec_lt c 10) [
  | yes h ↦ rw (lt→ltb c 10 h) (inl (omega (arith, h), omega (arith, h)))
  | no h ↦ rw (ltb-false c 10 (omega (arith, h))) (inr (omega (arith, h)))
]

digit_of-digit_char : (c : ℕ) → digit_of (digit_char c) ≡ c
unfolding digit_of digit_char
digit_of-digit_char c = ground arith

-- the number whose `count` digits stand from `i` on, the last digit first
unfoldable pub number_up : ℕ → Bytes → ℕ → ℕ → ℕ
number_up base b i zero = 0
number_up base b i (suc count) = digit_of (b i) + base * number_up base b (i + 1) count

-- the number whose `count` digits stand from `i` on, the first digit first
unfoldable pub number : ℕ → Bytes → ℕ → ℕ
number base b zero = 0
number base b (suc count) = number base b count * base + digit_of (b count)

-- What the loop leaves: `count` digits from `i` on, and the rest of the buffer.
record IsWritten (base tmp i room : ℕ) (b : Bytes) (r : ℕ × Bytes) : Type 0 where
  count : ℕ
  end : r.0 ≡ i + count
  fits : count ≤ room
  value : number_up base r.1 i count ≡ tmp
  before : (k : ℕ) → k < i → r.1 k ≡ b k
  digits : (k : ℕ) → i ≤ k → k < i + count → IsDigitChar (r.1 k) × (digit_of (r.1 k) < base)
  none_left : tmp ≡ 0 → count ≡ 0
  leading : tmp ≢ 0 → digit_of (r.1 (i + count - 1)) ≢ 0

write_digits-suc :
    (room base t i : ℕ) (b : Bytes)
    → write_digits (suc room) base (suc t) i b
      ≡ write_digits room base (suc t / base) (i + 1) (update b i (digit_char (suc t % base)))
unfolding write_digits
write_digits-suc room base t i b = rw (==-false (suc t) 0 (λ e. absurd (omega (arith, e)))) refl

IsWritten-step :
    (base tmp i room : ℕ) (b : Bytes) (r : ℕ × Bytes)
    → 0 < base
    → tmp ≢ 0
    → IsWritten base (tmp / base) (i + 1) room (update b i (digit_char (tmp % base))) r
    → IsWritten base tmp i (suc room) b r
unfolding number_up
IsWritten-step base tmp i room b r pos some_left w =
    let first : digit_of (r.1 i) ≡ tmp % base =
      ap digit_of (w.before i (omega arith) ∙ update_at b i _) ∙ digit_of-digit_char (tmp % base) in
    record {
      count = suc w.count;
      end = omega (arith, w.end);
      fits = omega (arith, w.fits);
      value =
          ap (λ d. d + base * number_up base r.1 (i + 1) w.count) first
          ∙ (ap (λ v. tmp % base + base * v) w.value ∙ mod-add-div tmp base);
      digits = λ k l h. elim (ℕ_discrete k i) [
        | yes e ↦
            subst (λ m. IsDigitChar (r.1 m) × (digit_of (r.1 m) < base)) (sym e)
              (
                subst IsDigitChar (sym (w.before i (omega arith) ∙ update_at b i _))
                    (digit_char-IsDigitChar (tmp % base)),
                omega (arith, first, mod-lt tmp pos),
              )
        | no n ↦ w.digits k (omega (arith, l, n)) (omega (arith, h))
      ];
      none_left = λ e. absurd (some_left e);
      leading = λ nz. elim (ℕ_discrete (tmp / base) 0) [
        | yes z ↦ λ e.
            let last : i + suc w.count - 1 ≡ i = omega (arith, w.none_left z) in
            let e' : digit_of (r.1 i) ≡ 0 = sym (ap (λ m. digit_of (r.1 m)) last) ∙ e in
            nz (sym (mod-add-div tmp base) ∙ omega (arith, first, e', ap (λ q. base * q) z))
        | no rest ↦ subst (λ m. digit_of (r.1 m) ≢ 0) (omega arith) (w.leading rest)
      ];
      before = λ k l.
          w.before k (omega (arith, l)) ∙ update_apart b i k _ (λ e. absurd (omega (arith, e, l)));
    }

write_digits-IsWritten :
    (base room tmp i : ℕ) (b : Bytes)
    → 1 < base
    → tmp < base ^ room
    → IsWritten base tmp i room b (write_digits room base tmp i b)
unfolding write_digits number_up
write_digits-IsWritten base zero tmp i b h small = record {
  count = 0;
  end = omega arith;
  fits = omega arith;
  value = omega (arith, small, pow-zero base);
  before = λ k l. refl;
  digits = λ k l h'. absurd (omega (arith, l, h'));
  none_left = λ e. refl;
  leading = λ nz. absurd (nz (omega (arith, small, pow-zero base)));
}
write_digits-IsWritten base (suc room) zero i b h small = record {
  count = 0;
  end = omega arith;
  fits = omega arith;
  value = refl;
  before = λ k l. refl;
  digits = λ k l h'. absurd (omega (arith, l, h'));
  none_left = λ e. refl;
  leading = λ nz. absurd (nz refl);
}
write_digits-IsWritten base (suc room) (suc t) i b h small =
    let below =
      (div-lt_iff_lt-mul {k = base} (omega (arith, h))).1
        (subst (λ p. suc t < p) (pow-suc base room) small) in
    subst (IsWritten base (suc t) i (suc room) b) (sym (write_digits-suc room base t i b)) (
      IsWritten-step base (suc t) i room b _ (omega (arith, h)) (λ e. absurd (omega (arith, e)))
        (write_digits-IsWritten base room (suc t / base) (i + 1)
          (update b i (digit_char (suc t % base))) h below))

-- What the exchanges of the reversal leave: places `j` to `i - j - 1` are turned over.
reverse_buffer_lem :
    (k j i : ℕ) (b : Bytes) (x : ℕ)
    → i ≤ 2 * (j + k) + 1
    → 2 * (j + k) ≤ i
    → reverse_buffer k j i b x ≡ (if leb j x && ltb (x + j) i then b (i - x - 1) else b x)
unfolding reverse_buffer
reverse_buffer_lem zero j i b x h l = grind arith
reverse_buffer_lem (suc k) j i b x h l =
    let b' = update (update b j (b (i - j - 1))) (i - j - 1) (b j) in
    reverse_buffer_lem k (j + 1) i b' x (omega (arith, h)) (omega (arith, l)) ∙ grind arith

number_reversed :
    (base count from : ℕ) (b b' : Bytes)
    → ((k : ℕ) → k < count → b' k ≡ b (from + (count - k - 1)))
    → number base b' count ≡ number_up base b from count
unfolding number number_up
number_reversed base zero from b b' h = refl
number_reversed base (suc count) from b b' h =
    let rest =
      number_reversed base count (from + 1) b b'
        (λ k l. h k (omega (arith, l)) ∙ ap b (omega (arith, l))) in
    let last : b' count ≡ b from = h count (omega arith) ∙ ap b (omega arith) in
    rw (rest, last) (add_comm _ _ ∙ ap (λ m. digit_of (b from) + m) (mul_comm _ _))

-- The buffer after the reversal, up to its end.
reversed-at :
    (i : ℕ) (b : Bytes) (k : ℕ)
    → (k < i → reverse_buffer (i / 2) 0 i (update b i 0) k ≡ b (i - k - 1))
      × (k ≡ i → reverse_buffer (i / 2) 0 i (update b i 0) k ≡ 0)
reversed-at i b k =
    let r = reverse_buffer_lem (i / 2) 0 i (update b i 0) k (omega arith) (omega arith) in
    (λ l. r ∙ grind arith, λ e. r ∙ grind arith)

itoa-zero :
    (buffer : Bytes) (len radix : ℕ)
    → 1 < len
    → itoa 0 buffer len radix ≡ (1, update (update buffer 0 48) 1 10)
unfolding itoa
itoa-zero buffer len radix h = rw (lt→ltb 1 len h) refl

itoa-suc :
    (n : ℕ) (buffer : Bytes) (len radix : ℕ)
    → let digits = write_digits (len - 1) (divisor_of radix) (suc n) 0 buffer in
      itoa (suc n) buffer len radix
      ≡ (digits.0, reverse_buffer (digits.0 / 2) 0 digits.0 (update digits.1 digits.0 0))
unfolding itoa
itoa-suc n buffer len radix = rw (==-false (suc n) 0 (λ e. absurd (omega (arith, e)))) refl

divisor_of-least : (radix : ℕ) → 1 < divisor_of radix
unfolding divisor_of
divisor_of-least radix = ground arith

-- `n` as text, with a place of `len` left: digits, decimal ones or letters, whose first is 0 only if it is the only
-- one
pub IsNumeral : ℕ → ℕ → ℕ → ℕ × Bytes → Type 0
IsNumeral base len n r =
    (0 < r.0)
    × (r.0 < len)
    × (number base r.1 r.0 ≡ n)
    × ((k : ℕ) → k < r.0 → IsDigitChar (r.1 k) × (digit_of (r.1 k) < base))
    × ((r.0 ≡ 1) ⊎ (digit_of (r.1 0) ≢ 0))

count-pos : (base n : ℕ) (b : Bytes) (i count : ℕ) → number_up base b i count ≡ suc n → 0 < count
unfolding number_up
count-pos base n b i zero e = absurd (omega (arith, e))
count-pos base n b i (suc count) e = omega arith

IsWritten-IsNumeral :
    (base n len : ℕ) (b : Bytes) (r : ℕ × Bytes)
    → 1 < len
    → IsWritten base (suc n) 0 (len - 1) b r
    → IsNumeral base len (suc n) (r.0, reverse_buffer (r.0 / 2) 0 r.0 (update r.1 r.0 0))
unfolding IsNumeral number_up
IsWritten-IsNumeral base n len b r h w = (
  omega (arith, w.end, count-pos base n r.1 0 w.count w.value),
  omega (arith, w.end, w.fits, h),
  number_reversed base r.0 0 r.1 _ (λ k l. (reversed-at r.0 r.1 k).0 l ∙ ap r.1 (omega (arith, l)))
      ∙ subst (λ c. number_up base r.1 0 c ≡ suc n) (omega (arith, w.end)) w.value,
  λ k l.
      subst (λ c. IsDigitChar c × (digit_of c < base)) (sym ((reversed-at r.0 r.1 k).0 l))
        (w.digits (r.0 - k - 1) (omega arith) (omega (arith, l, w.end))),
  inr (
      subst (λ c. digit_of c ≢ 0)
        (sym (
          (reversed-at r.0 r.1 0).0 (omega (arith, w.end, count-pos base n r.1 0 w.count w.value))
          ∙ ap r.1 (omega (arith, w.end))))
        (w.leading (λ e. absurd (omega (arith, e))))),
)

-- `itoa` of a number with fewer digits than the buffer, of two places or more, has places gives its digits in the
-- base of the radix, the first digit first, as decimal digits and letters and without a leading zero: at least one,
-- and less than the length of the buffer.
pub itoa-IsNumeral :
    (n : ℕ) (buffer : Bytes) (len radix : ℕ)
    → 1 < len
    → n < divisor_of radix ^ (len - 1)
    → IsNumeral (divisor_of radix) len n (itoa n buffer len radix)
unfolding IsNumeral number digit_of IsDigitChar
itoa-IsNumeral zero buffer len radix h small =
    subst (IsNumeral (divisor_of radix) len 0) (sym (itoa-zero buffer len radix h)) (
      omega arith,
      omega (arith, h),
      omega arith,
      λ k l. elim (ℕ_discrete k 0) [
        | yes z ↦ rw z (inl (omega arith, omega arith), omega (arith, divisor_of-least radix))
        | no nz ↦ absurd (omega (arith, l, nz))
      ],
      inl refl,
    )
itoa-IsNumeral (suc n) buffer len radix h small =
    subst (IsNumeral (divisor_of radix) len (suc n)) (sym (itoa-suc n buffer len radix)) (
      IsWritten-IsNumeral (divisor_of radix) n len buffer _ h (
        write_digits-IsWritten (divisor_of radix) (len - 1) (suc n) 0 buffer
          (divisor_of-least radix) small))
