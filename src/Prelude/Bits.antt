-- ===== src/Prelude/Bits.antt =====
-- The macros of kernel/include/bit_manipulation.h on bytes, and what they do to each bit.
use Prim.Native.Nat.{
  ℕ, zero, suc, ◌+◌, ◌-◌, ◌*◌, ◌/◌, ◌%◌, ◌^◌, ◌≤◌, ◌<◌, min, bit_and, bit_or, digits,
  bit_and-bitwise,
}
use mathlib.Core.Path.{◌≡◌, refl, ap, ◌∙◌}
use mathlib.Core.Bool.{Bool, true, ◌&&◌}
use native.Mathlib.Omega.{arith}
use mathlib.Core.Logic.{◌⊎◌, inl, inr}
use native.Mathlib.Decide.{ℕ_discrete}
use native.Mathlib.Nat.{pow-suc, zero-mul, one-le-pow, div-div-eq-div-mul, mul_comm}
use project_islay.Prelude.Tests.{◌==◌, ltb, ltb→lt, ==_iff, if◌then◌else◌}

-- `SET_BIT`
unfoldable pub set_bit : ℕ → ℕ → ℕ
set_bit b n = bit_or b (2 ^ n)

-- `CLR_BIT` on an `unsigned char`
unfoldable pub clr_bit : ℕ → ℕ → ℕ
clr_bit b n = bit_and b (255 - 2 ^ n)

-- `MASK_BIT`
unfoldable pub mask_bit : ℕ → ℕ → ℕ
mask_bit b n = bit_and b (2 ^ n)

-- The binary digit `n` of `b`.
abbrev pub digit : ℕ → ℕ → ℕ
digit b n = b / 2 ^ n % 2

&&-left : (p q : Bool) → (p && q) ≡ true → p ≡ true
&&-left p q h = ground arith

&&-right : (p q : Bool) → (p && q) ≡ true → q ≡ true
&&-right p q h = ground arith

-- the test holds of each number below the bound
every : (ℕ → Bool) → ℕ → Bool
every test zero = true
every test (suc bound) = every test bound && test bound

every-at : (test : ℕ → Bool) (bound k : ℕ) → k < bound → every test bound ≡ true → test k ≡ true
unfolding every
every-at test zero k below all = absurd (omega (arith, below))
every-at test (suc bound) k below all = elim (ℕ_discrete k bound) [
  | yes last ↦ rw last (&&-right (every test bound) (test bound) all)
  | no other ↦
      every-at test bound k (omega (arith, below, other))
        (&&-left (every test bound) (test bound) all)
]

bytes_and_bits : (ℕ → ℕ → Bool) → Bool
unfolding every
bytes_and_bits p = every (λ b. every (λ n. p b n) 8) 256

bytes_and_bits_sound :
    (p : ℕ → ℕ → Bool) (b n : ℕ) → bytes_and_bits p ≡ true → b < 256 → n < 8 → p b n ≡ true
unfolding bytes_and_bits
bytes_and_bits_sound p b n h hb hn =
    every-at (p b) 8 n hn (every-at (λ c. every (λ m. p c m) 8) 256 b hb h)

set_table :
    bytes_and_bits (λ b n.
      ltb (set_bit b n) 256
      && every (λ m. digit (set_bit b n) m == (if n == m then 1 else digit b m)) 8)
    ≡ true
unfolding bytes_and_bits set_bit
set_table = refl

clr_table :
    bytes_and_bits (λ b n.
      ltb (clr_bit b n) 256
      && every (λ m. digit (clr_bit b n) m == (if n == m then 0 else digit b m)) 8)
    ≡ true
unfolding bytes_and_bits clr_bit
clr_table = refl

module _ (b n : ℕ) (hb : b < 256) (hn : n < 8) where
  set_row :
      (ltb (set_bit b n) 256
        && every (λ m. digit (set_bit b n) m == (if n == m then 1 else digit b m)) 8)
      ≡ true
  set_row =
      bytes_and_bits_sound
        (λ c k.
          ltb (set_bit c k) 256
          && every (λ m. digit (set_bit c k) m == (if k == m then 1 else digit c m)) 8)
        b n set_table hb hn

  clr_row :
      (ltb (clr_bit b n) 256
        && every (λ m. digit (clr_bit b n) m == (if n == m then 0 else digit b m)) 8)
      ≡ true
  clr_row =
      bytes_and_bits_sound
        (λ c k.
          ltb (clr_bit c k) 256
          && every (λ m. digit (clr_bit c k) m == (if k == m then 0 else digit c m)) 8)
        b n clr_table hb hn

  pub set_bit-lt : set_bit b n < 256
  set_bit-lt = ltb→lt _ _ (&&-left _ _ set_row)

  pub clr_bit-lt : clr_bit b n < 256
  clr_bit-lt = ltb→lt _ _ (&&-left _ _ clr_row)

  pub digit-set_bit : (m : ℕ) → m < 8 → digit (set_bit b n) m ≡ (if n == m then 1 else digit b m)
  digit-set_bit m hm = (==_iff _ _).0 (
      every-at (λ k. digit (set_bit b n) k == (if n == k then 1 else digit b k)) 8 m hm
        (&&-right _ _ set_row))

  pub digit-clr_bit : (m : ℕ) → m < 8 → digit (clr_bit b n) m ≡ (if n == m then 0 else digit b m)
  digit-clr_bit m hm = (==_iff _ _).0 (
      every-at (λ k. digit (clr_bit b n) k == (if n == k then 0 else digit b k)) 8 m hm
        (&&-right _ _ clr_row))

-- `bit_and` by its digits, with a round for each.
abbrev rounds : ℕ → ℕ → ℕ → ℕ
rounds k x y = digits (λ d. 0) min k x y

-- More rounds than digits change nothing.
rounds_enough : (x y j k : ℕ) → x ≤ k → x ≤ j → rounds j x y ≡ rounds k x y
rounds_enough zero y zero zero le ge = refl
rounds_enough zero y (suc j) zero le ge = refl
rounds_enough zero y zero (suc k) le ge = refl
rounds_enough zero y (suc j) (suc k) le ge = refl
rounds_enough (suc x) y zero k le ge = absurd (omega (arith, ge))
rounds_enough (suc x) y (suc j) zero le ge = absurd (omega (arith, le))
rounds_enough (suc x) y (suc j) (suc k) le ge =
    let halved = rounds_enough (suc x / 2) (y / 2) j k (omega (arith, le)) (omega (arith, ge)) in
    omega (arith, halved)

-- the lowest digit, and the rest
halves : (x y : ℕ) → bit_and x y ≡ min (x % 2) (y % 2) + 2 * bit_and (x / 2) (y / 2)
halves zero y = omega (arith, bit_and-bitwise 0 y, bit_and-bitwise 0 (y / 2))
halves (suc x) y =
    let half = suc x / 2 in
    let few = rounds_enough half (y / 2) x half (omega arith) (omega arith) in
    omega (arith, few, bit_and-bitwise half (y / 2), bit_and-bitwise (suc x) y)

mask_none : (k x : ℕ) → x ≤ k → bit_and x 0 ≡ 0
mask_none k zero le = refl
mask_none zero (suc x) le = absurd (omega (arith, le))
mask_none (suc k) (suc x) le =
    let rest = mask_none k (suc x / 2) (omega (arith, le)) in omega (arith, rest, halves (suc x) 0)

mask_lowest : (x : ℕ) → bit_and x 1 ≡ x % 2
mask_lowest x = omega (arith, mask_none (x / 2) (x / 2) (omega arith), halves x 1)

pub digit-suc : (b n : ℕ) → digit b (suc n) ≡ digit (b / 2) n
digit-suc b n = rw (pow-suc, mul_comm (2 ^ n) 2, div-div-eq-div-mul)

half_pow : (n : ℕ) → 2 ^ suc n / 2 ≡ 2 ^ n
half_pow n = omega (arith, pow-suc 2 n)

bit_and-pow : (n b : ℕ) → bit_and b (2 ^ n) ≡ digit b n * 2 ^ n
bit_and-pow zero b = omega (arith, mask_lowest b)
bit_and-pow (suc n) b = omega (
  arith,
  halves b (2 ^ suc n),
  pow-suc 2 n,
  ap (bit_and (b / 2)) (half_pow n),
  bit_and-pow n (b / 2),
  ap (λ d. d * 2 ^ n) (digit-suc b n),
  ap (λ t. digit b (suc n) * t) (pow-suc 2 n),
)

pub mask_bit-digit : (n b : ℕ) → mask_bit b n ≡ digit b n * 2 ^ n
unfolding mask_bit
mask_bit-digit n b = bit_and-pow n b

pos_pow : (n : ℕ) → 0 < 2 ^ n
pos_pow n = one-le-pow n 2 (omega arith)

pub digit-cases : (b : ℕ) → (b % 2 ≡ 0) ⊎ (b % 2 ≡ 1)
digit-cases b = elim (ℕ_discrete (b % 2) 0) [ yes z ↦ inl z | no o ↦ inr (omega arith) ]

pub mask_bit_test : (b n : ℕ) → (mask_bit b n == 0) ≡ (digit b n == 0)
mask_bit_test b n = elim (digit-cases (b / 2 ^ n)) [
  | inl z ↦ rw (mask_bit-digit n b, z, zero-mul)
  | inr o ↦ ground (arith, mask_bit-digit n b, pos_pow n, ap (λ d. d * 2 ^ n) o)
]

lt_of_digit : (b n : ℕ) → b < 2 ^ suc n → digit b n ≡ 0 → b < 2 ^ n
lt_of_digit b n h z =
    let small : b / 2 ^ n < 2 = grind (arith, pow-suc 2 n) in
    let q : b / 2 ^ n ≡ 0 = omega arith in omega (arith, ap (λ t. 2 ^ n * t) q)

-- A number all of whose digits are zero is zero.
pub zero_of_digits : (n b : ℕ) → b < 2 ^ n → ((j : ℕ) → j < n → digit b j ≡ 0) → b ≡ 0
zero_of_digits zero b h z = omega arith
zero_of_digits (suc n) b h z =
    zero_of_digits n b (lt_of_digit b n h (z n (omega arith))) (λ j p. z j (omega arith))

pub digit-zero : (n : ℕ) → digit 0 n ≡ 0
digit-zero zero = refl
digit-zero (suc n) = digit-suc 0 n ∙ digit-zero n
