-- ===== src/Prelude/Runs.antt =====
-- Code that may stop: `none` is a kernel panic, or fuel that ran out. A run is correct in total
-- when it returns and what it returns satisfies a postcondition.
use mathlib.Core.Path.{◌≡◌, refl, subst}
use native.Mathlib.Omega.{arith}
use mathlib.Core.Option.{Option, none, some}

infixl 5 ◌>>=◌ ◌>>◌
abbrev pub ◌>>=◌ {ℓ κ} : {A : Type ℓ} {B : Type κ} → Option A → (A → Option B) → Option B
none >>= f = none
some a >>= f = f a

abbrev pub ◌>>◌ {ℓ} : {B : Type ℓ} → Option (Unit {0}) → Option B → Option B
m >> k = m >>= λ _. k

-- `m` returns a value that satisfies `P`.
pub data Returns {ℓ κ} {A : Type ℓ} (P : A → Type κ) : Option A → Type (ℓ ⊔ κ) where
  returns : {a : A} → P a → Returns P (some a)

module _ {ℓ κ} {A : Type ℓ} {P : A → Type κ} where
  pub Returns-mono {μ} :
      {Q : A → Type μ} {m : Option A} → Returns P m → ((a : A) → P a → Q a) → Returns Q m
  Returns-mono (returns p) weaken = returns (weaken _ p)

  pub Returns-bind {μ ν} :
      {B : Type μ} {Q : B → Type ν} {m : Option A} {f : A → Option B}
      → Returns P m
      → ((a : A) → P a → Returns Q (f a))
      → Returns Q (m >>= f)
  Returns-bind (returns p) next = next _ p

  pub Returns-inv : {m : Option A} → Returns P m → (a : A) × (m ≡ some a) × P a
  Returns-inv (returns p) = (_, refl, p)

pub eq_of_some {ℓ} : {A : Type ℓ} {a b : A} → ◌≡◌ {A = Option A} (some a) (some b) → a ≡ b
eq_of_some e = cc

-- If `m` returns a value at all, it satisfies `P`.
pub data Ensures {ℓ κ} {A : Type ℓ} (P : A → Type κ) : Option A → Type (ℓ ⊔ κ) where
  stops : Ensures P none
  gives : {a : A} → P a → Ensures P (some a)

module _ {ℓ κ} {A : Type ℓ} {P : A → Type κ} where
  pub Ensures-bind {μ ν} :
      {B : Type μ} {Q : B → Type ν} {m : Option A} {f : A → Option B}
      → Ensures P m
      → ((a : A) → P a → Ensures Q (f a))
      → Ensures Q (m >>= f)
  Ensures-bind stops next = stops
  Ensures-bind (gives p) next = next _ p

  pub Ensures-mono {μ} :
      {Q : A → Type μ} {m : Option A} → Ensures P m → ((a : A) → P a → Q a) → Ensures Q m
  Ensures-mono stops weaken = stops
  Ensures-mono (gives p) weaken = gives (weaken _ p)

  pub Ensures-eq : (m : Option A) → ((a : A) → m ≡ some a → P a) → Ensures P m
  Ensures-eq none h = stops
  Ensures-eq (some a) h = gives (h a refl)

  pub Ensures-at : {m : Option A} {a : A} → Ensures P m → m ≡ some a → P a
  Ensures-at {m = none} e h = absurd (ground (arith, h))
  Ensures-at {m = some b} (gives p) h = subst P (eq_of_some h) p

  pub Returns-Ensures : {m : Option A} → Returns P m → Ensures P m
  Returns-Ensures (returns p) = gives p

pub Ensures-both {ℓ κ μ} :
    {A : Type ℓ} {P : A → Type κ} {Q : A → Type μ} {m : Option A}
    → Ensures P m
    → Ensures Q m
    → Ensures (λ a. P a × Q a) m
Ensures-both stops q = stops
Ensures-both (gives p) (gives q) = gives (p, q)
