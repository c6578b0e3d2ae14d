-- ===== src/Prelude/Arrays.antt =====
-- C arrays as lists read with a default: writes, exchanges of two entries, and prefixes.
use Prim.Native.Nat.{ℕ, zero, suc, ◌<◌, ◌≤◌}
use mathlib.Core.Path.{◌≡◌, refl, ap, ◌∙◌}
use mathlib.Core.List.{List, [], ◌∷◌, ◌++◌, Perm}
use mathlib.Core.List.Perm
use native.Mathlib.Omega.{arith}
use project_islay.Prelude.Tests.{◌==◌, if◌then◌else◌}
use project_islay.Prelude.Lists.{length, get_or, set, take, length-set, length-take}

module _ {ℓ} {A : Type ℓ} where
  pub get_or-set :
      (a : List A) (i j : ℕ) (v d : A)
      → i < length a
      → get_or (set a i v) j d ≡ (if i == j then v else get_or a j d)
  get_or-set [] i j v d h = absurd (omega arith)
  get_or-set (x ∷ a) zero zero v d h = refl
  get_or-set (x ∷ a) zero (suc j) v d h = ground arith
  get_or-set (x ∷ a) (suc i) zero v d h = ground arith
  get_or-set (x ∷ a) (suc i) (suc j) v d h = ground (arith, get_or-set a i j v d)

  pub get_or-take :
      (n : ℕ) (a : List A) (i : ℕ) (d : A) → i < n → get_or (take n a) i d ≡ get_or a i d
  get_or-take zero a i d h = absurd (omega arith)
  get_or-take (suc n) [] i d h = refl
  get_or-take (suc n) (x ∷ a) zero d h = refl
  get_or-take (suc n) (x ∷ a) (suc i) d h = get_or-take n a i d (omega arith)

  pub take-set : (n : ℕ) (a : List A) (i : ℕ) (v : A) → take n (set a i v) ≡ set (take n a) i v
  take-set zero a i v = refl
  take-set (suc n) [] i v = refl
  take-set (suc n) (x ∷ a) zero v = refl
  take-set (suc n) (x ∷ a) (suc i) v = ap (λ t. x ∷ t) (take-set n a i v)

  pub take-suc :
      (n : ℕ) (a : List A) (d : A) → n < length a → take (suc n) a ≡ take n a ++ get_or a n d ∷ []
  take-suc n [] d h = absurd (omega arith)
  take-suc zero (x ∷ a) d h = refl
  take-suc (suc n) (x ∷ a) d h = ap (λ t. x ∷ t) (take-suc n a d (omega arith))

  -- `swap(array + i, array + j)`
  unfoldable pub swap : A → List A → ℕ → ℕ → List A
  swap d a i j = set (set a i (get_or a j d)) j (get_or a i d)

  pub length-swap : (d : A) (a : List A) (i j : ℕ) → length (swap d a i j) ≡ length a
  unfolding swap
  length-swap d a i j =
      length-set (set a i (get_or a j d)) j (get_or a i d) ∙ length-set a i (get_or a j d)

  pub get_or-swap :
      (d : A) (a : List A) (i j : ℕ)
      → i < length a
      → j < length a
      → (k : ℕ)
      → get_or (swap d a i j) k d
        ≡ (if j == k then get_or a i d else if i == k then get_or a j d else get_or a k d)
  unfolding swap
  get_or-swap d a i j hi hj k =
      let b = set a i (get_or a j d) in
      get_or-set b j k (get_or a i d) d (omega (arith, length-set a i (get_or a j d)))
      ∙ ground (arith, get_or-set a i k (get_or a j d) d)

  pub set-perm :
      (a : List A) (i : ℕ) (v d : A) → i < length a → Perm (get_or a i d ∷ set a i v) (v ∷ a)
  set-perm [] i v d h = absurd (omega arith)
  set-perm (x ∷ a) zero v d h = Perm.swap _ _ _
  set-perm (x ∷ a) (suc i) v d h =
      Perm.trans (Perm.swap _ _ _)
        (Perm.trans (Perm.cons x (set-perm a i v d (omega arith))) (Perm.swap _ _ _))

  pub swap-perm :
      (d : A) (a : List A) (i j : ℕ) → i < length a → j < length a → Perm (swap d a i j) a
  unfolding swap
  swap-perm d a i j hi hj =
      let ai = get_or a i d in
      let aj = get_or a j d in
      let b = set a i aj in
      let at : get_or b j d ≡ aj = ground (arith, get_or-set a i j aj d) in
      let first = set-perm a i aj d hi in
      let second = set-perm b j ai d (omega (arith, length-set a i aj)) in
      Perm.cons_inv (Perm.trans (rw at at second) first)

  take-swap :
      (d : A) (n : ℕ) (a : List A) (i j : ℕ)
      → i < n
      → j < n
      → take n (swap d a i j) ≡ swap d (take n a) i j
  unfolding swap
  take-swap d n a i j hi hj =
      take-set n (set a i (get_or a j d)) j (get_or a i d)
      ∙ ap (λ b. set b j (get_or a i d)) (take-set n a i (get_or a j d))
      ∙ rw (get_or-take n a i d hi, get_or-take n a j d hj)

  -- Exchanges inside a prefix rearrange the prefix.
  pub take-swap-perm :
      (d : A) (n : ℕ) (a : List A) (i j : ℕ)
      → i < n
      → j < n
      → n ≤ length a
      → Perm (take n (swap d a i j)) (take n a)
  take-swap-perm d n a i j hi hj hn =
      let size = length-take n a in
      rw (take-swap d n a i j hi hj)
        (swap-perm d (take n a) i j (omega (arith, size)) (omega (arith, size)))

  set-past : (a : List A) (i : ℕ) (v : A) → length a ≤ i → set a i v ≡ a
  set-past [] i v h = refl
  set-past (x ∷ a) zero v h = absurd (omega arith)
  set-past (x ∷ a) (suc i) v h = ap (λ t. x ∷ t) (set-past a i v (omega arith))

  -- Writing the entry just past a prefix extends the prefix by it.
  pub take-suc-set :
      (n : ℕ) (a : List A) (v d : A) → n < length a → take (suc n) (set a n v) ≡ take n a ++ v ∷ []
  take-suc-set n a v d h =
      take-suc n (set a n v) d (omega (arith, length-set a n v))
      ∙ rw (take-set n a n v, set-past (take n a) n v (omega (arith, length-take n a)))
          (ap (λ x. take n a ++ x ∷ []) (ground (arith, get_or-set a n n v d h)))
