-- ===== src/Memory/Heap/FreeList.antt =====
-- The doubly linked free list of kernel/memory/heap_allocator.c as a list of entries.
use project_islay.Prelude.{
  ℕ, ◌+◌, ◌≡◌, ◌≢◌, refl, sym, ◌∙◌, List, [], ◌∷◌, ◌++◌, update, update_at, update_apart, arith,
}
use project_islay.Memory.Heap.{Heap}

-- The link fields of two entries are different words.
abbrev pub Apart : ℕ → ℕ → Type 0
Apart x y = (x ≢ y) × (x + 4 ≢ y) × (y + 4 ≢ x)

abbrev pub AllApart : ℕ → List ℕ → Type 0
AllApart x [] = Unit {0}
AllApart x (y ∷ ys) = Apart x y × AllApart x ys

abbrev pub PairwiseApart : List ℕ → Type 0
PairwiseApart [] = Unit {0}
PairwiseApart (x ∷ xs) = AllApart x xs × PairwiseApart xs

-- From the pointer `first`, held by `before`, the links lead through the entries: the last of them is `last`,
-- and its link is `after`.
abbrev pub Linked : (ℕ → ℕ) → ℕ → ℕ → List ℕ → ℕ → ℕ → Type 0
Linked m before first [] last after = (last ≡ before) × (after ≡ first)
Linked m before first (x ∷ xs) last after =
    (first ≡ x) × (x ≢ 0) × (m x ≡ before) × Linked m x (m (x + 4)) xs last after

-- The free list holds the entries, in their order.
pub record IsFreeList (h : Heap) (xs : List ℕ) : Type 0 where
  pub last : ℕ
  pub linked : Linked h.mem 0 h.free_list xs last 0
  pub apart : PairwiseApart xs

-- A write to a word that is no link field changes no links.
pub Linked-update :
    (m : ℕ → ℕ) (a v before first last after : ℕ) (xs : List ℕ)
    → AllApart a xs
    → Linked m before first xs last after
    → Linked (update m a v) before first xs last after
Linked-update m a v before first last after [] c l = l
Linked-update m a v before first last after (x ∷ xs) ((n, _, n4), c) (e, z, p, l) = (
  e,
  z,
  update_apart m a x v (λ k. n (sym k)) ∙ p,
  rw (update_apart m a (x + 4) v n4) (Linked-update m a v x (m (x + 4)) last after xs c l),
)

-- Nor does one to the `next` field of an entry outside.
pub Linked-update_next :
    (m : ℕ → ℕ) (a v before first last after : ℕ) (xs : List ℕ)
    → AllApart a xs
    → Linked m before first xs last after
    → Linked (update m (a + 4) v) before first xs last after
Linked-update_next m a v before first last after [] c l = l
Linked-update_next m a v before first last after (x ∷ xs) ((n, n4, _), c) (e, z, p, l) = (
  e,
  z,
  update_apart m (a + 4) x v (λ k. n4 (sym k)) ∙ p,
  rw (update_apart m (a + 4) (x + 4) v (λ k. n (omega (arith, k))))
      (Linked-update_next m a v x (m (x + 4)) last after xs c l),
)

-- the last entry is as far from an entry outside as all are
pub last-Apart :
    (m : ℕ → ℕ) (a before first last after x : ℕ) (xs : List ℕ)
    → Linked m before first (x ∷ xs) last after
    → AllApart a (x ∷ xs)
    → Apart a last
last-Apart m a before first last after x [] (e, z, p, (k, _)) (c, _) = rw k c
last-Apart m a before first last after x (y ∷ ys) (e, z, p, l) (_, c) =
    last-Apart m a x (m (x + 4)) last after y ys l c

-- The link of the last entry rewritten.
pub Linked-relink :
    (m : ℕ → ℕ) (v before first last after x : ℕ) (xs : List ℕ)
    → PairwiseApart (x ∷ xs)
    → Linked m before first (x ∷ xs) last after
    → Linked (update m (last + 4) v) before first (x ∷ xs) last v
Linked-relink m v before first last after x [] d (e, z, p, (k, a)) = (
  e,
  z,
  update_apart m (last + 4) x v (omega (arith, k)) ∙ p,
  (k, sym (rw k (update_at m (x + 4) v))),
)
Linked-relink m v before first last after x (y ∷ ys) (c, d) (e, z, p, l) =
    let far = last-Apart m x x (m (x + 4)) last after y ys l c in
    (
      e,
      z,
      update_apart m (last + 4) x v (λ k. far.2 (sym k)) ∙ p,
      rw (update_apart m (last + 4) (x + 4) v (λ k. far.0 (omega (arith, k))))
          (Linked-relink m v x (m (x + 4)) last after y ys d l),
    )

-- Two parts of a list of links.
pub Linked-append :
    (m : ℕ → ℕ) (before first middle between last after : ℕ) (xs ys : List ℕ)
    → Linked m before first xs middle between
    → Linked m middle between ys last after
    → Linked m before first (xs ++ ys) last after
Linked-append m before first middle between last after [] ys (k, a) l = rw (sym k, sym a) l
Linked-append m before first middle between last after (x ∷ xs) ys (e, z, p, k) l =
    (e, z, p, Linked-append m x (m (x + 4)) middle between last after xs ys k l)

pub Apart-sym : (x y : ℕ) → Apart x y → Apart y x
Apart-sym x y (n, a, b) = (λ k. n (sym k), b, a)

pub AllApart-append :
    (a : ℕ) (xs ys : List ℕ) → AllApart a (xs ++ ys) → AllApart a xs × AllApart a ys
AllApart-append a [] ys c = (tt, c)
AllApart-append a (x ∷ xs) ys (n, c) = let r = AllApart-append a xs ys c in ((n, r.0), r.1)

pub AllApart-join : (a : ℕ) (xs ys : List ℕ) → AllApart a xs → AllApart a ys → AllApart a (xs ++ ys)
AllApart-join a [] ys c d = d
AllApart-join a (x ∷ xs) ys (n, c) d = (n, AllApart-join a xs ys c d)

-- An entry in the middle is apart from those before it and those after it.
pub pairwise_middle :
    (x : ℕ) (xs ys : List ℕ)
    → PairwiseApart (xs ++ x ∷ ys)
    → AllApart x xs × AllApart x ys × PairwiseApart (xs ++ ys)
pairwise_middle x [] ys (c, d) = (tt, c, d)
pairwise_middle x (u ∷ us) ys (c, d) =
    let r = pairwise_middle x us ys d in
    let s = AllApart-append u us (x ∷ ys) c in
    ((Apart-sym u x s.1.0, r.0), r.1, (AllApart-join u us ys s.0 s.1.1, r.2))

pub pairwise_parts :
    (xs ys : List ℕ) → PairwiseApart (xs ++ ys) → PairwiseApart xs × PairwiseApart ys
pairwise_parts [] ys d = (tt, d)
pairwise_parts (x ∷ xs) ys (c, d) =
    let r = pairwise_parts xs ys d in (((AllApart-append x xs ys c).0, r.0), r.1)

-- the last of the first part is apart from the second part
pub last-AllApart :
    (m : ℕ → ℕ) (before first last after x : ℕ) (xs ys : List ℕ)
    → Linked m before first (x ∷ xs) last after
    → PairwiseApart ((x ∷ xs) ++ ys)
    → AllApart last ys
last-AllApart m before first last after x [] ys (e, z, p, (k, _)) (c, d) = rw k c
last-AllApart m before first last after x (u ∷ us) ys (e, z, p, l) (c, d) =
    last-AllApart m x (m (x + 4)) last after u us ys l d

pub last-ne-zero :
    (m : ℕ → ℕ) (before first last after x : ℕ) (xs : List ℕ)
    → Linked m before first (x ∷ xs) last after
    → last ≢ 0
last-ne-zero m before first last after x [] (e, z, p, (k, _)) h = z (sym k ∙ h)
last-ne-zero m before first last after x (u ∷ us) (e, z, p, l) h =
    last-ne-zero m x (m (x + 4)) last after u us l h

-- A list of links with an entry in its middle.
pub record Around (m : ℕ → ℕ) (before first x last : ℕ) (xs ys : List ℕ) : Type 0 where
  pub middle : ℕ
  pub front : Linked m before first xs middle x
  pub nonzero : x ≢ 0
  pub back : m x ≡ middle
  pub rest : Linked m x (m (x + 4)) ys last 0

pub Linked-split :
    (m : ℕ → ℕ) (before first x last : ℕ) (xs ys : List ℕ)
    → Linked m before first (xs ++ x ∷ ys) last 0
    → Around m before first x last xs ys
Linked-split m before first x last [] ys (e, z, p, l) = record {
  middle = before;
  front = (refl, sym e);
  nonzero = z;
  back = p;
  rest = l;
}
Linked-split m before first x last (u ∷ us) ys (e, z, p, l) =
    let r = Linked-split m u (m (u + 4)) x last us ys l in
    record {
      middle = r.middle;
      front = (e, z, p, r.front);
      nonzero = r.nonzero;
      back = r.back;
      rest = r.rest;
    }

-- The first entry with another entry in front of it.
pub Linked-rehead :
    (m : ℕ → ℕ) (before v first last after y : ℕ) (ys : List ℕ)
    → AllApart y ys
    → Linked m before first (y ∷ ys) last after
    → Linked (update m y v) v y (y ∷ ys) last after
Linked-rehead m before v first last after y ys c (e, z, p, l) = (
  refl,
  z,
  update_at m y v,
  rw (update_apart m y (y + 4) v (omega arith))
      (Linked-update m y v y (m (y + 4)) last after ys c l),
)
