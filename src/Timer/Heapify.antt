-- ===== src/Timer/Heapify.antt =====
-- `heapify` and `extract_min_element` of kernel/devices/timer.c.
use mathlib.Core.List.{Perm}
use mathlib.Core.List.Perm
use project_islay.Prelude.{
  ℕ, zero, suc, ◌-◌, ◌≤◌, ◌<◌, ◌≡◌, ◌≢◌, refl, ap, ◌∙◌, ◌⊎◌, inl, inr, ◌==◌, if◌then◌else◌, List,
  arith, length, take, ℕ_discrete, ==-true, ==-false, Returns, returns, Returns-mono,
}
use project_islay.Prelude.Arrays.{swap, get_or-swap, length-swap, take-swap-perm}
use project_islay.Timer.{
  Event, no_event, stamp, parent, left_child, right_child, smallest_of, heapify,
}
use project_islay.Timer.Order.{IsHeap}

-- Only the edges below `i` may be out of order, and not those from the parent of `i` to its children.
pub record DownInv (a : List Event) (size i : ℕ) : Type 0 where
  pub edges : (c : ℕ) → 0 < c → c < size → parent c ≢ i → stamp a (parent c) ≤ stamp a c
  pub bridged : (c : ℕ) → 0 < c → c < size → parent c ≡ i → 0 < i → stamp a (parent i) ≤ stamp a c

-- `m` is a child of `i` that is due earlier.
record IsEarlierChild (a : List Event) (size i m : ℕ) : Type 0 where
  child : parent m ≡ i
  pos : 0 < m
  inside : m < size
  less : stamp a m < stamp a i

-- `m` is `i` or a child of `i` that is due earlier, and no child of `i` is due before `m`.
record IsSmallest (a : List Event) (size i m : ℕ) : Type 0 where
  choice : (m ≡ i) ⊎ IsEarlierChild a size i m
  least : (c : ℕ) → 0 < c → c < size → parent c ≡ i → stamp a m ≤ stamp a c

child-cases : (c i : ℕ) → 0 < c → parent c ≡ i → (c ≡ left_child i) ⊎ (c ≡ right_child i)
child-cases c i pos e = elim (ℕ_discrete c (left_child i)) [
  | yes l ↦ inl l
  | no r ↦ inr (omega arith)
]

smallest_of-choice :
    (a : List Event) (size i : ℕ)
    → (smallest_of a size i ≡ i) ⊎ IsEarlierChild a size i (smallest_of a size i)
unfolding smallest_of
smallest_of-choice a size i = ground arith

smallest_of-least :
    (a : List Event) (size i : ℕ)
    → (left_child i < size → stamp a (smallest_of a size i) ≤ stamp a (left_child i))
      × (right_child i < size → stamp a (smallest_of a size i) ≤ stamp a (right_child i))
unfolding smallest_of
smallest_of-least a size i = ground arith

smallest_of-IsSmallest : (a : List Event) (size i : ℕ) → IsSmallest a size i (smallest_of a size i)
smallest_of-IsSmallest a size i = record {
  choice = smallest_of-choice a size i;
  least = λ c pos inside e.
      let l = smallest_of-least a size i in
      elim (child-cases c i pos e) [
        | inl left ↦ rw left (l.0 (omega arith))
        | inr right ↦ rw right (l.1 (omega arith))
      ];
}

module _ (a : List Event) (i m : ℕ) (hi : i < length a) (hm : m < length a) where
  stamp-swap :
      (k : ℕ)
      → stamp (swap no_event a m i) k
        ≡ (if i == k then stamp a m else if m == k then stamp a i else stamp a k)
  stamp-swap k = ground (arith, get_or-swap no_event a m i hm hi k)

  swap-edge :
      (size : ℕ)
      → DownInv a size i
      → IsEarlierChild a size i m
      → ((c : ℕ) → 0 < c → c < size → parent c ≡ i → stamp a m ≤ stamp a c)
      → (c : ℕ) → 0 < c
      → c < size
      → parent c ≢ m
      → stamp (swap no_event a m i) (parent c) ≤ stamp (swap no_event a m i) c
  swap-edge size v s least c pos inside ne = ground (
    arith,
    stamp-swap c,
    stamp-swap (parent c),
    v.edges c,
    v.bridged m,
    least c,
    ap (stamp a) s.child,
  )

  swap-bridge :
      (size : ℕ)
      → DownInv a size i
      → IsEarlierChild a size i m
      → (c : ℕ) → 0 < c
      → c < size
      → parent c ≡ m
      → stamp (swap no_event a m i) (parent m) ≤ stamp (swap no_event a m i) c
  swap-bridge size v s c pos inside e =
      ground (arith, stamp-swap c, stamp-swap (parent m), v.edges c, ap (stamp a) e)

  swap-DownInv :
      (size : ℕ)
      → DownInv a size i
      → IsEarlierChild a size i m
      → ((c : ℕ) → 0 < c → c < size → parent c ≡ i → stamp a m ≤ stamp a c)
      → DownInv (swap no_event a m i) size m
  swap-DownInv size v s least = record {
    edges = swap-edge size v s least;
    bridged = λ c p q r _. swap-bridge size v s c p q r;
  }

-- `b` is ordered, and holds the first `size` events of `a`.
pub record Sifted (a : List Event) (size : ℕ) (b : List Event) : Type 0 where
  pub ordered : IsHeap b size
  pub same : Perm (take size b) (take size a)
  pub kept : length b ≡ length a

settled :
    (a : List Event) (size i : ℕ)
    → DownInv a size i
    → ((c : ℕ) → 0 < c → c < size → parent c ≡ i → stamp a i ≤ stamp a c)
    → Sifted a size a
settled a size i v least = record {
  ordered = λ c p q. elim (ℕ_discrete (parent c) i) [
    | yes e ↦ rw (ap (stamp a) e) (least c p q e)
    | no n ↦ v.edges c p q n
  ];
  same = Perm.refl _;
  kept = refl;
}

-- `heapify` ends within a round for each entry, and orders a heap with one entry too high.
pub heapify_lem :
    (k : ℕ) (a : List Event) (size i : ℕ)
    → size - i < k
    → size ≤ length a
    → DownInv a size i
    → Returns (Sifted a size) (heapify k a size i)
unfolding heapify
heapify_lem zero a size i f fits v = absurd (omega arith)
heapify_lem (suc k) a size i f fits v =
    let s = smallest_of-IsSmallest a size i in
    let m = smallest_of a size i in
    elim s.choice [
      | inl e ↦
          rw (==-true m i e)
            (returns (settled a size i v λ c p q r. rw (ap (stamp a) e) at (s.least c p q r)))
      | inr c ↦
          let hi : i < length a = omega (arith, c.child, c.pos, c.inside) in
          let hm : m < length a = omega (arith, c.inside) in
          rw (==-false m i (omega (arith, c.child, c.pos))) (
            Returns-mono
              (heapify_lem k (swap no_event a m i) size m (omega (arith, c.child, c.pos, c.inside))
                (omega (arith, length-swap no_event a m i))
                (swap-DownInv a i m hi hm size v c s.least))
              λ b t. record {
                ordered = t.ordered;
                same = Perm.trans t.same (
                    take-swap-perm no_event size a m i c.inside
                      (omega (arith, c.child, c.pos, c.inside)) fits);
                kept = t.kept ∙ length-swap no_event a m i;
              })
    ]
