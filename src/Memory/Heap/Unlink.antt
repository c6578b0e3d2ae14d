-- ===== src/Memory/Heap/Unlink.antt =====
-- `unlink_entry` of kernel/memory/heap_allocator.c as an operation on a list of entries.
use project_islay.Prelude.{
  ℕ, ◌+◌, ◌≡◌, ◌≢◌, refl, sym, ◌∙◌, List, [], ◌∷◌, ◌++◌, ◌==◌, ==-true, ==-false, if◌then◌else◌,
  update, arith,
}
use mathlib.Core.Path.{subst}
use project_islay.Memory.Heap.{Heap, store, unlink_entry}
use project_islay.Memory.Heap.FreeList.{
  AllApart, PairwiseApart, Linked, IsFreeList, Linked-update, Linked-update_next, Linked-relink,
  Linked-append, pairwise_middle, pairwise_parts, last-AllApart, last-ne-zero, Linked-split,
  Linked-rehead,
}

-- The links of the memory after `unlink_entry`: `next` and `prev` are those of the entry.
abbrev relink : (ℕ → ℕ) → ℕ → ℕ → ℕ → ℕ
relink m next prev =
    let m1 = if next == 0 then m else update m next prev in
    if prev == 0 then m1 else update m1 (prev + 4) next

unlink_entry_lem :
    (h : Heap) (x next prev : ℕ)
    → next ≢ x
    → next ≢ x + 4
    → h.mem x ≡ prev
    → h.mem (x + 4) ≡ next
    → unlink_entry h x ≡ record h {
      free_list = if x == h.free_list then next else h.free_list;
      mem = relink h.mem next prev;
    }
unfolding unlink_entry store
unlink_entry_lem h x next prev n n4 p q = ground arith

-- The list after the entry, with the entry before it in front.
pub rehead :
    (m : ℕ → ℕ) (x next prev last : ℕ) (ys : List ℕ)
    → Linked m x next ys last 0
    → PairwiseApart ys
    → (last' : ℕ) × Linked (if next == 0 then m else update m next prev) prev next ys last' 0
rehead m x next prev last [] (k, a) d = (prev, (refl, a))
rehead m x next prev last (y ∷ ys) (e, z, p, l) (c, d) =
    let r = Linked-rehead m x prev y last 0 y ys c (refl, z, p, l) in
    let w : (if next == 0 then m else update m next prev) ≡ update m y prev =
      rw (e, ==-false y 0 z) refl in
    (last, subst (λ f. Linked f prev next (y ∷ ys) last 0) (sym w) (e, r.1, r.2, r.3))

-- What stands before the entry: its pointer leads past the entry now.
-- `m` already has the new link back.
pub front_relinked :
    (m : ℕ → ℕ) (first x next middle : ℕ) (xs ys : List ℕ)
    → Linked m 0 first xs middle x
    → PairwiseApart (xs ++ x ∷ ys)
    → Linked
        (if middle == 0 then m else update m (middle + 4) next)
        0
        (if x == first then next else first)
        xs
        middle
        next
front_relinked m first x next middle [] ys (k, a) d = (k, rw (==-true x first a) refl)
front_relinked m first x next middle (u ∷ us) ys (e, z, p, l) d =
    let n : middle ≢ 0 = last-ne-zero m 0 first middle x u us (e, z, p, l) in
    let w : (if middle == 0 then m else update m (middle + 4) next) ≡ update m (middle + 4) next =
      rw (==-false middle 0 n) refl in
    let c = pairwise_middle x (u ∷ us) ys d in
    let far : x ≢ first = λ k. c.0.0.0 (k ∙ e) in
    let w' : (if x == first then next else first) ≡ first = rw (==-false x first far) refl in
    let r =
      Linked-relink m next 0 first middle x u us (pairwise_parts (u ∷ us) (x ∷ ys) d).0
        (e, z, p, l) in
    subst (λ f. Linked f 0 (if x == first then next else first) (u ∷ us) middle next) (sym w)
      (subst (λ k. Linked (update m (middle + 4) next) 0 k (u ∷ us) middle next) (sym w') r)

-- the link back is not one of those before the entry
pub front_kept :
    (m m0 : ℕ → ℕ) (first x next v middle last after : ℕ) (xs ys : List ℕ)
    → Linked m 0 first xs middle after
    → Linked m0 x next ys last 0
    → PairwiseApart (xs ++ ys)
    → Linked (if next == 0 then m else update m next v) 0 first xs middle after
front_kept m m0 first x next v middle last after xs [] l (k, a) d =
    let w : (if next == 0 then m else update m next v) ≡ m = rw (==-true next 0 (sym a)) refl in
    subst (λ f. Linked f 0 first xs middle after) (sym w) l
front_kept m m0 first x next v middle last after xs (y ∷ ys) l (e, z, p, _) d =
    let w : (if next == 0 then m else update m next v) ≡ update m y v =
      rw (e, ==-false y 0 z) refl in
    subst (λ f. Linked f 0 first xs middle after) (sym w)
      (Linked-update m y v 0 first middle after xs (pairwise_middle y xs ys d).0 l)

-- the link forward is not one of those after the entry
pub rest_kept :
    (m m1 : ℕ → ℕ) (first x before next v middle last : ℕ) (xs ys : List ℕ)
    → Linked m 0 first xs middle x
    → PairwiseApart (xs ++ ys)
    → Linked m1 before next ys last 0
    → Linked (if middle == 0 then m1 else update m1 (middle + 4) v) before next ys last 0
rest_kept m m1 first x before next v middle last [] ys (k, a) d l =
    let w : (if middle == 0 then m1 else update m1 (middle + 4) v) ≡ m1 =
      rw (==-true middle 0 k) refl in
    subst (λ f. Linked f before next ys last 0) (sym w) l
rest_kept m m1 first x before next v middle last (u ∷ us) ys l0 d l =
    let n : middle ≢ 0 = last-ne-zero m 0 first middle x u us l0 in
    let w : (if middle == 0 then m1 else update m1 (middle + 4) v) ≡ update m1 (middle + 4) v =
      rw (==-false middle 0 n) refl in
    subst (λ f. Linked f before next ys last 0) (sym w)
      (Linked-update_next m1 middle v before next last 0 ys
        (last-AllApart m 0 first middle x u us ys l0 d) l)

-- the entry behind another, or NULL, is not one of its link fields
pub next-ne :
    (m : ℕ → ℕ) (x next last : ℕ) (ys : List ℕ)
    → x ≢ 0
    → Linked m x next ys last 0
    → AllApart x ys
    → (next ≢ x) × (next ≢ x + 4)
next-ne m x next last [] z (k, a) c = (λ h. z (sym h ∙ sym a), λ h. absurd (omega (arith, a, h)))
next-ne m x next last (y ∷ ys) z (e, _, _, _) ((n, n4, _), c) =
    (λ h. n (sym h ∙ e), λ h. n4 (sym h ∙ e))

-- `unlink_entry` takes an entry of the free list out of it, wherever it stands.
pub unlink_entry-IsFreeList :
    (h : Heap) (x : ℕ) (xs ys : List ℕ)
    → IsFreeList h (xs ++ x ∷ ys)
    → IsFreeList (unlink_entry h x) (xs ++ ys)
unlink_entry-IsFreeList h x xs ys f =
    let a = Linked-split h.mem 0 h.free_list x f.last xs ys f.linked in
    let c = pairwise_middle x xs ys f.apart in
    let next = h.mem (x + 4) in
    let n = next-ne h.mem x next f.last ys a.nonzero a.rest c.1 in
    let r = rehead h.mem x next a.middle f.last ys a.rest (pairwise_parts xs ys c.2).1 in
    let m1 = if next == 0 then h.mem else update h.mem next a.middle in
    let front =
      front_relinked m1 h.free_list x next a.middle xs ys
        (front_kept h.mem h.mem h.free_list x next a.middle a.middle f.last x xs ys a.front a.rest
          c.2)
        f.apart in
    let rest =
      rest_kept h.mem m1 h.free_list x a.middle next next a.middle r.0 xs ys a.front c.2 r.1 in
    rw (unlink_entry_lem h x next a.middle n.0 n.1 a.back refl) (record {
      last = r.0;
      linked =
          Linked-append (relink h.mem next a.middle) 0
            (if x == h.free_list then next else h.free_list) a.middle next r.0 0 xs ys front rest;
      apart = c.2;
    })
