-- ===== src/Memory/Heap/Replace.antt =====
-- `replace_entry` of kernel/memory/heap_allocator.c as an operation on a list of entries.
use project_islay.Prelude.{
  ℕ, ◌+◌, ◌≡◌, ◌≢◌, refl, sym, ◌∙◌, List, [], ◌∷◌, ◌++◌, ◌==◌, if◌then◌else◌, update, ℕ_discrete,
  arith,
}
use mathlib.Core.Path.{subst}
use project_islay.Memory.Heap.{Heap, store, replace_entry}
use project_islay.Memory.Heap.FreeList.{
  Apart, AllApart, PairwiseApart, Linked, IsFreeList, Linked-update, Linked-update_next,
  Linked-append, Apart-sym, AllApart-append, AllApart-join, pairwise_middle, pairwise_parts,
  Linked-split, last-Apart,
}
use project_islay.Memory.Heap.Unlink.{rehead, front_relinked, front_kept, rest_kept, next-ne}

-- The links of the memory after `replace_entry`.
abbrev links_in : (ℕ → ℕ) → ℕ → ℕ → ℕ → ℕ → ℕ
links_in m y next prev = update (update m (y + 4) next) y prev

abbrev links_around : (ℕ → ℕ) → ℕ → ℕ → ℕ → ℕ → ℕ
links_around m y next prev =
    let m2 = if prev == 0 then m else update m (prev + 4) y in
    if next == 0 then m2 else update m2 next y

replace_entry_lem :
    (h : Heap) (x y next prev : ℕ)
    → Apart y x
    → next ≢ x + 4
    → prev ≢ x
    → h.mem x ≡ prev
    → h.mem (x + 4) ≡ next
    → replace_entry h x y ≡ record h {
      free_list = if x == h.free_list then y else h.free_list;
      mem = links_around (links_in h.mem y next prev) y next prev;
    }
unfolding replace_entry store
replace_entry_lem h x y next prev (n, n4, m4) k c p q = ground arith

Apart-middle :
    (m : ℕ → ℕ) (first x y middle : ℕ) (xs : List ℕ)
    → Linked m 0 first xs middle x
    → AllApart y xs
    → middle ≢ 0
    → Apart y middle
Apart-middle m first x y middle [] (k, a) c n = absurd (n k)
Apart-middle m first x y middle (u ∷ us) l c n = last-Apart m y 0 first middle x u us l c

Apart-next :
    (m : ℕ → ℕ) (x y next last : ℕ) (ys : List ℕ)
    → Linked m x next ys last 0
    → AllApart y ys
    → next ≢ 0
    → Apart y next
Apart-next m x y next last [] (k, a) c n = absurd (n (sym a))
Apart-next m x y next last (u ∷ us) (e, _, _, _) (c, _) n = rw e c

-- the entry put in is not touched by the links around it
entry_kept :
    (m : ℕ → ℕ) (y next prev : ℕ)
    → (prev ≢ 0 → Apart y prev)
    → (next ≢ 0 → Apart y next)
    → (links_around m y next prev y ≡ m y) × (links_around m y next prev (y + 4) ≡ m (y + 4))
entry_kept m y next prev p n = elim (ℕ_discrete prev 0) [
  | yes none_before ↦ elim (ℕ_discrete next 0) [
    | yes none_after ↦ ground arith
    | no after ↦ let c = n after in ground arith
  ]
  | no before ↦
      let b = p before in
      elim (ℕ_discrete next 0) [
        | yes none_after ↦ ground arith
        | no after ↦ let c = n after in ground arith
      ]
]

links_in-at :
    (m : ℕ → ℕ) (y next prev : ℕ)
    → (links_in m y next prev y ≡ prev) × (links_in m y next prev (y + 4) ≡ next)
links_in-at m y next prev = ground arith

links_in-Linked :
    (m : ℕ → ℕ) (y next prev before first last after : ℕ) (xs : List ℕ)
    → AllApart y xs
    → Linked m before first xs last after
    → Linked (links_in m y next prev) before first xs last after
links_in-Linked m y next prev before first last after xs c l =
    Linked-update (update m (y + 4) next) y prev before first last after xs c
      (Linked-update_next m y next before first last after xs c l)

AllApart-pairwise :
    (y : ℕ) (xs ys : List ℕ)
    → AllApart y (xs ++ ys)
    → PairwiseApart (xs ++ ys)
    → PairwiseApart (xs ++ y ∷ ys)
AllApart-pairwise y [] ys c d = (c, d)
AllApart-pairwise y (x ∷ xs) ys (n, c) (e, d) =
    let s = AllApart-append x xs ys e in
    (AllApart-join x xs (y ∷ ys) s.0 (Apart-sym y x n, s.1), AllApart-pairwise y xs ys c d)

-- `replace_entry` puts an entry that is apart from the others in the place of one of the free list.
pub replace_entry-IsFreeList :
    (h : Heap) (x y : ℕ) (xs ys : List ℕ)
    → IsFreeList h (xs ++ x ∷ ys)
    → y ≢ 0
    → AllApart y (xs ++ x ∷ ys)
    → IsFreeList (replace_entry h x y) (xs ++ y ∷ ys)
replace_entry-IsFreeList h x y xs ys f z c =
    let a = Linked-split h.mem 0 h.free_list x f.last xs ys f.linked in
    let d = pairwise_middle x xs ys f.apart in
    let s = AllApart-append y xs (x ∷ ys) c in
    let next = h.mem (x + 4) in
    let prev = a.middle in
    let n = next-ne h.mem x next f.last ys a.nonzero a.rest d.1 in
    let m = links_in h.mem y next prev in
    let front0 = links_in-Linked h.mem y next prev 0 h.free_list prev x xs s.0 a.front in
    let rest0 = links_in-Linked h.mem y next prev x next f.last 0 ys s.1.1 a.rest in
    let m2 = if prev == 0 then m else update m (prev + 4) y in
    let front1 = front_relinked m h.free_list x y prev xs ys front0 f.apart in
    let first = if x == h.free_list then y else h.free_list in
    let front = front_kept m2 m first x next y prev f.last y xs ys front1 rest0 d.2 in
    let rest1 = rest_kept m m h.free_list x x next y prev f.last xs ys front0 d.2 rest0 in
    let r = rehead m2 x next y f.last ys rest1 (pairwise_parts xs ys d.2).1 in
    let k =
      entry_kept m y next prev (Apart-middle h.mem h.free_list x y prev xs a.front s.0)
        (Apart-next h.mem x y next f.last ys a.rest s.1.1) in
    let at = links_in-at h.mem y next prev in
    let rest : Linked (links_around m y next prev) prev y (y ∷ ys) r.0 0 = (
      refl,
      z,
      k.0 ∙ at.0,
      subst (λ w. Linked (links_around m y next prev) y w ys r.0 0) (sym (k.1 ∙ at.1)) r.1,
    ) in
    let far : prev ≢ x = λ e.
      (Apart-middle h.mem h.free_list x x prev xs a.front d.0 (λ k. a.nonzero (sym e ∙ k))).0
        (sym e) in
    rw (replace_entry_lem h x y next prev s.1.0 n.1 far a.back refl) (record {
      last = r.0;
      linked =
          Linked-append (links_around m y next prev) 0 first prev y r.0 0 xs (y ∷ ys) front rest;
      apart = AllApart-pairwise y xs ys (AllApart-join y xs ys s.0 s.1.1) d.2;
    })
