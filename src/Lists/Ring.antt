-- ===== src/Lists/Ring.antt =====
-- The operations of kernel/utils/list.c on a ring of entries as operations on a list.
use project_islay.Prelude.{
  ℕ, ◌≡◌, ◌≢◌, refl, sym, ap, ◌∙◌, some, List, [], ◌∷◌, ◌++◌, ==-false, update_apart, arith,
}
use mathlib.Core.Path.{subst}
use project_islay.Lists.{
  Links, set_next, set_prev, list_entry_remove, list_entry_append_single_element, list_add_first,
  list_add_last, list_remove_first,
}

-- `x` is not among the entries
abbrev pub Fresh : ℕ → List ℕ → Type 0
Fresh x [] = Unit {0}
Fresh x (y ∷ ys) = (x ≢ y) × Fresh x ys

abbrev pub AllDistinct : List ℕ → Type 0
AllDistinct [] = Unit {0}
AllDistinct (x ∷ xs) = Fresh x xs × AllDistinct xs

-- From `a` the links lead through the entries to `b`, and back.
abbrev pub IsChain : Links → ℕ → List ℕ → ℕ → Type 0
IsChain l a [] b = (l.next a ≡ b) × (l.prev b ≡ a)
IsChain l a (x ∷ xs) b = (l.next a ≡ x) × (l.prev x ≡ a) × IsChain l x xs b

-- The list with this head holds the entries, in their order.
pub record IsRing (l : Links) (head : ℕ) (xs : List ℕ) : Type 0 where
  pub chain : IsChain l head xs head
  pub distinct : AllDistinct (head ∷ xs)

-- A write to the next field of an entry outside changes nothing.
set_next-IsChain :
    (l : Links) (a b p v : ℕ) (xs : List ℕ)
    → p ≢ a
    → Fresh p xs
    → IsChain l a xs b
    → IsChain (set_next l p v) a xs b
unfolding set_next
set_next-IsChain l a b p v [] n f (h, g) = (update_apart l.next p a v (λ k. n (sym k)) ∙ h, g)
set_next-IsChain l a b p v (x ∷ xs) n (m, f) (h, g, c) =
    (update_apart l.next p a v (λ k. n (sym k)) ∙ h, g, set_next-IsChain l x b p v xs m f c)

-- Nor does one to the previous field.
set_prev-IsChain :
    (l : Links) (a b p v : ℕ) (xs : List ℕ)
    → p ≢ b
    → Fresh p xs
    → IsChain l a xs b
    → IsChain (set_prev l p v) a xs b
unfolding set_prev
set_prev-IsChain l a b p v [] n f (h, g) = (h, update_apart l.prev p b v (λ k. n (sym k)) ∙ g)
set_prev-IsChain l a b p v (x ∷ xs) n (m, f) (h, g, c) =
    (h, update_apart l.prev p x v (λ k. m (sym k)) ∙ g, set_prev-IsChain l x b p v xs n f c)

-- the first entry of a chain that ends in `b`
abbrev first_of : List ℕ → ℕ → ℕ
first_of [] b = b
first_of (x ∷ xs) b = x

-- An entry put between `a` and what follows it.
insert_after-IsChain :
    (l : Links) (a b e : ℕ) (xs : List ℕ)
    → IsChain l a xs b
    → e ≢ a
    → e ≢ b
    → Fresh e xs
    → Fresh a xs
    → Fresh b xs
    → AllDistinct xs
    → IsChain (list_entry_append_single_element l a e) a (e ∷ xs) b
unfolding list_entry_append_single_element set_next set_prev
insert_after-IsChain l a b e [] (h, g) na nb fe fa fb d =
    (ground arith, ground arith, (ground (arith, h, na), ground (arith, h, nb)))
insert_after-IsChain l a b e (x ∷ xs) (h, g, c) na nb (ne, fe) (nax, fa) (nbx, fb) (dx, d) =
    let p = l.next a in
    let m = set_prev l p e in
    let m' = set_next m e p in
    let m'' = set_next m' a e in
    let c' =
      set_prev-IsChain l x b p e xs (λ k. nbx (sym k ∙ h)) (subst (λ y. Fresh y xs) (sym h) dx) c in
    let c'' = set_next-IsChain m x b e p xs ne fe c' in
    let c''' = set_next-IsChain m' x b a e xs nax fa c'' in
    (
      ground arith,
      ground arith,
      (ground (arith, h, na), ground (arith, h, ne), set_prev-IsChain m'' x b e a xs nb fe c'''),
    )

-- `list_add_first` puts an entry that is not in the list in front of it.
pub list_add_first-IsRing :
    (l : Links) (head e : ℕ) (xs : List ℕ)
    → IsRing l head xs
    → Fresh e (head ∷ xs)
    → IsRing (list_add_first l head e) head (e ∷ xs)
unfolding list_add_first
list_add_first-IsRing l head e xs r (n, fe) = record {
  chain =
      insert_after-IsChain l head head e xs r.chain n n fe r.distinct.0 r.distinct.0 r.distinct.1;
  distinct = ((λ k. n (sym k), r.distinct.0), (fe, r.distinct.1));
}

-- the last entry of a chain is none of those before it
last_other :
    (l : Links) (a x b : ℕ) (xs : List ℕ) → IsChain l x xs b → Fresh a (x ∷ xs) → a ≢ l.prev b
last_other l a x b [] (h, g) (n, f) k = n (k ∙ g)
last_other l a x b (y ∷ ys) (h, g, c) (n, f) k = last_other l a y b ys c f k

-- An entry put before the end of a chain.
insert_before-IsChain :
    (l : Links) (a b e : ℕ) (xs : List ℕ)
    → IsChain l a xs b
    → e ≢ a
    → e ≢ b
    → Fresh e xs
    → Fresh a xs
    → Fresh b xs
    → AllDistinct xs
    → l.next (l.prev b) ≡ b
    → IsChain (list_entry_append_single_element l (l.prev b) e) a (xs ++ e ∷ []) b
unfolding list_entry_append_single_element set_next set_prev
insert_before-IsChain l a b e [] (h, g) na nb fe fa fb d w =
    (ground (arith, g), ground (arith, g), (ground (arith, g, w, na), ground (arith, w, nb)))
insert_before-IsChain l a b e (x ∷ xs) (h, g, c) na nb (ne, fe) (nax, fa) (nbx, fb) (dx, d) w =
    let apart = last_other l a x b xs c (nax, fa) in
    (
      ground (arith, h, apart, na),
      ground (arith, g, w, ne, nbx),
      insert_before-IsChain l x b e xs c ne nb fe dx fb d w,
    )

last_next : (l : Links) (a b : ℕ) (xs : List ℕ) → IsChain l a xs b → l.next (l.prev b) ≡ b
last_next l a b [] (h, g) = ap l.next g ∙ h
last_next l a b (x ∷ xs) (h, g, c) = last_next l x b xs c

Fresh-append : (x e : ℕ) (xs : List ℕ) → Fresh x xs → x ≢ e → Fresh x (xs ++ e ∷ [])
Fresh-append x e [] f n = (n, tt)
Fresh-append x e (y ∷ ys) (m, f) n = (m, Fresh-append x e ys f n)

pub AllDistinct-append :
    (e : ℕ) (xs : List ℕ) → AllDistinct xs → Fresh e xs → AllDistinct (xs ++ e ∷ [])
AllDistinct-append e [] d f = (tt, tt)
AllDistinct-append e (x ∷ xs) (dx, d) (n, f) =
    (Fresh-append x e xs dx (λ k. n (sym k)), AllDistinct-append e xs d f)

-- `list_add_last` puts an entry that is not in the list at its end.
pub list_add_last-IsRing :
    (l : Links) (head e : ℕ) (xs : List ℕ)
    → IsRing l head xs
    → Fresh e (head ∷ xs)
    → IsRing (list_add_last l head e) head (xs ++ e ∷ [])
unfolding list_add_last
list_add_last-IsRing l head e xs r (n, fe) = record {
  chain =
      insert_before-IsChain l head head e xs r.chain n n fe r.distinct.0 r.distinct.0 r.distinct.1
        (last_next l head head xs r.chain);
  distinct = AllDistinct-append e (head ∷ xs) r.distinct (n, fe);
}

-- The first entry of a chain taken out.
remove-IsChain :
    (l : Links) (a b x : ℕ) (xs : List ℕ)
    → IsChain l a (x ∷ xs) b
    → x ≢ a
    → x ≢ b
    → Fresh x xs
    → Fresh a xs
    → Fresh b xs
    → AllDistinct xs
    → IsChain (list_entry_remove l x) a xs b
unfolding list_entry_remove set_next set_prev
remove-IsChain l a b x [] (h, g, (i, j)) na nb fx fa fb d =
    (ground (arith, g, i, na), ground (arith, g, i, na, nb))
remove-IsChain l a b x (y ∷ ys) (h, g, (i, j, c)) na nb (nxy, fx) (nay, fa) (nby, fb) (dy, d) =
    let m = set_next l (l.prev x) (l.next x) in
    let at : m.next x ≡ y = ground (arith, g, i, na) in
    let m' = set_prev m (m.next x) (m.prev x) in
    let m'' = set_prev m' x x in
    let c' =
      set_next-IsChain l y b (l.prev x) (l.next x) ys (λ k. nay (sym g ∙ k))
        (subst (λ z. Fresh z ys) (sym g) fa) c in
    let c'' =
      set_prev-IsChain m y b (m.next x) (m.prev x) ys (λ k. nby (sym k ∙ at))
        (subst (λ z. Fresh z ys) (sym at) dy) c' in
    let c''' = set_prev-IsChain m' y b x x ys nb fx c'' in
    (
      ground (arith, g, i, na),
      ground (arith, g, i, na, nxy),
      set_next-IsChain m'' y b x x ys nxy fx c''',
    )

-- On a list that is not empty, `list_remove_first` returns the first entry and leaves the others.
pub list_remove_first-IsRing :
    (l : Links) (head x : ℕ) (xs : List ℕ)
    → IsRing l head (x ∷ xs)
    → ((list_remove_first l head).0 ≡ some x) × IsRing (list_remove_first l head).1 head xs
unfolding list_remove_first
list_remove_first-IsRing l head x xs r =
    let apart : x ≢ head = λ k. r.distinct.0.0 (sym k) in
    let start = r.chain.0 in
    rw (start, ==-false x head apart)
      (
        refl,
        record {
          chain =
              remove-IsChain l head head x xs r.chain apart apart r.distinct.1.0 r.distinct.0.1
                r.distinct.0.1 r.distinct.1.1;
          distinct = (r.distinct.0.1, r.distinct.1.1);
        },
      )
