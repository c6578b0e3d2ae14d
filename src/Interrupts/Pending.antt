-- ===== src/Interrupts/Pending.antt =====
-- The queue of bottom halves of kernel/tasks/interrupts.c as a list.
use project_islay.Prelude.{
  ℕ, ◌≡◌, ◌≢◌, refl, sym, ap, ◌∙◌, true, false, not, ◌&&◌, Option, none, some, List, [], ◌∷◌, ◌++◌,
  if◌then◌else◌, update, update_at, update_apart, arith, Returns, returns, Bool-cases, inl, inr,
}
use project_islay.Lists.Ring.{Fresh, AllDistinct, AllDistinct-append}
use project_islay.Interrupts.{InterruptEntry, Interrupts, queue_bottom_half, append_entry}

abbrev pub first : List ℕ → Option ℕ
first [] = none
first (x ∷ xs) = some x

abbrev pub last_or : ℕ → List ℕ → ℕ
last_or x [] = x
last_or x (y ∷ ys) = last_or y ys

abbrev pub last : List ℕ → Option ℕ
last [] = none
last (x ∷ xs) = some (last_or x xs)

-- The entries are marked as queued, and each is linked to the next.
abbrev pub Chained : (ℕ → InterruptEntry) → List ℕ → Type 0
Chained t [] = Unit {0}
Chained t (x ∷ xs) = ((t x).queued ≡ true) × ((t x).next ≡ first xs) × Chained t xs

-- The queue holds these entries, the first to run first.
pub record IsPending (s : Interrupts) (q : List ℕ) : Type 0 where
  pub head : s.bottom_half_queue_head ≡ first q
  pub tail : s.bottom_half_queue_tail ≡ last q
  pub chained : Chained s.interrupt_table q
  pub distinct : AllDistinct q

-- What is not marked is not in the queue.
Chained-Fresh :
    (t : ℕ → InterruptEntry) (n : ℕ) (q : List ℕ) → Chained t q → (t n).queued ≡ false → Fresh n q
Chained-Fresh t n [] c f = tt
Chained-Fresh t n (x ∷ xs) (m, _, c) f = (λ e. cc (f, m, e), Chained-Fresh t n xs c f)

pub Chained-update :
    (t : ℕ → InterruptEntry) (n : ℕ) (entry : InterruptEntry) (q : List ℕ)
    → Fresh n q
    → Chained t q
    → Chained (update t n entry) q
Chained-update t n entry [] f c = tt
Chained-update t n entry (x ∷ xs) (d, f) (m, k, c) =
    let e = update_apart t n x entry (λ h. d (sym h)) in
    (ap (λ r. r.queued) e ∙ m, ap (λ r. r.next) e ∙ k, Chained-update t n entry xs f c)

last-Fresh : (x y : ℕ) (ys : List ℕ) → Fresh x (y ∷ ys) → x ≢ last_or y ys
last-Fresh x y [] (d, f) = d
last-Fresh x y (z ∷ zs) (d, f) = last-Fresh x z zs f

-- the table with the entry `n` behind another, and as the last
abbrev pointed : (ℕ → InterruptEntry) → ℕ → ℕ → ℕ → InterruptEntry
pointed t l n = update t l (record (t l) { next = some n })

abbrev last_entry : InterruptEntry → InterruptEntry
last_entry entry = record entry { next = none; queued = true }

abbrev linked : (ℕ → InterruptEntry) → ℕ → ℕ → ℕ → InterruptEntry
linked t l n = update (pointed t l n) n (last_entry (pointed t l n n))

linked-apart : (t : ℕ → InterruptEntry) (l n x : ℕ) → x ≢ l → x ≢ n → linked t l n x ≡ t x
linked-apart t l n x a b =
    update_apart (pointed t l n) n x (last_entry (pointed t l n n)) b
    ∙ update_apart t l x (record (t l) { next = some n }) a

linked-last :
    (t : ℕ → InterruptEntry) (l n : ℕ) → l ≢ n → linked t l n l ≡ record (t l) { next = some n }
linked-last t l n b =
    update_apart (pointed t l n) n l (last_entry (pointed t l n n)) b
    ∙ update_at t l (record (t l) { next = some n })

linked-new :
    (t : ℕ → InterruptEntry) (l n : ℕ)
    → ((linked t l n n).queued ≡ true) × ((linked t l n n).next ≡ none)
linked-new t l n =
    let e = update_at (pointed t l n) n (last_entry (pointed t l n n)) in
    (ap (λ r. r.queued) e, ap (λ r. r.next) e)

linked-Chained :
    (t : ℕ → InterruptEntry) (n x : ℕ) (xs : List ℕ)
    → Chained t (x ∷ xs)
    → Fresh n (x ∷ xs)
    → AllDistinct (x ∷ xs)
    → Chained (linked t (last_or x xs) n) ((x ∷ xs) ++ n ∷ [])
linked-Chained t n x [] (m, k, _) (d, _) _ =
    let e = linked-last t x n (λ h. d (sym h)) in
    let r = linked-new t x n in (ap (λ u. u.queued) e ∙ m, ap (λ u. u.next) e, (r.0, r.1, tt))
linked-Chained t n x (y ∷ ys) (m, k, c) (d, f) (dx, ds) =
    let e = linked-apart t (last_or y ys) n x (last-Fresh x y ys dx) (λ h. d (sym h)) in
    (ap (λ u. u.queued) e ∙ m, ap (λ u. u.next) e ∙ k, linked-Chained t n y ys c f ds)

last_or-append : (x n : ℕ) (xs : List ℕ) → last_or x (xs ++ n ∷ []) ≡ n
last_or-append x n [] = refl
last_or-append x n (y ∷ ys) = last_or-append y n ys

append_entry-IsPending :
    (s : Interrupts) (n : ℕ) (q : List ℕ)
    → IsPending s q
    → (s.interrupt_table n).queued ≡ false
    → Returns (λ s'. IsPending s' (q ++ n ∷ [])) (append_entry s n)
unfolding append_entry
append_entry-IsPending s n [] p free =
    let e = update_at s.interrupt_table n (last_entry (s.interrupt_table n)) in
    rw p.head (
      returns (record {
        head = refl;
        tail = refl;
        chained = (ap (λ r. r.queued) e, ap (λ r. r.next) e, tt);
        distinct = (tt, tt);
      }))
append_entry-IsPending s n (x ∷ xs) p free =
    let f = Chained-Fresh s.interrupt_table n (x ∷ xs) p.chained free in
    rw (p.head, p.tail)
      (returns (record {
        head = refl;
        tail = ap some (sym (last_or-append x n xs));
        chained = linked-Chained s.interrupt_table n x xs p.chained f p.distinct;
        distinct = AllDistinct-append n (x ∷ xs) p.distinct f;
      }))

unqueued :
    (entry : InterruptEntry) → (entry.bottom_half && not entry.queued) ≡ true → entry.queued ≡ false
unqueued entry h = ground arith

-- A bottom half that is not marked as queued goes to the end of the queue; one that is stays where it is, and an
-- interrupt without one changes nothing.
pub queue_bottom_half-IsPending :
    (s : Interrupts) (n : ℕ) (q : List ℕ)
    → IsPending s q
    → Returns
        (λ s'. IsPending s' (
          if (s.interrupt_table n).bottom_half && not (s.interrupt_table n).queued
          then q ++ n ∷ []
          else q))
        (queue_bottom_half s n)
unfolding queue_bottom_half
queue_bottom_half-IsPending s n q p =
    elim (Bool-cases ((s.interrupt_table n).bottom_half && not (s.interrupt_table n).queued)) [
      | inr skip ↦ rw skip (returns p)
      | inl fresh ↦ rw fresh (append_entry-IsPending s n q p (unqueued (s.interrupt_table n) fresh))
    ]
