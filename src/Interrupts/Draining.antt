-- ===== src/Interrupts/Draining.antt =====
-- The loop of kernel/tasks/interrupts.c over the queue of bottom halves.
use project_islay.Prelude.{
  ℕ, zero, suc, ◌<◌, ◌≡◌, ◌≢◌, refl, sym, ap, ◌∙◌, true, false, Option, none, some, List, [], ◌∷◌,
  update, update_at, update_apart, length, arith, Returns, returns, Returns-mono, ℕ_discrete,
}
use project_islay.Lists.Ring.{Fresh}
use project_islay.Interrupts.{
  InterruptEntry, Interrupts, Half, bottom, set_entry, run, take_bottom_half, nested_interrupts,
  drain,
}
use project_islay.Interrupts.Pending.{first, last, IsPending, Chained-update}

tail_after :
    (n : ℕ) (q : List ℕ) {t : Option ℕ}
    → t ≡ last (n ∷ q)
    → elim (first q) as (λ _. Option ℕ) [ none ↦ none | some _ ↦ t ] ≡ last q
tail_after n [] e = refl
tail_after n (x ∷ xs) e = e

-- The first of the queue is taken, and keeps its mark.
take_bottom_half-IsPending :
    (s : Interrupts) (n : ℕ) (q : List ℕ)
    → IsPending s (n ∷ q)
    → IsPending (take_bottom_half s n) q
      × (((take_bottom_half s n).interrupt_table n).queued ≡ true)
unfolding take_bottom_half
take_bottom_half-IsPending s n q p =
    let entry : InterruptEntry = record (s.interrupt_table n) { next = none } in
    (
      record {
        head = p.chained.1;
        tail = rw p.chained.1 (tail_after n q p.tail);
        chained = Chained-update s.interrupt_table n entry q p.distinct.0 p.chained.2;
        distinct = p.distinct.1;
      },
      ap (λ r. r.queued) (update_at s.interrupt_table n entry) ∙ p.chained.0,
    )

-- the handlers that ran, the newest first, after the bottom halves of a queue
abbrev pub ran_of : List ℕ → List Half → List Half
ran_of [] ran = ran
ran_of (n ∷ q) ran = ran_of q (bottom n ∷ ran)

-- the entry whose mark is cleared
abbrev unmark : Interrupts → ℕ → Interrupts
unmark s n = set_entry s n (record (s.interrupt_table n) { queued = false })

unmark-IsPending :
    (s : Interrupts) (n : ℕ) (q : List ℕ) → IsPending s q → Fresh n q → IsPending (unmark s n) q
unmark-IsPending s n q p f = record {
  head = p.head;
  tail = p.tail;
  chained =
      Chained-update s.interrupt_table n (record (s.interrupt_table n) { queued = false }) q f
        p.chained;
  distinct = p.distinct;
}

-- What the loop leaves: an empty queue, the bottom halves run in their order, and no entry of the queue marked.
pub record Drained (s : Interrupts) (q : List ℕ) (s' : Interrupts) : Type 0 where
  pub empty : IsPending s' []
  pub ran : s'.ran ≡ ran_of q s.ran
  pub unmarked :
      (n : ℕ)
      → ((s'.interrupt_table n).queued ≡ true)
      → Fresh n q × ((s.interrupt_table n).queued ≡ true)

-- the state after one round of the loop
abbrev round_of : Interrupts → ℕ → Interrupts
round_of s n = unmark (run (take_bottom_half s n) (bottom n)) n

round-entries :
    (s : Interrupts) (n m : ℕ)
    → (((round_of s n).interrupt_table n).queued ≡ false)
      × (m ≢ n → (round_of s n).interrupt_table m ≡ s.interrupt_table m)
unfolding take_bottom_half
round-entries s n m =
    let entry : InterruptEntry = record (s.interrupt_table n) { next = none } in
    let t = update s.interrupt_table n entry in
    (
      ap (λ r. r.queued) (update_at t n (record (t n) { queued = false })),
      λ d.
          update_apart t n m (record (t n) { queued = false }) d
          ∙ update_apart s.interrupt_table n m entry d,
    )

round-ran : (s : Interrupts) (n : ℕ) → (round_of s n).ran ≡ bottom n ∷ s.ran
unfolding take_bottom_half
round-ran s n = refl

round-IsPending :
    (s : Interrupts) (n : ℕ) (q : List ℕ) → IsPending s (n ∷ q) → IsPending (round_of s n) q
round-IsPending s n q p =
    let t = (take_bottom_half-IsPending s n q p).0 in
    unmark-IsPending (run (take_bottom_half s n) (bottom n)) n q
      (record { head = t.head; tail = t.tail; chained = t.chained; distinct = t.distinct })
      p.distinct.0

-- Where no further interrupt fires, the loop ends with more fuel than entries in the queue: it runs the bottom
-- halves of the queue in their order, each once, and leaves the queue empty and none of them marked.
pub drain-Drained :
    (n_interrupts fuel : ℕ) (s : Interrupts) (q : List ℕ)
    → IsPending s q
    → length q < fuel
    → Returns (Drained s q) (drain n_interrupts fuel s [])
unfolding drain nested_interrupts
drain-Drained n_interrupts zero s q p h = absurd (omega (arith, h))
drain-Drained n_interrupts (suc fuel) s [] p h =
    rw (p.head, drain) (returns (record { empty = p; ran = refl; unmarked = λ n m. (tt, m) }))
drain-Drained n_interrupts (suc fuel) s (n ∷ q) p h =
    rw (p.head, drain)
      (Returns-mono
        (drain-Drained n_interrupts fuel (round_of s n) q (round-IsPending s n q p)
          (omega (arith, h)))
        (λ s' d. record {
          empty = d.empty;
          ran = d.ran ∙ ap (λ l. ran_of q l) (round-ran s n);
          unmarked = λ m marked.
              let r = d.unmarked m marked in
              let e = round-entries s n m in
              elim (ℕ_discrete m n) [
                | yes same ↦ cc (ap (λ k. ((round_of s n).interrupt_table k).queued) same, e.0, r.1)
                | no differ ↦ ((differ, r.0), ap (λ k. k.queued) (sym (e.1 differ)) ∙ r.1)
              ];
        }))
