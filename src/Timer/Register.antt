-- ===== src/Timer/Register.antt =====
-- `timer_register_timed_event` of kernel/devices/timer.c adds one event.
use mathlib.Core.List.{Perm, perm_append_singleton}
use mathlib.Core.List.Perm
use project_islay.Prelude.{
  ℕ, zero, suc, ◌+◌, ◌≤◌, ◌<◌, ◌≡◌, ◌≢◌, refl, ap, ◌∙◌, Bool, true, List, [], ◌∷◌, ◌++◌, arith, set,
  length, take, length-set, Returns, returns, Returns-bind, Returns-mono, if◌then◌else◌, ◌==◌,
  ℕ_discrete, dec_lt, ==-false, lt→ltb, ltb-false,
}
use project_islay.Prelude.Arrays.{
  swap, get_or-set, get_or-swap, length-swap, take-swap-perm, take-suc-set,
}
use project_islay.Timer.{
  Event, Timer, no_event, timed_event, stamp, parent, sift_up, Krealloc, grow,
  timer_register_timed_event,
}
use project_islay.Timer.Order.{IsValid, items}
use project_islay.Timer.Heapify.{Sifted}
use project_islay.Timer.Extract.{verify_heap-some}

-- Only the edge above `i` may be out of order; `i` holds the time stamp that the loop compares.
pub record UpInv (a : List Event) (size i timestamp_ns : ℕ) : Type 0 where
  pub inside : i < size
  pub at : stamp a i ≡ timestamp_ns
  pub edges : (c : ℕ) → 0 < c → c < size → c ≢ i → stamp a (parent c) ≤ stamp a c
  pub bridged : (c : ℕ) → 0 < c → c < size → parent c ≡ i → 0 < i → stamp a (parent i) ≤ stamp a c

module _ (a : List Event) (size i ts : ℕ) (v : UpInv a size i ts) (pos : 0 < i)
    (fits : size ≤ length a) where
  up-swap :
      (k : ℕ)
      → stamp (swap no_event a (parent i) i) k
        ≡ (if i == k then stamp a (parent i) else if parent i == k then stamp a i else stamp a k)
  up-swap k = ground (
    arith,
    get_or-swap no_event a (parent i) i (omega (arith, v.inside)) (omega (arith, v.inside)) k,
  )

  swap-UpInv : ts < stamp a (parent i) → UpInv (swap no_event a (parent i) i) size (parent i) ts
  swap-UpInv less = record {
    inside = omega (arith, v.inside);
    at = ground (arith, up-swap (parent i), v.at);
    edges = λ c p q n. ground (arith, up-swap c, up-swap (parent c), v.edges c, v.bridged c, v.at);
    bridged = λ c p q e z. ground (
      arith,
      up-swap c,
      up-swap (parent (parent i)),
      v.edges c,
      v.edges (parent i),
      ap (stamp a) e,
    );
  }

-- The loop ends at the root at the latest, and orders a heap with one entry too low.
pub sift_up_lem :
    (k : ℕ) (a : List Event) (size i ts : ℕ)
    → i < k
    → size ≤ length a
    → UpInv a size i ts
    → Returns (Sifted a size) (sift_up k a i ts)
unfolding sift_up
sift_up_lem zero a size i ts f fits v = absurd (omega arith)
sift_up_lem (suc k) a size zero ts f fits v =
    returns
      (record { ordered = λ c p q. v.edges c p q (omega arith); same = Perm.refl _; kept = refl })
sift_up_lem (suc k) a size (suc i) ts f fits v = elim (dec_lt ts (stamp a (parent (suc i)))) [
  | no settled ↦
      rw (==-false (suc i) 0 (omega arith), ltb-false ts (stamp a (parent (suc i))) (omega arith))
        (returns (record {
          ordered = λ c p q. elim (ℕ_discrete c (suc i)) [
            | yes e ↦ rw e (omega (arith, v.at))
            | no n ↦ v.edges c p q n
          ];
          same = Perm.refl _;
          kept = refl;
        }))
  | yes less ↦
      rw (==-false (suc i) 0 (omega arith), lt→ltb ts (stamp a (parent (suc i))) less)
        (Returns-mono
          (sift_up_lem k (swap no_event a (parent (suc i)) (suc i)) size (parent (suc i)) ts
            (omega arith) (omega (arith, length-swap no_event a (parent (suc i)) (suc i)))
            (swap-UpInv a size (suc i) ts v (omega arith) fits less))
          λ b t. record {
            ordered = t.ordered;
            same = Perm.trans t.same (
                take-swap-perm no_event size a (parent (suc i)) (suc i) (omega (arith, v.inside))
                  v.inside fits);
            kept = t.kept ∙ length-swap no_event a (parent (suc i)) (suc i);
          })
]

-- What a registration leaves: the event added and nothing else, in a queue that is valid, with the capacity and the
-- clock as they were.
pub record Registered (t : Timer) (event : Event) (r : Bool × Timer) : Type 0 where
  pub registered : r.0 ≡ true
  pub valid : IsValid r.1
  pub added : Perm (items r.1) (event ∷ items t)
  pub capacity : r.1.max_size ≡ t.max_size
  pub clock : r.1.time_since_boot_ns ≡ t.time_since_boot_ns

grow-room : (krealloc : Krealloc) (t : Timer) → t.size < t.max_size → grow krealloc t ≡ (true, t)
unfolding grow
grow-room krealloc t room =
    rw (==-false t.size t.max_size (λ e. absurd (omega (arith, e, room)))) refl

module _ (t : Timer) (v : IsValid t) (room : t.size < t.max_size) (ts c : ℕ) where
  abbrev event : Event
  event = timed_event ts c

  -- the array with the event in its first free entry
  abbrev extended : List Event
  extended = set t.array t.size event

  stamp-extended : (k : ℕ) → k < t.size → stamp extended k ≡ stamp t.array k
  stamp-extended k p =
      ground (arith, get_or-set t.array t.size k event no_event (omega (arith, room, v.stored)))

  stamp-new : stamp extended t.size ≡ ts
  stamp-new =
      ground
        (arith, get_or-set t.array t.size t.size event no_event (omega (arith, room, v.stored)))

  extended-UpInv : UpInv extended (t.size + 1) t.size ts
  extended-UpInv = record {
    inside = omega arith;
    at = stamp-new;
    edges = λ k p q n. omega (
      arith,
      stamp-extended k (omega arith),
      stamp-extended (parent k) (omega arith),
      v.ordered k p (omega arith),
    );
    bridged = λ k p q e z. absurd (omega arith);
  }

  extended-perm : Perm (take (t.size + 1) extended) (event ∷ items t)
  extended-perm =
      let grown : take (t.size + 1) extended ≡ items t ++ event ∷ [] =
        ap (λ n. take n extended) {y = suc t.size} (omega arith)
        ∙ take-suc-set t.size t.array event no_event (omega (arith, room, v.stored)) in
      rw grown (perm_append_singleton event (items t))

-- Registering an event on a valid queue whose array is not full returns true: the queue gains the event and nothing
-- else and stays valid, with its capacity and the clock as they were, whatever the allocator does.
pub timer_register-Registered :
    (krealloc : Krealloc) (t : Timer) (ts c : ℕ)
    → IsValid t
    → t.size < t.max_size
    → Returns (Registered t (timed_event ts c)) (timer_register_timed_event krealloc t ts c)
unfolding timer_register_timed_event
timer_register-Registered krealloc t ts c v room =
    let a = extended t v room ts c in
    let kept = length-set t.array t.size (timed_event ts c) in
    rw (grow-room krealloc t room) (
      Returns-bind
        (sift_up_lem (t.size + 1) a (t.size + 1) t.size ts (omega arith)
          (omega (arith, room, v.stored, kept)) (extended-UpInv t v room ts c))
        λ b d. rw (verify_heap-some (record t { array = b; size = t.size + 1 }) d.ordered) (
          returns (record {
            registered = refl;
            valid = record {
              fits = omega (arith, room);
              stored = omega (arith, v.stored, d.kept, kept);
              ordered = d.ordered;
            };
            added = Perm.trans d.same (extended-perm t v room ts c);
            capacity = refl;
            clock = refl;
          })))
