-- ===== src/Timer/Extract.antt =====
-- `extract_min_element` of kernel/devices/timer.c takes out the earliest event.
use mathlib.Core.List.{Perm, perm_append_singleton}
use mathlib.Core.List.Perm
use project_islay.Prelude.{
  ℕ, suc, ◌+◌, ◌-◌, ◌≤◌, ◌<◌, ◌≡◌, refl, some, List, ◌∷◌, arith, set, length, take, length-set,
  length-take, ℕ_discrete, Returns, returns, Returns-bind,
}
use project_islay.Prelude.Arrays.{get_or-set, get_or-take, take-set, take-suc, set-perm}
use project_islay.Timer.{
  Event, Timer, no_event, entry, stamp, parent, verify_heap, extract_min_element,
}
use project_islay.Timer.Order.{IsHeap, IsValid, items, root_least, verify_minheap_property_lem}
use project_islay.Timer.Heapify.{DownInv, heapify_lem}

-- What is taken out is an earliest event; the queue keeps the others and stays valid.
pub record Extracted (t : Timer) (r : Event × Timer) : Type 0 where
  pub valid : IsValid r.1
  pub size : r.1.size + 1 ≡ t.size
  pub same : Perm (r.0 ∷ items r.1) (items t)
  pub least : (i : ℕ) → i < t.size → r.0.timestamp_ns ≤ stamp t.array i
  pub first : r.0 ≡ entry t.array 0
  pub clock : r.1.time_since_boot_ns ≡ t.time_since_boot_ns

-- On an ordered queue the check passes.
pub verify_heap-some : (t : Timer) → IsHeap t.array t.size → verify_heap t ≡ some t
unfolding verify_heap
verify_heap-some t h =
    rw (verify_minheap_property_lem (t.size + 1) t.array t.size 0 h (omega arith))

module _ (a : List Event) (s : ℕ) (fits : s < length a) where
  -- the array with its last entry moved to the root
  abbrev cut : List Event
  cut = set a 0 (entry a s)

  cut-DownInv : IsHeap a (suc s) → DownInv cut s 0
  cut-DownInv h = record {
    edges = λ c p q n. ground (
      arith,
      h c,
      get_or-set a 0 c (entry a s) no_event,
      get_or-set a 0 (parent c) (entry a s) no_event,
    );
    bridged = λ c p q e z. absurd (omega arith);
  }

  -- a prefix of the cut array: the root gave way to the last entry
  prefix-perm : 0 < s → Perm (entry a 0 ∷ take s cut) (entry a s ∷ take s a)
  prefix-perm pos =
      rw (take-set s a 0 (entry a s), ← get_or-take s a 0 no_event pos)
        (set-perm (take s a) 0 (entry a s) no_event (omega (arith, length-take s a)))

  rest-perm : Perm (entry a 0 ∷ take s cut) (entry a s ∷ take s a)
  rest-perm = elim (ℕ_discrete s 0) [
    | yes z ↦ rw z (Perm.refl _)
    | no n ↦ prefix-perm (omega arith)
  ]

  cut-perm : Perm (entry a 0 ∷ take s cut) (take (suc s) a)
  cut-perm =
      Perm.trans rest-perm
        (rw (take-suc s a no_event fits) (Perm.symm (perm_append_singleton (entry a s) (take s a))))

-- On a valid queue that is not empty, `extract_min_element` returns, takes out an earliest event and
-- keeps the others in a valid queue; the clock stays.
pub extract_min_element_lem :
    (t : Timer) → IsValid t → 0 < t.size → Returns (Extracted t) (extract_min_element t)
unfolding extract_min_element
extract_min_element_lem t v pos =
    let s = t.size - 1 in
    let fits : s < length t.array = omega (arith, v.fits, v.stored) in
    let size : suc s ≡ t.size = omega arith in
    let kept = length-set t.array 0 (entry t.array s) in
    let heap : IsHeap t.array (suc s) = rw size v.ordered in
    Returns-bind
      (heapify_lem (s + 1) (cut t.array s fits) s 0 (omega arith) (omega (arith, kept))
        (cut-DownInv t.array s fits heap))
      λ b d. rw (verify_heap-some (record t { array = b; size = s }) d.ordered) (
        returns (record {
          valid = record {
            fits = omega (arith, v.fits);
            stored = omega (arith, v.stored, d.kept, kept);
            ordered = d.ordered;
          };
          size = omega arith;
          same =
              Perm.trans (Perm.cons (entry t.array 0) d.same)
                (rw size at (cut-perm t.array s fits));
          least = λ i p. root_least (suc i) t.array t.size i v.ordered (omega arith) p;
          first = refl;
          clock = refl;
        }))
