-- ===== src/Interrupts/Tests.antt =====
-- Interrupts 1 and 2 are queued, 3 is not.
use project_islay.Prelude.{
  ℕ, zero, suc, refl, Bool, true, false, not, ◌&&◌, Option, none, some, [], ◌∷◌, ◌++◌,
  if◌then◌else◌, Returns, arith,
}
use project_islay.Interrupts.{InterruptEntry, Interrupts, top, queue_bottom_half, drain}
use project_islay.Interrupts.Pending.{IsPending, queue_bottom_half-IsPending}
use project_islay.Interrupts.Draining.{Drained, drain-Drained}

abbrev with_next : Bool → Option ℕ → InterruptEntry
with_next queued next = record {
  top_half = true;
  bottom_half = true;
  enabled = true;
  queued = queued;
  next = next;
}

abbrev two_queued : Interrupts
two_queued = record {
  interrupt_table = λ n. elim n [
    | zero ↦ with_next false none
    | suc m ↦ elim m [
      | zero ↦ with_next true (some 2)
      | suc k ↦ elim k [ zero ↦ with_next true none | suc i ↦ with_next false none ]
    ]
  ];
  interrupt_level = 1;
  bottom_half_queue_head = some 1;
  bottom_half_queue_tail = some 2;
  ran = top 2 ∷ top 1 ∷ [];
}

two-IsPending : IsPending two_queued (1 ∷ 2 ∷ [])
two-IsPending = record {
  head = refl;
  tail = refl;
  chained = (refl, refl, (refl, refl, tt));
  distinct = ((omega arith, tt), (tt, tt));
}

queue_bottom_half_example :
    Returns
      (λ s. IsPending s (
        if (two_queued.interrupt_table 3).bottom_half && not (two_queued.interrupt_table 3).queued
        then (1 ∷ 2 ∷ []) ++ 3 ∷ []
        else 1 ∷ 2 ∷ []))
      (queue_bottom_half two_queued 3)
queue_bottom_half_example = queue_bottom_half-IsPending two_queued 3 (1 ∷ 2 ∷ []) two-IsPending

drain_example : Returns (Drained two_queued (1 ∷ 2 ∷ [])) (drain 16 3 two_queued [])
drain_example = drain-Drained 16 3 two_queued (1 ∷ 2 ∷ []) two-IsPending (omega arith)
