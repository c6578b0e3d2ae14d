-- ===== src/Tasks/Locking/Exclusion.antt =====
-- Mutual exclusion by a mutex of kernel/tasks/locking.c, which is a semaphore with the count 1.
use project_islay.Prelude.{
  ℕ, zero, suc, ◌+◌, ◌≡◌, ◌≢◌, ◌⊎◌, inl, inr, refl, sym, ap, ◌∙◌, Bool, true, false, Option, none,
  some, List, [], ◌∷◌, ◌==◌, ◌>>=◌, arith, update, update_at, update_apart, ℕ_discrete, ==-true,
  ==-false, Bool-cases, Ensures, stops, gives, Ensures-bind,
}
use mathlib.Core.Bool.{true≢false}
use project_islay.Prelude.Bits.{mask_bit}
use project_islay.Tasks.{
  Scheduler, block_reason_lock_wait, scheduler_disable_preemption, scheduler_enable_preemption,
}
use project_islay.Tasks.Queue.{task_queue_enqueue, task_queue_dequeue}
use project_islay.Tasks.Scheduling.{scheduler_unblock_task, do_schedule, mark_for_reschedule}
use project_islay.Tasks.Sleeping.{scheduler_block_task}
use project_islay.Tasks.Locking.{
  Phase, outside, loaded, asleep, holding, signalling, Semaphore, phase, go_to, semaphore_init,
  check_non_interrupt, load_count, block_on, sleep_on, exchange, add_count, unblock_first,
  wake_first, reschedule, Action, load, sleep, compare_exchange, add, wake, switch, act, act_all,
}

abbrev pub is_holding : Phase → Bool
is_holding holding = true
is_holding outside = false
is_holding (loaded c) = false
is_holding asleep = false
is_holding signalling = false

-- The mutex is free and no task holds it, or it is taken and one task does and no other.
pub IsExclusive : Semaphore → Type 0
IsExclusive s =
    ((s.count ≡ 1) × ((t : ℕ) → is_holding (s.phases t) ≡ false))
    ⊎ ((s.count ≡ 0)
        × (owner : ℕ) × (is_holding (s.phases owner) ≡ true)
        × ((t : ℕ) → t ≢ owner → is_holding (s.phases t) ≡ false))

update-quiet :
    (phases : ℕ → Phase) (cur : ℕ) (p : Phase) (t : ℕ)
    → is_holding p ≡ false
    → is_holding (phases t) ≡ false
    → is_holding (update phases cur p t) ≡ false
update-quiet phases cur p t n h = elim (ℕ_discrete t cur) [
  | yes e ↦ ap is_holding (ap (update phases cur p) e ∙ update_at phases cur p) ∙ n
  | no d ↦ ap is_holding (update_apart phases cur t p d) ∙ h
]

-- A task that does not hold the mutex goes to a phase in which it does not either.
quiet-IsExclusive :
    (s : Semaphore) (scheduler : Scheduler) (p : Phase)
    → is_holding (phase s) ≡ false
    → is_holding p ≡ false
    → IsExclusive s
    → IsExclusive (record (go_to p s) { scheduler = scheduler })
unfolding IsExclusive
quiet-IsExclusive s scheduler p h n (inl (c, free)) =
    inl (c, λ t. update-quiet s.phases s.scheduler.current_task p t n (free t))
quiet-IsExclusive s scheduler p h n (inr (c, owner, held, others)) =
    let cur = s.scheduler.current_task in
    let apart : owner ≢ cur =
      λ e. absurd (true≢false (sym held ∙ ap (λ t. is_holding (s.phases t)) e ∙ h)) in
    inr (
      c,
      owner,
      ap is_holding (update_apart s.phases cur owner p apart) ∙ held,
      λ t d. update-quiet s.phases cur p t n (others t d),
    )

-- The mutex is taken: its count was 1.
taken-IsExclusive :
    (s : Semaphore) (n : ℕ)
    → s.count ≡ suc n
    → IsExclusive s
    → IsExclusive (record (go_to holding s) { count = n })
unfolding IsExclusive
taken-IsExclusive s n e (inl (c, free)) =
    let cur = s.scheduler.current_task in
    inr (
      omega (arith, e, c),
      cur,
      ap is_holding (update_at s.phases cur holding),
      λ t d. ap is_holding (update_apart s.phases cur t holding d) ∙ free t,
    )
taken-IsExclusive s n e (inr (c, owner, held, others)) = absurd (omega (arith, e, c))

-- The mutex is given back by the task that holds it.
given-IsExclusive :
    (s : Semaphore)
    → is_holding (phase s) ≡ true
    → IsExclusive s
    → IsExclusive (record (go_to signalling s) { count = s.count + 1 })
unfolding IsExclusive
given-IsExclusive s h (inl (c, free)) = absurd (true≢false (sym h ∙ free s.scheduler.current_task))
given-IsExclusive s h (inr (c, owner, held, others)) =
    let cur = s.scheduler.current_task in
    inl (
      omega (arith, c),
      λ t. elim (ℕ_discrete t cur) [
        | yes e ↦
            ap is_holding
              (ap (update s.phases cur signalling) e ∙ update_at s.phases cur signalling)
        | no d ↦ elim (ℕ_discrete cur owner) [
          | yes o ↦
              ap is_holding (update_apart s.phases cur t signalling d)
              ∙ others t (λ e. d (e ∙ sym o))
          | no o ↦ absurd (true≢false (sym h ∙ others cur o))
        ]
      ],
    )

check_non_interrupt-Ensures :
    {P : Semaphore → Type 0} (s : Semaphore) → P s → Ensures P (check_non_interrupt s)
unfolding check_non_interrupt
check_non_interrupt-Ensures s e =
    elim (Bool-cases (mask_bit (s.scheduler.tasks s.scheduler.current_task).status 1 == 0)) [
      | inl c ↦ rw c (gives e)
      | inr c ↦ rw c stops
    ]

load_count-IsExclusive :
    (p : Phase) (s : Semaphore) → phase s ≡ p → IsExclusive s → Ensures IsExclusive (load_count p s)
unfolding load_count
load_count-IsExclusive outside s q e =
    Ensures-bind
      (check_non_interrupt-Ensures {P = λ s'. IsExclusive s' × (is_holding (phase s') ≡ false)} s
        (e, ap is_holding q))
      (λ s' h. gives (quiet-IsExclusive s' s'.scheduler (loaded s'.count) h.1 refl h.0))
load_count-IsExclusive (loaded c) s q e = stops
load_count-IsExclusive asleep s q e =
    gives (quiet-IsExclusive s s.scheduler (loaded s.count) (ap is_holding q) refl e)
load_count-IsExclusive holding s q e = stops
load_count-IsExclusive signalling s q e = stops

-- A part that only changes the scheduler and the phase.
scheduler-IsExclusive :
    (s : Semaphore) (p : Phase) (m : Option Scheduler)
    → is_holding (phase s) ≡ false
    → is_holding p ≡ false
    → IsExclusive s
    → Ensures IsExclusive (m >>= λ scheduler. some (record (go_to p s) { scheduler = scheduler }))
scheduler-IsExclusive s p none h n e = stops
scheduler-IsExclusive s p (some scheduler) h n e = gives (quiet-IsExclusive s scheduler p h n e)

any-bind :
    {A : Type 0} {P : Semaphore → Type 0} (m : Option A) {f : A → Option Semaphore}
    → ((a : A) → Ensures P (f a))
    → Ensures P (m >>= f)
any-bind none h = stops
any-bind (some a) h = h a

sleep_on-IsExclusive :
    (p : Phase) (s : Semaphore) → phase s ≡ p → IsExclusive s → Ensures IsExclusive (sleep_on p s)
unfolding sleep_on block_on
sleep_on-IsExclusive outside s q e = stops
sleep_on-IsExclusive (loaded c) s q e = elim (Bool-cases (c == 0)) [
  | inl z ↦ rw z (
      any-bind (scheduler_disable_preemption s.scheduler) (λ s1.
        any-bind (task_queue_enqueue s1 s.waiting_tasks s1.current_task) (λ s2.
          scheduler-IsExclusive s asleep (scheduler_block_task true s2 block_reason_lock_wait)
            (ap is_holding q) refl e)))
  | inr z ↦ rw z stops
]
sleep_on-IsExclusive asleep s q e = stops
sleep_on-IsExclusive holding s q e = stops
sleep_on-IsExclusive signalling s q e = stops

exchange-IsExclusive :
    (p : Phase) (s : Semaphore) → phase s ≡ p → IsExclusive s → Ensures IsExclusive (exchange p s)
unfolding exchange
exchange-IsExclusive outside s q e = stops
exchange-IsExclusive (loaded zero) s q e = stops
exchange-IsExclusive (loaded (suc n)) s q e = elim (ℕ_discrete s.count (suc n)) [
  | yes c ↦ rw (==-true s.count (suc n) c) (gives (taken-IsExclusive s n c e))
  | no c ↦
      rw (==-false s.count (suc n) c)
        (gives (quiet-IsExclusive s s.scheduler (loaded s.count) (ap is_holding q) refl e))
]
exchange-IsExclusive asleep s q e = stops
exchange-IsExclusive holding s q e = stops
exchange-IsExclusive signalling s q e = stops

add_count-IsExclusive :
    (p : Phase) (s : Semaphore) → phase s ≡ p → IsExclusive s → Ensures IsExclusive (add_count p s)
unfolding add_count
add_count-IsExclusive holding s q e =
    Ensures-bind
      (check_non_interrupt-Ensures {P = λ s'. IsExclusive s' × (is_holding (phase s') ≡ true)} s
        (e, ap is_holding q))
      (λ s' h. gives (given-IsExclusive s' h.1 h.0))
add_count-IsExclusive outside s q e = stops
add_count-IsExclusive (loaded c) s q e = stops
add_count-IsExclusive asleep s q e = stops
add_count-IsExclusive signalling s q e = stops

wake_first-IsExclusive :
    (p : Phase) (s : Semaphore) → phase s ≡ p → IsExclusive s → Ensures IsExclusive (wake_first p s)
unfolding wake_first unblock_first
wake_first-IsExclusive signalling s q e = any-bind (scheduler_disable_preemption s.scheduler) (λ s1.
    any-bind (task_queue_dequeue s1 s.waiting_tasks) (λ r.
      any-bind (elim r.0 [ none ↦ some r.1 | some t ↦ scheduler_unblock_task r.1 t ])
        (λ s3.
          scheduler-IsExclusive s outside (scheduler_enable_preemption s3) (ap is_holding q) refl
            e)))
wake_first-IsExclusive outside s q e = stops
wake_first-IsExclusive (loaded c) s q e = stops
wake_first-IsExclusive asleep s q e = stops
wake_first-IsExclusive holding s q e = stops

reschedule-IsExclusive : (s : Semaphore) → IsExclusive s → Ensures IsExclusive (reschedule s)
unfolding reschedule IsExclusive
reschedule-IsExclusive s e =
    any-bind (do_schedule (mark_for_reschedule s.scheduler s.scheduler.current_task))
      (λ scheduler. gives e)

act-IsExclusive : (a : Action) (s : Semaphore) → IsExclusive s → Ensures IsExclusive (act a s)
unfolding act
act-IsExclusive load s e = load_count-IsExclusive (phase s) s refl e
act-IsExclusive sleep s e = sleep_on-IsExclusive (phase s) s refl e
act-IsExclusive compare_exchange s e = exchange-IsExclusive (phase s) s refl e
act-IsExclusive add s e = add_count-IsExclusive (phase s) s refl e
act-IsExclusive wake s e = wake_first-IsExclusive (phase s) s refl e
act-IsExclusive switch s e = reschedule-IsExclusive s e

-- From any state in which the mutex is exclusive, every schedule of the parts of `mutex_lock` and `mutex_unlock` keeps it
-- so.
act_all-IsExclusive :
    (actions : List Action) (s : Semaphore)
    → IsExclusive s
    → Ensures IsExclusive (act_all actions s)
unfolding act_all
act_all-IsExclusive [] s e = gives e
act_all-IsExclusive (a ∷ actions) s e =
    Ensures-bind (act-IsExclusive a s e) (λ s' e'. act_all-IsExclusive actions s' e')

-- From the initial state of a mutex, whatever the schedule of the parts of `mutex_lock` and `mutex_unlock`, where a task
-- unlocks only what it holds: if no part panics, the mutex is free, with the count 1, and no task holds it, or its count is 0 and exactly one
-- task holds it.
pub mutex-IsExclusive :
    (actions : List Action) (scheduler : Scheduler) (waiting_tasks : ℕ)
    → Ensures IsExclusive (act_all actions (semaphore_init scheduler waiting_tasks 1))
unfolding IsExclusive
mutex-IsExclusive actions scheduler waiting_tasks =
    act_all-IsExclusive actions (semaphore_init scheduler waiting_tasks 1) (inl (refl, λ t. refl))
