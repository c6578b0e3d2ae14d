-- ===== src/Tasks/Sleeping/Asleep.antt =====
-- `scheduler_nano_sleep_until` of kernel/tasks/scheduler.c puts the current task to sleep.
use project_islay.Prelude.{
  ℕ, ◌+◌, ◌-◌, ◌%◌, ◌≤◌, ◌<◌, ◌≡◌, refl, sym, ap, ◌∙◌, true, false, Option, none, some, [], ◌∷◌,
  ◌++◌, ◌==◌, ◌>>=◌, ltb, leb, arith, ==-true, lt→ltb, update_at, Returns, returns, Returns-bind,
  Returns-mono, Bool-cases, inl, inr,
}
use project_islay.Prelude.Bits.{mask_bit}
use project_islay.Tasks.{
  blocked, block_reason_sleep, Scheduler, u32, sleep_queue, is_terminated, set_task,
  scheduler_disable_preemption, scheduler_enable_preemption,
}
use project_islay.Tasks.Queue.Order.{IsOpen, Enqueued, task_queue_enqueue-Enqueued}
use project_islay.Tasks.Scheduling.{
  lock_scheduler, unlock_scheduler, mark_for_reschedule, mark_task_blocked_locked, scheduler_yield,
}
use project_islay.Tasks.Sleeping.{register_timed_event, adjust_wakeup, scheduler_nano_sleep_until}

-- `adjust_wakeup` changes the wake-up time and the events only.
record Adjusted (s : Scheduler) (when : ℕ) (s' : Scheduler) : Type 0 where
  tasks : s'.tasks ≡ s.tasks
  queues : s'.queues ≡ s.queues
  current : s'.current_task ≡ s.current_task
  counter : s'.preemption_counter ≡ s.preemption_counter
  lock : s'.flag ≡ s.flag
  wakeup : s'.scheduler_earliest_wakeup ≤ when

adjust_wakeup-Adjusted : (s : Scheduler) (when : ℕ) → Adjusted s when (adjust_wakeup s when)
unfolding adjust_wakeup register_timed_event
adjust_wakeup-Adjusted s when = elim (Bool-cases (ltb when s.scheduler_earliest_wakeup)) [
  | inl early ↦ rw early (record {
    tasks = refl;
    queues = refl;
    current = refl;
    counter = refl;
    lock = refl;
    wakeup = omega arith;
  })
  | inr late ↦ rw late (record {
    tasks = refl;
    queues = refl;
    current = refl;
    counter = refl;
    lock = refl;
    wakeup = ground (arith, late);
  })
]

-- What `scheduler_nano_sleep_until` leaves.
pub record Asleep (s : Scheduler) (when : ℕ) (s' : Scheduler) : Type 0 where
  pub state : (s'.tasks s.current_task).state ≡ blocked
  pub reason : (s'.tasks s.current_task).block_reason ≡ block_reason_sleep
  pub expiry : (s'.tasks s.current_task).sleep_expiry ≡ when
  pub member : (s'.tasks s.current_task).current_task_queue ≡ some sleep_queue
  pub queue : (s'.queues sleep_queue).list ≡ (s.queues sleep_queue).list ++ s.current_task ∷ []
  pub wakeup : s'.scheduler_earliest_wakeup ≤ when
  pub free : s'.flag ≡ 0
  pub counter : s'.preemption_counter ≡ s.preemption_counter

-- the end of it, with the lock held
abbrev fall_asleep : Scheduler → Option Scheduler
fall_asleep s = do
  s' ← unlock_scheduler (mark_task_blocked_locked s block_reason_sleep)
  scheduler_yield true s'

-- what it changes
record Fallen (s s' : Scheduler) : Type 0 where
  state : (s'.tasks s.current_task).state ≡ blocked
  reason : (s'.tasks s.current_task).block_reason ≡ block_reason_sleep
  expiry : (s'.tasks s.current_task).sleep_expiry ≡ (s.tasks s.current_task).sleep_expiry
  member :
      (s'.tasks s.current_task).current_task_queue ≡ (s.tasks s.current_task).current_task_queue
  queues : s'.queues ≡ s.queues
  wakeup : s'.scheduler_earliest_wakeup ≡ s.scheduler_earliest_wakeup
  free : s'.flag ≡ 0
  counter : s'.preemption_counter + 1 ≡ s.preemption_counter

fall_asleep-Fallen :
    (s : Scheduler) (c : ℕ)
    → s.flag ≡ 1
    → s.preemption_counter ≡ c + 1
    → c + 1 < u32
    → (mask_bit (s.tasks s.current_task).status 1 == 0) ≡ true
    → Returns (Fallen s) (fall_asleep s)
unfolding unlock_scheduler mark_task_blocked_locked scheduler_yield scheduler_enable_preemption
    set_task mark_for_reschedule
fall_asleep-Fallen s c held count room outside =
    let t = s.current_task in
    let down : (c + 1 + u32 - 1) % u32 ≡ c = omega (arith, room) in
    rw (count, down, lt→ltb c (c + 1) (omega arith), ==-true t t refl, outside, held)
      (returns (record {
        state = rw (==-true t t refl) refl;
        reason = rw (==-true t t refl) refl;
        expiry = rw (==-true t t refl) refl;
        member = rw (==-true t t refl) refl;
        queues = refl;
        wakeup = refl;
        free = refl;
        counter = refl;
      }))

-- the state in which the task is queued
abbrev drowsy : Scheduler → ℕ → Scheduler
drowsy s when =
    let s' = record s { preemption_counter = s.preemption_counter + 1; flag = 1 } in
    set_task s' s.current_task (record (s.tasks s.current_task) { sleep_expiry = when })

drowsy_task :
    (s : Scheduler) (when : ℕ)
    → (drowsy s when).tasks s.current_task ≡ record (s.tasks s.current_task) { sleep_expiry = when }
unfolding set_task
drowsy_task s when = update_at s.tasks s.current_task _

drowsy_rest :
    (s : Scheduler) (when : ℕ)
    → ((drowsy s when).queues ≡ s.queues)
      × ((drowsy s when).current_task ≡ s.current_task)
      × ((drowsy s when).preemption_counter ≡ s.preemption_counter + 1)
      × ((drowsy s when).flag ≡ 1)
unfolding set_task
drowsy_rest s when = (refl, refl, refl, refl)

lock_scheduler_lem :
    (s : Scheduler)
    → s.flag ≡ 0
    → s.preemption_counter + 1 < u32
    → lock_scheduler s ≡ some (record s { preemption_counter = s.preemption_counter + 1; flag = 1 })
unfolding lock_scheduler scheduler_disable_preemption
lock_scheduler_lem s free room =
    let c = s.preemption_counter in
    let up : (c + 1) % u32 ≡ c + 1 = omega (arith, room) in
    rw (up, lt→ltb c (c + 1) (omega arith), free) refl

-- after the task is queued
settle-Asleep :
    (s : Scheduler) (when : ℕ) (s' : Scheduler)
    → s.preemption_counter + 1 < u32
    → (mask_bit (s.tasks s.current_task).status 1 == 0) ≡ true
    → Enqueued (drowsy s when) sleep_queue s.current_task s'
    → Returns (Asleep s when) (fall_asleep (adjust_wakeup s' when))
settle-Asleep s when s' room outside e =
    let c = s.current_task in
    let a = adjust_wakeup-Adjusted s' when in
    let r = drowsy_rest s when in
    let at : (adjust_wakeup s' when).current_task ≡ c = a.current ∙ e.steady.current ∙ r.1 in
    let task = drowsy_task s when in
    let outside' : (mask_bit
            ((adjust_wakeup s' when).tasks (adjust_wakeup s' when).current_task).status 1
          == 0)
        ≡ true =
      rw (at, a.tasks, e.steady.status, task) outside in
    Returns-mono
      (fall_asleep-Fallen (adjust_wakeup s' when) s.preemption_counter
        (a.lock ∙ e.steady.lock ∙ r.3) (a.counter ∙ e.steady.counter ∙ r.2) room outside')
      (λ z f. record {
        state = ap (λ u. (z.tasks u).state) (sym at) ∙ f.state;
        reason = ap (λ u. (z.tasks u).block_reason) (sym at) ∙ f.reason;
        expiry =
            ap (λ u. (z.tasks u).sleep_expiry) (sym at)
            ∙ f.expiry
            ∙ rw (at, a.tasks) (e.steady.expiry ∙ ap (λ k. k.sleep_expiry) task);
        member =
            ap (λ u. (z.tasks u).current_task_queue) (sym at)
            ∙ f.member
            ∙ rw (at, a.tasks) e.member;
        queue =
            ap (λ q. (q sleep_queue).list) (f.queues ∙ a.queues)
            ∙ e.list
            ∙ ap (λ q. (q sleep_queue).list ++ c ∷ []) r.0;
        wakeup = rw f.wakeup a.wakeup;
        free = f.free;
        counter = omega (arith, f.counter, a.counter ∙ e.steady.counter ∙ r.2);
      })

-- If the time has not come, interrupts are enabled and none is being served, and the current task is neither
-- terminated nor in a queue, then, with the locks free and room in the preemption counter,
-- `scheduler_nano_sleep_until` leaves the task blocked at the end of the sleep queue, with its time to wake
-- up, a wake-up time for the scheduler that is no later, the lock free and the counter as before.
pub scheduler_nano_sleep_until-Asleep :
    (s : Scheduler) (when : ℕ)
    → s.time_since_boot < when
    → s.flag ≡ 0
    → (s.queues sleep_queue).flag ≡ 0
    → s.preemption_counter + 2 < u32
    → is_terminated (s.tasks s.current_task) ≡ false
    → (s.tasks s.current_task).current_task_queue ≡ none
    → (mask_bit (s.tasks s.current_task).status 1 == 0) ≡ true
    → Returns (Asleep s when) (scheduler_nano_sleep_until true s when)
unfolding scheduler_nano_sleep_until
scheduler_nano_sleep_until-Asleep s when later free vacant room alive apart outside =
    let c = s.current_task in
    let r = drowsy_rest s when in
    let task = drowsy_task s when in
    let early : leb when s.time_since_boot ≡ false = ground (arith, later) in
    let o : IsOpen (drowsy s when) sleep_queue = record {
      free = ap (λ q. (q sleep_queue).flag) r.0 ∙ vacant;
      room = rw r.2 (omega (arith, room));
    } in
    rw (early, lock_scheduler_lem s free (omega (arith, room)))
      (Returns-bind
        (task_queue_enqueue-Enqueued (drowsy s when) sleep_queue c o (rw task alive)
          (rw task apart))
        (λ s' e. settle-Asleep s when s' (omega (arith, room)) outside e))
