-- ===== src/Tasks/Sleeping.antt =====
-- kernel/tasks/scheduler.c: blocking, sleeping and the callbacks that the scheduler hands to the timer.
pub mod Asleep
use project_islay.Prelude.{
  ℕ, ◌+◌, ◌%◌, ◌^◌, Bool, Option, none, some, List, [], ◌∷◌, ◌==◌, ltb, leb, ◌>>=◌, if◌then◌else◌,
}
use project_islay.Tasks.{
  BlockReason, block_reason_sleep, Scheduler, TimedCallback, sleep_expiry_callback,
  preemption_callback, sleep_queue, is_idling, set_task,
}
use project_islay.Tasks.Queue.{task_queue_enqueue, task_remove_from_current_task_queue}
use project_islay.Tasks.Scheduling.{
  time_slice_ns, uint64_max, current, lock_scheduler, unlock_scheduler, mark_for_reschedule,
  mark_task_blocked_locked, scheduler_unblock_task_locked, scheduler_yield,
}

-- a call of `timer_register_timed_event`
unfoldable pub register_timed_event : Scheduler → ℕ → TimedCallback → Scheduler
register_timed_event s timestamp callback = record s {
  timed_events = (timestamp, callback) ∷ s.timed_events;
}

unfoldable pub scheduler_block_task : Bool → Scheduler → BlockReason → Option Scheduler
scheduler_block_task interrupts_enabled s reason = do
  s' ← lock_scheduler s
  s'' ← unlock_scheduler (mark_task_blocked_locked s' reason)
  scheduler_yield interrupts_enabled s''

-- the wake-up time, made earlier if `when` is
unfoldable pub earlier_wakeup : Scheduler → ℕ → Scheduler
earlier_wakeup s when =
    if ltb when s.scheduler_earliest_wakeup
    then record s { scheduler_earliest_wakeup = when }
    else s

-- the body of the loop over the sleep queue
unfoldable pub wake_if_due : ℕ → Scheduler → ℕ → Option Scheduler
wake_if_due now s t =
    if leb (s.tasks t).sleep_expiry now
    then (do s' ← task_remove_from_current_task_queue s t; scheduler_unblock_task_locked s' t)
    else some (earlier_wakeup s (s.tasks t).sleep_expiry)

-- The loop goes through the tasks that the queue holds at its start, since it reads the next entry before it
-- takes one out.
unfoldable pub wake_sleepers : ℕ → Scheduler → List ℕ → Option Scheduler
wake_sleepers now s [] = some s
wake_sleepers now s (t ∷ ts) = do s' ← wake_if_due now s t; wake_sleepers now s' ts

unfoldable pub register_wakeup : Scheduler → Scheduler
register_wakeup s =
    if ltb s.scheduler_earliest_wakeup uint64_max
    then register_timed_event s s.scheduler_earliest_wakeup sleep_expiry_callback
    else s

-- `sleep_expiry_callback`
unfoldable pub run_sleep_expiry : Scheduler → ℕ → Option Scheduler
run_sleep_expiry s time_since_boot_ns = do
  s' ← lock_scheduler s
  let sleepers = (s'.queues sleep_queue).list
  s'' ←
      wake_sleepers time_since_boot_ns (record s' { scheduler_earliest_wakeup = uint64_max })
        sleepers
  unlock_scheduler (register_wakeup s'')

-- what `preemption_callback` does at the end of the time slice
unfoldable pub preempt_current : Scheduler → Option Scheduler
preempt_current s =
    if s.preemption_counter == 0
    then (if is_idling (current s).state then none else some (mark_for_reschedule s s.current_task))
    else some s

-- `preemption_callback`
unfoldable pub run_preemption : Scheduler → ℕ → Option Scheduler
run_preemption s time_since_boot_ns =
    let next = (time_since_boot_ns + time_slice_ns) % 2 ^ 64 in
    if s.preemption_timestamp_ns == 0
    then some (register_timed_event s next preemption_callback)
    else if ltb s.preemption_timestamp_ns time_since_boot_ns
    then none
    else if s.preemption_timestamp_ns == time_since_boot_ns
    then (do s' ← preempt_current s; some (register_timed_event s' next preemption_callback))
    else some (register_timed_event s s.preemption_timestamp_ns preemption_callback)

-- `Adjust first wakeup if necessary`
unfoldable pub adjust_wakeup : Scheduler → ℕ → Scheduler
adjust_wakeup s when =
    if ltb when s.scheduler_earliest_wakeup
    then register_timed_event (record s { scheduler_earliest_wakeup = when }) when
        sleep_expiry_callback
    else s

unfoldable pub scheduler_nano_sleep_until : Bool → Scheduler → ℕ → Option Scheduler
scheduler_nano_sleep_until interrupts_enabled s when =
    if leb when s.time_since_boot then some s else (do
      s' ← lock_scheduler s
      let c = s'.current_task
      s'' ←
          task_queue_enqueue (set_task s' c (record (current s') { sleep_expiry = when }))
            sleep_queue c
      s''' ← unlock_scheduler (mark_task_blocked_locked (adjust_wakeup s'' when) block_reason_sleep)
      scheduler_yield interrupts_enabled s''')
