-- ===== src/Tasks/Locking/Tests.antt =====
-- A mutex and two tasks: the first runs, the second is ready.
use project_islay.Prelude.{
  ℕ, zero, suc, ◌≡◌, refl, Option, none, some, List, [], ◌∷◌, ◌>>=◌, Ensures,
}
use project_islay.Prelude.Bits.{mask_bit, set_bit, clr_bit}
use project_islay.Tasks.{
  TaskState, ready_to_run, running, block_reason_paused, Task, Scheduler, set_task, set_queue,
  lock_queue, unlock_queue, scheduler_disable_preemption, scheduler_enable_preemption,
}
use project_islay.Tasks.Queue.{
  task_queue_dequeue, take_first, leave_queue, put_task, task_queue_enqueue, prepare_insert,
  add_last,
}
use project_islay.Tasks.Scheduling.{
  do_schedule, update_time_used, mark_for_reschedule, schedule_taken, switch_to, keep_current,
  clear_reschedule, requeue_current, set_slice, lock_scheduler, unlock_scheduler,
  mark_task_blocked_locked, scheduler_yield,
}
use project_islay.Tasks.Sleeping.{scheduler_block_task}
use project_islay.Tasks.Locking.{
  semaphore_init, Action, load, sleep, compare_exchange, add, wake, switch, act, act_all,
  load_count, check_non_interrupt, exchange, reschedule, add_count, wake_first, unblock_first,
  sleep_on, block_on,
}
use project_islay.Tasks.Locking.Exclusion.{IsExclusive, mutex-IsExclusive}

abbrev a_task : TaskState → Option ℕ → Task
a_task st queue = record {
  state = st;
  block_reason = block_reason_paused;
  ref_count = 1;
  current_task_queue = queue;
  sleep_expiry = 0;
  time_used = 0;
  status = 0;
}

abbrev two_tasks : Scheduler
two_tasks = record {
  tasks = λ t. elim t [ zero ↦ a_task running none | suc u ↦ a_task ready_to_run (some 0) ];
  queues = λ q. elim q [
    | zero ↦ record { flag = 0; list = 1 ∷ [] }
    | suc r ↦ record { flag = 0; list = [] }
  ];
  termination_queue = [];
  flag = 0;
  current_task = 0;
  next_task = 0;
  cleanup_task = 9;
  last_count = 0;
  idle_time_ns = 0;
  preemption_timestamp_ns = 0;
  preemption_counter = 0;
  scheduler_earliest_wakeup = 0;
  time_since_boot = 0;
  timed_events = [];
}

-- The second task reads the count while the first holds the mutex; the first gives it back before the second is in
-- the queue.
abbrev lost_schedule : List Action
lost_schedule = load ∷ compare_exchange ∷ switch ∷ load ∷ switch ∷ add ∷ wake ∷ switch ∷ sleep ∷ []

mutex_example : Ensures IsExclusive (act_all lost_schedule (semaphore_init two_tasks 5 1))
mutex_example = mutex-IsExclusive lost_schedule two_tasks 5

-- The second task sleeps in the queue of a mutex that is free.
lost_wakeup :
    (act_all lost_schedule (semaphore_init two_tasks 5 1) >>= λ s.
    some (s.count ∷ s.scheduler.current_task ∷ (s.scheduler.queues 5).list))
    ≡ some (1 ∷ 1 ∷ 1 ∷ [])
unfolding act_all act load_count check_non_interrupt mask_bit exchange reschedule do_schedule
    update_time_used mark_for_reschedule set_task set_bit clr_bit set_queue lock_queue unlock_queue
    scheduler_disable_preemption scheduler_enable_preemption task_queue_dequeue take_first
    leave_queue put_task schedule_taken switch_to keep_current clear_reschedule requeue_current
    set_slice task_queue_enqueue prepare_insert add_last add_count wake_first unblock_first sleep_on
    block_on scheduler_block_task lock_scheduler unlock_scheduler mark_task_blocked_locked
    scheduler_yield
lost_wakeup = refl
