-- ===== src/Tasks.antt =====
-- kernel/tasks: the tasks, their queues and the scheduler (task_queue.c, scheduler.c, locking.c).
pub mod Queue
pub mod Scheduling
pub mod Sleeping
pub mod Locking
mod Tests
use project_islay.Prelude.{
  ℕ, ◌+◌, ◌-◌, ◌%◌, ◌^◌, Bool, true, false, not, Option, none, some, List, [], ◌==◌, ◌&&◌, ◌>>=◌,
  ltb, update, if◌then◌else◌,
}
use project_islay.Prelude.Bits.{mask_bit}

-- `task_state_t`
pub data TaskState : Type 0 where
  ready_to_run : TaskState
  running : TaskState
  blocked : TaskState
  blocked_idling : TaskState

-- `block_reason_t`
pub data BlockReason : Type 0 where
  block_reason_sleep : BlockReason
  block_reason_paused : BlockReason
  block_reason_lock_wait : BlockReason
  block_reason_io_wait : BlockReason
  block_reason_terminated : BlockReason
  block_reason_max : BlockReason

-- the callbacks that the scheduler hands to the timer
pub data TimedCallback : Type 0 where
  sleep_expiry_callback : TimedCallback
  preemption_callback : TimedCallback

-- `struct task`, the fields that the scheduler keeps; a task queue is known by a number.
pub record Task : Type 0 where
  pub state : TaskState
  pub block_reason : BlockReason
  pub ref_count : ℕ
  pub current_task_queue : Option ℕ
  pub sleep_expiry : ℕ
  pub time_used : ℕ
  pub status : ℕ

-- `task_queue_t`: the flag of the lock, and the tasks in the order of the list, as the operations of
-- kernel/utils/list.c keep it.
pub record TaskQueue : Type 0 where
  pub flag : ℕ
  pub list : List ℕ

-- The state of the scheduler, once it is initialised. Tasks and queues are known by numbers,
-- `time_since_boot` is what the timer answers, and `timed_events` are the calls of
-- `timer_register_timed_event`, the newest first.
pub record Scheduler : Type 0 where
  pub tasks : ℕ → Task
  pub queues : ℕ → TaskQueue
  pub termination_queue : List ℕ
  pub flag : ℕ
  pub current_task : ℕ
  pub next_task : ℕ
  pub cleanup_task : ℕ
  pub last_count : ℕ
  pub idle_time_ns : ℕ
  pub preemption_timestamp_ns : ℕ
  pub preemption_counter : ℕ
  pub scheduler_earliest_wakeup : ℕ
  pub time_since_boot : ℕ
  pub timed_events : List (ℕ × TimedCallback)

abbrev pub ready_queue : ℕ
ready_queue = 0

abbrev pub sleep_queue : ℕ
sleep_queue = 1

abbrev pub u32 : ℕ
u32 = 2 ^ 32

-- `TASK_STATUS_RESCHEDULE` and `TASK_STATUS_INTERRUPT` are the bits 0 and 1.
abbrev pub is_marked : Task → Bool
is_marked task = not (mask_bit task.status 0 == 0)

abbrev pub is_blocked : TaskState → Bool
is_blocked blocked = true
is_blocked ready_to_run = false
is_blocked running = false
is_blocked blocked_idling = false

abbrev pub is_idling : TaskState → Bool
is_idling blocked_idling = true
is_idling ready_to_run = false
is_idling running = false
is_idling blocked = false

abbrev pub is_running : TaskState → Bool
is_running running = true
is_running ready_to_run = false
is_running blocked = false
is_running blocked_idling = false

abbrev is_termination : BlockReason → Bool
is_termination block_reason_terminated = true
is_termination block_reason_sleep = false
is_termination block_reason_paused = false
is_termination block_reason_lock_wait = false
is_termination block_reason_io_wait = false
is_termination block_reason_max = false

-- `IS_TERMINATED`
abbrev pub is_terminated : Task → Bool
is_terminated task = is_blocked task.state && is_termination task.block_reason

unfoldable pub set_task : Scheduler → ℕ → Task → Scheduler
set_task s t task = record s { tasks = update s.tasks t task }

unfoldable pub set_queue : Scheduler → ℕ → TaskQueue → Scheduler
set_queue s q queue = record s { queues = update s.queues q queue }

-- The counter may not pass its largest value.
unfoldable pub scheduler_disable_preemption : Scheduler → Option Scheduler
scheduler_disable_preemption s =
    let counter = (s.preemption_counter + 1) % u32 in
    if ltb s.preemption_counter counter
    then some (record s { preemption_counter = counter })
    else none

-- Nor may it pass 0.
unfoldable pub scheduler_enable_preemption : Scheduler → Option Scheduler
scheduler_enable_preemption s =
    let counter = (s.preemption_counter + u32 - 1) % u32 in
    if ltb counter s.preemption_counter
    then some (record s { preemption_counter = counter })
    else none

-- `spinlock_lock` and `spinlock_unlock` on the lock of a queue
unfoldable pub lock_queue : Scheduler → ℕ → Option Scheduler
lock_queue s q = do
  s' ← scheduler_disable_preemption s
  if (s'.queues q).flag == 0
      then some (set_queue s' q (record (s'.queues q) { flag = 1 }))
      else none

unfoldable pub unlock_queue : Scheduler → ℕ → Option Scheduler
unlock_queue s q =
    scheduler_enable_preemption
      (set_queue s q (record (s.queues q) { flag = (s.queues q).flag - 1 }))
