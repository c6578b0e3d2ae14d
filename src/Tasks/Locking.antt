-- ===== src/Tasks/Locking.antt =====
-- kernel/tasks/locking.c: semaphores and mutexes, as the parts of their operations between which another task can run.
-- `none` is a panic, or a part that the task is not at.
pub mod Exclusion
mod Tests
use project_islay.Prelude.{
  ℕ, zero, suc, ◌+◌, Bool, true, false, not, Option, none, some, List, [], ◌∷◌, ◌==◌, ◌>>=◌,
  if◌then◌else◌, update,
}
use project_islay.Prelude.Bits.{mask_bit}
use project_islay.Tasks.{
  Scheduler, block_reason_lock_wait, scheduler_disable_preemption, scheduler_enable_preemption,
}
use project_islay.Tasks.Queue.{task_queue_enqueue, task_queue_dequeue}
use project_islay.Tasks.Scheduling.{scheduler_unblock_task, do_schedule, mark_for_reschedule}
use project_islay.Tasks.Sleeping.{scheduler_block_task}

-- Where a task is: outside of the operations; in `__semaphore_wait` with the value of `current`, or blocked in it; past
-- it; or in `__semaphore_signal`, the count increased.
pub data Phase : Type 0 where
  outside : Phase
  loaded : ℕ → Phase
  asleep : Phase
  holding : Phase
  signalling : Phase

-- A semaphore whose waiting tasks are queue `waiting_tasks`, with the scheduler and the phase of each task.
pub record Semaphore : Type 0 where
  pub scheduler : Scheduler
  pub count : ℕ
  pub waiting_tasks : ℕ
  pub phases : ℕ → Phase

abbrev pub phase : Semaphore → Phase
phase s = s.phases s.scheduler.current_task

-- the current task goes to a phase
abbrev pub go_to : Phase → Semaphore → Semaphore
go_to p s = record s { phases = update s.phases s.scheduler.current_task p }

-- `SEMAPHORE_INIT`: no task is in an operation.
abbrev pub semaphore_init : Scheduler → ℕ → ℕ → Semaphore
semaphore_init scheduler waiting_tasks count = record {
  scheduler = scheduler;
  count = count;
  waiting_tasks = waiting_tasks;
  phases = λ t. outside;
}

-- `check_non_interrupt`
unfoldable pub check_non_interrupt : Semaphore → Option Semaphore
check_non_interrupt s =
    if mask_bit (s.scheduler.tasks s.scheduler.current_task).status 1 == 0 then some s else none

-- `atomic_load(&semaphore->count)`, at the start of the wait, or after the task was blocked. The phase of the task is
-- given, here and below.
unfoldable pub load_count : Phase → Semaphore → Option Semaphore
load_count outside s = do s' ← check_non_interrupt s; some (go_to (loaded s'.count) s')
load_count asleep s = some (go_to (loaded s.count) s)
load_count (loaded c) s = none
load_count holding s = none
load_count signalling s = none

-- the body of `while (!current)`: the task goes to the end of the queue and blocks
unfoldable pub block_on : Semaphore → Option Semaphore
block_on s = do
  s1 ← scheduler_disable_preemption s.scheduler
  s2 ← task_queue_enqueue s1 s.waiting_tasks s1.current_task
  s3 ← scheduler_block_task true s2 block_reason_lock_wait
  some (record (go_to asleep s) { scheduler = s3 })

unfoldable pub sleep_on : Phase → Semaphore → Option Semaphore
unfolding block_on
sleep_on (loaded c) s = if c == 0 then block_on s else none
sleep_on outside s = none
sleep_on asleep s = none
sleep_on holding s = none
sleep_on signalling s = none

-- `atomic_compare_exchange(&semaphore->count, &current, current - 1)`
unfoldable pub exchange : Phase → Semaphore → Option Semaphore
exchange (loaded zero) s = none
exchange (loaded (suc n)) s =
    if s.count == suc n
    then some (record (go_to holding s) { count = n })
    else some (go_to (loaded s.count) s)
exchange outside s = none
exchange asleep s = none
exchange holding s = none
exchange signalling s = none

-- `atomic_add_fetch(&semaphore->count, 1)`
unfoldable pub add_count : Phase → Semaphore → Option Semaphore
add_count holding s = do
  s' ← check_non_interrupt s
  some (record (go_to signalling s') { count = s'.count + 1 })
add_count outside s = none
add_count (loaded c) s = none
add_count asleep s = none
add_count signalling s = none

-- the task at the head of the queue, if there is one, is unblocked
unfoldable pub unblock_first : Semaphore → Option Semaphore
unblock_first s = do
  s1 ← scheduler_disable_preemption s.scheduler
  (task, s2) ← task_queue_dequeue s1 s.waiting_tasks
  s3 ← elim task [ none ↦ some s2 | some t ↦ scheduler_unblock_task s2 t ]
  s4 ← scheduler_enable_preemption s3
  some (record (go_to outside s) { scheduler = s4 })

unfoldable pub wake_first : Phase → Semaphore → Option Semaphore
unfolding unblock_first
wake_first signalling s = unblock_first s
wake_first outside s = none
wake_first (loaded c) s = none
wake_first asleep s = none
wake_first holding s = none

-- The current task is preempted, or gives way after it was blocked; the assembly of the interrupt's end then makes the
-- next task the current one.
unfoldable pub reschedule : Semaphore → Option Semaphore
reschedule s = do
  scheduler ← do_schedule (mark_for_reschedule s.scheduler s.scheduler.current_task)
  some (record s { scheduler = record scheduler { current_task = scheduler.next_task } })

-- what happens next
pub data Action : Type 0 where
  load : Action
  sleep : Action
  compare_exchange : Action
  add : Action
  wake : Action
  switch : Action

unfoldable pub act : Action → Semaphore → Option Semaphore
act load s = load_count (phase s) s
act sleep s = sleep_on (phase s) s
act compare_exchange s = exchange (phase s) s
act add s = add_count (phase s) s
act wake s = wake_first (phase s) s
act switch s = reschedule s

-- a schedule of actions
unfoldable pub act_all : List Action → Semaphore → Option Semaphore
unfolding act
act_all [] s = some s
act_all (a ∷ actions) s = do s' ← act a s; act_all actions s'
