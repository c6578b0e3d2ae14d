-- ===== src/Tasks/Scheduling.antt =====
-- kernel/tasks/scheduler.c: blocking and unblocking tasks, and the choice of the next one.
pub mod RoundRobin
use project_islay.Prelude.{
  ℕ, ◌+◌, ◌-◌, ◌%◌, ◌^◌, Bool, not, ◌&&◌, ◌||◌, Option, none, some, [], ◌∷◌, ◌==◌, ◌>>=◌,
  if◌then◌else◌,
}
use project_islay.Prelude.Bits.{set_bit, clr_bit, mask_bit}
use project_islay.Tasks.{
  ready_to_run, running, blocked, blocked_idling, BlockReason, Task, Scheduler, ready_queue,
  is_marked, is_blocked, is_idling, is_running, set_task, scheduler_disable_preemption,
  scheduler_enable_preemption,
}
use project_islay.Tasks.Queue.{task_queue_enqueue, task_queue_dequeue}

abbrev pub time_slice_ns : ℕ
time_slice_ns = 50000000

abbrev pub uint64_max : ℕ
uint64_max = 2 ^ 64 - 1

abbrev pub current : Scheduler → Task
current s = s.tasks s.current_task

-- `spinlock_lock(&scheduler_lock)` and `spinlock_unlock`
unfoldable pub lock_scheduler : Scheduler → Option Scheduler
lock_scheduler s = do
  s' ← scheduler_disable_preemption s
  if s'.flag == 0 then some (record s' { flag = 1 }) else none

unfoldable pub unlock_scheduler : Scheduler → Option Scheduler
unlock_scheduler s = scheduler_enable_preemption (record s { flag = s.flag - 1 })

-- `MARK_FOR_RESCHEDULE`
unfoldable pub mark_for_reschedule : Scheduler → ℕ → Scheduler
mark_for_reschedule s t =
    set_task s t (record (s.tasks t) { status = set_bit (s.tasks t).status 0 })

unfoldable pub mark_task_blocked_locked : Scheduler → BlockReason → Scheduler
mark_task_blocked_locked s reason =
    set_task s s.current_task (record (current s) { state = blocked; block_reason = reason })

-- `timer_get_time_since_boot() + TIME_SLICE_NS`
abbrev pub slice_end : Scheduler → ℕ
slice_end s = (s.time_since_boot + time_slice_ns) % 2 ^ 64

-- The end of the unblocking of a task that does not run: the idle state of the current task ends, and
-- it is to be preempted.
unfoldable pub request_preemption : Scheduler → Scheduler
request_preemption s =
    let s' =
      if is_idling (current s).state
      then set_task s s.current_task (record (current s) { state = blocked })
      else s in
    if s'.preemption_timestamp_ns == 0
    then record s' { preemption_timestamp_ns = slice_end s' }
    else s'

-- The current task goes on: `task->state = RUNNING`.
unfoldable pub continue_task : Scheduler → ℕ → Scheduler
continue_task s t = set_task s t (record (s.tasks t) { state = running })

unfoldable pub scheduler_unblock_task_locked : Scheduler → ℕ → Option Scheduler
scheduler_unblock_task_locked s t =
    if is_blocked (s.tasks t).state || is_idling (s.tasks t).state
    then (if t == s.current_task then some (continue_task (mark_for_reschedule s t) t) else (do
      s' ←
          task_queue_enqueue (set_task s t (record (s.tasks t) { state = ready_to_run }))
            ready_queue t
      some (request_preemption s')))
    else some s

unfoldable pub scheduler_unblock_task : Scheduler → ℕ → Option Scheduler
scheduler_unblock_task s t = do
  s' ← lock_scheduler s
  s'' ← scheduler_unblock_task_locked s' t
  unlock_scheduler s''

-- `current_task->status == BLOCKED_IDLING` compares the flags of the status with the number of a state.
unfoldable pub update_time_used : Scheduler → Scheduler
update_time_used s =
    let elapsed = (s.time_since_boot + 2 ^ 64 - s.last_count) % 2 ^ 64 in
    let s' = record s { last_count = s.time_since_boot } in
    if (current s).status == 3
    then record s' { idle_time_ns = (s.idle_time_ns + elapsed) % 2 ^ 64 }
    else set_task s' s.current_task
        (record (current s) { time_used = ((current s).time_used + elapsed) % 2 ^ 64 })

-- `scheduler_yield` up to its wait; the context switch belongs to the hardware.
unfoldable pub scheduler_yield : Bool → Scheduler → Option Scheduler
scheduler_yield interrupts_enabled s =
    if interrupts_enabled && mask_bit (current s).status 1 == 0
    then some (mark_for_reschedule s s.current_task)
    else none

-- `status &= ~TASK_STATUS_RESCHEDULE`
unfoldable pub clear_reschedule : Scheduler → Scheduler
clear_reschedule s =
    set_task s s.current_task (record (current s) { status = clr_bit (current s).status 0 })

-- `do_schedule` when no task is ready
unfoldable pub keep_current : Scheduler → Option Scheduler
keep_current s =
    let s' = record s { preemption_timestamp_ns = 0 } in
    if is_running (current s').state
    then some (clear_reschedule s')
    else if is_blocked (current s').state
    then some (set_task s' s'.current_task (record (current s') { state = blocked_idling }))
    else none

-- `Requeue current_task if possible`
unfoldable pub requeue_current : Scheduler → Option Scheduler
requeue_current s =
    if is_running (current s).state
    then task_queue_enqueue
        (set_task s s.current_task (record (current s) { state = ready_to_run })) ready_queue
        s.current_task
    else some s

-- the end of `do_schedule`
unfoldable pub set_slice : Scheduler → Scheduler
set_slice s = record s {
  preemption_timestamp_ns = elim (s.queues ready_queue).list [ [] ↦ 0 | t ∷ ts ↦ slice_end s ];
}

-- `do_schedule` with the task that it took from the ready queue
unfoldable pub switch_to : Scheduler → ℕ → Option Scheduler
switch_to s t = if t == s.current_task then none else (do
  let s' = set_task (record s { next_task = t }) t (record (s.tasks t) { state = running })
  s'' ← requeue_current (clear_reschedule s')
  some (set_slice s''))

-- what `do_schedule` does with the result of the dequeue
unfoldable pub schedule_taken : Option ℕ × Scheduler → Option Scheduler
schedule_taken (none, s) = keep_current s
schedule_taken (some t, s) = switch_to s t

unfoldable pub do_schedule : Scheduler → Option Scheduler
do_schedule s = do
  let s' = update_time_used s
  if is_marked (current s')
      then (do
        r ← task_queue_dequeue (record s' { preemption_counter = 0 }) ready_queue
        schedule_taken r)
      else none

unfoldable pub scheduler_end_of_interrupt : Scheduler → Option Scheduler
scheduler_end_of_interrupt s = do
  s' ← if is_marked (current s) && not (is_idling (current s).state) then do_schedule s else some s
  some
      (set_task s' s'.current_task (record (current s') { status = clr_bit (current s').status 1 }))

unfoldable pub scheduler_start_of_interrupt : Scheduler → Scheduler
scheduler_start_of_interrupt s =
    set_task s s.current_task (record (current s) { status = set_bit (current s).status 1 })
