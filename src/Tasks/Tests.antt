-- ===== src/Tasks/Tests.antt =====
-- Three tasks: the first runs, the second is ready, the third is in no queue.
use project_islay.Prelude.{ℕ, zero, suc, refl, true, Option, none, some, [], ◌∷◌, Returns, arith}
use project_islay.Tasks.{
  TaskState, ready_to_run, running, blocked, block_reason_io_wait, Task, Scheduler, ready_queue,
}
use project_islay.Prelude.Bits.{mask_bit}
use project_islay.Tasks.Scheduling.{do_schedule}
use project_islay.Tasks.Scheduling.RoundRobin.{Switched, do_schedule-Switched}
use project_islay.Tasks.Sleeping.{scheduler_nano_sleep_until}
use project_islay.Tasks.Sleeping.Asleep.{Asleep, scheduler_nano_sleep_until-Asleep}
use project_islay.Tasks.Queue.Order.{IsOpen}

abbrev some_task : TaskState → Option ℕ → Task
some_task st queue = record {
  state = st;
  block_reason = block_reason_io_wait;
  ref_count = 2;
  current_task_queue = queue;
  sleep_expiry = 0;
  time_used = 5;
  status = 1;
}

abbrev three_tasks : Scheduler
three_tasks = record {
  tasks = λ t. elim t [
    | zero ↦ some_task running none
    | suc u ↦ elim u [ zero ↦ some_task ready_to_run (some 0) | suc v ↦ some_task blocked none ]
  ];
  queues = λ q. elim q [
    | zero ↦ record { flag = 0; list = 1 ∷ [] }
    | suc r ↦ record { flag = 0; list = [] }
  ];
  termination_queue = [];
  flag = 0;
  current_task = 0;
  next_task = 0;
  cleanup_task = 9;
  last_count = 100;
  idle_time_ns = 0;
  preemption_timestamp_ns = 0;
  preemption_counter = 1;
  scheduler_earliest_wakeup = 0;
  time_since_boot = 120;
  timed_events = [];
}

ready-IsOpen : IsOpen three_tasks ready_queue
ready-IsOpen = record { free = refl; room = omega arith }

do_schedule_example : Returns (Switched three_tasks 1 []) (do_schedule three_tasks)
unfolding mask_bit
do_schedule_example = do_schedule-Switched three_tasks 1 [] refl refl refl (omega arith) refl refl

scheduler_nano_sleep_until_example :
    Returns (Asleep three_tasks 500) (scheduler_nano_sleep_until true three_tasks 500)
unfolding mask_bit
scheduler_nano_sleep_until_example =
    scheduler_nano_sleep_until-Asleep three_tasks 500 (omega arith) refl refl (omega arith) refl
      refl refl
