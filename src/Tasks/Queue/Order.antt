-- ===== src/Tasks/Queue/Order.antt =====
-- The task queues of kernel/tasks/task_queue.c are first in, first out.
use project_islay.Prelude.{
  ℕ, ◌+◌, ◌-◌, ◌%◌, ◌<◌, ◌≡◌, ◌≢◌, refl, false, Option, none, some, List, [], ◌∷◌, ◌++◌, arith,
  ==-true, ==-false, lt→ltb, update_at, update_apart, Returns, returns,
}
use project_islay.Tasks.{
  Scheduler, u32, is_terminated, set_task, set_queue, lock_queue, unlock_queue,
  scheduler_disable_preemption, scheduler_enable_preemption,
}
use project_islay.Tasks.Queue.{
  prepare_insert, add_last, task_queue_enqueue, put_task, leave_queue, take_first,
  task_queue_dequeue,
}

-- the lock of the queue is free, and the preemption counter can count it
pub record IsOpen (s : Scheduler) (q : ℕ) : Type 0 where
  pub free : (s.queues q).flag ≡ 0
  pub room : s.preemption_counter + 1 < u32

-- what a queue operation leaves alone
pub record Steady (s s' : Scheduler) (q t : ℕ) : Type 0 where
  pub flag : (s'.queues q).flag ≡ 0
  pub counter : s'.preemption_counter ≡ s.preemption_counter
  pub current : s'.current_task ≡ s.current_task
  pub next : s'.next_task ≡ s.next_task
  pub wakeup : s'.scheduler_earliest_wakeup ≡ s.scheduler_earliest_wakeup
  pub lock : s'.flag ≡ s.flag
  pub others : (u : ℕ) → u ≢ t → s'.tasks u ≡ s.tasks u
  pub state : (s'.tasks t).state ≡ (s.tasks t).state
  pub status : (s'.tasks t).status ≡ (s.tasks t).status
  pub expiry : (s'.tasks t).sleep_expiry ≡ (s.tasks t).sleep_expiry

pub record Enqueued (s : Scheduler) (q t : ℕ) (s' : Scheduler) : Type 0 where
  pub list : (s'.queues q).list ≡ (s.queues q).list ++ t ∷ []
  pub member : (s'.tasks t).current_task_queue ≡ some q
  pub counted : (s'.tasks t).ref_count ≡ ((s.tasks t).ref_count + 1) % u32
  pub steady : Steady s s' q t

-- On a queue whose lock is free, with room in the preemption counter, a task that is not terminated and in no
-- queue is put at the end, with one reference more; the lock is free again, the counter, the current task,
-- the other tasks and the state of the task are as before.
pub task_queue_enqueue-Enqueued :
    (s : Scheduler) (q t : ℕ)
    → IsOpen s q
    → is_terminated (s.tasks t) ≡ false
    → (s.tasks t).current_task_queue ≡ none
    → Returns (Enqueued s q t) (task_queue_enqueue s q t)
unfolding task_queue_enqueue lock_queue prepare_insert add_last unlock_queue set_task set_queue
    scheduler_disable_preemption scheduler_enable_preemption
task_queue_enqueue-Enqueued s q t o alive outside =
    let c = s.preemption_counter in
    let up : (c + 1) % u32 ≡ c + 1 = omega (arith, o.room) in
    let down : (c + 1 + u32 - 1) % u32 ≡ c = omega (arith, o.room) in
    rw
      (
        up,
        lt→ltb c (c + 1) (omega arith),
        o.free,
        alive,
        outside,
        down,
        lt→ltb c (c + 1) (omega arith),
        update_at s.queues q (record { flag = 1; list = (s.queues q).list }),
      )
      (returns (record {
        list = rw (==-true q q refl) refl;
        member = rw (==-true t t refl) refl;
        counted = rw (==-true t t refl) refl;
        steady = record {
          flag = rw (==-true q q refl) refl;
          counter = refl;
          current = refl;
          next = refl;
          wakeup = refl;
          lock = refl;
          others = λ u n. update_apart s.tasks t u _ n;
          state = rw (==-true t t refl) refl;
          status = rw (==-true t t refl) refl;
          expiry = rw (==-true t t refl) refl;
        };
      }))

pub record Dequeued (s : Scheduler) (q t : ℕ) (rest : List ℕ) (r : Option ℕ × Scheduler)
    : Type 0 where
  pub first : r.0 ≡ some t
  pub list : (r.1.queues q).list ≡ rest
  pub member : (r.1.tasks t).current_task_queue ≡ none
  pub counted : (r.1.tasks t).ref_count ≡ ((s.tasks t).ref_count + u32 - 1) % u32
  pub steady : Steady s r.1 q t

-- From a queue whose lock is free and that is not empty, with room in the preemption counter, the first task
-- is taken, with one reference less; the lock is free again, the counter, the current task, the other tasks
-- and the state of the task are as before.
pub task_queue_dequeue-Dequeued :
    (s : Scheduler) (q t : ℕ) (rest : List ℕ)
    → IsOpen s q
    → (s.queues q).list ≡ t ∷ rest
    → Returns (Dequeued s q t rest) (task_queue_dequeue s q)
unfolding task_queue_dequeue take_first leave_queue lock_queue put_task unlock_queue set_task
    set_queue scheduler_disable_preemption scheduler_enable_preemption
task_queue_dequeue-Dequeued s q t rest o e =
    let c = s.preemption_counter in
    let up : (c + 1) % u32 ≡ c + 1 = omega (arith, o.room) in
    let down : (c + 1 + u32 - 1) % u32 ≡ c = omega (arith, o.room) in
    rw
      (
        up,
        lt→ltb c (c + 1) (omega arith),
        o.free,
        update_at s.queues q (record { flag = 1; list = (s.queues q).list }),
        e,
        down,
        lt→ltb c (c + 1) (omega arith),
      )
      (returns (record {
        first = refl;
        list = rw (==-true q q refl) refl;
        member = rw (==-true t t refl) refl;
        counted = rw (==-true t t refl) refl;
        steady = record {
          flag = rw (==-true q q refl) refl;
          counter = refl;
          current = refl;
          next = refl;
          wakeup = refl;
          lock = refl;
          others = λ u n. rw (==-false u t n) refl;
          state = rw (==-true t t refl) refl;
          status = rw (==-true t t refl) refl;
          expiry = rw (==-true t t refl) refl;
        };
      }))
