-- ===== src/Tasks/Scheduling/RoundRobin.antt =====
-- `do_schedule` of kernel/tasks/scheduler.c takes turns.
use project_islay.Prelude.{
  ℕ, ◌≡◌, ◌≢◌, refl, sym, ap, ◌∙◌, true, false, none, List, [], ◌∷◌, ◌++◌, ◌==◌, arith, ==-true,
  ==-false, Returns, returns, Returns-bind, Returns-mono, Bool-cases, inl, inr, ℕ_discrete,
  update_at, update_apart,
}
use project_islay.Tasks.{
  ready_to_run, running, Scheduler, ready_queue, is_marked, is_terminated, set_task,
}
use project_islay.Tasks.Queue.Order.{
  IsOpen, task_queue_enqueue-Enqueued, task_queue_dequeue-Dequeued,
}
use project_islay.Tasks.Scheduling.{
  current, update_time_used, clear_reschedule, requeue_current, set_slice, switch_to,
  schedule_taken, do_schedule,
}

-- `update_time_used` changes nothing else.
record Timed (s s' : Scheduler) : Type 0 where
  queues : s'.queues ≡ s.queues
  current : s'.current_task ≡ s.current_task
  state : (u : ℕ) → (s'.tasks u).state ≡ (s.tasks u).state
  status : (u : ℕ) → (s'.tasks u).status ≡ (s.tasks u).status
  member : (u : ℕ) → (s'.tasks u).current_task_queue ≡ (s.tasks u).current_task_queue

update_time_used-Timed : (s : Scheduler) → Timed s (update_time_used s)
unfolding update_time_used set_task
update_time_used-Timed s = elim (Bool-cases ((s.tasks s.current_task).status == 3)) [
  | inl idle ↦
      rw (update_time_used, idle)
        (record {
          queues = refl;
          current = refl;
          state = λ u. refl;
          status = λ u. refl;
          member = λ u. refl;
        })
  | inr busy ↦
      rw (update_time_used, busy)
        (record {
          queues = refl;
          current = refl;
          state = λ u. elim (ℕ_discrete u s.current_task) [
            | yes e ↦ rw (==-true u s.current_task e, e) refl
            | no n ↦ rw (==-false u s.current_task n) refl
          ];
          status = λ u. elim (ℕ_discrete u s.current_task) [
            | yes e ↦ rw (==-true u s.current_task e, e) refl
            | no n ↦ rw (==-false u s.current_task n) refl
          ];
          member = λ u. elim (ℕ_discrete u s.current_task) [
            | yes e ↦ rw (==-true u s.current_task e, e) refl
            | no n ↦ rw (==-false u s.current_task n) refl
          ];
        })
]

-- What `do_schedule` leaves when a task `t` was ready and the current task runs.
pub record Switched (s : Scheduler) (t : ℕ) (rest : List ℕ) (s' : Scheduler) : Type 0 where
  pub next : s'.next_task ≡ t
  pub runs : (s'.tasks t).state ≡ running
  pub waits : (s'.tasks s.current_task).state ≡ ready_to_run
  pub queue : (s'.queues ready_queue).list ≡ rest ++ s.current_task ∷ []
  pub counter : s'.preemption_counter ≡ 0

-- The current task is made ready and put at the end of the ready queue.
record Requeued (s s' : Scheduler) : Type 0 where
  list : (s'.queues ready_queue).list ≡ (s.queues ready_queue).list ++ s.current_task ∷ []
  waits : (s'.tasks s.current_task).state ≡ ready_to_run
  others : (u : ℕ) → u ≢ s.current_task → s'.tasks u ≡ s.tasks u
  next : s'.next_task ≡ s.next_task
  counter : s'.preemption_counter ≡ s.preemption_counter

-- the task `t` made ready
abbrev readied : Scheduler → ℕ → Scheduler
readied s t = set_task s t (record (s.tasks t) { state = ready_to_run })

readied_task :
    (s : Scheduler) (t : ℕ) → (readied s t).tasks t ≡ record (s.tasks t) { state = ready_to_run }
unfolding set_task
readied_task s t = update_at s.tasks t _

readied_other : (s : Scheduler) (t u : ℕ) → u ≢ t → (readied s t).tasks u ≡ s.tasks u
unfolding set_task
readied_other s t u n = update_apart s.tasks t u _ n

readied_rest :
    (s : Scheduler) (t : ℕ)
    → ((readied s t).queues ≡ s.queues)
      × ((readied s t).next_task ≡ s.next_task)
      × ((readied s t).preemption_counter ≡ s.preemption_counter)
unfolding set_task
readied_rest s t = (refl, refl, refl)

readied-IsOpen : (s : Scheduler) (t : ℕ) → IsOpen s ready_queue → IsOpen (readied s t) ready_queue
unfolding set_task
readied-IsOpen s t o = record { free = o.free; room = o.room }

requeue_current-Requeued :
    (s : Scheduler)
    → IsOpen s ready_queue
    → (s.tasks s.current_task).state ≡ running
    → (s.tasks s.current_task).current_task_queue ≡ none
    → Returns (Requeued s) (requeue_current s)
unfolding requeue_current
requeue_current-Requeued s o runs outside =
    let c = s.current_task in
    let kept = readied_rest s c in
    let alive : is_terminated ((readied s c).tasks c) ≡ false = rw (readied_task s c) refl in
    let apart : ((readied s c).tasks c).current_task_queue ≡ none = rw (readied_task s c) outside in
    rw runs (
      Returns-mono
        (task_queue_enqueue-Enqueued (readied s c) ready_queue c (readied-IsOpen s c o) alive apart)
        (λ s' e. record {
          list = e.list ∙ ap (λ f. (f ready_queue).list ++ c ∷ []) kept.0;
          waits = e.steady.state ∙ ap (λ task. task.state) (readied_task s c);
          others = λ u n. e.steady.others u n ∙ readied_other s c u n;
          next = e.steady.next ∙ kept.1;
          counter = e.steady.counter ∙ kept.2;
        }))

-- the state of `switch_to` before it requeues the current task
record Turned (s : Scheduler) (t : ℕ) (s' : Scheduler) : Type 0 where
  next : s'.next_task ≡ t
  turns : (s'.tasks t).state ≡ running
  state : (s'.tasks s.current_task).state ≡ (s.tasks s.current_task).state
  member :
      (s'.tasks s.current_task).current_task_queue ≡ (s.tasks s.current_task).current_task_queue
  queues : s'.queues ≡ s.queues
  current : s'.current_task ≡ s.current_task
  counter : s'.preemption_counter ≡ s.preemption_counter

abbrev turned : Scheduler → ℕ → Scheduler
turned s t =
    clear_reschedule
      (set_task (record s { next_task = t }) t (record (s.tasks t) { state = running }))

turned-Turned : (s : Scheduler) (t : ℕ) → t ≢ s.current_task → Turned s t (turned s t)
unfolding clear_reschedule set_task
turned-Turned s t apart =
    let c = s.current_task in
    record {
      next = refl;
      turns = rw (==-false t c apart, ==-true t t refl) refl;
      state = rw (==-true c c refl, ==-false c t (λ k. apart (sym k))) refl;
      member = rw (==-true c c refl, ==-false c t (λ k. apart (sym k))) refl;
      queues = refl;
      current = refl;
      counter = refl;
    }

switch_to-Switched :
    (s : Scheduler) (t : ℕ)
    → t ≢ s.current_task
    → (s.queues ready_queue).flag ≡ 0
    → s.preemption_counter ≡ 0
    → (s.tasks s.current_task).state ≡ running
    → (s.tasks s.current_task).current_task_queue ≡ none
    → Returns (Switched s t (s.queues ready_queue).list) (switch_to s t)
unfolding switch_to set_slice
switch_to-Switched s t apart free zero_counter runs outside =
    let d = turned-Turned s t apart in
    let o : IsOpen (turned s t) ready_queue = record {
      free = ap (λ f. (f ready_queue).flag) d.queues ∙ free;
      room = rw (d.counter, zero_counter) (omega arith);
    } in
    let runs' : ((turned s t).tasks (turned s t).current_task).state ≡ running =
      rw d.current (d.state ∙ runs) in
    let outside' : ((turned s t).tasks (turned s t).current_task).current_task_queue ≡ none =
      rw d.current (d.member ∙ outside) in
    rw (==-false t s.current_task apart) (
      Returns-bind (requeue_current-Requeued (turned s t) o runs' outside') (λ s' q.
        returns (record {
          next = q.next ∙ d.next;
          runs = ap (λ task. task.state) (q.others t (λ k. apart (k ∙ d.current))) ∙ d.turns;
          waits = ap (λ c. (s'.tasks c).state) (sym d.current) ∙ q.waits;
          queue = q.list ∙ rw (d.queues, d.current) refl;
          counter = q.counter ∙ d.counter ∙ zero_counter;
        })))

-- If the current task runs, is marked for rescheduling and in no queue, and the ready queue holds other
-- tasks and its lock is free, `do_schedule` chooses the first of them to run next, puts the current task at
-- the end of the queue, ready to run, and resets the preemption counter.
pub do_schedule-Switched :
    (s : Scheduler) (t : ℕ) (rest : List ℕ)
    → is_marked (current s) ≡ true
    → (s.queues ready_queue).list ≡ t ∷ rest
    → (s.queues ready_queue).flag ≡ 0
    → t ≢ s.current_task
    → (s.tasks s.current_task).state ≡ running
    → (s.tasks s.current_task).current_task_queue ≡ none
    → Returns (Switched s t rest) (do_schedule s)
unfolding do_schedule schedule_taken
do_schedule-Switched s t rest marked e free apart runs outside =
    let c = s.current_task in
    let d = update_time_used-Timed s in
    let z : Scheduler = record (update_time_used s) { preemption_counter = 0 } in
    let o : IsOpen z ready_queue = record {
      free = ap (λ f. (f ready_queue).flag) d.queues ∙ free;
      room = omega arith;
    } in
    let e' : (z.queues ready_queue).list ≡ t ∷ rest = ap (λ f. (f ready_queue).list) d.queues ∙ e in
    let marked' : is_marked (current (update_time_used s)) ≡ true =
      rw (d.current, d.status s.current_task) marked in
    rw marked' (
      Returns-bind (task_queue_dequeue-Dequeued z ready_queue t rest o e') (λ r q.
        let at : r.1.current_task ≡ c = q.steady.current ∙ d.current in
        let task = q.steady.others c (λ k. apart (sym k)) in
        let apart' : t ≢ r.1.current_task = λ k. apart (k ∙ at) in
        let runs' : (r.1.tasks r.1.current_task).state ≡ running =
          rw (at, task) (d.state c ∙ runs) in
        let outside' : (r.1.tasks r.1.current_task).current_task_queue ≡ none =
          rw (at, task) (d.member c ∙ outside) in
        rw q.first (
          Returns-mono
            (switch_to-Switched r.1 t apart' q.steady.flag q.steady.counter runs' outside')
            (λ s' w. record {
              next = w.next;
              runs = w.runs;
              waits = ap (λ u. (s'.tasks u).state) (sym at) ∙ w.waits;
              queue = w.queue ∙ rw (q.list, at) refl;
              counter = w.counter;
            }))))
