-- ===== src/Tasks/Queue.antt =====
-- kernel/tasks/task_queue.c: a task is in one queue at most, and a queue holds a reference to each of its
-- tasks. `none` is a failed assertion.
pub mod Order
use project_islay.Prelude.{
  ℕ, ◌+◌, ◌-◌, ◌%◌, Bool, true, false, not, Option, none, some, List, [], ◌∷◌, ◌++◌, ◌==◌, ◌>>=◌,
  if◌then◌else◌,
}
use project_islay.Tasks.{
  Task, TaskQueue, Scheduler, u32, is_terminated, set_task, set_queue, lock_queue, unlock_queue,
}

unfoldable pub prepare_insert : Scheduler → ℕ → ℕ → Option Scheduler
prepare_insert s q t =
    let task = s.tasks t in
    if is_terminated task then none else elim task.current_task_queue [
      | some _ ↦ none
      | none ↦ some (
          set_task s t
            (record task { ref_count = (task.ref_count + 1) % u32; current_task_queue = some q }))
    ]

-- `list_add_last`
unfoldable pub add_last : Scheduler → ℕ → ℕ → Scheduler
add_last s q t = set_queue s q (record (s.queues q) { list = (s.queues q).list ++ t ∷ [] })

-- `list_add_first`
unfoldable pub add_first : Scheduler → ℕ → ℕ → Scheduler
add_first s q t = set_queue s q (record (s.queues q) { list = t ∷ (s.queues q).list })

unfoldable pub task_queue_enqueue : Scheduler → ℕ → ℕ → Option Scheduler
task_queue_enqueue s q t = do
  s' ← lock_queue s q
  s'' ← prepare_insert s' q t
  unlock_queue (add_last s'' q t) q

unfoldable pub task_queue_add_first : Scheduler → ℕ → ℕ → Option Scheduler
task_queue_add_first s q t = do
  s' ← lock_queue s q
  s'' ← prepare_insert s' q t
  unlock_queue (add_first s'' q t) q

-- `put_task` of kernel/tasks/tasks.c
unfoldable pub put_task : Scheduler → ℕ → Scheduler
put_task s t =
    set_task s t (record (s.tasks t) { ref_count = ((s.tasks t).ref_count + u32 - 1) % u32 })

-- The task leaves the queue whose remaining tasks are `rest`.
unfoldable pub leave_queue : Scheduler → ℕ → ℕ → List ℕ → Option Scheduler
leave_queue s q t rest = do
  let s' = set_queue s q (record (s.queues q) { list = rest })
  s'' ← unlock_queue (set_task s' t (record (s'.tasks t) { current_task_queue = none })) q
  some (put_task s'' t)

-- The loop-free body of `task_queue_dequeue` with the lock held.
unfoldable pub take_first : Scheduler → ℕ → List ℕ → Option (Option ℕ × Scheduler)
take_first s q [] = do s' ← unlock_queue s q; some (none, s')
take_first s q (t ∷ rest) = do s' ← leave_queue s q t rest; some (some t, s')

unfoldable pub task_queue_dequeue : Scheduler → ℕ → Option (Option ℕ × Scheduler)
task_queue_dequeue s q = do s' ← lock_queue s q; take_first s' q (s'.queues q).list

-- `list_entry_remove` on a list that holds the entry
unfoldable pub without : ℕ → List ℕ → List ℕ
without t [] = []
without t (x ∷ xs) = let rest = without t xs in if t == x then xs else x ∷ rest

unfoldable pub task_remove_from_current_task_queue : Scheduler → ℕ → Option Scheduler
task_remove_from_current_task_queue s t = do
  q ← (s.tasks t).current_task_queue
  s' ← lock_queue s q
  leave_queue s' q t (without t (s'.queues q).list)
