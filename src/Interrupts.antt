-- ===== src/Interrupts.antt =====
-- kernel/tasks/interrupts.c: top halves, bottom halves and the queue of bottom halves. An entry of the table is
-- known by its interrupt number. `none` is a failed assertion, a NULL handler that is called, or fuel that
-- ran out.
pub mod Pending
pub mod Draining
mod Tests
use project_islay.Prelude.{
  ℕ, zero, suc, ◌+◌, ◌-◌, ◌%◌, ◌^◌, Bool, true, false, not, ◌&&◌, ◌||◌, Option, none, some, List,
  [], ◌∷◌, ◌==◌, leb, ◌>>=◌, if◌then◌else◌, update,
}
use project_islay.Prelude.Int.{ℤ, pos, neg, einval, ealready}

-- `struct interrupt_entry`: which halves there are, the two flags, and the next entry of the queue.
pub record InterruptEntry : Type 0 where
  pub top_half : Bool
  pub bottom_half : Bool
  pub enabled : Bool
  pub queued : Bool
  pub next : Option ℕ

-- The handlers that ran.
pub data Half : Type 0 where
  top : ℕ → Half
  bottom : ℕ → Half

-- The globals of the file; `ran` are the handlers that ran, the newest first.
pub record Interrupts : Type 0 where
  pub interrupt_table : ℕ → InterruptEntry
  pub interrupt_level : ℕ
  pub bottom_half_queue_head : Option ℕ
  pub bottom_half_queue_tail : Option ℕ
  pub ran : List Half

abbrev pub set_entry : Interrupts → ℕ → InterruptEntry → Interrupts
set_entry s n entry = record s { interrupt_table = update s.interrupt_table n entry }

abbrev pub run : Interrupts → Half → Interrupts
run s half = record s { ran = half ∷ s.ran }

-- `n_interrupts` is `ARCH_N_INTERRUPTS`, and `valid` what `verify_valid_interrupt` says of a number.
unfoldable pub register_interrupt_handler :
    ℕ → (ℕ → Bool) → Interrupts → ℕ → Bool → Bool → ℤ × Interrupts
register_interrupt_handler n_interrupts valid s n top_half bottom_half =
    let entry : InterruptEntry = record {
      top_half = top_half;
      bottom_half = bottom_half;
      enabled = true;
      queued = false;
      next = none;
    } in
    if leb n_interrupts n
    then (neg einval, s)
    else if not (top_half || bottom_half)
    then (neg einval, s)
    else if not (valid n)
    then (neg einval, s)
    else if (s.interrupt_table n).enabled
    then (neg ealready, s)
    else (pos 0, set_entry s n entry)

-- the entry that becomes the last of the queue
abbrev pub mark_last : Interrupts → ℕ → Interrupts
mark_last s n =
    record (set_entry s n (record (s.interrupt_table n) { next = none; queued = true })) {
      bottom_half_queue_tail = some n;
    }

-- An entry goes to the end of the queue.
unfoldable pub append_entry : Interrupts → ℕ → Option Interrupts
append_entry s n = elim s.bottom_half_queue_head [
  | none ↦ some (mark_last (record s { bottom_half_queue_head = some n }) n)
  | some _ ↦ do
    tail ← s.bottom_half_queue_tail
    some (mark_last (set_entry s tail (record (s.interrupt_table tail) { next = some n })) n)
]

-- It does so unless it is in the queue.
unfoldable pub queue_bottom_half : Interrupts → ℕ → Option Interrupts
queue_bottom_half s n =
    let entry = s.interrupt_table n in
    if entry.bottom_half && not entry.queued then append_entry s n else some s

-- The first entry of the queue is taken.
unfoldable pub take_bottom_half : Interrupts → ℕ → Interrupts
take_bottom_half s n =
    let entry = s.interrupt_table n in
    record (set_entry s n (record entry { next = none })) {
      bottom_half_queue_head = entry.next;
      bottom_half_queue_tail = elim entry.next [ none ↦ none | some _ ↦ s.bottom_half_queue_tail ];
    }

-- the start of the handler: the level, its assertions, and the top half of an interrupt that is registered
unfoldable pub enter_interrupt : ℕ → Interrupts → ℕ → Option Interrupts
enter_interrupt n_interrupts s n =
    let s' = record s { interrupt_level = s.interrupt_level + 1 } in
    let entry = s.interrupt_table n in
    if leb s'.interrupt_level 2 && leb n n_interrupts
    then some (if entry.enabled && entry.top_half then run s' (top n) else s')
    else none

unfoldable pub leave_interrupt : Interrupts → Interrupts
leave_interrupt s = record s { interrupt_level = s.interrupt_level - 1 }

-- An interrupt on top of another: its bottom half is queued.
unfoldable pub nested_interrupt : ℕ → Interrupts → ℕ → Option Interrupts
nested_interrupt n_interrupts s n = do
  s' ← enter_interrupt n_interrupts s n
  s'' ← if (s.interrupt_table n).enabled then queue_bottom_half s' n else some s'
  some (leave_interrupt s'')

-- the interrupts that fire during a bottom half
unfoldable pub nested_interrupts : ℕ → Interrupts → List ℕ → Option Interrupts
nested_interrupts n_interrupts s [] = some s
nested_interrupts n_interrupts s (n ∷ ns) = do
  s' ← nested_interrupt n_interrupts s n
  nested_interrupts n_interrupts s' ns

abbrev pub first_arrivals : List (List ℕ) → List ℕ
first_arrivals [] = []
first_arrivals (ns ∷ rest) = ns

abbrev pub later_arrivals : List (List ℕ) → List (List ℕ)
later_arrivals [] = []
later_arrivals (ns ∷ rest) = rest

-- The loop over the queue. `arrivals` are the interrupts that fire during each of its bottom halves, and after
-- those no more.
unfoldable pub drain : ℕ → ℕ → Interrupts → List (List ℕ) → Option Interrupts
drain n_interrupts zero s arrivals = none
drain n_interrupts (suc fuel) s arrivals = elim s.bottom_half_queue_head [
  | none ↦ some s
  | some n ↦ do
    s1 ←
        nested_interrupts n_interrupts (run (take_bottom_half s n) (bottom n))
          (first_arrivals arrivals)
    drain n_interrupts fuel (set_entry s1 n (record (s1.interrupt_table n) { queued = false }))
        (later_arrivals arrivals)
]

-- `generic_interrupt_handler` for an interrupt while a task runs. `fired` are the interrupts that fire during
-- its own bottom half. The calls of the scheduler at the start and the end stand in the model of the scheduler.
unfoldable pub generic_interrupt_handler :
    ℕ → ℕ → Interrupts → ℕ → List ℕ → List (List ℕ) → Option Interrupts
generic_interrupt_handler n_interrupts fuel s n fired arrivals = do
  s1 ← enter_interrupt n_interrupts s n
  s2 ←
      if (s.interrupt_table n).enabled && (s.interrupt_table n).bottom_half
      then nested_interrupts n_interrupts (run s1 (bottom n)) fired
      else some s1
  s3 ← if (s.interrupt_table n).enabled then drain n_interrupts fuel s2 arrivals else some s2
  some (leave_interrupt s3)
