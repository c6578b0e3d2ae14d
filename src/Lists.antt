-- ===== src/Lists.antt =====
-- kernel/utils/list.c: circular doubly linked lists. A `struct list_entry` is known by its address, and
-- the fields of all entries are two functions; a `struct list` is its head.
pub mod Ring
mod Tests
use project_islay.Prelude.{ℕ, Bool, Option, none, some, ◌==◌, if◌then◌else◌, update}

-- the fields of every `struct list_entry`
pub record Links : Type 0 where
  pub next : ℕ → ℕ
  pub prev : ℕ → ℕ

unfoldable pub set_next : Links → ℕ → ℕ → Links
set_next l entry v = record l { next = update l.next entry v }

unfoldable pub set_prev : Links → ℕ → ℕ → Links
set_prev l entry v = record l { prev = update l.prev entry v }

unfoldable pub list_init : Links → ℕ → Links
list_init l head = set_prev (set_next l head head) head head

abbrev pub list_empty : Links → ℕ → Bool
list_empty l head = l.next head == head

unfoldable pub list_entry_remove : Links → ℕ → Links
list_entry_remove l entry =
    let l' = set_next l (l.prev entry) (l.next entry) in
    let l'' = set_prev l' (l'.next entry) (l'.prev entry) in
    set_next (set_prev l'' entry entry) entry entry

unfoldable pub list_entry_append : Links → ℕ → ℕ → Links
list_entry_append l entry new_entry =
    let l' = set_prev l (l.next entry) (l.prev new_entry) in
    let l'' = set_next l' (l'.prev new_entry) (l'.next entry) in
    set_prev (set_next l'' entry new_entry) new_entry entry

unfoldable pub list_entry_append_single_element : Links → ℕ → ℕ → Links
list_entry_append_single_element l entry new_entry =
    let l' = set_prev l (l.next entry) new_entry in
    let l'' = set_next l' new_entry (l'.next entry) in
    set_prev (set_next l'' entry new_entry) new_entry entry

unfoldable pub list_add_first : Links → ℕ → ℕ → Links
list_add_first l head entry = list_entry_append_single_element l head entry

unfoldable pub list_add_last : Links → ℕ → ℕ → Links
list_add_last l head entry = list_entry_append_single_element l (l.prev head) entry

unfoldable pub list_remove_first : Links → ℕ → Option ℕ × Links
list_remove_first l head =
    if list_empty l head then (none, l) else (some (l.next head), list_entry_remove l (l.next head))

unfoldable pub list_remove_last : Links → ℕ → Option ℕ × Links
list_remove_last l head =
    if list_empty l head then (none, l) else (some (l.prev head), list_entry_remove l (l.prev head))
