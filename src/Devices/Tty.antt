-- ===== src/Devices/Tty.antt =====
-- kernel/devices/tty.c: the buffer of a terminal, and what keys and files do to it.
-- `none` is a NULL pointer that is used, or a panic.
pub mod Events
pub mod Files
pub mod Line
use project_islay.Prelude.{
  ℕ, zero, suc, ◌+◌, ◌-◌, ◌%◌, ◌^◌, Bool, true, false, ◌&&◌, Option, none, some, List, [], ◌∷◌,
  ◌==◌, ◌>>=◌, if◌then◌else◌, update,
}

-- `PAGE_SIZE`
abbrev pub page_size : ℕ
page_size = 4096

-- `size_t`
abbrev pub size_mod : ℕ
size_mod = 2 ^ 32

-- `struct tty`, less the buffer for escape codes, which nothing uses. `char_buffer` is NULL before the
-- first `open`; a task and an open file are known by numbers.
pub record Tty : Type 0 where
  pub mode : ℕ
  pub waiting_proc : Option ℕ
  pub opened : Option ℕ
  pub char_buffer_read_idx : ℕ
  pub char_buffer_write_idx : ℕ
  pub char_buffer_commit_idx : ℕ
  pub char_buffer : Option (ℕ → ℕ)
  pub keys_dropped : Bool
  pub kbd_modifier_state : ℕ
  pub kbd_led_state : ℕ

-- `TTY_MODE_CANONICAL`
abbrev pub is_canonical : Tty → Bool
is_canonical tty = tty.mode % 2 == 1

abbrev pub is_open : Tty → Bool
is_open tty = elim tty.opened [ none ↦ false | some _ ↦ true ]

-- In the mode that is not canonical one place is kept free.
unfoldable pub buffer_full : Tty → Bool
buffer_full tty =
    (tty.char_buffer_write_idx + (if is_canonical tty then 1 else 2)) % page_size
    == tty.char_buffer_read_idx

-- a byte written to the buffer, and committed outside of the canonical mode
unfoldable pub put_char : Tty → ℕ → Option Tty
put_char tty c = do
  buffer ← tty.char_buffer
  let write_idx = (tty.char_buffer_write_idx + 1) % page_size
  let commit_idx =
      if is_canonical tty
      then tty.char_buffer_commit_idx
      else (tty.char_buffer_commit_idx + 1) % page_size
  some (record tty {
    char_buffer = some (update buffer tty.char_buffer_write_idx c);
    char_buffer_write_idx = write_idx;
    char_buffer_commit_idx = commit_idx;
  })

-- `tty_append_char` after the echo
unfoldable pub append_char : Tty → ℕ → Option Tty
append_char tty c =
    if is_open tty
    then (if buffer_full tty then some (record tty { keys_dropped = true }) else put_char tty c)
    else some tty

unfoldable pub tty_line_len : Tty → ℕ
tty_line_len tty =
    ((tty.char_buffer_write_idx + size_mod - tty.char_buffer_commit_idx) % size_mod + page_size)
    % size_mod
    % page_size

-- `Commit the current line`
unfoldable pub commit_line : Tty → Tty
commit_line tty = record tty { char_buffer_commit_idx = tty.char_buffer_write_idx }

-- the last byte of the line deleted
unfoldable pub delete_char : Tty → Tty
delete_char tty = record tty {
  char_buffer_write_idx = (tty.char_buffer_write_idx + size_mod - 1) % size_mod % page_size;
}

-- The loop of `tty_read`, with room for `size` more bytes: the bytes that it reads.
unfoldable pub read_chars : ℕ → Tty → Option (List ℕ × Tty)
read_chars zero tty = some ([], tty)
read_chars (suc size) tty = elim (tty.char_buffer_read_idx == tty.char_buffer_commit_idx) [
  | true ↦ some ([], tty)
  | false ↦ do
    buffer ← tty.char_buffer
    (rest, tty') ←
        read_chars size
          (record tty { char_buffer_read_idx = (tty.char_buffer_read_idx + 1) % page_size })
    some (buffer tty.char_buffer_read_idx ∷ rest, tty')
]

-- `tty_read` after the wait: space in the buffer ends the dropping of keys.
unfoldable pub take_chars : ℕ → Tty → Option (List ℕ × Tty)
take_chars size tty = do
  (bytes, tty') ← read_chars size tty
  some (bytes, elim bytes [ [] ↦ tty' | b ∷ bs ↦ record tty' { keys_dropped = false } ])
