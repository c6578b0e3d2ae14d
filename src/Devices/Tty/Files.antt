-- ===== src/Devices/Tty/Files.antt =====
-- kernel/devices/tty.c: the operations of the device file, and the attachment of a terminal.
use project_islay.Prelude.{
  ℕ, zero, suc, ◌+◌, ◌%◌, Bool, false, ◌&&◌, Option, none, some, List, [], ◌∷◌, ◌==◌, ◌>>=◌,
  if◌then◌else◌,
}
use project_islay.Prelude.Int.{ℤ, pos, neg, is_neg, ebusy, enomem, enodev}
use project_islay.Fs.{has_flag, o_rdonly, o_wronly}
use project_islay.Devices.Tty.{Tty, page_size, is_canonical, is_open, tty_line_len, take_chars}
use project_islay.Devices.Tty.Events.{
  Ttys, text_mode_putc, text_mode_del, text_mode_write, set_tty, echo, tty_switch,
}

-- `page` is what `vmem_request_free_page(1)` returns: `none` is NULL. The test of the flags names
-- `O_RDONLY` twice.
unfoldable pub tty_open : Option (ℕ → ℕ) → Tty → ℕ → ℕ → ℤ × Tty
tty_open page tty file oflag =
    let tty' = record tty { opened = some file } in
    let buffer : Option (ℕ → ℕ) = elim tty.char_buffer [ none ↦ page | some b ↦ some b ] in
    let ready : ℤ × Tty = elim buffer [
      | none ↦ (neg enomem, tty')
      | some b ↦ (
        pos 0,
        record tty' { char_buffer = some b; char_buffer_write_idx = 0; char_buffer_read_idx = 0 },
      )
    ] in
    if has_flag oflag o_wronly
    then (pos 0, tty)
    else if has_flag oflag o_rdonly && is_open tty
    then (neg ebusy, tty)
    else ready

-- The task that waits is woken, and keeps its place in `waiting_proc`.
unfoldable pub tty_close : Ttys → ℕ → ℕ → Option (ℤ × Ttys)
tty_close s i file =
    let tty = s.tty_table i in
    let is_file : Bool = elim tty.opened [ none ↦ false | some f ↦ f == file ] in
    let woken : Ttys = elim tty.waiting_proc [
      | none ↦ s
      | some task ↦ record s { unblocked = task ∷ s.unblocked }
    ] in
    let closed = record tty {
      opened = none;
      char_buffer_read_idx = 0;
      char_buffer_write_idx = 0;
      char_buffer_commit_idx = 0;
    } in
    if is_file then some (pos 0, set_tty woken i closed) else none

-- `block` is `scheduler_block_task(BLOCK_REASON_IO_WAIT)`: what the others do until the task runs again.
unfoldable pub tty_read : (Ttys → Option Ttys) → Ttys → ℕ → ℕ → ℕ → Option (List ℕ × Ttys)
tty_read block s i task size = do
  let tty = s.tty_table i
  s' ←
      if is_canonical tty && tty.char_buffer_read_idx == tty.char_buffer_commit_idx
      then block (set_tty s i (record tty { waiting_proc = some task }))
      else some s
  (bytes, tty') ← take_chars size (s'.tty_table i)
  some (bytes, set_tty s' i tty')

-- The line is echoed again: its bytes from place `k` on, `n` of them.
unfoldable pub echo_line : ℕ → Ttys → ℕ → ℕ → Option Ttys
echo_line zero s i k = some s
echo_line (suc n) s i k = do
  let tty = s.tty_table i
  buffer ← tty.char_buffer
  echo_line n (echo s i (text_mode_putc (buffer ((tty.char_buffer_commit_idx + k) % page_size)))) i
      (k + 1)

-- what `text_mode_write` returns: the number of the bytes before a zero
unfoldable pub write_length : List ℕ → ℕ
write_length [] = 0
write_length (b ∷ bs) = let rest = write_length bs in if b == 0 then 0 else rest + 1

unfoldable pub tty_write : Ttys → ℕ → List ℕ → Option (ℤ × Ttys)
tty_write s i bytes = do
  let line_len = tty_line_len (s.tty_table i)
  s' ← echo_line line_len (echo (echo s i (text_mode_del line_len)) i (text_mode_write bytes)) i 0
  some (pos (write_length bytes), s')

-- `MAX_TTYS`
abbrev pub max_ttys : ℕ
max_ttys = 8

-- `display` is whether the device has one, and `bound` what the binding of the device type returns. `tty` is
-- the driver's data.
unfoldable pub tty_attach : Bool → ℤ → Ttys → Tty → ℤ × Ttys
tty_attach display bound s tty =
    let reset = record tty {
      char_buffer_read_idx = 0;
      char_buffer_write_idx = 0;
      char_buffer_commit_idx = 0;
      mode = 1;
    } in
    let s' = record (set_tty s s.num_ttys reset) { num_ttys = s.num_ttys + 1 } in
    let attached : ℤ × Ttys =
      if is_neg bound
      then (bound, s)
      else (pos 0, if s'.num_ttys == 1 then tty_switch s' 0 else s') in
    if s.num_ttys == max_ttys
    then (neg enomem, s)
    else if display
    then attached
    else (neg enodev, s)
