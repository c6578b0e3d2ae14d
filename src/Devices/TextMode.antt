-- ===== src/Devices/TextMode.antt =====
-- kernel/devices/display/text_mode_display.c: text on a display, with its cursor.
pub mod Screen
pub mod Typing
pub mod Writing
mod Tests
use project_islay.Prelude.{
  ℕ, zero, suc, ◌+◌, ◌-◌, ◌*◌, ◌%◌, ◌^◌, Bool, true, false, Option, none, some, List, [], ◌∷◌, ◌==◌,
  ltb, leb, ◌&&◌, if◌then◌else◌, update, ◌>>=◌,
}
use project_islay.Prelude.Int.{ℤ, pos, neg, einval}
use project_islay.Libc.{memmove}

abbrev pub text_mode_cols : ℕ
text_mode_cols = 80

abbrev pub text_mode_rows : ℕ
text_mode_rows = 25

abbrev pub text_buff_idx : ℕ → ℕ → ℕ
text_buff_idx row col = (text_mode_cols * row + col) % 2 ^ 32

-- A byte with the colour above it; a `char` is signed, so that one from 128 on is extended over the colour.
abbrev pub text_mode_char : ℕ → ℕ
text_mode_char c = if ltb c 128 then 0x0f00 + c else 0xff00 + c

-- `struct text_mode_device`: the structure of its operations by its number, and the buffer as its cells.
pub record TextModeDevice : Type 0 where
  pub ops : ℕ
  pub index_row : ℕ
  pub index_col : ℕ
  pub cells : ℕ → ℕ

-- the loop over the rows, with `k` rounds left from `row` on
unfoldable pub scroll_rows : ℕ → ℕ → (ℕ → ℕ) → ℕ → ℕ
scroll_rows zero row cells = cells
scroll_rows (suc k) row cells =
    scroll_rows k (row + 1)
      (memmove cells (text_buff_idx (row - 1) 0) (text_buff_idx row 0) text_mode_cols)

-- Blanks in `k` cells of a row, from column `col` on.
unfoldable pub blank_cols : ℕ → ℕ → ℕ → (ℕ → ℕ) → ℕ → ℕ
blank_cols zero row col cells = cells
blank_cols (suc k) row col cells =
    blank_cols k row (col + 1) (update cells (text_buff_idx row col) (text_mode_char 32))

unfoldable pub scroll : (ℕ → ℕ) → ℕ → ℕ
scroll cells =
    blank_cols text_mode_cols (text_mode_rows - 1) 0 (scroll_rows (text_mode_rows - 1) 1 cells)

abbrev pub next_line : TextModeDevice → TextModeDevice
next_line d = record d { index_col = 0; index_row = (d.index_row + 1) % 2 ^ 32 }

-- the character or the new line
unfoldable pub place_char : TextModeDevice → ℕ → TextModeDevice
place_char d c = if c == 10 then next_line d else record d {
  cells = update d.cells (text_buff_idx d.index_row d.index_col) (text_mode_char c);
  index_col = (d.index_col + 1) % 2 ^ 32;
}

unfoldable pub wrap_line : TextModeDevice → TextModeDevice
wrap_line d = if leb text_mode_cols d.index_col then next_line d else d

unfoldable pub scroll_line : TextModeDevice → TextModeDevice
scroll_line d =
    if leb text_mode_rows d.index_row
    then record d { cells = scroll d.cells; index_col = 0; index_row = text_mode_rows - 1 }
    else d

unfoldable pub write_char : TextModeDevice → ℕ → TextModeDevice
write_char d c = scroll_line (wrap_line (place_char d c))

-- The loop of `text_mode_write`, with `n` characters left from `str[i]` on: the number of characters written.
unfoldable pub write_chars : (ℕ → ℕ) → ℕ → ℕ → TextModeDevice → ℕ × TextModeDevice
write_chars str i zero d = (i, d)
write_chars str i (suc n) d =
    let rest = write_chars str (i + 1) n (write_char d (str i)) in
    if str i == 0 then (i, d) else rest

unfoldable pub erase_char : TextModeDevice → TextModeDevice
erase_char d =
    if leb 1 d.index_col
    then record d {
      index_col = d.index_col - 1;
      cells = update d.cells (text_buff_idx d.index_row (d.index_col - 1)) (text_mode_char 32);
    }
    else d

-- the calls of the operations of a display: whose they are, and the display
pub data DisplayCall : Type 0 where
  set_cursor : ℕ → ℕ → ℕ → ℕ → DisplayCall
  display_buffer : ℕ → ℕ → DisplayCall

-- The displays, `current_dev`, and the calls made so far, the last one first.
pub record Displays : Type 0 where
  pub device : ℕ → TextModeDevice
  pub current_dev : Option ℕ
  pub calls : List DisplayCall

unfoldable pub put_device : Displays → ℕ → TextModeDevice → Displays
put_device s i d = record s { device = update s.device i d }

-- the call of `set_cursor` with the position of display `i`, in the operations `ops`
unfoldable pub move_cursor : ℕ → Displays → ℕ → Displays
move_cursor ops s i = record s {
  calls = set_cursor ops i (s.device i).index_row (s.device i).index_col ∷ s.calls;
}

-- It calls the operation of the current display, which must be there.
unfoldable pub text_mode_putc : Displays → ℕ → ℕ → Option Displays
text_mode_putc s i c = do
  current ← s.current_dev
  let s' = put_device s i (write_char (s.device i) c)
  some (move_cursor (s'.device current).ops s' i)

unfoldable pub text_mode_write : Displays → ℕ → (ℕ → ℕ) → ℕ → ℕ × Displays
text_mode_write s i str n =
    let r = write_chars str 0 n (s.device i) in
    (r.0, move_cursor (s.device i).ops (put_device s i r.1) i)

unfoldable pub text_mode_del : ℕ → Displays → ℕ → Displays
text_mode_del zero s i = s
text_mode_del (suc n) s i =
    text_mode_del n
      (if leb 1 (s.device i).index_col
        then move_cursor (s.device i).ops (put_device s i (erase_char (s.device i))) i
        else s)
      i

-- Blanks in column `col` of `k` rows, from `row` on,
unfoldable pub blank_rows : ℕ → ℕ → ℕ → (ℕ → ℕ) → ℕ → ℕ
blank_rows zero row col cells = cells
blank_rows (suc k) row col cells =
    blank_rows k (row + 1) col (update cells (text_buff_idx row col) (text_mode_char 32))

-- and in `k` columns, from `col` on.
unfoldable pub blank_screen : ℕ → ℕ → (ℕ → ℕ) → ℕ → ℕ
blank_screen zero col cells = cells
blank_screen (suc k) col cells = blank_screen k (col + 1) (blank_rows text_mode_rows 0 col cells)

unfoldable pub text_mode_clear : Displays → ℕ → Displays
text_mode_clear s i =
    let s1 =
      move_cursor (s.device i).ops
        (put_device s i (record (s.device i) { index_col = 0; index_row = 0 })) i in
    put_device s1 i
      (record (s1.device i) { cells = blank_screen text_mode_cols 0 (s1.device i).cells })

unfoldable pub make_current : Displays → ℕ → Displays
make_current s i =
    let ops = (s.device i).ops in
    record (move_cursor ops (record s { calls = display_buffer ops i ∷ s.calls }) i) {
      current_dev = some i;
    }

unfoldable pub text_mode_set_active_display : Displays → ℕ → Displays
text_mode_set_active_display s i = elim s.current_dev [
  | none ↦ make_current s i
  | some current ↦ if current == i then s else make_current s i
]

-- Whether the operations and the buffer are there is given.
unfoldable pub init_text_mode_dev : Displays → ℕ → Bool → Bool → ℕ → Bool → ℤ × Displays
init_text_mode_dev s ops has_display_buffer has_set_cursor i has_buffer =
    if has_display_buffer && has_set_cursor
    then (if has_buffer
        then (
          pos 0,
          text_mode_clear
              (put_device s i (record (s.device i) { ops = ops; index_col = 0; index_row = 0 })) i,
        )
        else (neg einval, s))
    else (neg einval, s)
