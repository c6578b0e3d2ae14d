-- ===== src/Devices/TextMode/Screen.antt =====
-- The cursor and the cells of the screen of kernel/devices/display/text_mode_display.c.
use project_islay.Prelude.{
  ℕ, zero, suc, ◌+◌, ◌-◌, ◌*◌, ◌%◌, ◌^◌, ◌<◌, ◌≤◌, ◌≡◌, ◌≢◌, refl, ◌∙◌, false, ltb, leb,
  if◌then◌else◌, arith, update, ==-false,
}
use project_islay.Libc.{memmove}
use project_islay.Libc.Memory.{memmove_lem, within}
use project_islay.Devices.TextMode.{
  TextModeDevice, text_mode_cols, text_mode_rows, text_buff_idx, text_mode_char, scroll_rows,
  blank_cols, scroll, place_char, wrap_line, scroll_line, write_char,
}

leb-false : (a b : ℕ) → b < a → leb a b ≡ false
leb-false a b h = ground (arith, h)

-- The cursor stands on the screen.
abbrev pub IsOnScreen : TextModeDevice → Type 0
IsOnScreen d = (d.index_row < text_mode_rows) × (d.index_col < text_mode_cols)

-- the cells of one screen
abbrev pub screen_size : ℕ
screen_size = text_mode_rows * text_mode_cols

-- what lies behind the screen is left
abbrev pub IsWithin : (ℕ → ℕ) → (ℕ → ℕ) → Type 0
IsWithin before after = (x : ℕ) → screen_size ≤ x → after x ≡ before x

move_row :
    (row : ℕ) (cells : ℕ → ℕ) (x : ℕ)
    → 1 ≤ row
    → row < text_mode_rows
    → memmove cells (text_buff_idx (row - 1) 0) (text_buff_idx row 0) text_mode_cols x ≡ (
        if within (text_mode_cols * (row - 1)) text_mode_cols x
        then cells (x + text_mode_cols)
        else cells x)
move_row row cells x l h =
    let dest : text_buff_idx (row - 1) 0 ≡ text_mode_cols * (row - 1) = omega (arith, l, h) in
    let src : text_buff_idx row 0 ≡ text_mode_cols * row = omega (arith, l, h) in
    rw (dest, src)
      (memmove_lem cells (text_mode_cols * (row - 1)) (text_mode_cols * row) text_mode_cols x
        ∙ ground (arith, l))

scroll_rows_lem :
    (k row : ℕ) (cells : ℕ → ℕ) (x : ℕ)
    → 1 ≤ row
    → row + k ≤ text_mode_rows
    → scroll_rows k row cells x ≡ (
        if within (text_mode_cols * (row - 1)) (text_mode_cols * k) x
        then cells (x + text_mode_cols)
        else cells x)
unfolding scroll_rows
scroll_rows_lem zero row cells x l h = ground arith
scroll_rows_lem (suc k) row cells x l h =
    let moved = memmove cells (text_buff_idx (row - 1) 0) (text_buff_idx row 0) text_mode_cols in
    ground (
      arith,
      scroll_rows_lem k (row + 1) moved x (omega arith) (omega (arith, h)),
      move_row row cells x l (omega (arith, h)),
      move_row row cells (x + text_mode_cols) l (omega (arith, h)),
    )

blank_cols_lem :
    (k row col : ℕ) (cells : ℕ → ℕ) (x : ℕ)
    → row < text_mode_rows
    → col + k ≤ text_mode_cols
    → blank_cols k row col cells x
      ≡ (if within (text_mode_cols * row + col) k x then text_mode_char 32 else cells x)
unfolding blank_cols
blank_cols_lem zero row col cells x r c = ground arith
blank_cols_lem (suc k) row col cells x r c =
    let idx : text_buff_idx row col ≡ text_mode_cols * row + col = omega (arith, r, c) in
    ground (
      arith,
      idx,
      blank_cols_lem k row (col + 1) (update cells (text_buff_idx row col) (text_mode_char 32)) x r
          (omega (arith, c)),
    )

-- Scrolling moves every row one up and blanks the last one.
pub scroll_lem :
    (cells : ℕ → ℕ) (x : ℕ)
    → scroll cells x ≡ (
        if ltb x (text_mode_cols * (text_mode_rows - 1))
        then cells (x + text_mode_cols)
        else if ltb x screen_size
        then text_mode_char 32
        else cells x)
unfolding scroll
scroll_lem cells x = ground (
  arith,
  blank_cols_lem 80 24 0 (scroll_rows 24 1 cells) x (omega arith) (omega arith),
  scroll_rows_lem 24 1 cells x (omega arith) (omega arith),
)

pub write_char-cursor : (d : TextModeDevice) (c : ℕ) → IsOnScreen d → IsOnScreen (write_char d c)
unfolding write_char place_char wrap_line scroll_line
write_char-cursor d c (r, l) = ground (arith, r, l)

pub write_char-cells :
    (d : TextModeDevice) (c : ℕ) → IsOnScreen d → IsWithin d.cells (write_char d c).cells
unfolding write_char place_char wrap_line scroll_line
write_char-cells d c (r, l) x far = ground (
  arith,
  r,
  l,
  far,
  scroll_lem d.cells x,
  scroll_lem (update d.cells (text_buff_idx d.index_row d.index_col) (text_mode_char c)) x,
)

-- A character before the last column stays in its row.
pub write_char-inside :
    (d : TextModeDevice) (c : ℕ)
    → IsOnScreen d
    → d.index_col + 1 < text_mode_cols
    → c ≢ 10
    → write_char d c ≡ record d {
      cells = update d.cells (text_mode_cols * d.index_row + d.index_col) (text_mode_char c);
      index_col = d.index_col + 1;
    }
unfolding write_char place_char wrap_line scroll_line
write_char-inside d c (r, l) inside n =
    let idx : text_buff_idx d.index_row d.index_col ≡ text_mode_cols * d.index_row + d.index_col =
      omega (arith, r, l) in
    let next : (d.index_col + 1) % 2 ^ 32 ≡ d.index_col + 1 = omega (arith, l) in
    rw
      (
        ==-false c 10 n,
        idx,
        next,
        leb-false 80 (d.index_col + 1) (omega (arith, inside)),
        leb-false 25 d.index_row (omega (arith, r)),
      )
      refl
