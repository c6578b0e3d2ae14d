-- ===== src/Devices/TextMode/Typing.antt =====
-- What kernel/devices/display/text_mode_display.c shows: a text typed on a screen of lines, described by the position
-- in the screen.
use project_islay.Prelude.{
  ℕ, zero, suc, ◌+◌, ◌*◌, ◌/◌, ◌≡◌, ◌==◌, ltb, leb, if◌then◌else◌, arith, update, ==-false,
  ℕ_discrete,
}
use project_islay.Devices.TextMode.{
  TextModeDevice, text_mode_cols, text_buff_idx, text_mode_char, place_char, wrap_line, scroll_line,
  write_char, write_chars,
}
use project_islay.Devices.TextMode.Screen.{IsOnScreen, scroll_lem, write_char-cursor}

-- a screen: the position where the next character goes, row after row, and the cells
pub record Screen : Type 0 where
  pub position : ℕ
  pub cell : ℕ → ℕ

-- white on black
abbrev coloured : ℕ → ℕ
coloured c = if ltb c 128 then 0x0f00 + c else 0xff00 + c

-- Where the position passes the end, every row moves one up, the last becomes blank and the position its first
-- cell.
scroll_up : Screen → Screen
scroll_up s =
    if leb 2000 s.position
    then record {
      position = 1920;
      cell =
          λ x. if ltb x 1920 then s.cell (x + 80) else if ltb x 2000 then coloured 32 else s.cell x;
    }
    else s

-- A new line goes to the next row; any other character is shown and goes to the next cell.
type_char : Screen → ℕ → Screen
type_char s c = scroll_up (
    if c == 10 then record s { position = (s.position / 80 + 1) * 80 } else record {
      position = s.position + 1;
      cell = λ x. if x == s.position then coloured c else s.cell x;
    })

-- `count` characters of `str` from `i` on
unfoldable pub type_text : (ℕ → ℕ) → ℕ → ℕ → Screen → Screen
unfolding type_char scroll_up
type_text str i zero s = s
type_text str i (suc count) s = type_text str (i + 1) count (type_char s (str i))

abbrev pub screen_of : TextModeDevice → Screen
screen_of d = record { position = text_mode_cols * d.index_row + d.index_col; cell = d.cells }

-- The display shows the screen.
pub record Shows (s : Screen) (d : TextModeDevice) : Type 0 where
  pub position : text_mode_cols * d.index_row + d.index_col ≡ s.position
  pub cell : (x : ℕ) → d.cells x ≡ s.cell x

type_char-Shows :
    (s : Screen) (d : TextModeDevice) (c : ℕ)
    → IsOnScreen d
    → Shows s d
    → Shows (type_char s c) (write_char d c)
unfolding type_char scroll_up write_char place_char wrap_line scroll_line
type_char-Shows s d c (r, l) h = record {
  position = ground (arith, r, l, h.position);
  cell = λ x.
      let shown = update d.cells (text_buff_idx d.index_row d.index_col) (text_mode_char c) in
      ground (
        arith,
        r,
        l,
        h.position,
        h.cell x,
        h.cell (x + 80),
        scroll_lem d.cells x,
        scroll_lem shown x,
      );
}

-- `write_chars` shows the text that it says it has written.
pub write_chars-Shows :
    (str : ℕ → ℕ) (i n : ℕ) (d : TextModeDevice) (s : Screen)
    → IsOnScreen d
    → Shows s d
    → (count : ℕ) × ((write_chars str i n d).0 ≡ i + count)
      × Shows (type_text str i count s) (write_chars str i n d).1
unfolding write_chars type_text
write_chars-Shows str i zero d s o h = (0, omega arith, h)
write_chars-Shows str i (suc n) d s o h = elim (ℕ_discrete (str i) 0) [
  | yes z ↦ rw z (0, omega arith, h)
  | no nz ↦ rw (==-false (str i) 0 nz) (
      let (count, e, shows) =
        write_chars-Shows str (i + 1) n (write_char d (str i)) (type_char s (str i))
          (write_char-cursor d (str i) o) (type_char-Shows s d (str i) o h) in
      (suc count, omega (arith, e), shows))
]
