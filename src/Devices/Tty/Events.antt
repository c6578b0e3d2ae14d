-- ===== src/Devices/Tty/Events.antt =====
-- kernel/devices/tty.c: the terminals, the switch between them, and the events of the keyboard.
use Prim.Native.Nat.{bit_xor}
use project_islay.Prelude.{
  ℕ, ◌-◌, ◌/◌, ◌%◌, ◌^◌, ◌&&◌, ◌||◌, Option, none, some, List, [], ◌∷◌, ◌++◌, ◌==◌, ltb, leb, ◌>>=◌,
  if◌then◌else◌, update,
}
use project_islay.Prelude.Bits.{set_bit, clr_bit}
use project_islay.Devices.InputManager.{
  keycode_type_lock, keycode_type_mod, keycode_type_reg, keycode_check_released, keycode_get_type,
  keycode_get_modifier, keycode_get_key,
}
use project_islay.Devices.Keymaps.{Keymap, ucs2_nochar, has_flag, keymap_get_key}
use project_islay.Devices.Tty.{
  Tty, is_canonical, is_open, append_char, tty_line_len, commit_line, delete_char,
}

-- the calls of the display of a terminal
pub data Echo : Type 0 where
  text_mode_putc : ℕ → Echo
  text_mode_del : ℕ → Echo
  text_mode_write : List ℕ → Echo

-- The globals of the file, and the calls of other parts, the newest first: tasks unblocked, states of the keyboard
-- leds, displays made active, and output with the terminal it is for. `subscribers` are the terminals that
-- receive events.
pub record Ttys : Type 0 where
  pub tty_table : ℕ → Tty
  pub num_ttys : ℕ
  pub current_tty : Option ℕ
  pub subscribers : List ℕ
  pub unblocked : List ℕ
  pub leds : List ℕ
  pub active_displays : List ℕ
  pub echoed : List (ℕ × Echo)

abbrev pub set_tty : Ttys → ℕ → Tty → Ttys
set_tty s i tty = record s { tty_table = update s.tty_table i tty }

abbrev pub echo : Ttys → ℕ → Echo → Ttys
echo s i e = record s { echoed = (i, e) ∷ s.echoed }

-- the subscribers but one
unfoldable pub unsubscribe : ℕ → List ℕ → List ℕ
unsubscribe i [] = []
unsubscribe i (x ∷ xs) = let rest = unsubscribe i xs in if i == x then xs else x ∷ rest

unfoldable pub tty_switch : Ttys → ℕ → Ttys
tty_switch s index =
    let others : List ℕ = elim s.current_tty [
      | none ↦ s.subscribers
      | some old ↦ unsubscribe old s.subscribers
    ] in
    if leb s.num_ttys index then s else record s {
      current_tty = some index;
      subscribers = others ++ index ∷ [];
      leds = (s.tty_table index).kbd_led_state ∷ s.leds;
      active_displays = index ∷ s.active_displays;
    }

-- `tty_append_char` on the current terminal `i`
unfoldable pub tty_append_char : Ttys → ℕ → ℕ → Option Ttys
tty_append_char s i c = do
  tty ← append_char (s.tty_table i) c
  some (set_tty (echo s i (text_mode_putc c)) i tty)

-- The waiting task is woken.
unfoldable pub wake_reader : Ttys → ℕ → Ttys
wake_reader s i =
    let tty = s.tty_table i in
    elim tty.waiting_proc [
      | none ↦ s
      | some task ↦ record (set_tty s i (record tty { waiting_proc = none })) {
        unblocked = task ∷ s.unblocked;
      }
    ]

unfoldable pub enter_key : Ttys → ℕ → Option Ttys
enter_key s i = do
  s' ← tty_append_char s i 10
  let tty = s'.tty_table i
  some (
      if is_canonical tty && is_open tty
      then wake_reader (set_tty s' i (commit_line tty)) i
      else s')

unfoldable pub backspace_key : Ttys → ℕ → Option Ttys
backspace_key s i =
    let tty = s.tty_table i in
    if is_canonical tty
    then some (
        if ltb 0 (tty_line_len tty)
        then echo (set_tty s i (delete_char tty)) i (text_mode_del 1)
        else s)
    else tty_append_char s i 8

-- a lock key: its led is turned over when it is pressed
unfoldable pub lock_key : Ttys → ℕ → ℕ → Ttys
lock_key s i keycode =
    let tty = s.tty_table i in
    let led_state = bit_xor tty.kbd_led_state (2 ^ keycode_get_modifier keycode) % 256 in
    if keycode_check_released keycode
    then s
    else record (set_tty s i (record tty { kbd_led_state = led_state })) {
      leds = led_state ∷ s.leds;
    }

-- a modifier key: its flag is set while it is pressed; the byte has no flag from 8 on
unfoldable pub modifier_key : Ttys → ℕ → ℕ → Ttys
modifier_key s i keycode =
    let tty = s.tty_table i in
    let flag = keycode_get_modifier keycode in
    let modifier_state =
      if keycode_check_released keycode
      then (if ltb flag 8 then clr_bit tty.kbd_modifier_state flag else tty.kbd_modifier_state)
      else set_bit tty.kbd_modifier_state flag % 256 in
    set_tty s i (record tty { kbd_modifier_state = modifier_state })

-- a key that is a character: a byte of ASCII, or the substitute 0x1A
unfoldable pub character_key : Ttys → ℕ → ℕ → Option Ttys
character_key s i ucs2_char =
    if ucs2_char == ucs2_nochar
    then some s
    else tty_append_char s i (if ucs2_char / 2 ^ 7 == 0 then ucs2_char % 2 ^ 7 else 0x1a)

-- a function key, which switches with control and alt
unfoldable pub function_key : Ttys → ℕ → ℕ → Ttys
function_key s i key =
    let flags = (s.tty_table i).kbd_modifier_state in
    if (has_flag flags 0 || has_flag flags 1) && (has_flag flags 4 || has_flag flags 5)
    then tty_switch s (key - 58)
    else s

module _ (keymap : Keymap) where
  unfoldable pub regular_event : Ttys → ℕ → ℕ → Option Ttys
  regular_event s i keycode =
      let key = keycode_get_key keycode % 256 in
      let tty = s.tty_table i in
      if keycode_check_released keycode
      then some s
      else if leb 58 key && leb key 69
      then some (function_key s i key)
      else if key == 40
      then enter_key s i
      else if key == 42
      then backspace_key s i
      else character_key s i
          (keymap_get_key keymap keycode tty.kbd_modifier_state tty.kbd_led_state)

  unfoldable pub on_events_received : Ttys → ℕ → Option Ttys
  on_events_received s keycode = do
    i ← s.current_tty
    let type = keycode_get_type keycode
    if type == keycode_type_lock
        then some (lock_key s i keycode)
        else if type == keycode_type_mod
        then some (modifier_key s i keycode)
        else if type == keycode_type_reg
        then regular_event s i keycode
        else some s
