-- ===== src/Devices/Tests.antt =====
-- A keyboard with two commands in its buffer, and a terminal that is open and empty.
use project_islay.Prelude.{
  ℕ, ◌<◌, ◌≤◌, ◌≡◌, refl, ◌⊎◌, false, none, some, [], ◌∷◌, ◌>>=◌, length, update, Returns, arith,
}
use project_islay.RingBuffer.{RingBuffer}
use project_islay.RingBuffer.Queue.{IsQueue}
use project_islay.Devices.Ps2Keyboard.{Ps2Keyboard, ps2_keyboard_send}
use project_islay.Devices.Ps2Keyboard.Machine.{ps2_keyboard_send-Machine}
use project_islay.Devices.Tty.{Tty, commit_line, read_chars}
use project_islay.Devices.Tty.Line.{IsEditing, type_all, type-read}

abbrev two_commands : RingBuffer ℕ
two_commands = record {
  size = 2;
  read_idx = 31;
  write_idx = 1;
  cap = 32;
  array = update (update (λ _. 0) 31 0xed) 0 7;
}

two-IsQueue : IsQueue two_commands (0xed ∷ 7 ∷ [])
two-IsQueue = record {
  counted = refl;
  bound = omega arith;
  small = omega arith;
  read = omega arith;
  write = refl;
  held = (refl, (refl, tt));
}

abbrev keyboard : Ps2Keyboard
keyboard = record { state = 0; cmd_buffer = two_commands; sent = 0xed ∷ []; events = [] }

ps2_keyboard_send_example :
    ((keyboard.state ≡ 8) × (ps2_keyboard_send keyboard 0x1e ≡ none))
    ⊎ ((keyboard.state < 8) × Returns (λ k. k.state ≤ 8) (ps2_keyboard_send keyboard 0x1e))
ps2_keyboard_send_example = ps2_keyboard_send-Machine keyboard 0x1e (omega arith)

-- its indices stand at the end of the page
abbrev terminal : Tty
terminal = record {
  mode = 1;
  waiting_proc = none;
  opened = some 3;
  char_buffer_read_idx = 4095;
  char_buffer_write_idx = 4095;
  char_buffer_commit_idx = 4095;
  char_buffer = some (λ _. 0);
  keys_dropped = false;
  kbd_modifier_state = 0;
  kbd_led_state = 0;
}

terminal-IsEditing : IsEditing terminal [] []
terminal-IsEditing = record {
  canonical = refl;
  opened = refl;
  buffer = λ _. 0;
  allocated = refl;
  read = omega arith;
  commit = refl;
  write = refl;
  bound = omega arith;
  held = tt;
}

type-read_example :
    Returns
      (λ r. (r.0 ≡ 104 ∷ 105 ∷ 10 ∷ []) × IsEditing r.1 [] [])
      (type_all terminal (104 ∷ 105 ∷ 10 ∷ []) >>= λ t.
        read_chars (length {A = ℕ} (104 ∷ 105 ∷ 10 ∷ [])) (commit_line t))
type-read_example = type-read terminal (104 ∷ 105 ∷ 10 ∷ []) terminal-IsEditing (omega arith)
