-- ===== src/Devices/Ps2Keyboard.antt =====
-- kernel/devices/keyboard/ps2_keyboard.c: the state machine of the scan codes, and the commands to the keyboard.
-- `none` is a panic.
pub mod Tables
pub mod Machine
use project_islay.Prelude.{
  ℕ, ◌+◌, ◌-◌, ◌%◌, ◌^◌, Bool, true, false, ◌&&◌, ◌||◌, Option, none, some, List, [], ◌∷◌, ◌==◌,
  leb, get_or, if◌then◌else◌,
}
use project_islay.Prelude.Bits.{set_bit}
use project_islay.RingBuffer.{
  RingBuffer, ring_buff_empty, ring_buff_full, ring_buff_first, ring_buffer_push, ring_buffer_pop,
}
use project_islay.Devices.InputManager.{rkey}
use project_islay.Devices.Keymaps.{has_flag}
use project_islay.Devices.Ps2Keyboard.Tables.{set1_to_keycode, set1_extended_to_keycode}

-- `struct ps2_keyboard`, with the bytes that `send_cmd` sent and the keycodes that went to the input manager,
-- the newest first.
pub record Ps2Keyboard : Type 0 where
  pub state : ℕ
  pub cmd_buffer : RingBuffer ℕ
  pub sent : List ℕ
  pub events : List ℕ

abbrev pub send_cmd : Ps2Keyboard → ℕ → Ps2Keyboard
send_cmd kbd byte = record kbd { sent = byte ∷ kbd.sent }

unfoldable pub keyboard_send_key : Ps2Keyboard → ℕ → Bool → Ps2Keyboard
keyboard_send_key kbd keycode released = record kbd {
  events = (if released then 2 ^ 15 + keycode else keycode) ∷ kbd.events;
}

unfoldable pub ps2_send_command : Ps2Keyboard → ℕ → Ps2Keyboard
ps2_send_command kbd byte =
    if ring_buff_full kbd.cmd_buffer
    then kbd
    else (let kbd' = record kbd { cmd_buffer = ring_buffer_push kbd.cmd_buffer byte } in
        if kbd'.cmd_buffer.size == 1 then send_cmd kbd' byte else kbd')

abbrev pub ps2_cmd_set_leds : ℕ
ps2_cmd_set_leds = 0xed

unfoldable pub led_bits : ℕ → ℕ
led_bits leds =
    (if has_flag leds 2 then 4 else 0)
    + (if has_flag leds 1 then 2 else 0)
    + (if has_flag leds 3 then 1 else 0)

unfoldable pub ps2_keyboard_set_leds : Ps2Keyboard → ℕ → Ps2Keyboard
ps2_keyboard_set_leds kbd leds =
    ps2_send_command (ps2_send_command kbd ps2_cmd_set_leds) (led_bits leds)

-- The first command of the buffer is sent, if there is one.
unfoldable pub send_first : Ps2Keyboard → Ps2Keyboard
send_first kbd =
    if ring_buff_empty kbd.cmd_buffer then kbd else send_cmd kbd (ring_buff_first kbd.cmd_buffer)

-- `PS2_RESPONSE_ACK`
unfoldable pub receive_ack : Ps2Keyboard → Ps2Keyboard
receive_ack kbd = send_first (record kbd { cmd_buffer = (ring_buffer_pop kbd.cmd_buffer).1 })

-- A key of the first table; what is no key is ignored.
unfoldable pub regular_key : Ps2Keyboard → ℕ → Ps2Keyboard
unfolding keyboard_send_key set1_to_keycode
regular_key kbd scancode =
    if leb scancode 0x58
    then keyboard_send_key kbd (get_or set1_to_keycode scancode 0) false
    else if leb 0x80 scancode && leb scancode 0xd7
    then keyboard_send_key kbd (get_or set1_to_keycode (scancode - 0x80) 0) true
    else kbd

-- A key of the second table.
unfoldable pub extended_key : Ps2Keyboard → ℕ → Ps2Keyboard
unfolding keyboard_send_key set1_extended_to_keycode
extended_key kbd scancode =
    if leb 0x10 scancode && leb scancode 0x6d
    then keyboard_send_key kbd (get_or set1_extended_to_keycode (scancode - 0x10) 0) false
    else if leb 0x90 scancode && leb scancode 0xed
    then keyboard_send_key kbd (get_or set1_extended_to_keycode (scancode - 0x90) 0) true
    else kbd

abbrev pub set_state : Ps2Keyboard → ℕ → Ps2Keyboard
set_state kbd state = record kbd { state = state }

-- the initial state
unfoldable pub in_initial : Ps2Keyboard → ℕ → Ps2Keyboard
in_initial kbd scancode =
    if scancode == 0xe0
    then set_state kbd 1
    else if scancode == 0xe1
    then set_state kbd 4
    else if scancode == 0xfa
    then receive_ack kbd
    else if scancode == 0xfe
    then send_first kbd
    else set_state (regular_key kbd scancode) 0

-- after 0xE0
unfoldable pub in_extended : Ps2Keyboard → ℕ → Ps2Keyboard
unfolding extended_key
in_extended kbd scancode =
    if scancode == 0x2a || scancode == 0xb7
    then set_state kbd 2
    else set_state (extended_key kbd scancode) 0

-- print screen, at its end
unfoldable pub in_print_screen : Ps2Keyboard → ℕ → Ps2Keyboard
unfolding keyboard_send_key rkey
in_print_screen kbd scancode =
    let kbd' =
      if scancode == 0x37 || scancode == 0xaa
      then keyboard_send_key kbd (rkey 70) (scancode == 0xaa)
      else kbd in
    set_state kbd' 0

-- pause, at its end
unfoldable pub in_pause : Ps2Keyboard → ℕ → Ps2Keyboard
unfolding keyboard_send_key rkey
in_pause kbd scancode =
    set_state (if scancode == 0xc5 then keyboard_send_key kbd (rkey 72) true else kbd) 0

-- a state that waits for one scan code
abbrev pub expect : Ps2Keyboard → ℕ → ℕ → ℕ → Ps2Keyboard
expect kbd scancode wanted next = set_state kbd (if scancode == wanted then next else 0)

-- The table of the states has no entry for state 8.
unfoldable pub ps2_keyboard_send : Ps2Keyboard → ℕ → Option Ps2Keyboard
ps2_keyboard_send kbd scancode =
    if kbd.state == 0
    then some (in_initial kbd scancode)
    else if kbd.state == 1
    then some (in_extended kbd scancode)
    else if kbd.state == 2
    then some (expect kbd scancode 0xe0 3)
    else if kbd.state == 3
    then some (in_print_screen kbd scancode)
    else if kbd.state == 4
    then some (expect kbd scancode 0x1d 5)
    else if kbd.state == 5
    then some (expect kbd scancode 0x45 6)
    else if kbd.state == 6
    then some (expect kbd scancode 0xe1 7)
    else if kbd.state == 7
    then some (expect kbd scancode 0x9d 8)
    else if kbd.state == 9
    then some (in_pause kbd scancode)
    else none

-- the scan codes of a sequence, one after the other
unfoldable pub send_all : Ps2Keyboard → List ℕ → Option Ps2Keyboard
unfolding ps2_keyboard_send
send_all kbd [] = some kbd
send_all kbd (c ∷ cs) = elim (ps2_keyboard_send kbd c) [
  | none ↦ none
  | some kbd' ↦ send_all kbd' cs
]
