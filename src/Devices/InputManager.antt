-- ===== src/Devices/InputManager.antt =====
-- kernel/include/devices/input_manager.h and kernel/devices/input_manager.c: keycodes, and the events that reach
-- the subscribers.
use project_islay.Prelude.{
  ℕ, ◌+◌, ◌*◌, ◌/◌, ◌%◌, ◌^◌, Bool, ◌&&◌, ◌||◌, List, [], ◌∷◌, ◌==◌, leb, if◌then◌else◌,
}

-- `KEYCODE_CREATE`: the four fields do not overlap, so that `|` adds them.
unfoldable pub keycode_create : ℕ → ℕ → ℕ → ℕ → ℕ
keycode_create rel type m key = rel % 2 * 2 ^ 15 + type % 4 * 2 ^ 13 + m % 16 * 2 ^ 9 + key % 2 ^ 9

-- `enum keycode_types`
abbrev pub keycode_type_reg : ℕ
keycode_type_reg = 0

abbrev pub keycode_type_lock : ℕ
keycode_type_lock = 1

abbrev pub keycode_type_mod : ℕ
keycode_type_mod = 2

-- `KEYCODE_MKEY`, `KEYCODE_LKEY`, `KEYCODE_RKEY`
unfoldable pub mkey : ℕ → ℕ
unfolding keycode_create
mkey m = keycode_create 0 keycode_type_mod m 0

unfoldable pub lkey : ℕ → ℕ
unfolding keycode_create
lkey lock = keycode_create 0 keycode_type_lock lock 0

unfoldable pub rkey : ℕ → ℕ
unfolding keycode_create
rkey key = keycode_create 0 keycode_type_reg 0 key

abbrev pub keycode_check_released : ℕ → Bool
keycode_check_released keycode = keycode / 2 ^ 15 % 2 == 1

abbrev pub keycode_get_type : ℕ → ℕ
keycode_get_type keycode = keycode / 2 ^ 13 % 4

abbrev pub keycode_get_modifier : ℕ → ℕ
keycode_get_modifier keycode = keycode / 2 ^ 9 % 16

abbrev pub keycode_get_key : ℕ → ℕ
keycode_get_key keycode = keycode % 2 ^ 9

abbrev pub key_max : ℕ
key_max = 246

abbrev pub err_undef : ℕ
err_undef = 3

-- the test on an event, whose key is cut to a byte
unfoldable pub is_invalid : ℕ → Bool
is_invalid keycode =
    let key = keycode_get_key keycode % 256 in
    keycode_get_type keycode == keycode_type_reg && (leb key_max key || leb key err_undef)

module _ {S : Type 0} where
  -- Each subscriber is its callback, on a state that they share.
  unfoldable pub notify : List (ℕ → S → S) → ℕ → S → S
  notify [] keycode s = s
  notify (on_events_received ∷ rest) keycode s = notify rest keycode (on_events_received keycode s)

  unfoldable pub input_manager_send_event : List (ℕ → S → S) → ℕ → S → S
  unfolding is_invalid notify
  input_manager_send_event subscriber_queue keycode s =
      if is_invalid keycode then s else notify subscriber_queue keycode s
