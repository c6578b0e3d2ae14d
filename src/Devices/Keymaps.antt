-- ===== src/Devices/Keymaps.antt =====
-- kernel/devices/keyboard/keymaps.c: the character of a key. The tables of a keymap are its data.
pub mod Us
pub mod Swe
use project_islay.Prelude.{
  ℕ, ◌+◌, ◌-◌, ◌/◌, ◌%◌, ◌^◌, Bool, true, false, not, ◌&&◌, ◌||◌, List, [], ◌∷◌, ◌==◌, leb, get_or,
  if◌then◌else◌,
}
use project_islay.Prelude.Int.{ℤ, pos, neg, enoent}
use project_islay.Libc.{CString, strcmp}
use project_islay.Devices.InputManager.{keycode_get_key}

-- `struct keymap`: a row and a column give a character.
pub record Keymap : Type 0 where
  pub name : CString
  pub regular_keys : ℕ → ℕ → ℕ
  pub int_keys : ℕ → ℕ → ℕ

abbrev pub ucs2_nochar : ℕ
ucs2_nochar = 0xffff

-- A table by rows; no key reaches a place outside of it.
unfoldable pub table_entry : List (List ℕ) → ℕ → ℕ → ℕ
table_entry table row column = get_or (get_or table row []) column ucs2_nochar

-- the keys of the keypad, with num lock and without
unfoldable pub keypad_map : List (List ℕ)
keypad_map =
    (0x2f ∷ 0x2f ∷ [])
    ∷ (0x2a ∷ 0x2a ∷ [])
    ∷ (0x2d ∷ 0x2d ∷ [])
    ∷ (0x2b ∷ 0x2b ∷ [])
    ∷ (0xa ∷ 0xa ∷ [])
    ∷ (0x31 ∷ ucs2_nochar ∷ [])
    ∷ (0x32 ∷ ucs2_nochar ∷ [])
    ∷ (0x33 ∷ ucs2_nochar ∷ [])
    ∷ (0x34 ∷ ucs2_nochar ∷ [])
    ∷ (0x35 ∷ ucs2_nochar ∷ [])
    ∷ (0x36 ∷ ucs2_nochar ∷ [])
    ∷ (0x37 ∷ ucs2_nochar ∷ [])
    ∷ (0x38 ∷ ucs2_nochar ∷ [])
    ∷ (0x39 ∷ ucs2_nochar ∷ [])
    ∷ (0x30 ∷ ucs2_nochar ∷ [])
    ∷ (0x2e ∷ ucs2_nochar ∷ [])
    ∷ []

-- the bit `n` of a byte of flags
abbrev pub has_flag : ℕ → ℕ → Bool
has_flag flags n = flags / 2 ^ n % 2 == 1

-- `current_keymap` and `keymaps`
pub record Keymaps : Type 0 where
  pub current_keymap : Keymap
  pub keymaps : List Keymap

is_named : CString → Keymap → Bool
unfolding strcmp
is_named name keymap = elim (strcmp keymap.name name) [ pos n ↦ n == 0 | _ ↦ false ]

-- `current_keymap == keymaps[i]` compares, and changes nothing.
unfoldable pub set_keymap_in : List Keymap → Keymaps → CString → ℤ × Keymaps
unfolding is_named
set_keymap_in [] k name = (neg enoent, k)
set_keymap_in (keymap ∷ rest) k name =
    if is_named name keymap then (pos 0, k) else set_keymap_in rest k name

unfoldable pub set_keymap : Keymaps → CString → ℤ × Keymaps
unfolding set_keymap_in
set_keymap k name = set_keymap_in k.keymaps k name

-- The column: 0 alone, 1 with shift or caps lock, 2 with the right alt key, 3 with control.
unfoldable pub keymap_column : ℕ → ℕ → ℕ → ℕ
keymap_column key modifier_state lock_state =
    let caps = (leb key 29 || leb 135 key) && has_flag lock_state 2 in
    let shift = has_flag modifier_state 2 || has_flag modifier_state 3 in
    let index = if shift then (if caps then 0 else 1) else (if caps then 1 else 0) in
    let index' = if has_flag modifier_state 5 then 2 else index in
    if has_flag modifier_state 0 || has_flag modifier_state 1 then 3 else index'

unfoldable pub keymap_get_key : Keymap → ℕ → ℕ → ℕ → ℕ
unfolding keymap_column table_entry keypad_map
keymap_get_key keymap keycode modifier_state lock_state =
    let key = keycode_get_key keycode % 256 in
    let index = keymap_column key modifier_state lock_state in
    if leb 84 key && leb key 99
    then table_entry keypad_map (key - 84) (if has_flag lock_state 1 then 0 else 1)
    else if leb 4 key && leb key 56 || leb 135 key && leb key 152
    then (if has_flag modifier_state 4
        then ucs2_nochar
        else if leb 135 key
        then keymap.int_keys (key - 135) index
        else keymap.regular_keys (key - 4) index)
    else ucs2_nochar
