-- ===== src/Devices/Keymaps/Us.antt =====
-- kernel/devices/keyboard/keymaps.c: the tables of the keymap `iso-us`. The columns are no modifier, shift, the
-- right alt key and control.
use project_islay.Prelude.{ℕ, List, [], ◌∷◌}
use project_islay.Devices.Keymaps.{Keymap, ucs2_nochar, table_entry}

-- from the key A to the slash
unfoldable pub us_regular_keys : List (List ℕ)
us_regular_keys =
    (0x61 ∷ 0x41 ∷ ucs2_nochar ∷ ucs2_nochar ∷ [])
    ∷ (0x62 ∷ 0x42 ∷ ucs2_nochar ∷ ucs2_nochar ∷ [])
    ∷ (0x63 ∷ 0x43 ∷ ucs2_nochar ∷ ucs2_nochar ∷ [])
    ∷ (0x64 ∷ 0x44 ∷ ucs2_nochar ∷ ucs2_nochar ∷ [])
    ∷ (0x65 ∷ 0x45 ∷ ucs2_nochar ∷ ucs2_nochar ∷ [])
    ∷ (0x66 ∷ 0x46 ∷ ucs2_nochar ∷ ucs2_nochar ∷ [])
    ∷ (0x67 ∷ 0x47 ∷ ucs2_nochar ∷ ucs2_nochar ∷ [])
    ∷ (0x68 ∷ 0x48 ∷ ucs2_nochar ∷ ucs2_nochar ∷ [])
    ∷ (0x69 ∷ 0x49 ∷ ucs2_nochar ∷ ucs2_nochar ∷ [])
    ∷ (0x6a ∷ 0x4a ∷ ucs2_nochar ∷ ucs2_nochar ∷ [])
    ∷ (0x6b ∷ 0x4b ∷ ucs2_nochar ∷ ucs2_nochar ∷ [])
    ∷ (0x6c ∷ 0x4c ∷ ucs2_nochar ∷ ucs2_nochar ∷ [])
    ∷ (0x6d ∷ 0x4d ∷ ucs2_nochar ∷ ucs2_nochar ∷ [])
    ∷ (0x6e ∷ 0x4e ∷ ucs2_nochar ∷ ucs2_nochar ∷ [])
    ∷ (0x6f ∷ 0x4f ∷ ucs2_nochar ∷ ucs2_nochar ∷ [])
    ∷ (0x70 ∷ 0x50 ∷ ucs2_nochar ∷ ucs2_nochar ∷ [])
    ∷ (0x71 ∷ 0x51 ∷ ucs2_nochar ∷ ucs2_nochar ∷ [])
    ∷ (0x72 ∷ 0x52 ∷ ucs2_nochar ∷ ucs2_nochar ∷ [])
    ∷ (0x73 ∷ 0x53 ∷ ucs2_nochar ∷ ucs2_nochar ∷ [])
    ∷ (0x74 ∷ 0x54 ∷ ucs2_nochar ∷ ucs2_nochar ∷ [])
    ∷ (0x75 ∷ 0x55 ∷ ucs2_nochar ∷ ucs2_nochar ∷ [])
    ∷ (0x76 ∷ 0x56 ∷ ucs2_nochar ∷ ucs2_nochar ∷ [])
    ∷ (0x77 ∷ 0x57 ∷ ucs2_nochar ∷ ucs2_nochar ∷ [])
    ∷ (0x78 ∷ 0x58 ∷ ucs2_nochar ∷ ucs2_nochar ∷ [])
    ∷ (0x79 ∷ 0x59 ∷ ucs2_nochar ∷ ucs2_nochar ∷ [])
    ∷ (0x7a ∷ 0x5a ∷ ucs2_nochar ∷ ucs2_nochar ∷ [])
    ∷ (0x31 ∷ 0x21 ∷ ucs2_nochar ∷ ucs2_nochar ∷ [])
    ∷ (0x32 ∷ 0x40 ∷ ucs2_nochar ∷ ucs2_nochar ∷ [])
    ∷ (0x33 ∷ 0x23 ∷ ucs2_nochar ∷ ucs2_nochar ∷ [])
    ∷ (0x34 ∷ 0x24 ∷ 0x80 ∷ ucs2_nochar ∷ [])
    ∷ (0x35 ∷ 0x25 ∷ ucs2_nochar ∷ ucs2_nochar ∷ [])
    ∷ (0x36 ∷ 0x5e ∷ ucs2_nochar ∷ ucs2_nochar ∷ [])
    ∷ (0x37 ∷ 0x26 ∷ ucs2_nochar ∷ ucs2_nochar ∷ [])
    ∷ (0x38 ∷ 0x2a ∷ ucs2_nochar ∷ ucs2_nochar ∷ [])
    ∷ (0x39 ∷ 0x28 ∷ ucs2_nochar ∷ ucs2_nochar ∷ [])
    ∷ (0x30 ∷ 0x29 ∷ ucs2_nochar ∷ ucs2_nochar ∷ [])
    ∷ (0xa ∷ ucs2_nochar ∷ ucs2_nochar ∷ ucs2_nochar ∷ [])
    ∷ (0xb ∷ ucs2_nochar ∷ ucs2_nochar ∷ ucs2_nochar ∷ [])
    ∷ (0x8 ∷ ucs2_nochar ∷ ucs2_nochar ∷ ucs2_nochar ∷ [])
    ∷ (0x9 ∷ ucs2_nochar ∷ ucs2_nochar ∷ ucs2_nochar ∷ [])
    ∷ (0x20 ∷ ucs2_nochar ∷ ucs2_nochar ∷ ucs2_nochar ∷ [])
    ∷ (0x2d ∷ 0x5f ∷ ucs2_nochar ∷ ucs2_nochar ∷ [])
    ∷ (0x3d ∷ 0x2b ∷ ucs2_nochar ∷ ucs2_nochar ∷ [])
    ∷ (0x5b ∷ 0x7b ∷ ucs2_nochar ∷ ucs2_nochar ∷ [])
    ∷ (0x5d ∷ 0x7d ∷ ucs2_nochar ∷ ucs2_nochar ∷ [])
    ∷ (0x5c ∷ 0x7c ∷ ucs2_nochar ∷ ucs2_nochar ∷ [])
    ∷ (ucs2_nochar ∷ ucs2_nochar ∷ ucs2_nochar ∷ ucs2_nochar ∷ [])
    ∷ (0x3b ∷ 0x3a ∷ ucs2_nochar ∷ ucs2_nochar ∷ [])
    ∷ (0x27 ∷ 0x22 ∷ ucs2_nochar ∷ ucs2_nochar ∷ [])
    ∷ (0x60 ∷ 0x7e ∷ ucs2_nochar ∷ ucs2_nochar ∷ [])
    ∷ (0x2c ∷ 0x3c ∷ ucs2_nochar ∷ ucs2_nochar ∷ [])
    ∷ (0x2e ∷ 0x3e ∷ ucs2_nochar ∷ ucs2_nochar ∷ [])
    ∷ (0x2f ∷ 0x3f ∷ ucs2_nochar ∷ ucs2_nochar ∷ [])
    ∷ []

-- from the first international key to the last language key
unfoldable pub us_int_keys : List (List ℕ)
us_int_keys =
    (ucs2_nochar ∷ ucs2_nochar ∷ ucs2_nochar ∷ ucs2_nochar ∷ [])
    ∷ (ucs2_nochar ∷ ucs2_nochar ∷ ucs2_nochar ∷ ucs2_nochar ∷ [])
    ∷ (ucs2_nochar ∷ ucs2_nochar ∷ ucs2_nochar ∷ ucs2_nochar ∷ [])
    ∷ (ucs2_nochar ∷ ucs2_nochar ∷ ucs2_nochar ∷ ucs2_nochar ∷ [])
    ∷ (ucs2_nochar ∷ ucs2_nochar ∷ ucs2_nochar ∷ ucs2_nochar ∷ [])
    ∷ (ucs2_nochar ∷ ucs2_nochar ∷ ucs2_nochar ∷ ucs2_nochar ∷ [])
    ∷ (ucs2_nochar ∷ ucs2_nochar ∷ ucs2_nochar ∷ ucs2_nochar ∷ [])
    ∷ (ucs2_nochar ∷ ucs2_nochar ∷ ucs2_nochar ∷ ucs2_nochar ∷ [])
    ∷ (ucs2_nochar ∷ ucs2_nochar ∷ ucs2_nochar ∷ ucs2_nochar ∷ [])
    ∷ (ucs2_nochar ∷ ucs2_nochar ∷ ucs2_nochar ∷ ucs2_nochar ∷ [])
    ∷ (ucs2_nochar ∷ ucs2_nochar ∷ ucs2_nochar ∷ ucs2_nochar ∷ [])
    ∷ (ucs2_nochar ∷ ucs2_nochar ∷ ucs2_nochar ∷ ucs2_nochar ∷ [])
    ∷ (ucs2_nochar ∷ ucs2_nochar ∷ ucs2_nochar ∷ ucs2_nochar ∷ [])
    ∷ (ucs2_nochar ∷ ucs2_nochar ∷ ucs2_nochar ∷ ucs2_nochar ∷ [])
    ∷ (ucs2_nochar ∷ ucs2_nochar ∷ ucs2_nochar ∷ ucs2_nochar ∷ [])
    ∷ (ucs2_nochar ∷ ucs2_nochar ∷ ucs2_nochar ∷ ucs2_nochar ∷ [])
    ∷ (ucs2_nochar ∷ ucs2_nochar ∷ ucs2_nochar ∷ ucs2_nochar ∷ [])
    ∷ (ucs2_nochar ∷ ucs2_nochar ∷ ucs2_nochar ∷ ucs2_nochar ∷ [])
    ∷ []

unfoldable pub us_keymap : Keymap
us_keymap = record {
  name = 105 ∷ 115 ∷ 111 ∷ 45 ∷ 117 ∷ 115 ∷ [];
  regular_keys = table_entry us_regular_keys;
  int_keys = table_entry us_int_keys;
}
