-- ===== src/Devices/Ps2Keyboard/Tables.antt =====
-- The scan code tables of kernel/devices/keyboard/ps2_keyboard.c; the numbers are those of `enum keys`,
-- `enum keycode_modifiers` and `enum keycode_lock_keys`.
use project_islay.Prelude.{ℕ, List, [], ◌∷◌}
use project_islay.Devices.InputManager.{mkey, lkey, rkey}

unfoldable pub set1_to_keycode : List ℕ
unfolding mkey lkey rkey
set1_to_keycode =
    rkey 0
    ∷ rkey 41
    ∷ rkey 30
    ∷ rkey 31
    ∷ rkey 32
    ∷ rkey 33
    ∷ rkey 34
    ∷ rkey 35
    ∷ rkey 36
    ∷ rkey 37
    ∷ rkey 38
    ∷ rkey 39
    ∷ rkey 45
    ∷ rkey 46
    ∷ rkey 42
    ∷ rkey 43
    ∷ rkey 20
    ∷ rkey 26
    ∷ rkey 8
    ∷ rkey 21
    ∷ rkey 23
    ∷ rkey 28
    ∷ rkey 24
    ∷ rkey 12
    ∷ rkey 18
    ∷ rkey 19
    ∷ rkey 47
    ∷ rkey 48
    ∷ rkey 40
    ∷ mkey 0
    ∷ rkey 4
    ∷ rkey 22
    ∷ rkey 7
    ∷ rkey 9
    ∷ rkey 10
    ∷ rkey 11
    ∷ rkey 13
    ∷ rkey 14
    ∷ rkey 15
    ∷ rkey 51
    ∷ rkey 52
    ∷ rkey 53
    ∷ mkey 2
    ∷ rkey 49
    ∷ rkey 29
    ∷ rkey 27
    ∷ rkey 6
    ∷ rkey 25
    ∷ rkey 5
    ∷ rkey 17
    ∷ rkey 16
    ∷ rkey 54
    ∷ rkey 55
    ∷ rkey 56
    ∷ mkey 3
    ∷ rkey 85
    ∷ mkey 4
    ∷ rkey 44
    ∷ lkey 2
    ∷ rkey 58
    ∷ rkey 59
    ∷ rkey 60
    ∷ rkey 61
    ∷ rkey 62
    ∷ rkey 63
    ∷ rkey 64
    ∷ rkey 65
    ∷ rkey 66
    ∷ rkey 67
    ∷ lkey 1
    ∷ lkey 3
    ∷ rkey 95
    ∷ rkey 96
    ∷ rkey 97
    ∷ rkey 86
    ∷ rkey 92
    ∷ rkey 93
    ∷ rkey 94
    ∷ rkey 87
    ∷ rkey 89
    ∷ rkey 90
    ∷ rkey 91
    ∷ rkey 98
    ∷ rkey 99
    ∷ rkey 0
    ∷ rkey 0
    ∷ rkey 135
    ∷ rkey 68
    ∷ rkey 69
    ∷ []

unfoldable pub set1_extended_to_keycode : List ℕ
unfolding mkey lkey rkey
set1_extended_to_keycode =
    rkey 235
    ∷ rkey 0
    ∷ rkey 0
    ∷ rkey 0
    ∷ rkey 0
    ∷ rkey 0
    ∷ rkey 0
    ∷ rkey 0
    ∷ rkey 0
    ∷ rkey 234
    ∷ rkey 0
    ∷ rkey 0
    ∷ rkey 88
    ∷ mkey 1
    ∷ rkey 0
    ∷ rkey 0
    ∷ rkey 127
    ∷ rkey 238
    ∷ rkey 232
    ∷ rkey 0
    ∷ rkey 120
    ∷ rkey 0
    ∷ rkey 0
    ∷ rkey 0
    ∷ rkey 0
    ∷ rkey 0
    ∷ rkey 0
    ∷ rkey 0
    ∷ rkey 0
    ∷ rkey 0
    ∷ rkey 129
    ∷ rkey 0
    ∷ rkey 128
    ∷ rkey 0
    ∷ rkey 74
    ∷ rkey 0
    ∷ rkey 0
    ∷ rkey 84
    ∷ rkey 0
    ∷ rkey 0
    ∷ mkey 5
    ∷ rkey 0
    ∷ rkey 0
    ∷ rkey 0
    ∷ rkey 0
    ∷ rkey 0
    ∷ rkey 0
    ∷ rkey 0
    ∷ rkey 0
    ∷ rkey 0
    ∷ rkey 0
    ∷ rkey 0
    ∷ rkey 0
    ∷ rkey 0
    ∷ rkey 0
    ∷ rkey 74
    ∷ rkey 82
    ∷ rkey 75
    ∷ rkey 0
    ∷ rkey 80
    ∷ rkey 0
    ∷ rkey 79
    ∷ rkey 0
    ∷ rkey 77
    ∷ rkey 81
    ∷ rkey 78
    ∷ rkey 73
    ∷ rkey 76
    ∷ rkey 0
    ∷ rkey 0
    ∷ rkey 0
    ∷ rkey 0
    ∷ rkey 0
    ∷ rkey 0
    ∷ rkey 0
    ∷ mkey 6
    ∷ mkey 7
    ∷ rkey 101
    ∷ rkey 102
    ∷ rkey 244
    ∷ rkey 0
    ∷ rkey 0
    ∷ rkey 0
    ∷ rkey 245
    ∷ rkey 0
    ∷ rkey 240
    ∷ rkey 243
    ∷ rkey 239
    ∷ rkey 233
    ∷ rkey 236
    ∷ rkey 237
    ∷ rkey 241
    ∷ rkey 242
    ∷ rkey 119
    ∷ []
