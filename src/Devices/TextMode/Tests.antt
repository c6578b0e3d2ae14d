-- ===== src/Devices/TextMode/Tests.antt =====
-- Runs of kernel/devices/display/text_mode_display.c.
use project_islay.Prelude.{ℕ, ◌+◌, ◌≡◌, ◌≢◌, refl, none, [], arith, ◌%◌, ◌==◌, if◌then◌else◌}
use project_islay.Libc.Memory.{within}
use project_islay.Devices.TextMode.{
  TextModeDevice, text_mode_char, write_char, place_char, wrap_line, scroll_line, Displays,
  text_mode_write, text_mode_del,
}
use project_islay.Devices.TextMode.Typing.{Shows, type_text, screen_of}
use project_islay.Devices.TextMode.Writing.{IsWritten, text_mode_write-IsWritten, write-del}

-- a display with the cursor at the given place, and others like it
abbrev display : ℕ → ℕ → TextModeDevice
display row col = record { ops = 1; index_row = row; index_col = col; cells = λ x. x % 256 }

abbrev displays : ℕ → ℕ → Displays
displays row col = record { device = λ i. display row col; current_dev = none; calls = [] }

-- `a`, a new line, `b`, and so on
abbrev lines : ℕ → ℕ
lines k = if k % 2 == 0 then 97 + k else 10

text_mode_write_example :
    IsWritten lines 0 5
      (display 24 79)
      (text_mode_write (displays 24 79) 0 lines 5).0
      ((text_mode_write (displays 24 79) 0 lines 5).1.device 0)
    × Shows
        (type_text lines 0
          (text_mode_write (displays 24 79) 0 lines 5).0
          (screen_of (display 24 79)))
        ((text_mode_write (displays 24 79) 0 lines 5).1.device 0)
    × ((j : ℕ) → j ≢ 0 → (text_mode_write (displays 24 79) 0 lines 5).1.device j ≡ display 24 79)
text_mode_write_example =
    text_mode_write-IsWritten (displays 24 79) 0 lines 5 (omega arith, omega arith)

write-del_example :
    let after = (text_mode_del 3 (text_mode_write (displays 2 7) 0 (λ k. 97 + k) 3).1 0).device 0 in
    (after.index_row ≡ 2)
    × (after.index_col ≡ 7)
    × ((x : ℕ) → after.cells x ≡ (if within 167 3 x then text_mode_char 32 else x % 256))
write-del_example =
    write-del (displays 2 7) 0 (λ k. 97 + k) 3 (omega arith, omega arith) (omega arith)
      (λ k l. (λ e. omega (arith, e), λ e. omega (arith, e)))

-- A byte from 128 on takes the colour with it.
signed_char : (write_char (display 0 0) 200).cells 0 ≡ 0xffc8
unfolding write_char place_char wrap_line scroll_line
signed_char = refl
