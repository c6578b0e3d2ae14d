-- ===== src/Fwriter.antt =====
-- kernel/utils/__fwriter.c: numbers as text, and the formatted writer.
-- `none` is a conversion whose argument is missing or of another type, or fuel that ran out.
pub mod Digits
pub mod Format
pub mod Bounds
pub mod Rendering
pub mod Emitting
pub mod Rounds
pub mod Null
mod Tests
use project_islay.Prelude.{
  ℕ, zero, suc, ◌+◌, ◌-◌, ◌*◌, ◌/◌, ◌%◌, ◌^◌, Bool, true, false, not, ◌&&◌, ◌||◌, Option, none,
  some, List, [], ◌∷◌, ◌==◌, ltb, leb, ◌>>=◌, if◌then◌else◌, update, length,
}
use project_islay.Prelude.Int.{ℤ, pos, negsuc}
use project_islay.Libc.{Bytes, CString}

-- the character of a digit
unfoldable pub digit_char : ℕ → ℕ
digit_char c = if ltb c 10 then 48 + c else c - 10 + 97

-- `Writing digits to buffer`: the loop with `room` rounds left, and where it ends.
unfoldable pub write_digits : ℕ → ℕ → ℕ → ℕ → Bytes → ℕ × Bytes
unfolding digit_char
write_digits zero divisor tmp i buffer = (i, buffer)
write_digits (suc room) divisor tmp i buffer =
    let rest =
      write_digits room divisor (tmp / divisor) (i + 1)
        (update buffer i (digit_char (tmp % divisor))) in
    if tmp == 0 then (i, buffer) else rest

-- `Reverse buffer`: the loop with `k` rounds left from `j` on.
unfoldable pub reverse_buffer : ℕ → ℕ → ℕ → Bytes → Bytes
reverse_buffer zero j i buffer = buffer
reverse_buffer (suc k) j i buffer =
    reverse_buffer k (j + 1) i
      (update (update buffer j (buffer (i - j - 1))) (i - j - 1) (buffer j))

-- The radix is a character: `x`, `o`, and any other for ten.
unfoldable pub divisor_of : ℕ → ℕ
divisor_of radix = if radix == 120 then 16 else if radix == 111 then 8 else 10

-- For zero, a newline stands after the digit.
unfoldable pub itoa : ℕ → Bytes → ℕ → ℕ → ℕ × Bytes
unfolding write_digits reverse_buffer divisor_of
itoa n buffer len radix =
    let digits = write_digits (len - 1) (divisor_of radix) n 0 buffer in
    let i = digits.0 in
    if n == 0 && ltb 1 len
    then (1, update (update buffer 0 48) 1 10)
    else (i, reverse_buffer (i / 2) 0 i (update digits.1 i 0))

-- the buffer from `from` on, as a pointer to there
abbrev pub offset_by : Bytes → ℕ → Bytes
offset_by buffer from k = buffer (from + k)

-- what a call on a pointer one behind `buff` leaves in `buff`
abbrev pub behind : ℕ → Bytes → Bytes
behind c rest zero = c
behind c rest (suc k) = rest k

unfoldable pub signed_itoa : ℤ → Bytes → ℕ → ℕ × Bytes
unfolding itoa
signed_itoa (pos n) buff len = itoa n buff len 117
signed_itoa (negsuc n) buff len =
    let digits = itoa (n + 1) (offset_by buff 1) (len - 1) 117 in (digits.0 + 1, behind 45 digits.1)
