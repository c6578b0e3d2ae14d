-- ===== src/Fwriter/Tests.antt =====
-- Numbers as text, and `__fwriter` on a buffer of 16 bytes.
use project_islay.Prelude.{false, ℕ, ◌+◌, ◌≡◌, refl, arith, Bool, true, some, List, [], ◌∷◌, ◌>>=◌}
use project_islay.Libc.{Bytes, CString}
use project_islay.Fwriter.{divisor_of, itoa}
use project_islay.Fwriter.Format.{to_buffer, Output, Arg, uint_arg, str_arg, print, fwriter}
use project_islay.Fwriter.Digits.{IsNumeral, itoa-IsNumeral}
use project_islay.Fwriter.Rendering.{render}
use project_islay.Fwriter.Null.{without_buffer, fwriter_null}

abbrev zeros : Bytes
zeros k = 0

abbrev putchar : ℕ → ℕ → Bool × ℕ
putchar c s = (true, s + 1)

-- `n=%u %s`
abbrev format : CString
format = 110 ∷ 61 ∷ 37 ∷ 117 ∷ 32 ∷ 37 ∷ 115 ∷ []

abbrev args : List Arg
args = uint_arg 42 ∷ str_arg (111 ∷ 107 ∷ []) ∷ []

abbrev output : Output ℕ
output = record { device = 0; buff = some zeros }

itoa_example : IsNumeral (divisor_of 120) 33 255 (itoa 255 zeros 33 120)
unfolding divisor_of
itoa_example = itoa-IsNumeral 255 zeros 33 120 (omega arith) (omega arith)

fwriter_null_example : fwriter putchar zeros (to_buffer 16) (without_buffer output) format args ≡ (
    fwriter putchar zeros (to_buffer 16) output format args >>= λ r. some (r.0, without_buffer r.1))
fwriter_null_example = fwriter_null putchar zeros 16 output format args

-- the text of the example
n_42_ok :
    (fwriter putchar zeros (to_buffer 16) output format args >>= λ r.
    r.1.buff >>= λ b. some (b 0 ∷ b 2 ∷ b 3 ∷ b 5 ∷ b 7 ∷ []))
    ≡ some (110 ∷ 52 ∷ 50 ∷ 111 ∷ 0 ∷ [])
unfolding fwriter print
n_42_ok = refl

-- `n=42 ok`
n_42_ok_rendered : render zeros false format args ≡ 110 ∷ 61 ∷ 52 ∷ 50 ∷ 32 ∷ 111 ∷ 107 ∷ []
unfolding render
n_42_ok_rendered = refl
