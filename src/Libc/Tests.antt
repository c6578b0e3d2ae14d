-- ===== src/Libc/Tests.antt =====
-- Concrete runs of kernel/utils/libc.c.
use project_islay.Prelude.{◌%◌, ◌≡◌, [], ◌∷◌, arith}
use project_islay.Libc.{Bytes, CString, memmove}
use project_islay.Libc.Memory.{memmove_lem}
use project_islay.Libc.Strings.{IsString}

-- each byte is its own address
abbrev addresses : Bytes
addresses x = x % 256

abbrev abc : CString
abc = 97 ∷ 98 ∷ 99 ∷ []

abbrev abd : CString
abd = 97 ∷ 98 ∷ 100 ∷ []

abc-IsString : IsString abc
abc-IsString = (omega arith, (omega arith, (omega arith, tt)))

abd-IsString : IsString abd
abd-IsString = (omega arith, (omega arith, (omega arith, tt)))

-- an overlap with the destination behind the source
memmove_example : memmove addresses 12 10 4 13 ≡ 11
memmove_example = memmove_lem addresses 12 10 4 13

-- a count of 2 compares three bytes
