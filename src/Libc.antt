-- ===== src/Libc.antt =====
-- kernel/utils/libc.c: the memory and string functions of the kernel. Memory is a function from
-- addresses to bytes, and writes nothing out of its caller's ranges by itself. A `char *` that is only
-- read is the string that it points to: a list of its bytes up to the terminating zero.
pub mod Memory
pub mod Strings
pub mod Tokens
mod Tests
use project_islay.Prelude.{
  ℕ, zero, suc, ◌+◌, ◌-◌, ◌%◌, Bool, true, false, not, ◌&&◌, Option, none, some, List, [], ◌∷◌,
  if◌then◌else◌, ltb, ◌==◌, update,
}
use project_islay.Prelude.Int.{ℤ, pos, negsuc}

abbrev pub Bytes : Type 0
Bytes = ℕ → ℕ

-- The loop of `memcpy`, and that of `memmove` to a lower address, with `k` rounds left from `i` on.
unfoldable pub copy_up : ℕ → ℕ → ℕ → ℕ → Bytes → Bytes
copy_up dest src i zero m = m
copy_up dest src i (suc k) m = copy_up dest src (i + 1) k (update m (dest + i) (m (src + i)))

unfoldable pub memcpy : Bytes → ℕ → ℕ → ℕ → Bytes
memcpy m dest src count = copy_up dest src 0 count m

-- The loop of `memmove` to a higher address: `i` counts down to 0.
unfoldable pub copy_down : ℕ → ℕ → ℕ → Bytes → Bytes
copy_down dest src zero m = m
copy_down dest src (suc i) m = copy_down dest src i (update m (dest + i) (m (src + i)))

unfoldable pub memmove : Bytes → ℕ → ℕ → ℕ → Bytes
memmove m dest src count =
    if ltb dest src then copy_up dest src 0 count m else copy_down dest src count m

unfoldable pub set_up : ℕ → ℕ → ℕ → ℕ → Bytes → Bytes
set_up dest ch i zero m = m
set_up dest ch i (suc k) m = set_up dest ch (i + 1) k (update m (dest + i) (ch % 256))

unfoldable pub memset : Bytes → ℕ → ℕ → ℕ → Bytes
memset m dest ch count = set_up dest ch 0 count m

-- The loop of `memcmp` with `k` rounds left.
unfoldable pub compare_from : Bytes → ℕ → ℕ → ℕ → ℕ → ℤ
compare_from m lhs rhs i zero = pos 0
compare_from m lhs rhs i (suc k) =
    let rest = compare_from m lhs rhs (i + 1) k in
    if ltb (m (lhs + i)) (m (rhs + i))
    then negsuc 0
    else if ltb (m (rhs + i)) (m (lhs + i))
    then pos 1
    else rest

unfoldable pub memcmp : Bytes → ℕ → ℕ → ℕ → ℤ
memcmp m lhs rhs count = compare_from m lhs rhs 0 count

abbrev pub CString : Type 0
CString = List ℕ

-- the byte that the pointer shows; a string ends with a zero
abbrev pub head : CString → ℕ
head [] = 0
head (c ∷ s) = c

-- the difference of two bytes as an `int`
abbrev pub diff : ℕ → ℕ → ℤ
diff a b = if ltb a b then negsuc (b - a - 1) else pos (a - b)

unfoldable pub strlen : CString → ℕ
strlen [] = 0
strlen (c ∷ s) = strlen s + 1

unfoldable pub strnlen : CString → ℕ → ℕ
strnlen s zero = 0
strnlen [] (suc count) = 0
strnlen (c ∷ s) (suc count) = strnlen s count + 1

unfoldable pub strcmp : CString → CString → ℤ
strcmp [] rhs = diff 0 (head rhs)
strcmp (c ∷ lhs) [] = diff c 0
strcmp (c ∷ lhs) (d ∷ rhs) = let rest = strcmp lhs rhs in if c == d then rest else diff c d

-- The loop stops when `count` is spent, and the bytes at the pointers are compared all the same.
unfoldable pub strncmp : CString → CString → ℕ → ℤ
strncmp lhs rhs zero = diff (head lhs) (head rhs)
strncmp [] rhs (suc count) = diff 0 (head rhs)
strncmp (c ∷ lhs) [] (suc count) = diff c 0
strncmp (c ∷ lhs) (d ∷ rhs) (suc count) =
    let rest = strncmp lhs rhs count in if c == d then rest else diff c d

-- `while (*start && *start == *d) { start++; d++; }`: each delimiter is skipped once, in its order.
unfoldable pub skip_delims : CString → CString → CString
skip_delims [] delim = []
skip_delims (c ∷ s) [] = c ∷ s
skip_delims (c ∷ s) (d ∷ delim) = let rest = skip_delims s delim in if c == d then rest else c ∷ s

-- `while (*s && *s != *delim) s++`: the token, and what follows the delimiter, if there is one.
unfoldable pub cut_token : CString → ℕ → CString × Option CString
cut_token [] d = ([], none)
cut_token (c ∷ s) d =
    let (token, rest) = cut_token s d in if c == d then ([], some s) else (c ∷ token, rest)

abbrev pub tail : CString → CString
tail [] = []
tail (c ∷ s) = s

-- From `start` on: if the text ends with the token there is nothing to skip, else the delimiters
-- behind it are skipped, from the second one on.
unfoldable pub finish_token : CString → CString × Option CString → CString × CString
unfolding skip_delims
finish_token delim (token, none) = (token, [])
finish_token delim (token, some s) = (token, skip_delims s (tail delim))

-- The token and the string at `*saveptr` afterwards; `str` is `none` for a null pointer.
unfoldable pub strtok : Option CString → CString → CString → CString × CString
unfolding skip_delims cut_token finish_token
strtok none delim saveptr = finish_token delim (cut_token saveptr (head delim))
strtok (some s) delim saveptr = finish_token delim (cut_token (skip_delims s delim) (head delim))
