-- ===== src/Prelude/Int.antt =====
-- Signed integers: `int` return values, an error being a negated `ERRNO` of
-- kernel/include/uapi/errno.h.
use Prim.Native.Nat.{ℕ, ◌+◌, ◌-◌}
use mathlib.Core.Bool.{Bool, true, false}
use project_islay.Prelude.Tests.{leb, if◌then◌else◌}

-- `negsuc n` is -(n + 1).
pub data ℤ : Type 0 where
  pos : ℕ → ℤ
  negsuc : ℕ → ℤ

-- `ret < 0`
abbrev pub is_neg : ℤ → Bool
is_neg (pos n) = false
is_neg (negsuc n) = true

infixl 50 ◌+ℤ◌
abbrev pub ◌+ℤ◌ : ℤ → ℤ → ℤ
pos a +ℤ pos b = pos (a + b)
pos a +ℤ negsuc b = if leb (b + 1) a then pos (a - (b + 1)) else negsuc (b - a)
negsuc a +ℤ pos b = if leb (a + 1) b then pos (b - (a + 1)) else negsuc (a - b)
negsuc a +ℤ negsuc b = negsuc (a + b + 1)

-- `-e`
abbrev pub neg : ℕ → ℤ
neg e = if leb e 0 then pos 0 else negsuc (e - 1)

abbrev pub eperm : ℕ
eperm = 67

abbrev pub enoent : ℕ
enoent = 45

abbrev pub ebadf : ℕ
ebadf = 8

abbrev pub eexist : ℕ
eexist = 20

abbrev pub efault : ℕ
efault = 21

abbrev pub einval : ℕ
einval = 28

abbrev pub eisdir : ℕ
eisdir = 31

abbrev pub enametoolong : ℕ
enametoolong = 37

abbrev pub enfile : ℕ
enfile = 41

abbrev pub enomem : ℕ
enomem = 49

abbrev pub enotdir : ℕ
enotdir = 57

abbrev pub ealready : ℕ
ealready = 7

abbrev pub ebusy : ℕ
ebusy = 10

abbrev pub eio : ℕ
eio = 29

abbrev pub enodev : ℕ
enodev = 44
