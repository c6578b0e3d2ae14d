-- ===== src/Libc/Memory.antt =====
-- The memory functions of kernel/utils/libc.c.
use project_islay.Prelude.{
  ℕ, zero, suc, ◌+◌, ◌-◌, ◌%◌, ◌≤◌, ◌<◌, ◌≡◌, ◌⊎◌, ◌↔◌, inl, inr, refl, Bool, ◌&&◌, arith,
  if◌then◌else◌, ltb, leb, update, lt→ltb, ltb-false, dec_lt,
}
use project_islay.Prelude.Int.{pos}
use project_islay.Libc.{
  Bytes, copy_up, copy_down, set_up, memcpy, memmove, memset, compare_from, memcmp,
}

-- the address lies in the `count` bytes from `start` on
abbrev pub within : ℕ → ℕ → ℕ → Bool
within start count x = leb start x && ltb x (start + count)

later :
    (dest src i k : ℕ)
    → (dest ≤ src) ⊎ (src + i + suc k ≤ dest + i)
    → (dest ≤ src) ⊎ (src + (i + 1) + k ≤ dest + (i + 1))
later dest src i k (inl h) = inl h
later dest src i k (inr h) = inr (omega arith)

-- The upward loop is a copy if no byte is read after it was written.
copy_up_lem :
    (dest src i k : ℕ) (m : Bytes) (x : ℕ)
    → (dest ≤ src) ⊎ (src + i + k ≤ dest + i)
    → copy_up dest src i k m x ≡ (if within (dest + i) k x then m (x - dest + src) else m x)
unfolding copy_up
copy_up_lem dest src i zero m x h = ground arith
copy_up_lem dest src i (suc k) m x h =
    let m' = update m (dest + i) (m (src + i)) in
    let h' : (dest ≤ src) ⊎ (src + (i + 1) + k ≤ dest + (i + 1)) = later dest src i k h in
    ground (arith, copy_up_lem dest src (i + 1) k m' x h')

copy_down_lem :
    (dest src i : ℕ) (m : Bytes) (x : ℕ)
    → src ≤ dest
    → copy_down dest src i m x ≡ (if within dest i x then m (x - dest + src) else m x)
unfolding copy_down
copy_down_lem dest src zero m x h = ground arith
copy_down_lem dest src (suc i) m x h =
    let m' = update m (dest + i) (m (src + i)) in ground (arith, copy_down_lem dest src i m' x h)

set_up_lem :
    (dest ch i k : ℕ) (m : Bytes) (x : ℕ)
    → set_up dest ch i k m x ≡ (if within (dest + i) k x then ch % 256 else m x)
unfolding set_up
set_up_lem dest ch i zero m x = ground arith
set_up_lem dest ch i (suc k) m x =
    ground (arith, set_up_lem dest ch (i + 1) k (update m (dest + i) (ch % 256)) x)

-- `memmove` copies the bytes that were at the source, also where the two ranges overlap, and writes
-- nowhere else.
pub memmove_lem :
    (m : Bytes) (dest src count x : ℕ)
    → memmove m dest src count x ≡ (if within dest count x then m (x - dest + src) else m x)
unfolding memmove
memmove_lem m dest src count x = elim (dec_lt dest src) [
  | yes below ↦
      rw (lt→ltb dest src below)
        (ground (arith, copy_up_lem dest src 0 count m x (inl (omega arith))))
  | no above ↦
      rw (ltb-false dest src (omega arith)) (copy_down_lem dest src count m x (omega arith))
]

-- `memcpy` does so unless the destination begins inside the source, behind its start.
pub memcpy_lem :
    (m : Bytes) (dest src count x : ℕ)
    → (dest ≤ src) ⊎ (src + count ≤ dest)
    → memcpy m dest src count x ≡ (if within dest count x then m (x - dest + src) else m x)
unfolding memcpy
memcpy_lem m dest src count x h =
    let h' : (dest ≤ src) ⊎ (src + 0 + count ≤ dest + 0) = elim h [
      | inl a ↦ inl a
      | inr b ↦ inr (omega arith)
    ] in
    ground (arith, copy_up_lem dest src 0 count m x h')

-- `memset` writes the low byte of its argument over the range, and nowhere else.
pub memset_lem :
    (m : Bytes) (dest ch count x : ℕ)
    → memset m dest ch count x ≡ (if within dest count x then ch % 256 else m x)
unfolding memset
memset_lem m dest ch count x = ground (arith, set_up_lem dest ch 0 count m x)

-- The two ranges hold the same first `count` bytes.
abbrev pub SameRange : Bytes → ℕ → ℕ → ℕ → ℕ → Type 0
SameRange m lhs rhs i count = (j : ℕ) → j < count → m (lhs + i + j) ≡ m (rhs + i + j)

same_first :
    (m : Bytes) (lhs rhs i k : ℕ)
    → SameRange m lhs rhs i (suc k)
    → (m (lhs + i) ≡ m (rhs + i)) × SameRange m lhs rhs (i + 1) k
same_first m lhs rhs i k h = (ground (arith, h 0), λ j p. ground (arith, h (suc j)))

same_cons :
    (m : Bytes) (lhs rhs i k : ℕ)
    → m (lhs + i) ≡ m (rhs + i)
    → SameRange m lhs rhs (i + 1) k
    → SameRange m lhs rhs i (suc k)
same_cons m lhs rhs i k e h zero p = ground arith
same_cons m lhs rhs i k e h (suc j) p = ground (arith, h j)

compare_from_same :
    (m : Bytes) (lhs rhs i k : ℕ) → compare_from m lhs rhs i k ≡ pos 0 → SameRange m lhs rhs i k
unfolding compare_from
compare_from_same m lhs rhs i zero h = λ j p. absurd (omega arith)
compare_from_same m lhs rhs i (suc k) h =
    same_cons m lhs rhs i k (ground arith) (compare_from_same m lhs rhs (i + 1) k (ground arith))

same_compare_from :
    (m : Bytes) (lhs rhs i k : ℕ) → SameRange m lhs rhs i k → compare_from m lhs rhs i k ≡ pos 0
unfolding compare_from
same_compare_from m lhs rhs i zero h = refl
same_compare_from m lhs rhs i (suc k) h =
    let (e, rest) = same_first m lhs rhs i k h in
    ground (arith, same_compare_from m lhs rhs (i + 1) k rest)

-- `memcmp` is 0 exactly when the two ranges hold the same bytes.
pub memcmp-zero_iff :
    (m : Bytes) (lhs rhs count : ℕ) → (memcmp m lhs rhs count ≡ pos 0) ↔ SameRange m lhs rhs 0 count
unfolding memcmp
memcmp-zero_iff m lhs rhs count =
    (compare_from_same m lhs rhs 0 count, same_compare_from m lhs rhs 0 count)
