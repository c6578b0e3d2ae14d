-- ===== src/Memory/Heap/Sizes.antt =====
-- The sizes that `internal_alloc` of kernel/memory/heap_allocator.c computes.
use native.Mathlib.Nat.{mod-lt, mod-le, div-add-mod, mul-mod_right}
use project_islay.Prelude.{
  ℕ, ap, ◌∙◌, ◌+◌, ◌-◌, ◌*◌, ◌/◌, ◌%◌, ◌≤◌, ◌<◌, ◌≡◌, ltb, arith, if◌then◌else◌,
}
use project_islay.Memory.Heap.{u32, entry_size, tags_size, align_by_multiple, total_size}

-- the larger of a request and an entry of the free list
abbrev room : ℕ → ℕ
room size = if ltb entry_size size then size else entry_size

room-le : (size : ℕ) → (size ≤ room size) × (entry_size ≤ room size)
room-le size = ground arith

room-below : (size : ℕ) → room size ≤ size + entry_size
room-below size = ground arith

align_by_multiple_lem :
    (num n : ℕ)
    → 0 < n
    → num + n ≤ u32
    → (num ≤ align_by_multiple num n)
      × (align_by_multiple num n < num + n)
      × (align_by_multiple num n % n ≡ 0)
unfolding align_by_multiple
align_by_multiple_lem num n pos small =
    let sum = num + (n - 1) in
    let e : (num + (n - 1)) % u32 ≡ sum = omega (arith, pos, small) in
    let r = mod-lt sum pos in
    let l = mod-le sum n in
    let q : sum - sum % n ≡ n * (sum / n) = omega (arith, div-add-mod sum n) in
    rw e (
      omega (arith, r, l, pos),
      omega (arith, r, l, pos),
      ap (λ k. k % n) q ∙ mul-mod_right n (sum / n),
    )

-- Without overflow, the total size holds the request or an entry of the free list, and the tags, is less than 24 bytes and one alignment larger than the request, and is a multiple of the alignment.
total_size_bounds :
    (alignment size : ℕ)
    → 0 < alignment
    → size + 24 + alignment ≤ u32
    → (size + tags_size ≤ total_size alignment size)
      × (entry_size + tags_size ≤ total_size alignment size)
      × (total_size alignment size < size + entry_size + tags_size + alignment)
      × (total_size alignment size % alignment ≡ 0)
unfolding total_size
total_size_bounds alignment size pos small =
    let r = room-le size in
    let r' = room-below size in
    let e : (room size + tags_size) % u32 ≡ room size + tags_size = omega (arith, r, r', small) in
    let a =
      align_by_multiple_lem (room size + tags_size) alignment pos (omega (arith, r', small)) in
    rw e (omega (arith, r, a), omega (arith, r, a), omega (arith, r', a), a.2)

-- Within 12 bytes of 4 GiB the tags make the sum wrap around: the total size is at most 10 bytes larger than the
-- alignment.
total_size_wraps :
    (alignment size : ℕ)
    → 0 < alignment
    → alignment + 12 ≤ u32
    → size < u32
    → u32 ≤ size + tags_size
    → total_size alignment size ≤ alignment + 10
unfolding total_size
total_size_wraps alignment size pos fits below wraps =
    let e : (room size + tags_size) % u32 ≡ size + tags_size - u32 = ground arith in
    let a =
      align_by_multiple_lem (size + tags_size - u32) alignment pos (omega (arith, below, fits)) in
    rw e (omega (arith, a.1, below))
