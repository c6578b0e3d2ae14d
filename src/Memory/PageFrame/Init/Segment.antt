-- ===== src/Memory/PageFrame/Init/Segment.antt =====
-- What `init_mark_segment` of kernel/memory/page_frame_allocator.c does to the frames of a segment and to the others.
use project_islay.Prelude.{
  ℕ, zero, suc, ◌+◌, ◌-◌, ◌*◌, ◌/◌, ◌%◌, ◌<◌, ◌≤◌, ◌≡◌, refl, Bool, arith, ◌==◌, if◌then◌else◌,
  ℕ_discrete, ==-false, ==-true, dec_lt, min, Returns, returns,
}
use project_islay.Memory.PageFrame.{Frames, page_size, u32}
use project_islay.Memory.PageFrame.Words.{Bytes}
use project_islay.Memory.PageFrame.Init.{
  mark_bits, fill_byte, fill_bytes, mark_head, mark_tail, init_mark_segment,
}
use project_islay.Memory.PageFrame.Init.Marking.{
  IsMarked, IsMarked-none, IsMarked-join, IsMarked-move, IsMarked-lt, IsMarked-at, IsRun,
  mark_bits-IsRun, fill_byte-IsMarked,
}

fill_bytes-IsRun :
    (k i page_count : ℕ) (available : Bool) (st : Frames)
    → 8 * k ≤ page_count
    → page_count < u32
    → Bytes st.bitmap
    → st.n_available_frames < u32
    → IsRun available (i * 8) (8 * k) page_count st (fill_bytes k i available page_count st)
unfolding fill_bytes
fill_bytes-IsRun zero i c available st l s b n =
    (omega arith, IsMarked-at available refl (omega arith) (IsMarked-none available (i * 8) st b n))
fill_bytes-IsRun (suc k) i c available st l s b n =
    let m = fill_byte-IsMarked i available st b in
    let r =
      fill_bytes-IsRun k (i + 1) ((c + u32 - 8) % u32) available (fill_byte i available st)
        (omega (arith, l, s)) (omega arith) m.bytes (IsMarked-lt available _ _ m) in
    (
      omega (arith, r.0, l, s),
      IsMarked-join available (i * 8) (i * 8 + 8) _ (omega arith) (omega (arith, l, s)) m
          (IsMarked-at available (omega arith) (omega (arith, l, s)) r.1),
    )

-- The bytes and the last bits of a segment, from byte `start_idx` on, with a page for each frame that is left.
rest-IsMarked :
    (start_idx end_frame page_count : ℕ) (available : Bool) (st : Frames)
    → start_idx * 8 ≤ end_frame
    → page_count ≡ end_frame - start_idx * 8
    → page_count < u32
    → Bytes st.bitmap
    → st.n_available_frames < u32
    → let filled = fill_bytes (end_frame / 8 - start_idx) start_idx available page_count st in
      IsMarked available
        (start_idx * 8)
        end_frame
        st
        (mark_tail end_frame available filled.0 filled.1).1
unfolding mark_tail
rest-IsMarked i e c available st l p s b n =
    let f = fill_bytes-IsRun (e / 8 - i) i c available st (omega (arith, l, p)) s b n in
    let filled = fill_bytes (e / 8 - i) i available c st in
    let t =
      mark_bits-IsRun (e % 8) (e / 8) 0 filled.0 available filled.1 (omega arith) f.1.bytes
        (IsMarked-lt available _ _ f.1) in
    IsMarked-join available (i * 8) (e / 8 * 8) e (omega (arith, l)) (omega arith)
      (IsMarked-at available refl (omega (arith, l, p)) f.1)
      (IsMarked-at available (omega arith) (omega (arith, l, p, f.0)) t.1)

-- Where no page is left after the first byte, the rest changes nothing.
done-IsMarked :
    (start_idx end_frame page_count : ℕ) (available : Bool) (st : Frames)
    → end_frame / 8 ≤ start_idx
    → page_count ≡ 0
    → Bytes st.bitmap
    → st.n_available_frames < u32
    → let filled = fill_bytes (end_frame / 8 - start_idx) start_idx available page_count st in
      IsMarked available end_frame end_frame st (mark_tail end_frame available filled.0 filled.1).1
unfolding mark_tail
done-IsMarked i e c available st l z b n =
    let f =
      fill_bytes-IsRun (e / 8 - i) i c available st (omega (arith, l)) (omega (arith, z)) b n in
    let filled = fill_bytes (e / 8 - i) i available c st in
    let t =
      mark_bits-IsRun (e % 8) (e / 8) 0 filled.0 available filled.1 (omega arith) f.1.bytes
        (IsMarked-lt available _ _ f.1) in
    IsMarked-join available e e e (omega arith) (omega arith)
      (IsMarked-move available (i * 8) (i * 8 + min (8 * (e / 8 - i)) c) e (omega (arith, z)) f.1)
      (IsMarked-move available (e / 8 * 8 + 0) (e / 8 * 8 + 0 + min (e % 8) filled.0) e
        (omega (arith, z, f.0)) t.1)

-- the first byte that is filled
abbrev start_idx : ℕ → ℕ
start_idx s = if s % 8 == 0 then s / 8 else s / 8 + 1

frames-IsMarked :
    (s e page_count : ℕ) (available : Bool) (st : Frames)
    → page_count ≡ e - s
    → s ≤ e
    → e < u32
    → Bytes st.bitmap
    → st.n_available_frames < u32
    → let first = mark_head s available page_count st in
      let filled = fill_bytes (e / 8 - start_idx s) (start_idx s) available first.0 first.1 in
      IsMarked available s e st (mark_tail e available filled.0 filled.1).1
unfolding mark_head
frames-IsMarked s e c available st p l u b n = elim (ℕ_discrete (s % 8) 0) [
  | yes z ↦ rw (==-true (s % 8) 0 z) (
      IsMarked-at available (omega (arith, z)) refl (
        rest-IsMarked (s / 8) e c available st (omega (arith, l)) (omega (arith, z, p))
          (omega (arith, u, p)) b n))
  | no z ↦
      let first = mark_bits-IsRun (8 - s % 8) (s / 8) (s % 8) c available st (omega arith) b n in
      let marked = mark_bits (8 - s % 8) (s / 8) (s % 8) available c st in
      let small = IsMarked-lt available _ _ first.1 in
      rw (==-false (s % 8) 0 z) (elim (dec_lt c (8 - s % 8)) [
        | yes short ↦
            IsMarked-join available s e e l (omega arith)
              (IsMarked-at available (omega arith) (omega (arith, short, l, p)) first.1)
              (done-IsMarked (s / 8 + 1) e marked.0 available marked.1 (omega (arith, short, l, p))
                (omega (arith, first.0, short, p)) first.1.bytes small)
        | no long ↦
            IsMarked-join available s ((s / 8 + 1) * 8) e (omega arith) (omega (arith, p, long))
              (IsMarked-at available (omega arith) (omega (arith, p, long)) first.1)
              (rest-IsMarked (s / 8 + 1) e marked.0 available marked.1 (omega (arith, p, long, z))
                (omega (arith, first.0, long, z, p)) (omega (arith, first.0, u, p)) first.1.bytes
                small)
      ])
]

-- On a bitmap of bytes and a count of 32 bits, `init_mark_segment` of whole pages that end below 4 GiB returns: it
-- marks exactly the frames of the segment and counts each of them, modulo 2 ^ 32.
pub init_mark_segment-IsMarked :
    (st : Frames) (addr length : ℕ) (available : Bool)
    → addr % page_size ≡ 0
    → length % page_size ≡ 0
    → addr + length < u32
    → Bytes st.bitmap
    → st.n_available_frames < u32
    → Returns
        (IsMarked available (addr / page_size) ((addr + length) / page_size) st)
        (init_mark_segment st addr length available)
unfolding init_mark_segment
init_mark_segment-IsMarked st addr length available za zl u b n =
    let reset : Frames = record st { first_available_frame_idx = 0 } in
    let end_frame = (addr + length) % u32 / page_size in
    let m =
      frames-IsMarked (addr / page_size) end_frame (length / page_size) available reset
        (omega (arith, za, zl, u)) (omega (arith, u)) (omega (arith, u)) b n in
    rw (==-true (addr % page_size) 0 za, ==-true (length % page_size) 0 zl)
      (returns (
        IsMarked-at available refl (omega (arith, u))
          (record { bytes = m.bytes; count = m.count; bits = m.bits })))
