-- ===== src/Memory/PageFrame/Init/Marking.antt =====
-- What `init_mark_segment` of kernel/memory/page_frame_allocator.c marks.
use mathlib.Core.Path.{subst}
use native.Mathlib.Nat.{zero-div}
use project_islay.Prelude.{
  ℕ, zero, suc, ◌+◌, ◌-◌, ◌*◌, ◌/◌, ◌%◌, ◌^◌, ◌<◌, ◌≤◌, ◌≡◌, refl, sym, ap, ◌∙◌, Bool, true, false,
  ◌&&◌, arith, ltb, leb, if◌then◌else◌, ℕ_discrete, ==-false, min,
}
use project_islay.Prelude.Bits.{digit, set_bit-lt, clr_bit-lt, digit-set_bit, digit-clr_bit}
use project_islay.Memory.PageFrame.{Frames, u32}
use project_islay.Memory.PageFrame.Words.{frame_bit, Bytes}
use project_islay.Memory.PageFrame.Mark.{bit_of, frame_bit-same, frame_bit-here, write_bit}
use project_islay.Memory.PageFrame.Release.{all_ones}
use project_islay.Memory.PageFrame.Init.{mark_bit, mark_bits, fill_byte}

-- the count of available frames after `k` of them are marked
abbrev pub counted : Bool → ℕ → ℕ → ℕ
counted true n k = (n + k) % u32
counted false n k = (n + k * (u32 - 1)) % u32

-- Between the two bitmaps the frames from `lo` up to `hi` were marked.
pub record IsMarked (available : Bool) (lo hi : ℕ) (st st' : Frames) : Type 0 where
  pub bytes : Bytes st'.bitmap
  pub count : st'.n_available_frames ≡ counted available st.n_available_frames (hi - lo)
  pub bits :
      (q : ℕ)
      → frame_bit st'.bitmap q
        ≡ (if leb lo q && ltb q hi then bit_of available else frame_bit st.bitmap q)

counted-zero : (available : Bool) (n : ℕ) → n < u32 → counted available n 0 ≡ n
counted-zero true n h = omega (arith, h)
counted-zero false n h = omega (arith, h)

counted-add :
    (available : Bool) (n a b : ℕ)
    → counted available (counted available n a) b ≡ counted available n (a + b)
counted-add true n a b = omega arith
counted-add false n a b = omega arith

pub IsMarked-none :
    (available : Bool) (lo : ℕ) (st : Frames)
    → Bytes st.bitmap
    → st.n_available_frames < u32
    → IsMarked available lo lo st st
IsMarked-none available lo st b n = record {
  bytes = b;
  count = sym (
      ap (counted available st.n_available_frames) (omega arith)
      ∙ counted-zero available st.n_available_frames n);
  bits = λ q. ground arith;
}

pub IsMarked-join :
    (available : Bool) (lo mid hi : ℕ) {st st1 st2 : Frames}
    → lo ≤ mid
    → mid ≤ hi
    → IsMarked available lo mid st st1
    → IsMarked available mid hi st1 st2
    → IsMarked available lo hi st st2
IsMarked-join available lo mid hi {st = st} l h m k = record {
  bytes = k.bytes;
  count =
      k.count
      ∙ ap (λ n. counted available n (hi - mid)) m.count
      ∙ counted-add available st.n_available_frames (mid - lo) (hi - mid)
      ∙ ap (counted available st.n_available_frames) (omega (arith, l, h));
  bits = λ q.
      k.bits q
      ∙ ap (λ b. if leb mid q && ltb q hi then bit_of available else b) (m.bits q)
      ∙ ground (arith, l, h);
}

mark_bit-IsMarked :
    (available : Bool) (idx i : ℕ) (st : Frames)
    → i < 8
    → Bytes st.bitmap
    → IsMarked available (idx * 8 + i) (idx * 8 + i + 1) st (mark_bit idx i available st)
unfolding mark_bit
mark_bit-IsMarked true idx i st l b = record {
  bytes = λ x. ground (arith, b x, set_bit-lt (st.bitmap idx) i (b idx) l);
  count = ap (λ k. (st.n_available_frames + k) % u32) (omega arith);
  bits = λ q.
      write_bit st.bitmap idx _ i 1 q l (λ s h. digit-set_bit (st.bitmap idx) i (b idx) l s h)
      ∙ ground arith;
}
mark_bit-IsMarked false idx i st l b = record {
  bytes = λ x. ground (arith, b x, clr_bit-lt (st.bitmap idx) i (b idx) l);
  count = omega arith;
  bits = λ q.
      write_bit st.bitmap idx _ i 0 q l (λ s h. digit-clr_bit (st.bitmap idx) i (b idx) l s h)
      ∙ ground arith;
}

pub IsMarked-move :
    (available : Bool) (lo hi x : ℕ) {st st' : Frames}
    → hi ≤ lo
    → IsMarked available lo hi st st'
    → IsMarked available x x st st'
IsMarked-move available lo hi x {st = st} h m = record {
  bytes = m.bytes;
  count = m.count ∙ ap (counted available st.n_available_frames) (omega (arith, h));
  bits = λ q. m.bits q ∙ ground (arith, h);
}

counted-lt : (available : Bool) (n k : ℕ) → counted available n k < u32
counted-lt true n k = omega arith
counted-lt false n k = omega arith

pub IsMarked-lt :
    (available : Bool) (lo hi : ℕ) {st st' : Frames}
    → IsMarked available lo hi st st'
    → st'.n_available_frames < u32
IsMarked-lt available lo hi {st = st} m =
    omega (arith, m.count, counted-lt available st.n_available_frames (hi - lo))

pub IsMarked-at :
    (available : Bool) {lo lo' hi hi' : ℕ} {st st' : Frames}
    → lo ≡ lo'
    → hi ≡ hi'
    → IsMarked available lo hi st st'
    → IsMarked available lo' hi' st st'
IsMarked-at available {lo' = lo'} {hi = hi} {st = st} {st' = st'} e f m =
    subst (λ x. IsMarked available lo' x st st') f (subst (λ x. IsMarked available x hi st st') e m)

-- Where no page is left, nothing is marked.
mark_bits-done :
    (k idx i : ℕ) (available : Bool) (st : Frames) → mark_bits k idx i available 0 st ≡ (0, st)
unfolding mark_bits
mark_bits-done zero idx i available st = refl
mark_bits-done (suc k) idx i available st = refl

mark_bits-suc :
    (k idx i c : ℕ) (available : Bool) (st : Frames)
    → mark_bits (suc k) idx i available (suc c) st
      ≡ mark_bits k idx (i + 1) available c (mark_bit idx i available st)
unfolding mark_bits
mark_bits-suc k idx i c available st =
    rw (==-false (suc c) 0 (λ e. absurd (omega (arith, e))))
      (ap (λ d. mark_bits k idx (i + 1) available d (mark_bit idx i available st)) (omega arith))

-- `k` frames from `lo` on are marked, or as many as there are pages.
abbrev pub IsRun : Bool → ℕ → ℕ → ℕ → Frames → ℕ × Frames → Type 0
IsRun available lo k page_count st r =
    (r.0 ≡ page_count - min k page_count) × IsMarked available lo (lo + min k page_count) st r.1

pub mark_bits-IsRun :
    (k idx i page_count : ℕ) (available : Bool) (st : Frames)
    → i + k ≤ 8
    → Bytes st.bitmap
    → st.n_available_frames < u32
    → IsRun available (idx * 8 + i) k page_count st (mark_bits k idx i available page_count st)
unfolding mark_bits
mark_bits-IsRun zero idx i c available st l b n = (
  omega arith,
  IsMarked-at available refl (omega arith) (IsMarked-none available (idx * 8 + i) st b n),
)
mark_bits-IsRun (suc k) idx i zero available st l b n =
    subst (IsRun available (idx * 8 + i) (suc k) 0 st)
      (sym (mark_bits-done (suc k) idx i available st))
      (
        omega arith,
        IsMarked-at available refl (omega arith) (IsMarked-none available (idx * 8 + i) st b n),
      )
mark_bits-IsRun (suc k) idx i (suc c) available st l b n =
    let m = mark_bit-IsMarked available idx i st (omega (arith, l)) b in
    let r =
      mark_bits-IsRun k idx (i + 1) c available (mark_bit idx i available st) (omega (arith, l))
        m.bytes (IsMarked-lt available _ _ m) in
    subst (IsRun available (idx * 8 + i) (suc k) (suc c) st)
      (sym (mark_bits-suc k idx i c available st))
      (
        omega (arith, r.0),
        IsMarked-join available (idx * 8 + i) (idx * 8 + i + 1) _ (omega arith) (omega arith) m
            (IsMarked-at available (omega arith) (omega arith) r.1),
      )

pub all_zeros : (s : ℕ) → digit 0 s ≡ 0
all_zeros s = ap (λ d. d % 2) (zero-div (2 ^ s))

pub fill_byte-IsMarked :
    (i : ℕ) (available : Bool) (st : Frames)
    → Bytes st.bitmap
    → IsMarked available (i * 8) (i * 8 + 8) st (fill_byte i available st)
unfolding fill_byte
fill_byte-IsMarked i true st b = record {
  bytes = λ x. ground (arith, b x);
  count = ap (λ k. (st.n_available_frames + k) % u32) (omega arith);
  bits = λ q. elim (ℕ_discrete (q / 8) i) [
    | yes e ↦
        frame_bit-here st.bitmap i 255 q e ∙ all_ones (q % 8) (omega arith) ∙ ground (arith, e)
    | no e ↦ frame_bit-same st.bitmap i 255 q e ∙ ground (arith, e)
  ];
}
fill_byte-IsMarked i false st b = record {
  bytes = λ x. ground (arith, b x);
  count = omega arith;
  bits = λ q. elim (ℕ_discrete (q / 8) i) [
    | yes e ↦ frame_bit-here st.bitmap i 0 q e ∙ all_zeros (q % 8) ∙ ground (arith, e)
    | no e ↦ frame_bit-same st.bitmap i 0 q e ∙ ground (arith, e)
  ];
}
