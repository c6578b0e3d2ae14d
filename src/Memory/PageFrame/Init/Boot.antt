-- ===== src/Memory/PageFrame/Init/Boot.antt =====
-- Which frames are available after `page_frame_manager_init` of kernel/memory/page_frame_allocator.c.
use project_islay.Prelude.{
  ℕ, ◌+◌, ◌*◌, ◌/◌, ◌%◌, ◌<◌, ◌≡◌, refl, ap, ◌∙◌, Bool, true, false, ◌&&◌, ◌||◌, arith, ltb, leb,
  List, [], ◌∷◌, if◌then◌else◌, lt→ltb, Returns, returns, Returns-bind, Returns-mono,
}
use project_islay.Memory.PageFrame.{Frames, page_size, bitmap_size, u32}
use project_islay.Memory.PageFrame.Words.{frame_bit, Bytes}
use project_islay.Memory.PageFrame.Init.{
  MemorySegment, BootData, mark_segments, init_mark_segment, align_by_page_size,
  page_frame_manager_init,
}
use project_islay.Memory.PageFrame.Init.Marking.{IsMarked-lt, all_zeros}
use project_islay.Memory.PageFrame.Init.Segment.{init_mark_segment-IsMarked}

-- whole pages below 4 GiB
abbrev pub IsWhole : ℕ → ℕ → Type 0
IsWhole addr length = (addr % page_size ≡ 0) × (length % page_size ≡ 0) × (addr + length < u32)

abbrev pub AllWhole : List MemorySegment → Type 0
AllWhole [] = Unit
AllWhole (s ∷ segments) = IsWhole s.addr s.length × AllWhole segments

-- the frame lies in the segment, and in one of the segments
abbrev pub in_segment : ℕ → ℕ → ℕ → Bool
in_segment q addr length = leb (addr / page_size) q && ltb q ((addr + length) / page_size)

abbrev pub in_segments : ℕ → List MemorySegment → Bool
in_segments q [] = false
in_segments q (s ∷ segments) =
    let rest = in_segments q segments in in_segment q s.addr s.length || rest

-- A bitmap of bytes, with a count of 32 bits, whose bits are `bit`.
record IsBitmap (bit : ℕ → ℕ) (st : Frames) : Type 0 where
  bytes : Bytes st.bitmap
  small : st.n_available_frames < u32
  bits : (q : ℕ) → frame_bit st.bitmap q ≡ bit q

either_if :
    (p r : Bool) (v w : ℕ) → (if r then v else if p then v else w) ≡ (if p || r then v else w)
either_if true true v w = refl
either_if true false v w = refl
either_if false r v w = refl

mark_segments-IsBitmap :
    (segments : List MemorySegment) (bit : ℕ → ℕ) (st : Frames)
    → AllWhole segments
    → IsBitmap bit st
    → Returns
        (IsBitmap (λ q. if in_segments q segments then 1 else bit q))
        (mark_segments segments st)
unfolding mark_segments
mark_segments-IsBitmap [] bit st w b = returns b
mark_segments-IsBitmap (s ∷ segments) bit st (w, ws) b =
    Returns-bind (init_mark_segment-IsMarked st s.addr s.length true w.0 w.1 w.2 b.bytes b.small)
      (λ st' m.
        Returns-mono
          (mark_segments-IsBitmap segments (λ q. if in_segment q s.addr s.length then 1 else bit q)
            st' ws
            (record {
              bytes = m.bytes;
              small = IsMarked-lt true _ _ m;
              bits = λ q.
                  m.bits q ∙ ap (λ v. if in_segment q s.addr s.length then 1 else v) (b.bits q);
            }))
          (λ st'' k. record {
            bytes = k.bytes;
            small = k.small;
            bits = λ q.
                k.bits q
                ∙ either_if (in_segment q s.addr s.length) (in_segments q segments) 1 (bit q);
          }))

clear-IsBitmap :
    (bit : ℕ → ℕ) (st : Frames) (addr length : ℕ)
    → IsWhole addr length
    → IsBitmap bit st
    → Returns
        (IsBitmap (λ q. if in_segment q addr length then 0 else bit q))
        (init_mark_segment st addr length false)
clear-IsBitmap bit st addr length w b =
    Returns-mono (init_mark_segment-IsMarked st addr length false w.0 w.1 w.2 b.bytes b.small)
      (λ st' m. record {
        bytes = m.bytes;
        small = IsMarked-lt false _ _ m;
        bits = λ q. m.bits q ∙ ap (λ v. if in_segment q addr length then 0 else v) (b.bits q);
      })

-- the bitmap cleared, less what lies behind it
abbrev cleared : Frames → Frames
cleared st = record st { bitmap = λ i. if ltb i bitmap_size then 0 else st.bitmap i }

cleared-IsBitmap :
    (st : Frames)
    → Bytes st.bitmap
    → st.n_available_frames < u32
    → IsBitmap (frame_bit (cleared st).bitmap) (cleared st)
cleared-IsBitmap st b n = record { bytes = λ i. ground (arith, b i); small = n; bits = λ q. refl }

cleared-zero : (st : Frames) (q : ℕ) → q < bitmap_size * 8 → frame_bit (cleared st).bitmap q ≡ 0
cleared-zero st q h = rw (lt→ltb (q / 8) bitmap_size (omega (arith, h))) (all_zeros (q % 8))

-- Where the segments of the memory map, the kernel and the initial ramdisk are whole pages below 4 GiB,
-- `page_frame_manager_init` returns, and then a frame of the first 2 GiB is available if it lies in a segment
-- of the memory map and neither in the kernel nor in the initial ramdisk, and otherwise not.
pub page_frame_manager_init_lem :
    (kernel_start kernel_size : ℕ) (st : Frames) (boot_data : BootData)
    → Bytes st.bitmap
    → st.n_available_frames < u32
    → AllWhole boot_data.mmap_segments
    → IsWhole kernel_start (align_by_page_size kernel_size)
    → IsWhole boot_data.initrd_start (align_by_page_size boot_data.initrd_size)
    → Returns
        (λ r.
          (q : ℕ)
          → q < bitmap_size * 8
          → frame_bit r.0.bitmap q ≡ (
              if in_segment q kernel_start (align_by_page_size kernel_size)
                || in_segment q boot_data.initrd_start (align_by_page_size boot_data.initrd_size)
              then 0
              else if in_segments q boot_data.mmap_segments
              then 1
              else 0))
        (page_frame_manager_init kernel_start kernel_size st boot_data)
unfolding page_frame_manager_init
page_frame_manager_init_lem kernel_start kernel_size st boot_data b n w k i =
    Returns-bind
      (mark_segments-IsBitmap boot_data.mmap_segments _ (cleared st) w (cleared-IsBitmap st b n))
      (λ st1 m1.
        Returns-bind (clear-IsBitmap _ st1 kernel_start (align_by_page_size kernel_size) k m1)
          (λ st2 m2.
            Returns-bind
              (clear-IsBitmap _ st2 boot_data.initrd_start
                (align_by_page_size boot_data.initrd_size) i m2)
              (λ st3 m3. returns (λ q h.
                m3.bits q
                ∙ either_if _
                    (in_segment q boot_data.initrd_start (align_by_page_size boot_data.initrd_size))
                    0 _
                ∙ ap
                    (λ v.
                      if in_segment q kernel_start (align_by_page_size kernel_size)
                        || in_segment q boot_data.initrd_start
                            (align_by_page_size boot_data.initrd_size)
                      then 0
                      else if in_segments q boot_data.mmap_segments
                      then 1
                      else v)
                    (cleared-zero st q h)))))
