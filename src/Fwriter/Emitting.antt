-- ===== src/Fwriter/Emitting.antt =====
-- What one output of `__fwriter` of kernel/utils/__fwriter.c leaves, with a buffer as the target.
use mathlib.Core.List.{append_assoc}
use project_islay.Prelude.{
  ℕ, ◌+◌, ◌-◌, ◌%◌, ◌^◌, ◌≤◌, ◌<◌, ◌≡◌, refl, ◌∙◌, Bool, true, false, some, List, ◌∷◌, ltb, leb,
  inl, inr, length, arith, Bool-cases, leb→gt, leb→le, ltb→lt, ltb→ge, ◌++◌, sym, ap, length-append,
}
use project_islay.Prelude.Int.{ℤ, pos, negsuc}
use project_islay.Libc.{Bytes, CString}
use project_islay.Fwriter.Format.{
  to_buffer, Output, Arg, Writing, Round, finished, continues, int_max, copy_data, bytes_of,
  plain_text, maxrem, print_buff, print, emit, emit_checked, literal,
}
use project_islay.Fwriter.Rendering.{
  render, text_of, length-text_of, text_of-copy_data, render-plain_text,
}
use project_islay.Fwriter.Bounds.{
  accepts, length-bytes_of, plain_text-length, accepts-plain_text, copy_data_behind,
}

-- The buffer is `b` but for its first `len` bytes.
pub record IsInBuffer {S : Type 0} (b : Bytes) (len : ℕ) (out : Output S) : Type 0 where
  pub buffer : Bytes
  pub buff : out.buff ≡ some buffer
  pub behind : (k : ℕ) → len ≤ k → buffer k ≡ b k

-- The number that is returned is that of the bytes of the text, which stand in the buffer and leave a byte of it if
-- there are any; or an error, for a text that leaves none.
abbrev pub IsCount : List ℕ → ℕ → Bytes → ℤ → Type 0
IsCount text len buffer (pos n) = (n ≡ length text) × (text_of n buffer ≡ text) × (n ≤ len - 1)
IsCount text len buffer (negsuc n) = len ≤ length text

-- the loop before a round: what is written and what is to come make up the text
pub record IsWriting {S : Type 0} (numstr : Bytes) (text : List ℕ) (b : Bytes) (len : ℕ)
    (st : Writing S) : Type 0 where
  pub in_buffer : IsInBuffer b len st.output
  pub done : text_of st.written in_buffer.buffer ++ render numstr false st.format st.args ≡ text
  pub count : st.written ≤ len - 1
  pub accepted : accepts false st.format st.args ≡ true

-- the text is in the buffer
abbrev pub IsPrinted : {S : Type 0} → List ℕ → Bytes → ℕ → ℤ × Output S → Type 0
IsPrinted text b len (n, out) = (c : IsInBuffer b len out) × IsCount text len c.buffer n

-- a round that starts with `size` characters of the format to go
abbrev pub IsRound : {S : Type 0} → Bytes → List ℕ → Bytes → ℕ → ℕ → Round S → Type 0
IsRound numstr text b len size (finished n out) = IsPrinted text b len (n, out)
IsRound numstr text b len size (continues st) =
    IsWriting numstr text b len st × (length st.format < size)

module _ {S : Type 0} (putchar : ℕ → S → Bool × S) (numstr b : Bytes) (len : ℕ)
    (text : List ℕ) where
  -- the bytes of a round and what is to come after it make up what was to come before
  abbrev pub Renders : Writing S → List ℕ → CString → List Arg → Type 0
  Renders st bytes format args =
      bytes ++ render numstr false format args ≡ render numstr false st.format st.args

  round_fits :
      (st : Writing S) (bytes : List ℕ) (format : CString) (args : List Arg)
      → IsWriting numstr text b len st
      → Renders st bytes format args
      → st.written + length bytes ≤ length text
  round_fits st bytes format args w t = omega (
    arith,
    ap length w.done,
    ap length t,
    length-append (text_of st.written w.in_buffer.buffer) (render numstr false st.format st.args),
    length-append bytes (render numstr false format args),
    length-text_of st.written w.in_buffer.buffer,
  )

  pub emit-IsRound :
      (st : Writing S) (bytes : List ℕ) (format : CString) (args : List Arg)
      → IsWriting numstr text b len st
      → st.written + length bytes < 2 ^ 32
      → Renders st bytes format args
      → accepts false format args ≡ true
      → length format < length st.format
      → IsRound numstr text b len
          (length st.format)
          (emit putchar numstr (to_buffer len) st bytes format args)
  unfolding emit print print_buff
  emit-IsRound st bytes format args w small t a l =
      let c = w.in_buffer in
      let total = round_fits st bytes format args w t in
      elim (Bool-cases (leb len ((length bytes + st.written) % 2 ^ 32))) [
        | inl full ↦ rw full (c, omega (arith, small, total, leb→le _ _ full))
        | inr fits ↦
            rw (fits, c.buff)
              (
                record {
                  in_buffer = record {
                    buffer = copy_data st.written bytes c.buffer;
                    buff = refl;
                    behind = λ k h.
                        copy_data_behind st.written bytes c.buffer k
                          (omega (arith, h, small, leb→gt _ _ fits))
                        ∙ c.behind k h;
                  };
                  done =
                      ap (λ s. s ++ render numstr false format args)
                        (text_of-copy_data st.written bytes c.buffer)
                      ∙ append_assoc (text_of st.written c.buffer) bytes
                          (render numstr false format args)
                      ∙ ap (λ s. text_of st.written c.buffer ++ s) t
                      ∙ w.done;
                  count = omega (arith, small, leb→gt _ _ fits);
                  accepted = a;
                },
                l,
              )
      ]

  pub emit_checked-IsRound :
      (st : Writing S) (bytes : List ℕ) (format : CString) (args : List Arg)
      → len ≤ int_max
      → IsWriting numstr text b len st
      → Renders st bytes format args
      → accepts false format args ≡ true
      → length format < length st.format
      → IsRound numstr text b len
          (length st.format)
          (emit_checked putchar numstr (to_buffer len) st bytes format args)
  unfolding emit_checked
  emit_checked-IsRound st bytes format args h w t a l =
      elim (Bool-cases (ltb (maxrem st.written) (length bytes))) [
        | inl over ↦ rw over (
          w.in_buffer,
          omega (arith, h, w.count, ltb→lt _ _ over, round_fits st bytes format args w t),
        )
        | inr fits ↦
            rw fits
              (emit-IsRound st bytes format args w omega (arith, h, w.count, ltb→ge _ _ fits) t a l)
      ]

  pub literal-IsRound :
      (st : Writing S) (c : ℕ) (rest : CString)
      → len ≤ int_max
      → IsWriting numstr text b len st
      → c ∷ render numstr false rest st.args ≡ render numstr false st.format st.args
      → accepts false rest st.args ≡ true
      → length rest < length st.format
      → IsRound numstr text b len
          (length st.format)
          (literal putchar numstr (to_buffer len) st c rest)
  unfolding literal
  literal-IsRound st c rest h w t a l =
      emit_checked-IsRound st (c ∷ (plain_text rest).0) (plain_text rest).1 st.args h w
        (ap (λ s. c ∷ s) (sym (render-plain_text numstr rest st.args)) ∙ t)
        (accepts-plain_text rest st.args ∙ a) (omega (arith, l, plain_text-length rest))

  pub number-IsRound :
      (st : Writing S) (digits : ℕ × Bytes) (format : CString) (args : List Arg)
      → len ≤ int_max
      → digits.0 ≤ 33
      → IsWriting numstr text b len st
      → Renders st (bytes_of digits.0 digits.1) format args
      → accepts false format args ≡ true
      → length format < length st.format
      → IsRound numstr text b len
          (length st.format)
          (emit putchar numstr (to_buffer len) st (bytes_of digits.0 digits.1) format args)
  number-IsRound st digits format args h d w t a l =
      emit-IsRound st _ format args w
        (omega (arith, h, d, w.count, length-bytes_of digits.0 digits.1)) t a l
