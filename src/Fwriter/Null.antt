-- ===== src/Fwriter/Null.antt =====
-- `__fwriter` of kernel/utils/__fwriter.c with NULL for the buffer.
use project_islay.Prelude.{
  ℕ, zero, suc, ◌+◌, ◌%◌, ◌^◌, ◌≡◌, refl, ap, Bool, ◌||◌, Option, none, some, List, [], ◌∷◌, ◌==◌,
  ltb, leb, inl, inr, ◌>>=◌, length, Bool-cases,
}
use project_islay.Prelude.Int.{ℤ}
use project_islay.Libc.{Bytes, CString}
use project_islay.Fwriter.Format.{
  to_buffer, Output, Arg, Writing, Round, finished, continues, plain_text, next_char, next_str,
  next_uint, next_int, maxrem, print_buff, print, emit, emit_checked, literal, convert, write_round,
  write_rounds, fwriter,
}

-- the same output with NULL for the buffer
abbrev pub without_buffer : {S : Type 0} → Output S → Output S
without_buffer out = record out { buff = none }

abbrev forget : {S : Type 0} → Writing S → Writing S
forget st = record st { output = without_buffer st.output }

abbrev forget_round : {S : Type 0} → Round S → Round S
forget_round (finished n out) = finished n (without_buffer out)
forget_round (continues st) = continues (forget st)

abbrev map_round : {S : Type 0} → Option (Round S) → Option (Round S)
map_round none = none
map_round (some r) = some (forget_round r)

module _ {S : Type 0} (putchar : ℕ → S → Bool × S) (numstr : Bytes) (len : ℕ) where
  emit-forget :
      (st : Writing S) (bytes : List ℕ) (format : CString) (args : List Arg)
      → emit putchar numstr (to_buffer len) (forget st) bytes format args
        ≡ forget_round (emit putchar numstr (to_buffer len) st bytes format args)
  unfolding emit print print_buff
  emit-forget st bytes format args =
      elim (Bool-cases (leb len ((length bytes + st.written) % 2 ^ 32))) [
        | inl e ↦ rw e refl
        | inr e ↦ rw e refl
      ]

  emit_checked-forget :
      (st : Writing S) (bytes : List ℕ) (format : CString) (args : List Arg)
      → emit_checked putchar numstr (to_buffer len) (forget st) bytes format args
        ≡ forget_round (emit_checked putchar numstr (to_buffer len) st bytes format args)
  unfolding emit_checked
  emit_checked-forget st bytes format args =
      elim (Bool-cases (ltb (maxrem st.written) (length bytes))) [
        | inl e ↦ rw e refl
        | inr e ↦ rw e (emit-forget st bytes format args)
      ]

  argument-forget :
      {A : Type 0} (o : Option A) (f g : A → Round S)
      → ((a : A) → f a ≡ forget_round (g a))
      → (o >>= λ a. some (f a)) ≡ map_round (o >>= λ a. some (g a))
  argument-forget none f g h = refl
  argument-forget (some a) f g h = ap some (h a)

  convert-forget :
      (st : Writing S) (c : ℕ) (rest : CString)
      → convert putchar numstr (to_buffer len) (forget st) c rest
        ≡ map_round (convert putchar numstr (to_buffer len) st c rest)
  unfolding convert
  convert-forget st c rest = elim (Bool-cases (c == 99)) [
    | inl e ↦
        rw e (
          argument-forget (next_char st.args) _ _ (λ p. emit_checked-forget st (p.0 ∷ []) rest p.1))
    | inr e99 ↦ elim (Bool-cases (c == 115)) [
      | inl e ↦
          rw (e99, e)
            (argument-forget (next_str st.args) _ _ (λ p. emit_checked-forget st p.0 rest p.1))
      | inr e115 ↦ elim (Bool-cases (c == 117 || c == 111 || c == 120)) [
        | inl e ↦
            rw (e99, e115, e)
              (argument-forget (next_uint st.args) _ _ (λ p. emit-forget st _ rest p.1))
        | inr eu ↦ elim (Bool-cases (c == 105)) [
          | inl e ↦
              rw (e99, e115, eu, e)
                (argument-forget (next_int st.args) _ _ (λ p. emit-forget st _ rest p.1))
          | inr ei ↦ rw (e99, e115, eu, ei) (ap some (emit_checked-forget st st.format [] st.args))
        ]
      ]
    ]
  ]

  literal-forget :
      (st : Writing S) (c : ℕ) (rest : CString)
      → literal putchar numstr (to_buffer len) (forget st) c rest
        ≡ forget_round (literal putchar numstr (to_buffer len) st c rest)
  unfolding literal
  literal-forget st c rest =
      emit_checked-forget st (c ∷ (plain_text rest).0) (plain_text rest).1 st.args

  write_round-forget :
      (output : Output S) (written : ℕ) (format : CString) (args : List Arg)
      → let st : Writing S = record {
        output = output;
        written = written;
        format = format;
        args = args;
      } in
        write_round putchar numstr (to_buffer len) (forget st)
        ≡ map_round (write_round putchar numstr (to_buffer len) st)
  unfolding write_round
  write_round-forget output written [] args = refl
  write_round-forget output written (c ∷ []) args =
      let st : Writing S = record {
        output = output;
        written = written;
        format = c ∷ [];
        args = args;
      } in
      elim (Bool-cases (c == 37)) [
        | inl e ↦ rw e (ap some (emit_checked-forget st (c ∷ []) [] args))
        | inr e ↦ rw e (ap some (literal-forget st c []))
      ]
  write_round-forget output written (c ∷ d ∷ after) args =
      let st : Writing S = record {
        output = output;
        written = written;
        format = c ∷ d ∷ after;
        args = args;
      } in
      elim (Bool-cases (c == 37)) [
        | inl e ↦ elim (Bool-cases (d == 37)) [
          | inl f ↦ rw (e, f) (ap some (literal-forget st d after))
          | inr f ↦ rw (e, f) (convert-forget st d after)
        ]
        | inr e ↦ rw e (ap some (literal-forget st c (d ∷ after)))
      ]

  bind-forget :
      (m : Option (Round S)) (f : Round S → Option (ℤ × Output S))
      → ((r : Round S) → f (forget_round r) ≡ (f r >>= λ p. some (p.0, without_buffer p.1)))
      → (map_round m >>= f) ≡ (m >>= f >>= λ p. some (p.0, without_buffer p.1))
  bind-forget none f h = refl
  bind-forget (some r) f h = h r

  abbrev go_on : ℕ → Round S → Option (ℤ × Output S)
  go_on fuel (finished n out) = some (n, out)
  go_on fuel (continues st') = write_rounds putchar numstr (to_buffer len) fuel st'

  after_round-forget :
      (fuel : ℕ)
      → ((st : Writing S)
          → write_rounds putchar numstr (to_buffer len) fuel (forget st) ≡ (
              write_rounds putchar numstr (to_buffer len) fuel st >>= λ r.
              some (r.0, without_buffer r.1)))
      → (r : Round S)
      → go_on fuel (forget_round r) ≡ (go_on fuel r >>= λ p. some (p.0, without_buffer p.1))
  after_round-forget fuel h (finished n out) = refl
  after_round-forget fuel h (continues st) = h st

  write_rounds-forget :
      (fuel : ℕ) (st : Writing S)
      → write_rounds putchar numstr (to_buffer len) fuel (forget st) ≡ (
          write_rounds putchar numstr (to_buffer len) fuel st >>= λ r.
          some (r.0, without_buffer r.1))
  unfolding write_rounds
  write_rounds-forget zero st = refl
  write_rounds-forget (suc fuel) st =
      rw (write_round-forget st.output st.written st.format st.args) (
        bind-forget (write_round putchar numstr (to_buffer len) st) _
          (λ r. after_round-forget fuel (write_rounds-forget fuel) r))

  -- With NULL for the buffer, `__fwriter` returns what it returns with any buffer of the same length, and the
  -- output is the same but for the buffer.
  pub fwriter_null :
      (out : Output S) (format : CString) (args : List Arg)
      → fwriter putchar numstr (to_buffer len) (without_buffer out) format args ≡ (
          fwriter putchar numstr (to_buffer len) out format args >>= λ r.
          some (r.0, without_buffer r.1))
  unfolding fwriter
  fwriter_null out format args = write_rounds-forget (length format + 1) _
