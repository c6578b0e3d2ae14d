-- ===== src/Fwriter/Rendering.antt =====
-- The text that a format and its arguments stand for, read one character at a time, as the reference for
-- `__fwriter` of kernel/utils/__fwriter.c.
use mathlib.Core.List.{append_assoc, append-nil}
use project_islay.Prelude.{
  ℕ, zero, suc, ◌+◌, ◌≤◌, ◌≡◌, refl, sym, ap, ◌∙◌, Bool, true, false, ◌||◌, none, some, List, [],
  ◌∷◌, ◌++◌, ◌==◌, inl, inr, if◌then◌else◌, length, length-append, update, update_at, update_apart,
  arith, Bool-cases,
}
use project_islay.Libc.{Bytes, CString}
use project_islay.Fwriter.{itoa, signed_itoa}
use project_islay.Fwriter.Format.{
  Arg, copy_data, bytes_of, plain_text, next_char, next_str, next_uint, next_int,
}

-- `after` says that a `%` has been read. A character behind it that is no conversion ends the format: it is shown
-- with the `%` and all that follows.
unfoldable pub render : Bytes → Bool → CString → List Arg → List ℕ
unfolding itoa signed_itoa bytes_of next_char next_str next_uint next_int
render numstr false [] args = []
render numstr true [] args = 37 ∷ []
render numstr false (c ∷ format) args =
    let behind = render numstr true format args in
    let plain = render numstr false format args in if c == 37 then behind else c ∷ plain
render numstr true (c ∷ format) args =
    if c == 37
    then 37 ∷ render numstr false format args
    else if c == 99
    then elim (next_char args) [ none ↦ [] | some p ↦ p.0 ∷ render numstr false format p.1 ]
    else if c == 115
    then elim (next_str args) [ none ↦ [] | some p ↦ p.0 ++ render numstr false format p.1 ]
    else if c == 117 || c == 111 || c == 120
    then elim (next_uint args) [
      | none ↦ []
      | some p ↦
          bytes_of (itoa p.0 numstr 33 c).0 (itoa p.0 numstr 33 c).1
          ++ render numstr false format p.1
    ]
    else if c == 105
    then elim (next_int args) [
      | none ↦ []
      | some p ↦
          bytes_of (signed_itoa p.0 numstr 33).0 (signed_itoa p.0 numstr 33).1
          ++ render numstr false format p.1
    ]
    else 37 ∷ c ∷ format

-- the first `n` bytes of a buffer
unfoldable pub text_of : ℕ → Bytes → List ℕ
text_of zero b = []
text_of (suc n) b = text_of n b ++ b n ∷ []

text_of-update : (n i : ℕ) (b : Bytes) (v : ℕ) → n ≤ i → text_of n (update b i v) ≡ text_of n b
unfolding text_of
text_of-update zero i b v h = refl
text_of-update (suc n) i b v h =
    rw
      (
        text_of-update n i b v (omega (arith, h)),
        update_apart b i n v (λ e. absurd (omega (arith, e, h))),
      )
      refl

-- Copying behind a text appends to it.
pub text_of-copy_data :
    (written : ℕ) (bytes : List ℕ) (b : Bytes)
    → text_of (written + length bytes) (copy_data written bytes b) ≡ text_of written b ++ bytes
unfolding text_of copy_data
text_of-copy_data written [] b =
    let none_more : written + 0 ≡ written = omega arith in
    ap (λ n. text_of n b) none_more ∙ sym (append-nil (text_of written b))
text_of-copy_data written (x ∷ bytes) b =
    let last : text_of (suc written) (update b written x) ≡ text_of written b ++ x ∷ [] =
      rw (text_of-update written written b x (omega arith), update_at b written x) refl in
    ap (λ n. text_of n (copy_data (written + 1) bytes (update b written x)))
      {x = written + length (x ∷ bytes)} {y = written + 1 + length bytes} (omega arith)
    ∙ text_of-copy_data (written + 1) bytes (update b written x)
    ∙ ap (λ n. text_of n (update b written x) ++ bytes) {x = written + 1} {y = suc written}
        (omega arith)
    ∙ ap (λ t. t ++ bytes) last
    ∙ append_assoc (text_of written b) (x ∷ []) bytes

module _ (numstr : Bytes) (c : ℕ) (f : CString) (args : List Arg) where
  pub render-percent :
      (c == 37) ≡ true → render numstr false (c ∷ f) args ≡ render numstr true f args
  unfolding render
  render-percent e =
      ap (λ b. if b then render numstr true f args else c ∷ render numstr false f args) e

  pub render-plain :
      (c == 37) ≡ false → render numstr false (c ∷ f) args ≡ c ∷ render numstr false f args
  unfolding render
  render-plain e =
      ap (λ b. if b then render numstr true f args else c ∷ render numstr false f args) e

  pub render-escaped :
      (c == 37) ≡ true → render numstr true (c ∷ f) args ≡ 37 ∷ render numstr false f args
  unfolding render
  render-escaped e = rw e refl

  module _ (n : (c == 37) ≡ false) where
    pub render-char :
        (c == 99) ≡ true
        → render numstr true (c ∷ f) args
          ≡ elim (next_char args) [ none ↦ [] | some p ↦ (p.0 ∷ []) ++ render numstr false f p.1 ]
    unfolding render
    render-char e = rw (n, e) refl

    pub render-str :
        (c == 99) ≡ false
        → (c == 115) ≡ true
        → render numstr true (c ∷ f) args
          ≡ elim (next_str args) [ none ↦ [] | some p ↦ p.0 ++ render numstr false f p.1 ]
    unfolding render
    render-str e99 e = rw (n, e99, e) refl

    pub render-uint :
        (c == 99) ≡ false
        → (c == 115) ≡ false
        → (c == 117 || c == 111 || c == 120) ≡ true
        → render numstr true (c ∷ f) args ≡ elim (next_uint args) [
          | none ↦ []
          | some p ↦
              bytes_of (itoa p.0 numstr 33 c).0 (itoa p.0 numstr 33 c).1
              ++ render numstr false f p.1
        ]
    unfolding render
    render-uint e99 e115 e = rw (n, e99, e115, e) refl

    pub render-int :
        (c == 99) ≡ false
        → (c == 115) ≡ false
        → (c == 117 || c == 111 || c == 120) ≡ false
        → (c == 105) ≡ true
        → render numstr true (c ∷ f) args ≡ elim (next_int args) [
          | none ↦ []
          | some p ↦
              bytes_of (signed_itoa p.0 numstr 33).0 (signed_itoa p.0 numstr 33).1
              ++ render numstr false f p.1
        ]
    unfolding render
    render-int e99 e115 eu e = rw (n, e99, e115, eu, e) refl

    pub render-other :
        (c == 99) ≡ false
        → (c == 115) ≡ false
        → (c == 117 || c == 111 || c == 120) ≡ false
        → (c == 105) ≡ false
        → render numstr true (c ∷ f) args ≡ 37 ∷ c ∷ f
    unfolding render
    render-other e99 e115 eu e = rw (n, e99, e115, eu, e) refl

pub same_char : (a b : ℕ) → (a == b) ≡ true → a ≡ b
same_char a b h = ground (arith, h)

pub length-text_of : (n : ℕ) (b : Bytes) → length (text_of n b) ≡ n
unfolding text_of
length-text_of zero b = refl
length-text_of (suc n) b = omega (arith, length-append (text_of n b) (b n ∷ []), length-text_of n b)

pub render-plain_text :
    (numstr : Bytes) (f : CString) (args : List Arg)
    → render numstr false f args ≡ (plain_text f).0 ++ render numstr false (plain_text f).1 args
unfolding plain_text render
render-plain_text numstr [] args = refl
render-plain_text numstr (c ∷ f) args =
    let r = render-plain_text numstr f args in
    elim (Bool-cases (c == 37)) [
      | inl e ↦
          let split : plain_text (c ∷ f) ≡ ([], c ∷ f) =
            ap (λ b. if b then ([], c ∷ f) else (c ∷ (plain_text f).0, (plain_text f).1)) e in
          ap (λ (p : CString × CString). p.0 ++ render numstr false p.1 args) (sym split)
      | inr e ↦
          let split : plain_text (c ∷ f) ≡ (c ∷ (plain_text f).0, (plain_text f).1) =
            ap (λ b. if b then ([], c ∷ f) else (c ∷ (plain_text f).0, (plain_text f).1)) e in
          render-plain numstr c f args e
          ∙ ap (λ t. c ∷ t) r
          ∙ ap (λ (p : CString × CString). p.0 ++ render numstr false p.1 args) (sym split)
    ]
