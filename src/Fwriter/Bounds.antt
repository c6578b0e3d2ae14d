-- ===== src/Fwriter/Bounds.antt =====
-- What `__fwriter` of kernel/utils/__fwriter.c writes to a buffer.
use mathlib.Core.Path.{subst}
use project_islay.Prelude.{
  ℕ, zero, suc, ◌+◌, ◌-◌, ◌/◌, ◌%◌, ◌≤◌, ◌<◌, ◌≡◌, refl, ap, ◌∙◌, Bool, true, false, ◌&&◌, ◌||◌,
  none, some, List, [], ◌∷◌, ◌==◌, ltb, inl, inr, if◌then◌else◌, length, update, update_apart,
  arith, Bool-cases,
}
use project_islay.Prelude.Int.{ℤ, pos, negsuc}
use project_islay.Libc.{Bytes, CString}
use project_islay.Fwriter.{digit_char, write_digits, itoa, signed_itoa}
use project_islay.Fwriter.Format.{
  Arg, copy_data, bytes_of, plain_text, next_char, next_str, next_uint, next_int,
}

-- Each conversion has its argument. `after` says that a `%` has been read.
unfoldable pub accepts : Bool → CString → List Arg → Bool
unfolding next_char next_str next_uint next_int
accepts after [] args = true
accepts false (c ∷ format) args = accepts (c == 37) format args
accepts true (c ∷ format) args =
    if c == 37
    then accepts false format args
    else if c == 99
    then elim (next_char args) [ none ↦ false | some p ↦ accepts false format p.1 ]
    else if c == 115
    then elim (next_str args) [ none ↦ false | some p ↦ accepts false format p.1 ]
    else if c == 117 || c == 111 || c == 120
    then elim (next_uint args) [ none ↦ false | some p ↦ accepts false format p.1 ]
    else if c == 105
    then elim (next_int args) [ none ↦ false | some p ↦ accepts false format p.1 ]
    else true

write_digits-end : (room base tmp i : ℕ) (b : Bytes) → (write_digits room base tmp i b).0 ≤ i + room
unfolding write_digits
write_digits-end zero base tmp i b = omega arith
write_digits-end (suc room) base tmp i b =
    let r =
      write_digits-end room base (tmp / base) (i + 1) (update b i (digit_char (tmp % base))) in
    elim (Bool-cases (tmp == 0)) [ inl e ↦ rw e (omega arith) | inr e ↦ rw e (omega (arith, r)) ]

pub itoa-end : (n : ℕ) (b : Bytes) (len radix : ℕ) → 1 < len → (itoa n b len radix).0 < len
unfolding itoa
itoa-end n b len radix h = elim (Bool-cases (n == 0 && ltb 1 len)) [
  | inl e ↦ rw e (omega (arith, h))
  | inr e ↦ rw e (omega (arith, h, write_digits-end (len - 1) _ n 0 b))
]

pub signed_itoa-end : (n : ℤ) (b : Bytes) → (signed_itoa n b 33).0 ≤ 33
unfolding signed_itoa
signed_itoa-end (pos n) b = omega (arith, itoa-end n b 33 117 (omega arith))
signed_itoa-end (negsuc n) b = omega (arith, itoa-end (n + 1) _ 32 117 (omega arith))

pub length-bytes_of : (n : ℕ) (b : Bytes) → length (bytes_of n b) ≡ n
unfolding bytes_of
length-bytes_of zero b = refl
length-bytes_of (suc n) b = ap suc (length-bytes_of n _)

pub plain_text-length : (f : CString) → length (plain_text f).1 ≤ length f
unfolding plain_text
plain_text-length [] = omega arith
plain_text-length (c ∷ f) =
    let r = plain_text-length f in
    elim (Bool-cases (c == 37)) [ inl e ↦ rw e (omega arith) | inr e ↦ rw e (omega (arith, r)) ]

pub accepts-cons :
    (c : ℕ) (f : CString) (args : List Arg) {after : Bool}
    → (c == 37) ≡ after
    → accepts false (c ∷ f) args ≡ true
    → accepts after f args ≡ true
unfolding accepts
accepts-cons c f args e a = subst (λ after. accepts after f args ≡ true) e a

pub accepts-percent :
    (d : ℕ) (f : CString) (args : List Arg)
    → (d == 37) ≡ true
    → accepts true (d ∷ f) args ≡ true
    → accepts false f args ≡ true
unfolding accepts
accepts-percent d f args e a = rw e at a

pub accepts-plain_text :
    (f : CString) (args : List Arg) → accepts false (plain_text f).1 args ≡ accepts false f args
unfolding plain_text accepts
accepts-plain_text [] args = refl
accepts-plain_text (c ∷ f) args =
    let r = accepts-plain_text f args in
    elim (Bool-cases (c == 37)) [ inl e ↦ rw e (ap (λ a. accepts a f args) e) | inr e ↦ rw e r ]

pub copy_data_behind :
    (written : ℕ) (bytes : List ℕ) (b : Bytes) (k : ℕ)
    → written + length bytes ≤ k
    → copy_data written bytes b k ≡ b k
unfolding copy_data
copy_data_behind written [] b k h = refl
copy_data_behind written (x ∷ bytes) b k h =
    copy_data_behind (written + 1) bytes (update b written x) k (omega (arith, h))
    ∙ update_apart b written k x (λ e. absurd (omega (arith, e, h)))
