-- ===== src/Fwriter/Format.antt =====
-- kernel/utils/__fwriter.c: `print` and `__fwriter`. A format is the list of its bytes before the final zero.
use project_islay.Prelude.{
  ℕ, zero, suc, ◌+◌, ◌-◌, ◌%◌, ◌^◌, Bool, true, false, ◌||◌, Option, none, some, List, [], ◌∷◌,
  ◌==◌, ltb, leb, ◌>>=◌, if◌then◌else◌, update, length,
}
use project_islay.Prelude.Int.{ℤ, pos, negsuc}
use project_islay.Libc.{Bytes, CString}
use project_islay.Fwriter.{itoa, signed_itoa}

-- `struct fwriter_ops`: a character device, or a buffer with its length
pub data FwriterOps : Type 0 where
  chardev : FwriterOps
  to_buffer : ℕ → FwriterOps

-- what is written to: the state of the device, and the buffer, `none` being NULL
pub record Output (S : Type 0) : Type 0 where
  pub device : S
  pub buff : Option Bytes

-- the arguments of the call
pub data Arg : Type 0 where
  char_arg : ℕ → Arg
  str_arg : CString → Arg
  uint_arg : ℕ → Arg
  int_arg : ℤ → Arg

abbrev pub int_max : ℕ
int_max = 2 ^ 31 - 1

-- `memcpy(buff + written, data, length)` from a list of bytes
unfoldable pub copy_data : ℕ → List ℕ → Bytes → Bytes
copy_data written [] buff = buff
copy_data written (b ∷ bytes) buff = copy_data (written + 1) bytes (update buff written b)

-- the bytes of `numstr` that are printed
unfoldable pub bytes_of : ℕ → Bytes → List ℕ
bytes_of zero numstr = []
bytes_of (suc len) numstr = numstr 0 ∷ bytes_of len (λ k. numstr (k + 1))

-- The characters up to the next `%`, and what follows.
unfoldable pub plain_text : CString → CString × CString
plain_text [] = ([], [])
plain_text (c ∷ format) =
    let rest = plain_text format in if c == 37 then ([], c ∷ format) else (c ∷ rest.0, rest.1)

-- the loop of `__fwriter` between two rounds
pub record Writing (S : Type 0) : Type 0 where
  pub output : Output S
  pub written : ℕ
  pub format : CString
  pub args : List Arg

pub data Round (S : Type 0) : Type 0 where
  finished : ℤ → Output S → Round S
  continues : Writing S → Round S

-- `va_arg`
unfoldable pub next_char : List Arg → Option (ℕ × List Arg)
next_char [] = none
next_char (a ∷ args) = elim a [ char_arg c ↦ some (c, args) | _ ↦ none ]

unfoldable pub next_str : List Arg → Option (CString × List Arg)
next_str [] = none
next_str (a ∷ args) = elim a [ str_arg s ↦ some (s, args) | _ ↦ none ]

unfoldable pub next_uint : List Arg → Option (ℕ × List Arg)
next_uint [] = none
next_uint (a ∷ args) = elim a [ uint_arg n ↦ some (n, args) | _ ↦ none ]

unfoldable pub next_int : List Arg → Option (ℤ × List Arg)
next_int [] = none
next_int (a ∷ args) = elim a [ int_arg n ↦ some (n, args) | _ ↦ none ]

-- the room that `written` leaves in an `int`, as a `size_t`
abbrev pub maxrem : ℕ → ℕ
maxrem written = (int_max + 2 ^ 32 - written) % 2 ^ 32

-- `putchar` returns false for EOF. `numstr` is what the stack holds there at first.
module _ {S : Type 0} (putchar : ℕ → S → Bool × S) (numstr : Bytes) (ops : FwriterOps) where
  unfoldable pub print_cdev : List ℕ → S → Bool × S
  print_cdev [] s = (true, s)
  print_cdev (b ∷ bytes) s =
      let put = putchar b s in
      let rest = print_cdev bytes put.1 in if put.0 then rest else (false, put.1)

  unfoldable pub print_buff : ℕ → ℕ → List ℕ → Output S → Bool × Output S
  unfolding copy_data
  print_buff buff_len written bytes out =
      let copied : Option Bytes = elim out.buff [
        | none ↦ none
        | some b ↦ some (copy_data written bytes b)
      ] in
      if leb buff_len ((length bytes + written) % 2 ^ 32)
      then (false, out)
      else (true, record out { buff = copied })

  unfoldable pub print : ℕ → List ℕ → Output S → Bool × Output S
  unfolding print_cdev print_buff
  print written bytes out = elim ops [
    | chardev ↦ let p = print_cdev bytes out.device in (p.0, record out { device = p.1 })
    | to_buffer len ↦ print_buff len written bytes out
  ]

  -- Data is printed, and the loop goes on with the format and the arguments that are left.
  unfoldable pub emit : Writing S → List ℕ → CString → List Arg → Round S
  emit st bytes format args =
      let p = print st.written bytes st.output in
      if p.0
      then continues (record {
        output = p.1;
        written = st.written + length bytes;
        format = format;
        args = args;
      })
      else finished (negsuc 0) p.1

  -- the same, if the count still fits
  unfoldable pub emit_checked : Writing S → List ℕ → CString → List Arg → Round S
  unfolding emit
  emit_checked st bytes format args =
      if ltb (maxrem st.written) (length bytes)
      then finished (negsuc 0) st.output
      else emit st bytes format args

  -- a character and what follows it up to the next `%`
  unfoldable pub literal : Writing S → ℕ → CString → Round S
  unfolding emit_checked plain_text
  literal st c rest = emit_checked st (c ∷ (plain_text rest).0) (plain_text rest).1 st.args

  -- after a `%` with the character `c` behind it: `c`, `s`, `u`, `o`, `x`, `i`, or none of these
  unfoldable pub convert : Writing S → ℕ → CString → Option (Round S)
  unfolding emit emit_checked itoa signed_itoa bytes_of next_char next_str next_uint next_int
  convert st c rest =
      if c == 99
      then (do (char, args) ← next_char st.args; some (emit_checked st (char ∷ []) rest args))
      else if c == 115
      then (do (str, args) ← next_str st.args; some (emit_checked st str rest args))
      else if c == 117 || c == 111 || c == 120
      then (do
        (n, args) ← next_uint st.args
        let digits = itoa n numstr 33 c
        some (emit st (bytes_of digits.0 digits.1) rest args))
      else if c == 105
      then (do
        (n, args) ← next_int st.args
        let digits = signed_itoa n numstr 33
        some (emit st (bytes_of digits.0 digits.1) rest args))
      else some (emit_checked st st.format [] st.args)

  -- one round of the loop
  unfoldable pub write_round : Writing S → Option (Round S)
  unfolding literal convert emit_checked
  write_round st = elim st.format [
    | [] ↦ some (finished (pos st.written) st.output)
    | c ∷ rest ↦
        if c == 37
        then elim rest [
          | [] ↦ some (emit_checked st st.format [] st.args)
          | d ∷ after ↦ if d == 37 then some (literal st d after) else convert st d after
        ]
        else some (literal st c rest)
  ]

  unfoldable pub write_rounds : ℕ → Writing S → Option (ℤ × Output S)
  unfolding write_round
  write_rounds zero st = none
  write_rounds (suc fuel) st = do
    r ← write_round st
    elim r [ finished n out ↦ some (n, out) | continues st' ↦ write_rounds fuel st' ]

  -- `__fwriter`: each round takes at least one character of the format.
  unfoldable pub fwriter : Output S → CString → List Arg → Option (ℤ × Output S)
  unfolding write_rounds
  fwriter out format args =
      write_rounds (length format + 1)
        (record { output = out; written = 0; format = format; args = args })
