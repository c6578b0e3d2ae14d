-- ===== src/Devices/TextMode/Writing.antt =====
-- Writing and deleting on a display of kernel/devices/display/text_mode_display.c.
use mathlib.Core.Path.{subst}
use project_islay.Prelude.{
  Bool-cases, ℕ, zero, suc, ◌+◌, ◌-◌, ◌*◌, ◌<◌, ◌≤◌, ◌≡◌, ◌≢◌, refl, sym, ap, ◌∙◌, true, false, leb,
  inl, inr, ◌⊎◌, if◌then◌else◌, arith, update, update_at, update_apart, ==-false, ℕ_discrete,
}
use project_islay.Libc.Memory.{within}
use project_islay.Devices.TextMode.{
  TextModeDevice, text_mode_cols, text_buff_idx, text_mode_char, write_char, write_chars,
  erase_char, Displays, put_device, move_cursor, text_mode_write, text_mode_del,
}
use project_islay.Devices.TextMode.Typing.{Shows, type_text, screen_of, write_chars-Shows}
use project_islay.Devices.TextMode.Screen.{
  IsOnScreen, IsWithin, write_char-cursor, write_char-cells, write_char-inside,
}

-- How `n` characters of `str` from `i` on are written: `count` is how far.
pub record IsWritten (str : ℕ → ℕ) (i n : ℕ) (d : TextModeDevice) (count : ℕ) (d' : TextModeDevice)
    : Type 0 where
  pub least : i ≤ count
  pub most : count ≤ i + n
  pub text : (k : ℕ) → i ≤ k → k < count → str k ≢ 0
  pub stop : (count ≡ i + n) ⊎ (str count ≡ 0)
  pub cursor : IsOnScreen d'
  pub cells : IsWithin d.cells d'.cells

write_chars-IsWritten :
    (str : ℕ → ℕ) (i n : ℕ) (d : TextModeDevice)
    → IsOnScreen d
    → IsWritten str i n d (write_chars str i n d).0 (write_chars str i n d).1
unfolding write_chars
write_chars-IsWritten str i zero d h = record {
  least = omega arith;
  most = omega arith;
  text = λ k l g. absurd (omega (arith, l, g));
  stop = inl (omega arith);
  cursor = h;
  cells = λ x far. refl;
}
write_chars-IsWritten str i (suc n) d h = elim (ℕ_discrete (str i) 0) [
  | yes z ↦ rw z (record {
    least = omega arith;
    most = omega arith;
    text = λ k l g. absurd (omega (arith, l, g));
    stop = inr z;
    cursor = h;
    cells = λ x far. refl;
  })
  | no nz ↦ rw (==-false (str i) 0 nz) (
      let rest =
        write_chars-IsWritten str (i + 1) n (write_char d (str i))
          (write_char-cursor d (str i) h) in
      record {
        least = omega (arith, rest.least);
        most = omega (arith, rest.most);
        text = λ k l g. elim (ℕ_discrete k i) [
          | yes e ↦ rw e nz
          | no ne ↦ rest.text k (omega (arith, l, ne)) g
        ];
        stop = elim rest.stop [ inl e ↦ inl (omega (arith, e)) | inr e ↦ inr e ];
        cursor = rest.cursor;
        cells = λ x far. rest.cells x far ∙ write_char-cells d (str i) h x far;
      })
]

-- `n` characters stand from the cursor of `d` on, and the cursor behind them.
abbrev IsTyped : (ℕ → ℕ) → ℕ → ℕ → TextModeDevice → TextModeDevice → Type 0
IsTyped str i n d d' =
    (d'.index_row ≡ d.index_row)
    × (d'.index_col ≡ d.index_col + n)
    × ((x : ℕ)
        → within (text_mode_cols * d.index_row + d.index_col) n x ≡ false
        → d'.cells x ≡ d.cells x)

write_chars-IsTyped :
    (str : ℕ → ℕ) (i n : ℕ) (d : TextModeDevice)
    → IsOnScreen d
    → d.index_col + n < text_mode_cols
    → ((k : ℕ) → i ≤ k → k < i + n → (str k ≢ 0) × (str k ≢ 10))
    → IsTyped str i n d (write_chars str i n d).1
unfolding write_chars
write_chars-IsTyped str i zero d h l p = (refl, omega arith, λ x o. refl)
write_chars-IsTyped str i (suc n) d h l p =
    let (nz, nl) = p i (omega arith) (omega arith) in
    let step = write_char-inside d (str i) h (omega (arith, l)) nl in
    let row : (write_char d (str i)).index_row ≡ d.index_row = ap (λ e. e.index_row) step in
    let col : (write_char d (str i)).index_col ≡ d.index_col + 1 = ap (λ e. e.index_col) step in
    let rest =
      write_chars-IsTyped str (i + 1) n (write_char d (str i)) (write_char-cursor d (str i) h)
        (omega (arith, l, col)) (λ k a b. p k (omega (arith, a)) (omega (arith, b))) in
    rw (==-false (str i) 0 nz) (
      rest.0 ∙ row,
      omega (arith, rest.1, col),
      λ x o.
          rest.2 x (ground (arith, o, row, col))
          ∙ ap (λ e. e.cells x) step
          ∙ update_apart d.cells _ x _ (ground (arith, o)),
    )

le→leb : (a b : ℕ) → a ≤ b → leb a b ≡ true
le→leb a b h = ground (arith, h)

erase_char-back :
    (d : TextModeDevice)
    → IsOnScreen d
    → 1 ≤ d.index_col
    → erase_char d ≡ record d {
      index_col = d.index_col - 1;
      cells = update d.cells (text_mode_cols * d.index_row + (d.index_col - 1)) (text_mode_char 32);
    }
unfolding erase_char
erase_char-back d (r, l) h =
    let idx : text_buff_idx d.index_row (d.index_col - 1)
        ≡ text_mode_cols * d.index_row + (d.index_col - 1) =
      omega (arith, r, l, h) in
    rw (le→leb 1 d.index_col h, idx) refl

text_mode_del-step :
    (n : ℕ) (s : Displays) (i : ℕ)
    → 1 ≤ (s.device i).index_col
    → text_mode_del (suc n) s i
      ≡ text_mode_del n
          (move_cursor (s.device i).ops (put_device s i (erase_char (s.device i))) i)
          i
unfolding text_mode_del
text_mode_del-step n s i h =
    let moved = move_cursor (s.device i).ops (put_device s i (erase_char (s.device i))) i in
    ap (λ b. text_mode_del n (if b then moved else s) i) (le→leb 1 (s.device i).index_col h)

-- Deleting `n` characters puts blanks before the cursor, which it moves in front of them.
abbrev IsErased : ℕ → TextModeDevice → TextModeDevice → Type 0
IsErased n d d' =
    (d'.index_row ≡ d.index_row)
    × (d'.index_col + n ≡ d.index_col)
    × ((x : ℕ)
        → d'.cells x ≡ (
            if within (text_mode_cols * d.index_row + d'.index_col) n x
            then text_mode_char 32
            else d.cells x))

text_mode_del-IsErased :
    (n : ℕ) (s : Displays) (i : ℕ)
    → IsOnScreen (s.device i)
    → n ≤ (s.device i).index_col
    → IsErased n (s.device i) ((text_mode_del n s i).device i)
unfolding text_mode_del move_cursor put_device
text_mode_del-IsErased zero s i h l = (refl, omega arith, λ x. ground arith)
text_mode_del-IsErased (suc n) s i h l =
    let d = s.device i in
    let s' = move_cursor d.ops (put_device s i (erase_char d)) i in
    let back = update_at s.device i (erase_char d) ∙ erase_char-back d h (omega (arith, l)) in
    let row : (s'.device i).index_row ≡ d.index_row = ap (λ e. e.index_row) back in
    let col : (s'.device i).index_col ≡ d.index_col - 1 = ap (λ e. e.index_col) back in
    let rest =
      text_mode_del-IsErased n s' i (omega (arith, h.0, row), omega (arith, h.1, col))
        (omega (arith, l, col)) in
    subst (λ t. IsErased (suc n) d (t.device i)) (sym (text_mode_del-step n s i (omega (arith, l))))
      (
        rest.0 ∙ row,
        omega (arith, rest.1, col, l),
        λ x. ground (arith, rest.1, rest.2 x, row, col, l, ap (λ e. e.cells x) back),
      )

write_chars-typed :
    (str : ℕ → ℕ) (n : ℕ) (d : TextModeDevice)
    → IsOnScreen d
    → Shows (type_text str 0 (write_chars str 0 n d).0 (screen_of d)) (write_chars str 0 n d).1
write_chars-typed str n d h =
    let (count, e, shows) =
      write_chars-Shows str 0 n d (screen_of d) h (record { position = refl; cell = λ x. refl }) in
    let same : (write_chars str 0 n d).0 ≡ count = omega (arith, e) in
    subst (λ k. Shows (type_text str 0 k (screen_of d)) (write_chars str 0 n d).1) (sym same) shows

-- `text_mode_write` on a display whose cursor is on the screen writes the characters up to the first zero, at most `n`
-- of them, and returns their number. The display then shows what it showed before with these characters typed one
-- after the other: each goes to the next cell, a new line to the next row, and past the last row every row moves one
-- up over a blank one. The cursor stays on the screen, and what lies behind the screen and the other displays are as
-- they were.
pub text_mode_write-IsWritten :
    (s : Displays) (i : ℕ) (str : ℕ → ℕ) (n : ℕ)
    → IsOnScreen (s.device i)
    → IsWritten str 0 n
        (s.device i)
        (text_mode_write s i str n).0
        ((text_mode_write s i str n).1.device i)
      × Shows
          (type_text str 0 (text_mode_write s i str n).0 (screen_of (s.device i)))
          ((text_mode_write s i str n).1.device i)
      × ((j : ℕ) → j ≢ i → (text_mode_write s i str n).1.device j ≡ s.device j)
unfolding text_mode_write move_cursor put_device
text_mode_write-IsWritten s i str n h =
    let written = sym (update_at s.device i (write_chars str 0 n (s.device i)).1) in
    let count = (write_chars str 0 n (s.device i)).0 in
    (
      subst (IsWritten str 0 n (s.device i) count) written
          (write_chars-IsWritten str 0 n (s.device i) h),
      subst (Shows (type_text str 0 count (screen_of (s.device i)))) written
          (write_chars-typed str n (s.device i) h),
      λ j o. update_apart s.device i j _ o,
    )

-- Deleting as many characters as were written, which is how the terminal takes its input line away, restores the
-- cursor and leaves blanks where they stood and all other cells as they were. The characters are no zeros and no
-- new lines, and end in the row of the cursor, before its last column.
pub write-del :
    (s : Displays) (i : ℕ) (str : ℕ → ℕ) (n : ℕ)
    → IsOnScreen (s.device i)
    → (s.device i).index_col + n < text_mode_cols
    → ((k : ℕ) → k < n → (str k ≢ 0) × (str k ≢ 10))
    → let before = s.device i in
      let after = (text_mode_del n (text_mode_write s i str n).1 i).device i in
      (after.index_row ≡ before.index_row)
      × (after.index_col ≡ before.index_col)
      × ((x : ℕ)
          → after.cells x ≡ (
              if within (text_mode_cols * before.index_row + before.index_col) n x
              then text_mode_char 32
              else before.cells x))
unfolding text_mode_write move_cursor put_device
write-del s i str n h l p =
    let d = s.device i in
    let s' = (text_mode_write s i str n).1 in
    let same : s'.device i ≡ (write_chars str 0 n d).1 =
      update_at s.device i (write_chars str 0 n d).1 in
    let typed = write_chars-IsTyped str 0 n d h l (λ k a b. p k (omega (arith, b))) in
    let row : (s'.device i).index_row ≡ d.index_row = ap (λ e. e.index_row) same ∙ typed.0 in
    let col : (s'.device i).index_col ≡ d.index_col + n = ap (λ e. e.index_col) same ∙ typed.1 in
    let erased =
      text_mode_del-IsErased n s' i (omega (arith, h.0, row), omega (arith, l, col))
        (omega (arith, col)) in
    let start : ((text_mode_del n s' i).device i).index_col ≡ d.index_col =
      omega (arith, erased.1, col) in
    (
      erased.0 ∙ row,
      start,
      λ x. elim (Bool-cases (within (text_mode_cols * d.index_row + d.index_col) n x)) [
        | inl w ↦ ground (arith, w, row, start, erased.2 x)
        | inr w ↦ ground (arith, w, row, start, erased.2 x, typed.2 x w, ap (λ e. e.cells x) same)
      ],
    )
