-- ===== src/Devices/Tty/Line.antt =====
-- The buffer of a terminal as the committed bytes and the line that is being edited.
use native.Mathlib.Nat.{mod-lt}
use mathlib.Core.Path.{subst}
use mathlib.Core.List.{append_assoc, append-nil}
use project_islay.Prelude.{
  ℕ, zero, suc, ◌+◌, ◌%◌, ◌<◌, ◌≡◌, ◌≢◌, refl, sym, ap, ◌∙◌, true, false, Option, some, List, [],
  ◌∷◌, ◌++◌, update, length, length-append, take, drop, arith, ==-true, ==-false, Returns, returns,
  Returns-bind, Returns-mono, ◌>>=◌,
}
use project_islay.RingBuffer.Queue.{Holds, Holds-push}
use project_islay.Devices.Tty.{
  Tty, page_size, is_canonical, is_open, buffer_full, put_char, append_char, tty_line_len,
  commit_line, delete_char, read_chars,
}

-- An open terminal in canonical mode, whose buffer holds the committed bytes and then the line.
pub record IsEditing (tty : Tty) (done line : List ℕ) : Type 0 where
  pub canonical : is_canonical tty ≡ true
  pub opened : is_open tty ≡ true
  pub buffer : ℕ → ℕ
  pub allocated : tty.char_buffer ≡ some buffer
  pub read : tty.char_buffer_read_idx < page_size
  pub commit : tty.char_buffer_commit_idx ≡ (tty.char_buffer_read_idx + length done) % page_size
  pub write :
      tty.char_buffer_write_idx ≡ (tty.char_buffer_read_idx + length (done ++ line)) % page_size
  pub bound : length (done ++ line) < page_size
  pub held : Holds buffer page_size tty.char_buffer_read_idx (done ++ line)

-- The buffer is full when it holds all bytes but one of a page.
buffer_full_iff :
    (tty : Tty) (done line : List ℕ)
    → IsEditing tty done line
    → (length (done ++ line) + 1 < page_size → buffer_full tty ≡ false)
      × (length (done ++ line) + 1 ≡ page_size → buffer_full tty ≡ true)
unfolding buffer_full
buffer_full_iff tty done line e =
    let n = length (done ++ line) in
    (
      λ room. rw e.canonical (==-false _ _ (λ k. absurd (omega (arith, k, e.write, e.read, room)))),
      λ full. rw e.canonical (==-true _ _ (omega (arith, e.write, e.read, full))),
    )

-- `tty_line_len` is the length of the line.
pub tty_line_len_lem :
    (tty : Tty) (done line : List ℕ) → IsEditing tty done line → tty_line_len tty ≡ length line
unfolding tty_line_len
tty_line_len_lem tty done line e =
    omega (arith, e.write, e.commit, e.read, e.bound, length-append done line)

-- the bytes that are held, if only the list of them is written otherwise
Holds-list :
    (f : ℕ → ℕ) (i : ℕ) {xs ys : List ℕ} → xs ≡ ys → Holds f page_size i xs → Holds f page_size i ys
Holds-list f i e h = subst (λ l. Holds f page_size i l) e h

put_char_lem :
    (tty : Tty) (c : ℕ) (buffer : ℕ → ℕ)
    → is_canonical tty ≡ true
    → tty.char_buffer ≡ some buffer
    → put_char tty c
      ≡ some (record tty {
        char_buffer = some (update buffer tty.char_buffer_write_idx c);
        char_buffer_write_idx = (tty.char_buffer_write_idx + 1) % page_size;
      })
unfolding put_char
put_char_lem tty c buffer canonical allocated = simp (allocated, canonical)

-- A byte goes to the end of the line if the buffer has room.
pub append_char-IsEditing :
    (tty : Tty) (done line : List ℕ) (c : ℕ)
    → IsEditing tty done line
    → length (done ++ line) + 1 < page_size
    → Returns (λ t. IsEditing t done (line ++ c ∷ [])) (append_char tty c)
unfolding append_char
append_char-IsEditing tty done line c e room =
    let all = done ++ line in
    let assoc : all ++ c ∷ [] ≡ done ++ (line ++ c ∷ []) = append_assoc done line (c ∷ []) in
    let len : length (done ++ (line ++ c ∷ [])) ≡ length all + 1 =
      ap length (sym assoc) ∙ length-append all (c ∷ []) in
    let w = tty.char_buffer_write_idx in
    let pushed =
      Holds-push e.buffer page_size tty.char_buffer_read_idx c all e.read (omega (arith, room))
        e.held in
    simp
      (
        e.opened,
        (buffer_full_iff tty done line e).0 room,
        put_char_lem tty c e.buffer e.canonical e.allocated,
      )
      (returns (record {
        canonical = e.canonical;
        opened = e.opened;
        buffer = update e.buffer w c;
        allocated = refl;
        read = e.read;
        commit = e.commit;
        write = omega (arith, e.write, len);
        bound = omega (arith, len, room);
        held =
            subst
              (λ k.
                Holds (update e.buffer k c) page_size tty.char_buffer_read_idx
                  (done ++ (line ++ c ∷ [])))
              (sym e.write) (Holds-list _ tty.char_buffer_read_idx assoc pushed);
      }))

-- The line is committed.
pub commit_line-IsEditing :
    (tty : Tty) (done line : List ℕ)
    → IsEditing tty done line
    → IsEditing (commit_line tty) (done ++ line) []
unfolding commit_line
commit_line-IsEditing tty done line e =
    let assoc : done ++ line ≡ (done ++ line) ++ [] = sym (append-nil (done ++ line)) in
    record {
      canonical = e.canonical;
      opened = e.opened;
      buffer = e.buffer;
      allocated = e.allocated;
      read = e.read;
      commit = e.write;
      write = e.write ∙ ap (λ l. (tty.char_buffer_read_idx + length l) % page_size) assoc;
      bound = omega (arith, e.bound, ap length assoc);
      held = Holds-list e.buffer tty.char_buffer_read_idx assoc e.held;
    }

Holds-front :
    (f : ℕ → ℕ) (i : ℕ) (xs ys : List ℕ) → Holds f page_size i (xs ++ ys) → Holds f page_size i xs
Holds-front f i [] ys h = tt
Holds-front f i (x ∷ xs) ys (at, h) = (at, Holds-front f ((i + 1) % page_size) xs ys h)

-- The last byte of the line is deleted.
pub delete_char-IsEditing :
    (tty : Tty) (done line : List ℕ) (c : ℕ)
    → IsEditing tty done (line ++ c ∷ [])
    → IsEditing (delete_char tty) done line
unfolding delete_char
delete_char-IsEditing tty done line c e =
    let assoc : done ++ (line ++ c ∷ []) ≡ (done ++ line) ++ c ∷ [] =
      sym (append_assoc done line (c ∷ [])) in
    let len : length (done ++ (line ++ c ∷ [])) ≡ length (done ++ line) + 1 =
      ap length assoc ∙ length-append (done ++ line) (c ∷ []) in
    record {
      canonical = e.canonical;
      opened = e.opened;
      buffer = e.buffer;
      allocated = e.allocated;
      read = e.read;
      commit = e.commit;
      write = omega (arith, e.write, len, e.bound, e.read);
      bound = omega (arith, e.bound, len);
      held =
          Holds-front e.buffer tty.char_buffer_read_idx (done ++ line) (c ∷ [])
            (Holds-list e.buffer tty.char_buffer_read_idx assoc e.held);
    }

-- what a read leaves
pub record WasRead (size : ℕ) (done line : List ℕ) (r : List ℕ × Tty) : Type 0 where
  pub bytes : r.0 ≡ take size done
  pub left : IsEditing r.1 (drop size done) line

read_first :
    (tty : Tty) (x : ℕ) (done line : List ℕ)
    → IsEditing tty (x ∷ done) line
    → IsEditing
        (record tty { char_buffer_read_idx = (tty.char_buffer_read_idx + 1) % page_size })
        done
        line
read_first tty x done line e = record {
  canonical = e.canonical;
  opened = e.opened;
  buffer = e.buffer;
  allocated = e.allocated;
  read = mod-lt (tty.char_buffer_read_idx + 1) (omega arith);
  commit = omega (arith, e.commit);
  write = omega (arith, e.write);
  bound = omega (arith, e.bound);
  held = e.held.1;
}

-- The loop of `tty_read` reads the committed bytes in order, as many as there is room for, and leaves the
-- others and the line.
pub read_chars-WasRead :
    (size : ℕ) (tty : Tty) (done line : List ℕ)
    → IsEditing tty done line
    → Returns (WasRead size done line) (read_chars size tty)
unfolding read_chars
read_chars-WasRead zero tty done line e = returns (record { bytes = refl; left = e })
read_chars-WasRead (suc size) tty [] line e =
    rw
      (
        ==-true tty.char_buffer_read_idx tty.char_buffer_commit_idx
            (omega (arith, e.commit, e.read)),
        read_chars,
      )
      (returns (record { bytes = refl; left = e }))
read_chars-WasRead (suc size) tty (x ∷ done) line e =
    let n = length-append (x ∷ done) line in
    let differ : tty.char_buffer_read_idx ≢ tty.char_buffer_commit_idx =
      λ k. absurd (omega (arith, k, e.commit, e.read, e.bound, n)) in
    let next = read_first tty x done line e in
    rw (==-false tty.char_buffer_read_idx tty.char_buffer_commit_idx differ, read_chars)
      (Returns-bind (subst (λ o. Returns (λ b. b ≡ e.buffer) o) (sym e.allocated) (returns refl))
        (λ buffer k.
          Returns-bind
            (read_chars-WasRead size
              (record tty { char_buffer_read_idx = (tty.char_buffer_read_idx + 1) % page_size })
              done line next)
            (λ r w. returns (record {
              bytes = cc (ap (λ f. f tty.char_buffer_read_idx) k ∙ e.held.0, w.bytes);
              left = w.left;
            }))))

take_all : (xs : List ℕ) → take (length xs) xs ≡ xs
take_all [] = refl
take_all (x ∷ xs) = ap (λ l. x ∷ l) (take_all xs)

drop_all : (xs : List ℕ) → drop (length xs) xs ≡ []
drop_all [] = refl
drop_all (x ∷ xs) = drop_all xs

-- A call of `tty_append_char` for each byte, with no display.
abbrev pub type_all : Tty → List ℕ → Option Tty
type_all tty [] = some tty
type_all tty (c ∷ cs) = append_char tty c >>= λ t. type_all t cs

type_all-IsEditing :
    (tty : Tty) (done line cs : List ℕ)
    → IsEditing tty done line
    → length (done ++ line) + length cs < page_size
    → Returns (λ t. IsEditing t done (line ++ cs)) (type_all tty cs)
type_all-IsEditing tty done line [] e room =
    returns (subst (λ l. IsEditing tty done l) (sym (append-nil line)) e)
type_all-IsEditing tty done line (c ∷ cs) e room =
    Returns-bind (append_char-IsEditing tty done line c e (omega (arith, room))) (λ t k.
      subst (λ l. Returns (λ u. IsEditing u done l) (type_all t cs)) (append_assoc line (c ∷ []) cs)
        (type_all-IsEditing t done (line ++ c ∷ []) cs k (
          omega (
            arith,
            room,
            length-append done (line ++ c ∷ []),
            length-append line (c ∷ []),
            length-append done line,
          ))))

-- What is typed on an open terminal in canonical mode whose buffer is empty and has room for it, and committed,
-- is what a read of that many bytes returns; the buffer is empty then.
pub type-read :
    (tty : Tty) (cs : List ℕ)
    → IsEditing tty [] []
    → length cs < page_size
    → Returns
        (λ r. (r.0 ≡ cs) × IsEditing r.1 [] [])
        (type_all tty cs >>= λ t. read_chars (length cs) (commit_line t))
type-read tty cs e room =
    Returns-bind (type_all-IsEditing tty [] [] cs e (omega (arith, room))) (λ t k.
      Returns-mono
        (read_chars-WasRead (length cs) (commit_line t) cs [] (commit_line-IsEditing t [] cs k))
        (λ r w. (w.bytes ∙ take_all cs, subst (λ l. IsEditing r.1 l []) (drop_all cs) w.left)))
