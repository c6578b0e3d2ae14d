-- ===== src/Libc/Tokens.antt =====
-- `strtok` of kernel/utils/libc.c with a delimiter of one byte, as the path walker calls it.
use project_islay.Prelude.{
  ℕ, ◌≡◌, ◌≢◌, ◌⊎◌, inl, inr, ap, refl, Option, none, some, [], ◌∷◌, ◌++◌, ℕ_discrete, ==-true,
  ==-false,
}
use project_islay.Libc.{CString, skip_delims, cut_token, finish_token, strtok}

-- no byte of the string is `d`
abbrev pub Free : ℕ → CString → Type 0
Free d [] = Unit {0}
Free d (c ∷ s) = (c ≢ d) × Free d s

-- what `cut_token` found in `s`: the bytes before the first `d`, and those behind it
abbrev pub IsCut : CString → ℕ → CString × Option CString → Type 0
IsCut s d (token, none) = Free d token × (s ≡ token)
IsCut s d (token, some rest) = Free d token × (s ≡ token ++ d ∷ rest)

IsCut-cons :
    (c d : ℕ) (s : CString) (r : CString × Option CString)
    → c ≢ d
    → IsCut s d r
    → IsCut (c ∷ s) d (c ∷ r.0, r.1)
IsCut-cons c d s (token, none) n h = ((n, h.0), ap (λ t. c ∷ t) h.1)
IsCut-cons c d s (token, some rest) n h = ((n, h.0), ap (λ t. c ∷ t) h.1)

pub cut_token-IsCut : (s : CString) (d : ℕ) → IsCut s d (cut_token s d)
unfolding cut_token
cut_token-IsCut [] d = (tt, refl)
cut_token-IsCut (c ∷ s) d = elim (ℕ_discrete c d) [
  | yes e ↦ rw (==-true c d e) (tt, ap (λ k. k ∷ s) e)
  | no n ↦ rw (==-false c d n) (IsCut-cons c d s (cut_token s d) n (cut_token-IsCut s d))
]

-- The first call drops one leading delimiter, a later one none.
abbrev pub start_of : Option CString → ℕ → CString → CString
start_of none d saved = saved
start_of (some s) d saved = skip_delims s (d ∷ [])

-- The token and the saved rest: the token holds no delimiter, and the text is the token alone, or the
-- token, one delimiter and the rest.
abbrev pub IsToken : CString → ℕ → CString × CString → Type 0
IsToken s d (token, saved) =
    Free d token × (((s ≡ token) × (saved ≡ [])) ⊎ (s ≡ token ++ d ∷ saved))

pub skip_none : (s : CString) → skip_delims s [] ≡ s
unfolding skip_delims
skip_none [] = refl
skip_none (c ∷ s) = refl

finish-IsToken :
    (s : CString) (d : ℕ) (r : CString × Option CString)
    → IsCut s d r
    → IsToken s d (finish_token (d ∷ []) r)
unfolding finish_token
finish-IsToken s d (token, none) h = (h.0, inl (h.1, refl))
finish-IsToken s d (token, some rest) h = (h.0, inr (rw (skip_none rest) h.1))

-- Each call of `strtok` with one delimiter takes one token off the text.
pub strtok-IsToken :
    (str : Option CString) (d : ℕ) (saved : CString)
    → IsToken (start_of str d saved) d (strtok str (d ∷ []) saved)
unfolding strtok
strtok-IsToken none d saved = finish-IsToken saved d _ (cut_token-IsCut saved d)
strtok-IsToken (some s) d saved =
    finish-IsToken (skip_delims s (d ∷ [])) d _ (cut_token-IsCut (skip_delims s (d ∷ [])) d)
