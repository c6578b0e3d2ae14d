-- ===== src/Fs/PathWalk/Tokens.antt =====
-- The tokens that `path_next` of kernel/fs/pathwalker.c takes from a path.
use project_islay.Prelude.{
  ℕ, zero, suc, ◌+◌, ◌≤◌, ◌<◌, ◌≡◌, refl, ap, Option, none, some, List, [], ◌∷◌, ◌++◌, length,
  arith, ==-false,
}
use project_islay.Libc.{CString, strlen, cut_token, finish_token, strtok}
use project_islay.Libc.Tokens.{Free, skip_none}
use project_islay.Fs.PathWalk.{slash, tokens_from, path_tokens}

-- `/name/name/...`
abbrev pub path_of : List CString → CString
path_of [] = []
path_of (name ∷ names) = slash ∷ (name ++ path_of names)

-- a component that is not empty and holds no slash
abbrev pub IsName : CString → Type 0
IsName name = Free slash name × (0 < length name)

abbrev pub AllNames : List CString → Type 0
AllNames [] = Unit {0}
AllNames (name ∷ names) = IsName name × AllNames names

-- what follows the first name of the rest of a path
abbrev after : List CString → Option CString
after [] = none
after (name ∷ names) = some (name ++ path_of names)

cut_token-name :
    (name : CString) (names : List CString)
    → Free slash name
    → cut_token (name ++ path_of names) slash ≡ (name, after names)
unfolding cut_token
cut_token-name [] [] f = refl
cut_token-name [] (n ∷ names) f = refl
cut_token-name (c ∷ name) names (ne, f) = rw (==-false c slash ne, cut_token-name name names f) refl

tokens_end : (fuel : ℕ) → tokens_from fuel ([], []) ≡ []
unfolding tokens_from
tokens_end zero = refl
tokens_end (suc fuel) = refl

names_from :
    (fuel : ℕ) (name : CString) (names : List CString)
    → length names < fuel
    → AllNames (name ∷ names)
    → tokens_from fuel (finish_token (slash ∷ []) (cut_token (name ++ path_of names) slash))
      ≡ name ∷ names
unfolding tokens_from strtok
names_from zero name names h all = absurd (omega (arith, h))
names_from (suc fuel) [] names h ((f, long), all) = absurd (omega (arith, long))
names_from (suc fuel) (c ∷ name) [] h ((f, long), all) =
    rw (cut_token-name (c ∷ name) [] f, tokens_end fuel) refl
names_from (suc fuel) (c ∷ name) (n ∷ names) h ((f, long), all) =
    rw (cut_token-name (c ∷ name) (n ∷ names) f, skip_none (n ++ path_of names))
      (ap (λ t. (c ∷ name) ∷ t) (names_from fuel n names (omega (arith, h)) all))

strlen-append : (s t : CString) → strlen t ≤ strlen (s ++ t)
unfolding strlen
strlen-append [] t = omega arith
strlen-append (c ∷ s) t = omega (arith, strlen-append s t)

length_le : (names : List CString) → length names ≤ strlen (path_of names)
unfolding strlen
length_le [] = omega arith
length_le (name ∷ names) = omega (arith, length_le names, strlen-append name (path_of names))

-- The tokens of `/name/name/...` are the names, if each is not empty and holds no slash.
pub path_tokens-path_of :
    (names : List CString) → AllNames names → path_tokens (path_of names) ≡ names
unfolding path_tokens strtok tokens_from strlen
path_tokens-path_of [] all = refl
path_tokens-path_of (name ∷ names) all = rw (skip_none (name ++ path_of names)) (
    names_from (strlen (path_of (name ∷ names)) + 1) name names
      (omega (arith, length_le (name ∷ names))) all)
