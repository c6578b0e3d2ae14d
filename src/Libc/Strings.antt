-- ===== src/Libc/Strings.antt =====
-- The string comparisons of kernel/utils/libc.c.
use project_islay.Prelude.{
  ℕ, zero, suc, ◌≤◌, ◌<◌, ◌≡◌, ◌↔◌, refl, [], ◌∷◌, arith, length, take, min,
}
use project_islay.Prelude.Int.{pos}
use project_islay.Libc.{CString, diff, strlen, strnlen, strcmp, strncmp}

-- A string holds no zero byte before its end.
abbrev pub IsString : CString → Type 0
IsString [] = Unit {0}
IsString (c ∷ s) = (0 < c) × IsString s

pub diff-zero : (a b : ℕ) → diff a b ≡ pos 0 → a ≡ b
diff-zero a b h = ground arith

pub strcmp-same : (s : CString) → strcmp s s ≡ pos 0
unfolding strcmp
strcmp-same [] = refl
strcmp-same (c ∷ s) = ground (arith, strcmp-same s)

strcmp_eq : (s t : CString) → IsString s → IsString t → strcmp s t ≡ pos 0 → s ≡ t
unfolding strcmp
strcmp_eq [] [] p q h = refl
strcmp_eq [] (d ∷ t) p q h = ground arith
strcmp_eq (c ∷ s) [] p q h = ground arith
strcmp_eq (c ∷ s) (d ∷ t) p q h = ground (arith, strcmp_eq s t p.1 q.1)

-- `strcmp` is 0 exactly on equal strings.
pub strcmp-zero_iff : (s t : CString) → IsString s → IsString t → (strcmp s t ≡ pos 0) ↔ (s ≡ t)
strcmp-zero_iff s t p q = (strcmp_eq s t p q, λ e. rw e (strcmp-same t))

strncmp-take :
    (s t : CString) (n : ℕ)
    → IsString s
    → IsString t
    → strncmp s t n ≡ pos 0
    → take (suc n) s ≡ take (suc n) t
unfolding strncmp
strncmp-take [] [] zero p q h = refl
strncmp-take [] [] (suc n) p q h = refl
strncmp-take [] (d ∷ t) zero p q h = ground arith
strncmp-take [] (d ∷ t) (suc n) p q h = ground arith
strncmp-take (c ∷ s) [] zero p q h = ground arith
strncmp-take (c ∷ s) [] (suc n) p q h = ground arith
strncmp-take (c ∷ s) (d ∷ t) zero p q h = ground (arith, diff-zero c d)
strncmp-take (c ∷ s) (d ∷ t) (suc n) p q h = ground (arith, strncmp-take s t n p.1 q.1)

take-strncmp : (s t : CString) (n : ℕ) → take (suc n) s ≡ take (suc n) t → strncmp s t n ≡ pos 0
unfolding strncmp
take-strncmp [] [] zero h = refl
take-strncmp [] [] (suc n) h = refl
take-strncmp [] (d ∷ t) n h = cc
take-strncmp (c ∷ s) [] n h = cc
take-strncmp (c ∷ s) (d ∷ t) zero h = ground arith
take-strncmp (c ∷ s) (d ∷ t) (suc n) h = ground (arith, take-strncmp s t n)

-- `strncmp` with a count of `n` is 0 exactly when the strings agree in their first `n + 1` bytes, one
-- more than asked for.
pub strncmp-zero_iff :
    (s t : CString) (n : ℕ)
    → IsString s
    → IsString t
    → (strncmp s t n ≡ pos 0) ↔ (take (suc n) s ≡ take (suc n) t)
strncmp-zero_iff s t n p q = (strncmp-take s t n p q, take-strncmp s t n)

-- Where the count is at least the length of both strings, `strncmp` compares as `strcmp` does.
pub strncmp-strcmp :
    (s t : CString) (n : ℕ) → length s ≤ n → length t ≤ n → strncmp s t n ≡ strcmp s t
unfolding strncmp strcmp
strncmp-strcmp [] [] zero h k = refl
strncmp-strcmp [] [] (suc n) h k = refl
strncmp-strcmp [] (d ∷ t) zero h k = absurd (omega arith)
strncmp-strcmp [] (d ∷ t) (suc n) h k = refl
strncmp-strcmp (c ∷ s) t zero h k = absurd (omega arith)
strncmp-strcmp (c ∷ s) [] (suc n) h k = refl
strncmp-strcmp (c ∷ s) (d ∷ t) (suc n) h k = ground (arith, strncmp-strcmp s t n)

-- `strnlen` is the length of the string, cut at the count.
pub strnlen-strlen : (s : CString) (n : ℕ) → strnlen s n ≡ min (strlen s) n
unfolding strnlen strlen
strnlen-strlen [] zero = refl
strnlen-strlen [] (suc n) = omega arith
strnlen-strlen (c ∷ s) zero = omega arith
strnlen-strlen (c ∷ s) (suc n) = omega (arith, strnlen-strlen s n)
