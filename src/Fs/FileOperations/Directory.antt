-- ===== src/Fs/FileOperations/Directory.antt =====
-- `readdirents` of kernel/fs/file_operations.c, call after call.
use project_islay.Prelude.{
  ℕ, zero, suc, ◌+◌, ◌≡◌, ◌≢◌, refl, false, ◌⊎◌, inl, inr, some, List, [], ◌∷◌, ◌++◌, arith,
  Bool-cases,
}
use project_islay.Prelude.Int.{ℤ, pos, negsuc, is_neg}
use project_islay.Fs.{Dirent}
use project_islay.Fs.FileOperations.{read_dirents, eof, bad_dirent}

pub offset-cases :
    (offset : ℤ) → is_neg offset ≡ false → (offset ≡ pos 0) ⊎ ((k : ℕ) × (offset ≡ pos (suc k)))
offset-cases (pos zero) h = inl refl
offset-cases (pos (suc k)) h = inr (k, refl)
offset-cases (negsuc k) h = absurd (ground (arith, h))

-- Reading with a buffer of `a` entries and then with one of `b` reads what one buffer of `a + b`
-- entries takes, if the first read did not reach the end of the directory.
pub read_dirents-append :
    (readdir : ℤ → ℤ × Dirent) (a b : ℕ) (offset next : ℤ) (buf read : List Dirent)
    → read_dirents readdir a offset buf ≡ some (inr (next, read))
    → next ≢ eof
    → read_dirents readdir (a + b) offset buf ≡ read_dirents readdir b next read
unfolding read_dirents
read_dirents-append readdir zero b offset next buf read e more =
    let z : 0 + b ≡ b = omega arith in
    let same : (offset ≡ next) × (buf ≡ read) = (cc, cc) in rw (z, same.0, same.1) refl
read_dirents-append readdir (suc a) b offset next buf read e more =
    let s : suc a + b ≡ suc (a + b) = omega arith in
    elim (Bool-cases (is_neg (readdir offset).0)) [
      | inl n ↦ absurd (ground (arith, rw n at e))
      | inr n ↦ elim (Bool-cases (bad_dirent (readdir offset).1)) [
        | inl d ↦ absurd (ground (arith, rw (n, d) at e))
        | inr d ↦ elim (offset-cases (readdir offset).0 n) [
          | inl z ↦ let ended : next ≡ eof = let h = rw (n, d, z) at e in cc in absurd (more ended)
          | inr (k, p) ↦
              rw (s, n, d, p)
                (read_dirents-append readdir a b (readdir offset).0 next
                  (buf ++ (readdir offset).1 ∷ []) read (rw (n, d, p) at e) more)
        ]
      ]
    ]
