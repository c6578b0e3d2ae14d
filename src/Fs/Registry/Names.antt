-- ===== src/Fs/Registry/Names.antt =====
-- The names of the registered file systems: `register_fs` and the searches by name.
use mathlib.Core.Path.{subst}
use project_islay.Prelude.{
  ℕ, zero, suc, ◌≡◌, refl, ap, true, false, ◌||◌, some, List, [], ◌∷◌, ◌++◌, ltb, arith, ==-true,
  ==-false, ℕ_discrete, Bool-cases, inl, inr,
}
use project_islay.Prelude.Int.{pos, neg, eexist}
use project_islay.Libc.{CString, strncmp, strlen}
use project_islay.Fs.{FileSystem, Vfs}
use project_islay.Fs.Registry.{
  fs_at, cut_after, is_zero, fs_name_maxlen, has_ops, has_name, is_taken, register_fs,
  is_registered_fs,
}

strncmp_self : (s : CString) (n : ℕ) → strncmp s s n ≡ pos 0
unfolding strncmp
strncmp_self [] zero = refl
strncmp_self (c ∷ s) zero = ground arith
strncmp_self [] (suc n) = refl
strncmp_self (c ∷ s) (suc n) = ground (arith, strncmp_self s n)

module _ (file_systems : List FileSystem) (k : ℕ) where
  abbrev name : CString
  name = (fs_at file_systems k).name

  has_name-last : (list : List ℕ) → has_name file_systems (list ++ k ∷ []) name ≡ true
  unfolding has_name
  has_name-last [] = rw (strncmp_self name fs_name_maxlen) refl
  has_name-last (j ∷ list) = ground (arith, has_name-last list)

  is_taken-last : (list : List ℕ) → is_taken file_systems (list ++ k ∷ []) name ≡ true
  unfolding is_taken
  is_taken-last [] = rw (strncmp_self name fs_name_maxlen) refl
  is_taken-last (j ∷ list) = ground (arith, is_taken-last list)

  -- An object whose name is free is not in the list, and is its last once it is put there.
  free-absent :
      (list : List ℕ)
      → is_taken file_systems list name ≡ false
      → (cut_after list k ≡ list) × (cut_after (list ++ k ∷ []) k ≡ list ++ k ∷ [])
  unfolding is_taken cut_after
  free-absent [] free = (refl, rw (==-true k k refl) refl)
  free-absent (j ∷ list) free = elim (ℕ_discrete j k) [
    | yes e ↦
        let same : is_taken file_systems (k ∷ list) name ≡ false =
          subst (λ m. is_taken file_systems (m ∷ list) name ≡ false) e free in
        absurd (ground (arith, rw (strncmp_self name fs_name_maxlen) at same))
    | no n ↦ elim (Bool-cases (is_zero (strncmp name (fs_at file_systems j).name fs_name_maxlen))) [
      | inl z ↦ absurd (ground (arith, rw z at free))
      | inr z ↦
          let (kept, last) = free-absent list (rw z at free) in
          rw (==-false j k n) (ap (λ l. j ∷ l) kept, ap (λ l. j ∷ l) last)
    ]
  ]

-- `k` as `register_fs` wants it: it has the required operations, a name of 3 to 127 bytes, and no
-- registered file system compares equal to it.
pub record IsAccepted (vfs : Vfs) (k : ℕ) : Type 0 where
  pub ops : has_ops (fs_at vfs.file_systems k) ≡ true
  pub size :
      (ltb (strlen (fs_at vfs.file_systems k).name) 3
        || ltb fs_name_maxlen (strlen (fs_at vfs.file_systems k).name))
      ≡ false
  pub fresh : is_taken vfs.file_systems vfs.fs_list (fs_at vfs.file_systems k).name ≡ false

module _ (vfs : Vfs) (k : ℕ) (a : IsAccepted vfs k) where
  -- the list with the file system at its end
  abbrev registered : Vfs
  registered = record vfs { fs_list = vfs.fs_list ++ k ∷ [] }

  register_fs-first : register_fs vfs (some k) ≡ (pos 0, registered)
  unfolding register_fs
  register_fs-first =
      rw (a.ops, a.size, (free-absent vfs.file_systems k vfs.fs_list a.fresh).0, a.fresh) refl

  register_fs-again : register_fs registered (some k) ≡ (neg eexist, registered)
  unfolding register_fs
  register_fs-again =
      rw
        (
          a.ops,
          a.size,
          (free-absent vfs.file_systems k vfs.fs_list a.fresh).1,
          is_taken-last vfs.file_systems k vfs.fs_list,
        )
        refl

-- A file system with the required operations, a name of 3 to 127 bytes and no registered file system comparing equal
-- to it is registered: its name is found from then on, and it is refused with -EEXIST a second time, which changes
-- nothing.
pub register_fs-twice :
    (vfs : Vfs) (k : ℕ)
    → IsAccepted vfs k
    → ((register_fs vfs (some k)).0 ≡ pos 0)
      × (is_registered_fs (register_fs vfs (some k)).1 (fs_at vfs.file_systems k).name ≡ true)
      × (register_fs (register_fs vfs (some k)).1 (some k)
          ≡ (neg eexist, (register_fs vfs (some k)).1))
unfolding is_registered_fs
register_fs-twice vfs k a =
    rw (register_fs-first vfs k a)
      (refl, has_name-last vfs.file_systems k vfs.fs_list, register_fs-again vfs k a)
