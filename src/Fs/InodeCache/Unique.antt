-- ===== src/Fs/InodeCache/Unique.antt =====
-- No inode stands twice in the cache of kernel/fs/inode.c.
use project_islay.Prelude.{
  ℕ, ◌<◌, ◌≡◌, refl, ◌∙◌, sym, true, false, List, get_or, length, set, arith, dec_lt, ==-true,
  lt→ltb, ==-false, ltb-false, ℕ_discrete,
}
use project_islay.Prelude.Arrays.{get_or-set}
use project_islay.Fs.{Inode, no_inode}
use project_islay.Fs.InodeCache.{is_cached}

-- No two cells in use hold the same inode.
unfoldable pub IsUnique : List Inode → Type 0
IsUnique table =
    (i j : ℕ)
    → 0 < (get_or table i no_inode).count
    → 0 < (get_or table j no_inode).count
    → (get_or table i no_inode).super ≡ (get_or table j no_inode).super
    → (get_or table i no_inode).id ≡ (get_or table j no_inode).id
    → i ≡ j

-- `v` is not another copy of an inode in use
unfoldable pub IsNew : List Inode → ℕ → Inode → Type 0
IsNew table i v =
    (j : ℕ)
    → 0 < (get_or table j no_inode).count
    → 0 < v.count
    → (get_or table j no_inode).super ≡ v.super
    → (get_or table j no_inode).id ≡ v.id
    → i ≡ j

pub set-IsUnique :
    (table : List Inode) (i : ℕ) (v : Inode)
    → i < length table
    → IsUnique table
    → IsNew table i v
    → IsUnique (set table i v)
unfolding IsUnique IsNew
set-IsUnique table i v h unique fresh j k = elim (ℕ_discrete i j) [
  | yes ij ↦ elim (ℕ_discrete i k) [
    | yes ik ↦ λ a b c d. sym ij ∙ ik
    | no ik ↦
        rw
          (
            get_or-set table i j v no_inode h,
            get_or-set table i k v no_inode h,
            ==-true i j ij,
            ==-false i k ik,
          )
          (λ a b c d. sym ij ∙ fresh k b a (sym c) (sym d))
  ]
  | no ij ↦ elim (ℕ_discrete i k) [
    | yes ik ↦
        rw
          (
            get_or-set table i j v no_inode h,
            get_or-set table i k v no_inode h,
            ==-false i j ij,
            ==-true i k ik,
          )
          (λ a b c d. absurd (ij (fresh j a b c d)))
    | no ik ↦
        rw
          (
            get_or-set table i j v no_inode h,
            get_or-set table i k v no_inode h,
            ==-false i j ij,
            ==-false i k ik,
          )
          (unique j k)
  ]
]

cached_true :
    (super id : ℕ) (inode : Inode)
    → 0 < inode.count
    → inode.super ≡ super
    → inode.id ≡ id
    → is_cached super id inode ≡ true
cached_true super id inode live s d =
    rw (lt→ltb 0 inode.count live, ==-true inode.super super s, ==-true inode.id id d) refl

pub cached_live : (super id : ℕ) (inode : Inode) → is_cached super id inode ≡ true → 0 < inode.count
cached_live super id inode c = elim (dec_lt 0 inode.count) [
  | yes h ↦ h
  | no h ↦ absurd (ground (arith, rw (ltb-false 0 inode.count (omega (arith, h))) at c))
]

pub absent-IsNew :
    (super id : ℕ) (table : List Inode) (i : ℕ) (v : Inode)
    → ((j : ℕ) → is_cached super id (get_or table j no_inode) ≡ false)
    → v.super ≡ super
    → v.id ≡ id
    → IsNew table i v
unfolding IsNew
absent-IsNew super id table i v absent es ei j live _ s d =
    let e : true ≡ false =
      sym (cached_true super id (get_or table j no_inode) live (s ∙ es) (d ∙ ei)) ∙ absent j in
    absurd (ground (arith, e))
