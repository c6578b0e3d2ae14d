-- ===== src/Fs/InodeCache/Lookup.antt =====
-- `get_inode` of kernel/fs/inode.c.
use project_islay.Prelude.{
  ℕ, zero, suc, ◌+◌, ◌<◌, ◌≡◌, ◌≢◌, refl, ◌∙◌, sym, true, false, ◌⊎◌, inl, inr, Option, none, some,
  List, [], ◌∷◌, get_or, length, arith, dec_lt, ==-true, lt→ltb, ==-false, ltb-false, Bool-cases,
  Returns, returns, ℕ_discrete,
}
use project_islay.Prelude.Int.{ℤ, pos, is_neg, neg, enoent, einval}
use project_islay.Fs.{Inode, Vfs, FsOps, no_inode, inode_at, inc, ops_of, file_type}
use project_islay.Fs.InodeCache.{
  is_cached, search_table, set_inode, get_inode, load_inode, fresh_inode, verify_inode,
}
use project_islay.Fs.InodeCache.Unique.{IsUnique, IsNew, set-IsUnique, cached_live, absent-IsNew}

-- What the search of a table from cell `i` on with the free cell `free` so far returns.
pub data Searched (super id : ℕ) (table : List Inode) (i : ℕ) (free : Option ℕ)
    : ℕ ⊎ Option ℕ → Type 0 where
  hit :
      (k : ℕ) {at : ℕ}
      → at ≡ i + k
      → k < length table
      → is_cached super id (get_or table k no_inode) ≡ true
      → Searched super id table i free (inl at)
  room :
      (k : ℕ) {at : ℕ}
      → at ≡ i + k
      → ((j : ℕ) → is_cached super id (get_or table j no_inode) ≡ false)
      → k < length table
      → (get_or table k no_inode).count ≡ 0
      → Searched super id table i free (inr (some at))
  busy :
      ((j : ℕ) → is_cached super id (get_or table j no_inode) ≡ false)
      → ((j : ℕ) → j < length table → 0 < (get_or table j no_inode).count)
      → Searched super id table i free (inr free)

module _ (super id : ℕ) (inode : Inode) (table : List Inode) (i : ℕ) (free : Option ℕ) where
  none_before :
      is_cached super id inode ≡ false
      → ((j : ℕ) → is_cached super id (get_or table j no_inode) ≡ false)
      → (j : ℕ) → is_cached super id (get_or (inode ∷ table) j no_inode) ≡ false
  none_before c absent zero = c
  none_before c absent (suc j) = absent j

  busy_before :
      0 < inode.count
      → ((j : ℕ) → j < length table → 0 < (get_or table j no_inode).count)
      → (j : ℕ) → j < length (inode ∷ table)
      → 0 < (get_or (inode ∷ table) j no_inode).count
  busy_before live full zero h = live
  busy_before live full (suc j) h = full j (omega arith)

  past_busy :
      {r : ℕ ⊎ Option ℕ}
      → is_cached super id inode ≡ false
      → 0 < inode.count
      → Searched super id table (i + 1) free r
      → Searched super id (inode ∷ table) i free r
  past_busy c live (hit k at h e) = hit (suc k) (omega arith) (omega arith) e
  past_busy c live (room k at absent h z) =
      room (suc k) (omega arith) (none_before c absent) (omega arith) z
  past_busy c live (busy absent full) = busy (none_before c absent) (busy_before live full)

  past_free :
      {r : ℕ ⊎ Option ℕ}
      → is_cached super id inode ≡ false
      → inode.count ≡ 0
      → Searched super id table (i + 1) (some i) r
      → Searched super id (inode ∷ table) i free r
  past_free c z (hit k at h e) = hit (suc k) (omega arith) (omega arith) e
  past_free c z (room k at absent h e) =
      room (suc k) (omega arith) (none_before c absent) (omega arith) e
  past_free c z (busy absent full) = room 0 (omega arith) (none_before c absent) (omega arith) z

-- The search returns the cell of an inode in use with the id and superblock asked for; only if there
-- is none, a free cell; and only if no cell is free either, the free cell it was given.
pub search_table_lem :
    (super id : ℕ) (table : List Inode) (i : ℕ) (free : Option ℕ)
    → Searched super id table i free (search_table super id table i free)
unfolding search_table
search_table_lem super id [] i free = busy (λ j. refl) (λ j h. absurd (omega arith))
search_table_lem super id (inode ∷ table) i free = elim (Bool-cases (is_cached super id inode)) [
  | inl c ↦ rw c (hit 0 (omega arith) (omega arith) c)
  | inr c ↦ elim (dec_lt 0 inode.count) [
    | yes live ↦
        rw (c, lt→ltb 0 inode.count live)
          (past_busy super id inode table i free c live
            (search_table_lem super id table (i + 1) free))
    | no dead ↦
        let z : inode.count ≡ 0 = omega arith in
        rw (c, ltb-false 0 inode.count (omega (arith, z)))
          (past_free super id inode table i free c z
            (search_table_lem super id table (i + 1) (some i)))
  ]
]

-- What the file system of the superblock fetches for cell `i`.
abbrev pub IsFetched : Vfs → ℕ → ℕ → ℕ → ℤ → Inode → Type 0
IsFetched vfs super id i errno inode =
    (ops : FsOps) × (fetch : ℕ → ℕ → Inode → ℤ × Inode) × (ops_of vfs super ≡ some ops)
    × (ops.fetch_inode ≡ some fetch)
    × (fetch super id (inode_at vfs i) ≡ (errno, inode))

-- Why a fetched inode is not used: the error number of fetching, or no type of file.
abbrev pub IsRejected : ℤ → Inode → ℤ → Type 0
IsRejected fetched inode errno =
    ((is_neg fetched ≡ true) × (errno ≡ fetched))
    ⊎ ((is_neg fetched ≡ false) × (file_type inode.mode ≡ 0) × (errno ≡ neg einval))

-- What `get_inode` does to the cache, with what it returns.
pub data Got (vfs : Vfs) (super id : ℕ) : (Option ℕ × ℤ) × Vfs → Type 0 where
  shared :
      (i : ℕ)
      → i < length vfs.inode_table
      → is_cached super id (inode_at vfs i) ≡ true
      → Got vfs super id (
        (some i, pos 0),
        set_inode vfs i (record (inode_at vfs i) { count = inc (inode_at vfs i).count }),
      )
  loaded :
      (i : ℕ) (inode : Inode) (fetched : ℤ)
      → i < length vfs.inode_table
      → (inode_at vfs i).count ≡ 0
      → ((j : ℕ) → is_cached super id (inode_at vfs j) ≡ false)
      → IsFetched vfs super id i fetched inode
      → is_neg fetched ≡ false
      → file_type inode.mode ≢ 0
      → Got vfs super id (
        (some i, pos 0),
        set_inode vfs i (record inode {
          id = id;
          super = super;
          count = 1;
          inode_dirty = false;
          mountpoint = false;
        }),
      )
  failed :
      (i : ℕ) (errno : ℤ) (inode : Inode) (fetched : ℤ)
      → i < length vfs.inode_table
      → (inode_at vfs i).count ≡ 0
      → inode.count ≡ 0
      → ((j : ℕ) → is_cached super id (inode_at vfs j) ≡ false)
      → IsFetched vfs super id i fetched inode
      → IsRejected fetched inode errno
      → is_neg errno ≡ true
      → Got vfs super id ((none, errno), set_inode vfs i inode)
  full :
      ((j : ℕ) → j < length vfs.inode_table → 0 < (inode_at vfs j).count)
      → ((j : ℕ) → is_cached super id (inode_at vfs j) ≡ false)
      → Got vfs super id ((none, neg enoent), vfs)

module _ (vfs : Vfs) (super id : ℕ) (ops : FsOps) (fetch : ℕ → ℕ → Inode → ℤ × Inode) where
  pub load_inode-Got :
      (free : ℕ)
      → ops_of vfs super ≡ some ops
      → ops.fetch_inode ≡ some fetch
      → ((i : ℕ) (inode : Inode) → (fetch super i inode).1.count ≡ inode.count)
      → ((j : ℕ) → is_cached super id (inode_at vfs j) ≡ false)
      → free < length vfs.inode_table
      → (inode_at vfs free).count ≡ 0
      → Returns (Got vfs super id) (load_inode vfs super id free)
  unfolding load_inode verify_inode
  load_inode-Got free e f keeps absent h z =
      rw (e, f)
        (let got = fetch super id (inode_at vfs free) in
          let zero_count : got.1.count ≡ 0 = keeps id (inode_at vfs free) ∙ z in
          let fetched : IsFetched vfs super id free got.0 got.1 = (ops, fetch, e, f, refl) in
          elim (Bool-cases (is_neg got.0)) [
            | inl n ↦ rw n (
                returns
                  (failed free got.0 got.1 got.0 h z zero_count absent fetched (inl (n, refl)) n))
            | inr n ↦ elim (ℕ_discrete (file_type got.1.mode) 0) [
              | yes v ↦
                  rw (n, ==-true (file_type got.1.mode) 0 v)
                    (returns (
                      failed free (neg einval) got.1 got.0 h z zero_count absent fetched
                        (inr (n, v, refl)) refl))
              | no v ↦
                  rw (n, ==-false (file_type got.1.mode) 0 v)
                    (returns (loaded free got.1 got.0 h z absent fetched n v))
            ]
          ])

  get_inode-Searched :
      (r : ℕ ⊎ Option ℕ)
      → Searched super id vfs.inode_table 0 none r
      → search_table super id vfs.inode_table 0 none ≡ r
      → ops_of vfs super ≡ some ops
      → ops.fetch_inode ≡ some fetch
      → ((i : ℕ) (inode : Inode) → (fetch super i inode).1.count ≡ inode.count)
      → Returns (Got vfs super id) (get_inode vfs super id)
  unfolding get_inode
  get_inode-Searched (inl at) (hit k j h c) found e f keeps =
      let same : at ≡ k = omega (arith, j) in rw (get_inode, found, same) (returns (shared k h c))
  get_inode-Searched (inr (some at)) (room k j absent h z) found e f keeps =
      let same : at ≡ k = omega (arith, j) in
      rw (get_inode, found, same) (load_inode-Got k e f keeps absent h z)
  get_inode-Searched (inr none) (busy absent all_used) found e f keeps =
      rw (get_inode, found) (returns (full all_used absent))

  -- If the file system of the superblock fetches inodes and leaves their counts alone, `get_inode`
  -- returns: with the cell of the inode in use that was asked for, counted once more, and nothing
  -- fetched; or, where no cell in use holds it, with a free cell that now holds what the file system fetched for
  -- it, under the number and superblock asked for, counted once, neither dirty nor a mountpoint; or with null and
  -- the error number of fetching, or -EINVAL where what was fetched has no type of file, what was fetched being
  -- left in the free cell, which stays free; or, where every cell is in use, with null and -ENOENT, nothing
  -- written.
  pub get_inode-Got :
      ops_of vfs super ≡ some ops
      → ops.fetch_inode ≡ some fetch
      → ((i : ℕ) (inode : Inode) → (fetch super i inode).1.count ≡ inode.count)
      → Returns (Got vfs super id) (get_inode vfs super id)
  get_inode-Got e f keeps =
      get_inode-Searched (search_table super id vfs.inode_table 0 none)
        (search_table_lem super id vfs.inode_table 0 none) refl e f keeps

-- Whatever `get_inode` does, no inode is in the cache twice afterwards if none was before.
pub Got-IsUnique :
    (vfs : Vfs) (super id : ℕ) (r : (Option ℕ × ℤ) × Vfs)
    → IsUnique vfs.inode_table
    → Got vfs super id r
    → IsUnique r.1.inode_table
unfolding set_inode IsNew IsUnique
Got-IsUnique vfs super id r unique (shared i h c) =
    set-IsUnique vfs.inode_table i (record (inode_at vfs i) { count = inc (inode_at vfs i).count })
      h unique
      (λ j live _ s d. unique i j (cached_live super id (inode_at vfs i) c) live (sym s) (sym d))
Got-IsUnique vfs super id r unique (loaded i inode fetched h z absent g n v) =
    set-IsUnique vfs.inode_table i (fresh_inode super id inode) h unique
      (absent-IsNew super id vfs.inode_table i (fresh_inode super id inode) absent refl refl)
Got-IsUnique vfs super id r unique (failed i errno inode fetched h z zero_count absent g j n) =
    set-IsUnique vfs.inode_table i inode h unique
      (λ j live used s d. absurd (omega (arith, zero_count, used)))
Got-IsUnique vfs super id r unique (full all_used absent) = unique
