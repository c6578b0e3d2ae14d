-- ===== src/Fs/InodeCache/References.antt =====
-- The references that the calls of kernel/fs/inode.c take and give back, for those who call them.
use project_islay.Prelude.{
  ℕ, zero, suc, ◌+◌, ◌-◌, ◌<◌, ◌^◌, ◌≡◌, ◌≢◌, refl, ◌∙◌, sym, Bool, true, false, ◌⊎◌, inl, inr,
  Option, none, some, List, [], ◌∷◌, ◌==◌, get_or, length, set, if◌then◌else◌, arith, dec_lt,
  ==-true, ==-false, ltb-false, lt→ltb, Option-cases, ℕ_discrete, Ensures, stops, gives,
  Returns-Ensures, Ensures-mono,
}
use project_islay.Prelude.Arrays.{get_or-set}
use project_islay.Prelude.Int.{ℤ}
use project_islay.Fs.{Inode, OpenFile, FsOps, Vfs, no_inode, inode_at, ops_of, inc}
use project_islay.Fs.InodeCache.{
  set_inode, is_cached, fresh_inode, get_inode, load_inode, search_table, clone_inode, put_node,
  is_root,
}
use project_islay.Fs.InodeCache.Unique.{IsUnique}
use project_islay.Fs.InodeCache.Lookup.{
  Got-IsUnique, Got, shared, loaded, failed, full, Searched, hit, room, busy, search_table_lem,
  load_inode-Got,
}

abbrev pub count_of : Vfs → ℕ → ℕ
count_of vfs j = (inode_at vfs j).count

-- one reference to `i`
abbrev pub one : ℕ → ℕ → ℕ
one i j = if i == j then 1 else 0

-- the reference that a call hands out
abbrev pub gained : Option ℕ → ℕ → ℕ
gained none j = 0
gained (some i) j = one i j

-- Fetching an inode leaves the count of the cell that it fills.
unfoldable pub KeepsCount : Vfs → Type 0
KeepsCount vfs =
    (super : ℕ) (ops : FsOps) (fetch : ℕ → ℕ → Inode → ℤ × Inode)
    → ops_of vfs super ≡ some ops
    → ops.fetch_inode ≡ some fetch
    → (id : ℕ) (inode : Inode) → (fetch super id inode).1.count ≡ inode.count

-- Each count is the one in `base` and the references of `held`; the file objects are `files`.
pub record Held (files : List OpenFile) (base : ℕ → ℕ) (vfs : Vfs) (held : ℕ → ℕ) : Type 0 where
  pub counts : (j : ℕ) → count_of vfs j ≡ base j + held j
  pub keeps : KeepsCount vfs
  pub same_files : vfs.open_files ≡ files

-- no count is near its largest value
abbrev pub Small : (ℕ → ℕ) → Type 0
Small base = (j : ℕ) → base j + 3 < 2 ^ 32

in_table : (table : List Inode) (i : ℕ) → 0 < (get_or table i no_inode).count → i < length table
in_table [] i h = absurd (omega (arith, h))
in_table (x ∷ table) zero h = omega arith
in_table (x ∷ table) (suc i) h = omega (arith, in_table table i h)

keeps-set_inode : (vfs : Vfs) (i : ℕ) (v : Inode) → KeepsCount vfs → KeepsCount (set_inode vfs i v)
unfolding set_inode KeepsCount ops_of
keeps-set_inode vfs i v keeps = keeps

count_after :
    (table : List Inode) (i j : ℕ) (v : Inode)
    → i < length table
    → (get_or (set table i v) j no_inode).count
      ≡ (if i == j then v.count else (get_or table j no_inode).count)
count_after table i j v inside = elim (ℕ_discrete i j) [
  | yes same ↦ rw (get_or-set table i j v no_inode inside, ==-true i j same) refl
  | no other ↦ rw (get_or-set table i j v no_inode inside, ==-false i j other) refl
]

-- one cell changes
set_inode-Held :
    (files : List OpenFile) (base held held' : ℕ → ℕ) (vfs : Vfs) (i : ℕ) (v : Inode)
    → Held files base vfs held
    → i < length vfs.inode_table
    → v.count ≡ base i + held' i
    → ((j : ℕ) → i ≢ j → held j ≡ held' j)
    → Held files base (set_inode vfs i v) held'
unfolding set_inode
set_inode-Held files base held held' vfs i v h inside at_i others = record {
  counts = λ j. count_after vfs.inode_table i j v inside ∙ elim (ℕ_discrete i j) [
    | yes same ↦ rw (==-true i j same, sym same) at_i
    | no other ↦ rw (==-false i j other) (omega (arith, h.counts j, others j other))
  ];
  keeps = keeps-set_inode vfs i v h.keeps;
  same_files = h.same_files;
}

-- the end of `put_node`
release_branches :
    {P : Vfs → Type 0} (last root mounted : Bool) {m : Option Vfs}
    → Ensures P m
    → Ensures P (if last then (if root then none else if mounted then none else m) else m)
release_branches false root mounted p = p
release_branches true true mounted p = stops
release_branches true false true p = stops
release_branches true false false p = p

module _ (files : List OpenFile) (base : ℕ → ℕ) (held : ℕ → ℕ) (vfs : Vfs)
    (h : Held files base vfs held) where
  pub put_node-Held :
      (held' : ℕ → ℕ) (i : ℕ)
      → ((j : ℕ) → held j ≡ held' j + one i j)
      → Ensures (λ vfs'. Held files base vfs' held') (put_node vfs i)
  unfolding put_node
  put_node-Held held' i split =
      let inode = inode_at vfs i in
      let less : Inode = record inode { count = inode.count - 1 } in
      elim (dec_lt 0 inode.count) [
        | no dead ↦ rw (put_node, ltb-false 0 inode.count (omega (arith, dead))) stops
        | yes live ↦
            let inside : i < length vfs.inode_table = in_table vfs.inode_table i live in
            let one_self = ==-true i i refl in
            let at_i : less.count ≡ base i + held' i =
              omega (arith, h.counts i, rw one_self at (split i)) in
            let others : (j : ℕ) → i ≢ j → held j ≡ held' j =
              λ j n. let e = rw (==-false i j n) at (split j) in omega (arith, e) in
            let done : Held files base (set_inode vfs i less) held' =
              set_inode-Held files base held held' vfs i less h inside at_i others in
            rw (put_node, lt→ltb 0 inode.count live)
              (release_branches (inode.count - 1 == 0) (is_root vfs i) inode.mountpoint
                (gives done))
      ]

  -- one reference more at `i`
  more_Held :
      (i : ℕ) (v : Inode)
      → i < length vfs.inode_table
      → v.count ≡ base i + held i + 1
      → Held files base (set_inode vfs i v) (λ j. held j + one i j)
  more_Held i v inside e =
      set_inode-Held files base held (λ j. held j + one i j) vfs i v h inside
        (rw (==-true i i refl) (omega (arith, e))) (λ j n. rw (==-false i j n) (omega arith))

  pub clone_inode-Held :
      (i : ℕ)
      → base i + held i + 1 < 2 ^ 32
      → Ensures (λ vfs'. Held files base vfs' (λ j. held j + one i j)) (clone_inode vfs i)
  unfolding clone_inode
  clone_inode-Held i small =
      let inode = inode_at vfs i in
      let more : Inode = record inode { count = inc inode.count } in
      elim (dec_lt 0 inode.count) [
        | no dead ↦ rw (clone_inode, ltb-false 0 inode.count (omega (arith, dead))) stops
        | yes live ↦
            rw (clone_inode, lt→ltb 0 inode.count live)
              (gives (
                more_Held i more (in_table vfs.inode_table i live)
                  (omega (arith, h.counts i, small))))
      ]

  Got-Held :
      (super id : ℕ) (r : (Option ℕ × ℤ) × Vfs)
      → ((j : ℕ) → base j + held j + 1 < 2 ^ 32)
      → Got vfs super id r
      → Held files base r.1 (λ j. held j + gained r.0.0 j)
  Got-Held super id r small (shared i inside c) =
      more_Held i (record (inode_at vfs i) { count = inc (inode_at vfs i).count }) inside
        (omega (arith, h.counts i, small i))
  Got-Held super id r small (loaded i inode fetched inside z absent g n v) =
      more_Held i (fresh_inode super id inode) inside (omega (arith, h.counts i, z))
  Got-Held super id r small (failed i errno inode fetched inside z zero_count absent g w n) =
      set_inode-Held files base held (λ j. held j + 0) vfs i inode h inside
        (omega (arith, h.counts i, z, zero_count)) (λ j n'. omega arith)
  Got-Held super id r small (full all_used absent) = record {
    counts = λ j. omega (arith, h.counts j);
    keeps = h.keeps;
    same_files = h.same_files;
  }

module _ (vfs : Vfs) (super id : ℕ) (keeps : KeepsCount vfs) where
  load_inode-Ensures :
      (free : ℕ)
      → ((j : ℕ) → is_cached super id (inode_at vfs j) ≡ false)
      → free < length vfs.inode_table
      → (inode_at vfs free).count ≡ 0
      → Ensures (Got vfs super id) (load_inode vfs super id free)
  unfolding load_inode KeepsCount
  load_inode-Ensures free absent inside z = elim (Option-cases (ops_of vfs super)) [
    | inl null ↦ rw (load_inode, null) stops
    | inr (ops, o) ↦ elim (Option-cases ops.fetch_inode) [
      | inl null ↦ rw (load_inode, o, null) stops
      | inr (fetch, f) ↦ Returns-Ensures (
          load_inode-Got vfs super id ops fetch free o f (keeps super ops fetch o f) absent inside
            z)
    ]
  ]

  get_inode-Ensures :
      (r : ℕ ⊎ Option ℕ)
      → Searched super id vfs.inode_table 0 none r
      → search_table super id vfs.inode_table 0 none ≡ r
      → Ensures (Got vfs super id) (get_inode vfs super id)
  unfolding get_inode
  get_inode-Ensures (inl at) (hit k e inside c) found =
      let same : at ≡ k = omega (arith, e) in
      rw (get_inode, found, same) (gives (shared k inside c))
  get_inode-Ensures (inr (some at)) (room k e absent inside z) found =
      let same : at ≡ k = omega (arith, e) in
      rw (get_inode, found, same) (load_inode-Ensures k absent inside z)
  get_inode-Ensures (inr none) (busy absent all_used) found =
      rw (get_inode, found) (gives (full all_used absent))

pub get_inode-Held :
    (files : List OpenFile) (base held : ℕ → ℕ) (vfs : Vfs) (super id : ℕ)
    → Held files base vfs held
    → ((j : ℕ) → base j + held j + 1 < 2 ^ 32)
    → Ensures (λ r. Held files base r.1 (λ j. held j + gained r.0.0 j)) (get_inode vfs super id)
get_inode-Held files base held vfs super id h small =
    Ensures-mono
      (get_inode-Ensures vfs super id h.keeps (search_table super id vfs.inode_table 0 none)
        (search_table_lem super id vfs.inode_table 0 none) refl)
      (λ r got. Got-Held files base held vfs h super id r small got)

-- If no inode is in the cache twice, `get_inode` leaves none there twice. Fetching must leave the count of
-- the cell that it fills.
pub get_inode-IsUnique :
    (vfs : Vfs) (super id : ℕ)
    → KeepsCount vfs
    → IsUnique vfs.inode_table
    → Ensures (λ r. IsUnique r.1.inode_table) (get_inode vfs super id)
get_inode-IsUnique vfs super id keeps unique =
    Ensures-mono
      (get_inode-Ensures vfs super id keeps (search_table super id vfs.inode_table 0 none)
        (search_table_lem super id vfs.inode_table 0 none) refl)
      (λ r got. Got-IsUnique vfs super id r unique got)
