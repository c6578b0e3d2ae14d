-- ===== src/Fs/PathWalk/Balance.antt =====
-- The references to inodes that `pathwalk` of kernel/fs/pathwalker.c takes and gives back.
use project_islay.Prelude.{
  ℕ, zero, suc, ◌+◌, ◌≤◌, ◌<◌, ◌^◌, ◌≡◌, refl, Bool, true, false, ◌⊎◌, inl, inr, Option, none, some,
  List, [], ◌∷◌, arith, Bool-cases, ◌>>=◌, ℕ_discrete, ==-true, ==-false, Ensures, gives,
  Ensures-bind, Ensures-eq, Ensures-mono,
}
use mathlib.Core.Path.{subst}
use project_islay.Prelude.Int.{ℤ, pos, is_neg}
use project_islay.Libc.{CString}
use project_islay.Fs.{OpenFile, Vfs, inode_at, ops_of, is_dir, no_file}
use project_islay.Fs.InodeCache.{put_node}
use project_islay.Fs.InodeCache.References.{
  Held, Small, KeepsCount, one, gained, count_of, put_node-Held, clone_inode-Held, get_inode-Held,
}
use project_islay.Fs.PathWalk.{
  mounted_root, cross_mount, descend, take_entry, walk_step, walk, start_walk, walk_init, pathwalk,
  path_init, path_max, path_tokens, find_entry,
}

one_le : (i j : ℕ) → one i j ≤ 1
one_le i j = elim (ℕ_discrete i j) [
  | yes e ↦ rw (==-true i j e) (omega arith)
  | no n ↦ rw (==-false i j n) (omega arith)
]

-- `m` may stop; what it yields is named by an equation.
pub named : {A : Type 0} (m : Option A) → Ensures (λ a. m ≡ some a) m
named m = Ensures-eq m (λ a e. e)

-- the inode that is held after one turn of the loop
abbrev holder : ℕ → ℤ ⊎ ℕ → ℕ → ℕ
holder inode (inl errno) = one inode
holder inode (inr new) = one new

-- `base` leaves room for three references more.
module _ (files : List OpenFile) (base : ℕ → ℕ) (small : Small base) where
  cross_mount-Held :
      (vfs : Vfs) (inode new : ℕ)
      → Held files base vfs (λ j. one inode j + one new j)
      → Ensures (λ r. Held files base r.1 (λ j. one inode j + one r.0 j)) (cross_mount vfs new)
  unfolding cross_mount
  cross_mount-Held vfs inode new h = elim (Bool-cases (inode_at vfs new).mountpoint) [
    | inr plain ↦ rw (cross_mount, plain) (gives h)
    | inl mounted ↦
        rw (cross_mount, mounted)
          (Ensures-bind (named (mounted_root vfs new)) (λ root _.
            Ensures-bind (put_node-Held files base _ vfs h (one inode) new (λ j. refl))
              (λ released h'.
                Ensures-bind
                  (clone_inode-Held files base (one inode) released h' root
                    (omega (arith, small root, one_le inode root)))
                  (λ vfs' h''. gives h''))))
  ]

  descend-Held :
      (vfs : Vfs) (inode next : ℕ)
      → Held files base vfs (one inode)
      → Ensures (λ r. Held files base r.1 (one r.0)) (descend vfs inode next)
  unfolding descend
  descend-Held vfs inode next h =
      Ensures-bind
        (get_inode-Held files base (one inode) vfs (inode_at vfs inode).super next h
          (λ j. omega (arith, small j, one_le inode j)))
        (λ got g. Ensures-bind (named got.0.0) (λ new e.
          Ensures-bind
            (cross_mount-Held got.1 inode new
              (subst (λ o. Held files base got.1 (λ j. one inode j + gained o j)) e g))
            (λ entered g'.
              Ensures-bind
                (put_node-Held files base _ entered.1 g' (one entered.0) inode (λ j. omega arith))
                (λ vfs' g''. gives g''))))

  take_entry-Held :
      (vfs : Vfs) (inode : ℕ) (entry : ℤ ⊎ ℕ)
      → Held files base vfs (one inode)
      → Ensures (λ r. Held files base r.1 (holder inode r.0)) (take_entry vfs inode entry)
  unfolding take_entry
  take_entry-Held vfs inode (inl errno) h = gives h
  take_entry-Held vfs inode (inr zero) h = gives h
  take_entry-Held vfs inode (inr (suc next)) h =
      Ensures-bind (descend-Held vfs inode (suc next) h) (λ r g. gives g)

  walk_step-Held :
      (n : ℕ) (vfs : Vfs) (inode : ℕ) (name : CString)
      → Held files base vfs (one inode)
      → Ensures (λ r. Held files base r.1 (holder inode r.0)) (walk_step n vfs inode name)
  unfolding walk_step
  walk_step-Held n vfs inode name h = elim (Bool-cases (is_dir (inode_at vfs inode).mode)) [
    | inr file ↦ rw (walk_step, file) (gives h)
    | inl dir ↦
        rw (walk_step, dir)
          (Ensures-bind (named (ops_of vfs (inode_at vfs inode).super)) (λ ops _.
            Ensures-bind (named ops.readdir) (λ readdir _.
              Ensures-bind
                (named (find_entry (readdir (record no_file { inode = inode })) name n (pos 0)))
                (λ entry _. take_entry-Held vfs inode entry h))))
  ]

  -- after a turn of the loop, when what follows keeps the books
  turn-Held :
      (vfs : Vfs) (inode : ℕ) (o : ℤ ⊎ ℕ) (next : ℕ → Option ((ℤ × Option ℕ) × Vfs))
      → Held files base vfs (holder inode o)
      → ((new : ℕ)
          → Held files base vfs (one new)
          → Ensures (λ r. Held files base r.1 (gained r.0.1)) (next new))
      → Ensures
          (λ (r : (ℤ × Option ℕ) × Vfs). Held files base r.1 (gained r.0.1))
          (elim o [
            | inl errno ↦ put_node vfs inode >>= λ vfs'. some ((errno, none), vfs')
            | inr new ↦ next new
          ])
  turn-Held vfs inode (inl errno) next h go =
      Ensures-bind (put_node-Held files base _ vfs h (λ j. 0) inode (λ j. omega arith))
        (λ vfs' g. gives g)
  turn-Held vfs inode (inr new) next h go = go new h

  walk-Held :
      (n : ℕ) (vfs : Vfs) (inode : ℕ) (names : List CString)
      → Held files base vfs (one inode)
      → Ensures (λ r. Held files base r.1 (gained r.0.1)) (walk n vfs inode names)
  unfolding walk
  walk-Held n vfs inode [] h = gives h
  walk-Held n vfs inode (name ∷ names) h = Ensures-bind (walk_step-Held n vfs inode name h) (λ r g.
      turn-Held r.1 inode r.0 (λ new. walk n r.1 new names) g
        (λ new g'. walk-Held n r.1 new names g'))

  from_none :
      (vfs : Vfs) (i : ℕ) → Held files base vfs (λ j. 0 + one i j) → Held files base vfs (one i)
  from_none vfs i h = record {
    counts = λ j. omega (arith, h.counts j);
    keeps = h.keeps;
    same_files = h.same_files;
  }

  start_walk-Held :
      (vfs : Vfs) (root : ℕ)
      → Held files base vfs (λ j. 0)
      → Ensures (λ r. Held files base r.1 (one r.0)) (start_walk vfs root)
  unfolding start_walk
  start_walk-Held vfs root h = elim (Bool-cases (inode_at vfs root).mountpoint) [
    | inr plain ↦
        rw (start_walk, plain)
          (Ensures-bind
            (clone_inode-Held files base (λ j. 0) vfs h root (omega (arith, small root)))
            (λ vfs' g. gives (from_none vfs' root g)))
    | inl mounted ↦
        rw (start_walk, mounted)
          (Ensures-bind (named (mounted_root vfs root)) (λ top _.
            Ensures-bind (clone_inode-Held files base (λ j. 0) vfs h top (omega (arith, small top)))
              (λ vfs' g. gives (from_none vfs' top g))))
  ]

  init-Held :
      (n : ℕ) (vfs : Vfs) (root : ℕ) (init : ℤ ⊎ CString)
      → Held files base vfs (λ j. 0)
      → Ensures (λ r. Held files base r.1 (gained r.0.1)) (walk_init n vfs root init)
  unfolding walk_init
  init-Held n vfs root (inl errno) h = gives h
  init-Held n vfs root (inr buff) h =
      Ensures-bind (start_walk-Held vfs root h)
        (λ start g. walk-Held n start.1 start.0 (path_tokens buff) g)

pub pathwalk-Held :
    (files : List OpenFile) (base : ℕ → ℕ) (has_memory : Bool) (n : ℕ) (vfs : Vfs) (root : ℕ)
    (path : CString)
    → Small base
    → Held files base vfs (λ j. 0)
    → Ensures (λ r. Held files base r.1 (gained r.0.1)) (pathwalk has_memory n vfs root path)
unfolding pathwalk
pathwalk-Held files base false n vfs root path small h = gives h
pathwalk-Held files base true n vfs root path small h =
    Ensures-bind (named (path_init path path_max))
      (λ init _. init-Held files base small n vfs root init h)

-- If `pathwalk` returns, the count of every inode is what it was before, but for one reference more to
-- the inode that it hands out, if it hands one out: no error path leaks a reference or gives one back
-- twice. Fetching must leave the count of the cell that it fills, and no count may be within three
-- of its largest value.
pub pathwalk-balance :
    (has_memory : Bool) (n : ℕ) (vfs : Vfs) (root : ℕ) (path : CString)
    → KeepsCount vfs
    → ((j : ℕ) → count_of vfs j + 3 < 2 ^ 32)
    → Ensures
        (λ r. (j : ℕ) → count_of r.1 j ≡ count_of vfs j + gained r.0.1 j)
        (pathwalk has_memory n vfs root path)
pathwalk-balance has_memory n vfs root path keeps small =
    let start : Held vfs.open_files (count_of vfs) vfs (λ j. 0) = record {
      counts = λ j. omega arith;
      keeps = keeps;
      same_files = refl;
    } in
    Ensures-mono
      (pathwalk-Held vfs.open_files (count_of vfs) has_memory n vfs root path small start)
      (λ r h. h.counts)

-- An error comes with no inode.
abbrev pub NullOnError : (ℤ × Option ℕ) × Vfs → Type 0
NullOnError r = is_neg r.0.0 ≡ true → r.0.1 ≡ none

turn-NullOnError :
    (vfs : Vfs) (inode : ℕ) (o : ℤ ⊎ ℕ) (next : ℕ → Option ((ℤ × Option ℕ) × Vfs))
    → ((new : ℕ) → Ensures NullOnError (next new))
    → Ensures NullOnError (elim o [
      | inl errno ↦ put_node vfs inode >>= λ vfs'. some ((errno, none), vfs')
      | inr new ↦ next new
    ])
turn-NullOnError vfs inode (inl errno) next go =
    Ensures-bind (named (put_node vfs inode)) (λ vfs' _. gives (λ n. refl))
turn-NullOnError vfs inode (inr new) next go = go new

walk-NullOnError :
    (n : ℕ) (vfs : Vfs) (inode : ℕ) (names : List CString)
    → Ensures NullOnError (walk n vfs inode names)
unfolding walk
walk-NullOnError n vfs inode [] = gives (λ e. absurd (ground (arith, e)))
walk-NullOnError n vfs inode (name ∷ names) =
    Ensures-bind (named (walk_step n vfs inode name)) (λ r _.
      turn-NullOnError r.1 inode r.0 (λ new. walk n r.1 new names)
        (λ new. walk-NullOnError n r.1 new names))

init-NullOnError :
    (n : ℕ) (vfs : Vfs) (root : ℕ) (init : ℤ ⊎ CString)
    → Ensures NullOnError (walk_init n vfs root init)
unfolding walk_init
init-NullOnError n vfs root (inl errno) = gives (λ e. refl)
init-NullOnError n vfs root (inr buff) =
    Ensures-bind (named (start_walk vfs root))
      (λ start _. walk-NullOnError n start.1 start.0 (path_tokens buff))

pub pathwalk-NullOnError :
    (has_memory : Bool) (n : ℕ) (vfs : Vfs) (root : ℕ) (path : CString)
    → Ensures NullOnError (pathwalk has_memory n vfs root path)
unfolding pathwalk
pathwalk-NullOnError false n vfs root path = gives (λ e. refl)
pathwalk-NullOnError true n vfs root path =
    Ensures-bind (named (path_init path path_max)) (λ init _. init-NullOnError n vfs root init)
