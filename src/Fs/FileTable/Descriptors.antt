-- ===== src/Fs/FileTable/Descriptors.antt =====
-- `alloc_fd` and `free_fd` of kernel/fs/file_table.c against the descriptors that refer to a file.
use project_islay.Prelude.{
  ℕ, zero, suc, ◌+◌, ◌-◌, ◌<◌, ◌≡◌, refl, sym, inl, inr, Option, none, some, List, [], ◌∷◌, ◌==◌,
  leb, get_or, length, set, if◌then◌else◌, arith, ==-true, ==-false, Bool-cases, Option-cases,
  eq_of_some, ℕ_discrete,
}
use mathlib.Core.Path.{subst}
use project_islay.Prelude.Arrays.{get_or-set}
use project_islay.Prelude.Int.{ℤ, pos, negsuc, is_neg}
use project_islay.Fs.{OpenFile, Vfs, TaskFsData, no_file, file_at, fs_ops_of, max_open_per_proc}
use project_islay.Fs.InodeCache.{put_node, set_inode}
use project_islay.Fs.FileTable.{set_file, close_op, drop_file, free_file, free_fd}

-- the descriptors of a table that refer to the file object `f`
unfoldable pub refs : ℕ → List (Option ℕ) → ℕ
refs f [] = 0
refs f (none ∷ table) = refs f table
refs f (some g ∷ table) = (if f == g then 1 else 0) + refs f table

-- The count of each file object is the number of descriptors that refer to it: those of this table
-- and `others`, those of the other tasks.
unfoldable pub Counted : (ℕ → ℕ) → List (Option ℕ) → List OpenFile → Type 0
Counted others table files = (f : ℕ) → (get_or files f no_file).ref_count ≡ refs f table + others f

refs-clear :
    (f g fd : ℕ) (table : List (Option ℕ))
    → get_or table fd none ≡ some g
    → refs f table ≡ refs f (set table fd none) + (if f == g then 1 else 0)
unfolding refs
refs-clear f g fd [] e = absurd (ground (arith, e))
refs-clear f g zero (none ∷ table) e = absurd (ground (arith, e))
refs-clear f g zero (some h ∷ table) e = rw (eq_of_some e) (omega arith)
refs-clear f g (suc fd) (none ∷ table) e = refs-clear f g fd table e
refs-clear f g (suc fd) (some h ∷ table) e = omega (arith, refs-clear f g fd table e)

in_range :
    (files : List OpenFile) (f : ℕ) → 0 < (get_or files f no_file).ref_count → f < length files
in_range [] f h = absurd (omega (arith, h))
in_range (x ∷ files) zero h = omega arith
in_range (x ∷ files) (suc f) h = omega (arith, in_range files f h)

-- only the entry at `f` changes
set-Counted :
    (others : ℕ → ℕ) (files : List OpenFile) (table : List (Option ℕ)) (fd f : ℕ) (v : OpenFile)
    → Counted others table files
    → get_or table fd none ≡ some f
    → v.ref_count ≡ (get_or files f no_file).ref_count - 1
    → Counted others (set table fd none) (set files f v)
unfolding Counted
set-Counted others files table fd f v counted e ev g =
    let clear = refs-clear g f fd table e in
    let at_f = rw (==-true f f refl) at (refs-clear f f fd table e) in
    let h : f < length files = in_range files f (omega (arith, counted f, at_f)) in
    elim (ℕ_discrete f g) [
      | yes same ↦
          rw (get_or-set files f g v no_file h, ==-true f g same, sym same)
            (omega (arith, ev, counted f, at_f))
      | no other ↦
          rw (get_or-set files f g v no_file h, ==-false f g other)
            (omega (arith, counted g, rw (==-false g f (λ x. other (sym x))) at clear))
    ]

put_node-open_files :
    (vfs vfs' : Vfs) (i : ℕ) → put_node vfs i ≡ some vfs' → vfs'.open_files ≡ vfs.open_files
unfolding put_node set_inode
put_node-open_files vfs vfs' i e = ground (arith, e)

drop_file-Counted :
    (vfs vfs' : Vfs) (task_data : TaskFsData) (fd f : ℕ) (others : ℕ → ℕ)
    → vfs'.open_files ≡ vfs.open_files
    → Counted others task_data.file_table vfs.open_files
    → get_or task_data.file_table fd none ≡ some f
    → Counted others
        (drop_file vfs' task_data fd f).0.1.file_table
        (drop_file vfs' task_data fd f).1.open_files
unfolding drop_file set_file
drop_file-Counted vfs vfs' task_data fd f others same counted e =
    let file : OpenFile = record (file_at vfs f) { ref_count = (file_at vfs f).ref_count - 1 } in
    rw same (set-Counted others vfs.open_files task_data.file_table fd f file counted e refl)

module _ (vfs : Vfs) (task_data : TaskFsData) (others : ℕ → ℕ) where
  -- what a close keeps
  abbrev pub Keeps : (ℤ × TaskFsData) × Vfs → Type 0
  Keeps r = Counted others r.0.1.file_table r.1.open_files

  free_file-Counted :
      (fd f : ℕ) (r : (ℤ × TaskFsData) × Vfs)
      → Counted others task_data.file_table vfs.open_files
      → get_or task_data.file_table fd none ≡ some f
      → free_file vfs task_data fd f ≡ some r
      → Keeps r
  unfolding free_file
  free_file-Counted fd f r counted e run =
      let file = file_at vfs f in
      elim (Bool-cases (file.ref_count == 0)) [
        | inl zero_count ↦ subst Keeps (eq_of_some (rw zero_count at run)) counted
        | inr c ↦ elim (Bool-cases (file.ref_count == 1)) [
          | inr d ↦
              subst Keeps (eq_of_some (rw (c, d) at run))
                (drop_file-Counted vfs vfs task_data fd f others refl counted e)
          | inl d ↦ elim (Option-cases (fs_ops_of vfs file.file_ops)) [
            | inl null ↦ absurd (ground (arith, rw (c, d, null) at run))
            | inr (ops, o) ↦ elim (Bool-cases (is_neg (close_op ops file))) [
              | inl n ↦ subst Keeps (eq_of_some (rw (c, d, o, n) at run)) counted
              | inr n ↦ elim (Option-cases (put_node vfs file.inode)) [
                | inl panics ↦ absurd (ground (arith, rw (c, d, o, n, panics) at run))
                | inr (vfs', p) ↦ subst Keeps (eq_of_some (rw (c, d, o, n, p) at run)) (
                    drop_file-Counted vfs vfs' task_data fd f others
                      (put_node-open_files vfs vfs' file.inode p) counted e)
              ]
            ]
          ]
        ]
      ]

  -- Whatever `free_fd` returns, the count of each file object is still the number of descriptors that
  -- refer to it, if it was before.
  pub free_fd-Counted :
      (fd : ℤ) (r : (ℤ × TaskFsData) × Vfs)
      → Counted others task_data.file_table vfs.open_files
      → free_fd vfs task_data fd ≡ some r
      → Keeps r
  unfolding free_fd
  free_fd-Counted (negsuc n) r counted run = subst Keeps (eq_of_some run) counted
  free_fd-Counted (pos fd) r counted run = elim (Bool-cases (leb max_open_per_proc fd)) [
    | inl big ↦ subst Keeps (eq_of_some (rw big at run)) counted
    | inr small ↦ elim (Option-cases (get_or task_data.file_table fd none)) [
      | inl closed ↦ subst Keeps (eq_of_some (rw (small, closed) at run)) counted
      | inr (f, e) ↦ free_file-Counted fd f r counted e (rw (small, e) at run)
    ]
  ]
