-- ===== src/Fs/FileOperations/Access.antt =====
-- What the calls of kernel/fs/file_operations.c let through, and the offsets that they leave.
use project_islay.Prelude.{
  ℕ, ◌≡◌, refl, ◌∙◌, sym, Bool, true, false, ◌&&◌, ◌⊎◌, inl, inr, some, set, ◌||◌, if◌then◌else◌,
  arith, Bool-cases, Option-cases, eq_of_some, Returns, returns,
}
use mathlib.Core.Path.{subst}
use project_islay.Prelude.Int.{ℤ, pos, negsuc, ◌+ℤ◌, is_neg, neg, ebadf, eisdir, eperm}
use project_islay.Fs.{
  OpenFile, FsOps, Vfs, TaskFsData, file_at, inode_at, superblock_at, fs_ops_of, has_flag, is_dir,
  mount_readonly, o_rdwr, o_wronly, o_rdonly,
}
use project_islay.Fs.FileTable.{set_file}
use project_islay.Fs.FileOperations.{to_int, file_of, may_access, advance, rw_file, rw_helper}

-- the operation may go ahead on the file object `f`
pub record IsPermitted (vfs : Vfs) (f : ℕ) (write : Bool) : Type 0 where
  pub regular : is_dir (inode_at vfs (file_at vfs f).inode).mode ≡ false
  pub mode :
      (has_flag (file_at vfs f).oflags o_rdwr ≡ true)
      ⊎ (has_flag (file_at vfs f).oflags (if write then o_wronly else o_rdonly) ≡ true)
  pub writable :
      write
        && has_flag
            (superblock_at vfs (inode_at vfs (file_at vfs f).inode).super).flags
            mount_readonly
      ≡ false

-- the file system of the file object `f` has the operation
abbrev pub HasOp : Vfs → ℕ → Bool → Type 0
HasOp vfs f write =
    (ops : FsOps) × (fs_ops_of vfs (file_at vfs f).file_ops ≡ some ops)
    × (op : OpenFile → ℕ → ℤ → ℤ) × ((if write then ops.write else ops.read) ≡ some op)

-- The file object `f` once its offset is moved by `bytes`, in 32 bits.
abbrev pub moved_by : Vfs → ℕ → ℤ → Vfs
moved_by vfs f bytes = record vfs {
  open_files =
      set vfs.open_files f
        (record (file_at vfs f) { offset = to_int ((file_at vfs f).offset +ℤ bytes) });
}

-- The result of a transfer of `bytes`, and the offset of the file, moved if it is the one used and `bytes` is no
-- error.
pub record IsMoved (vfs : Vfs) (f : ℕ) (own : Bool) (bytes : ℤ) (r : ℤ × Vfs) : Type 0 where
  pub result : r.0 ≡ bytes
  pub moved : own ≡ true → is_neg bytes ≡ false → r.1 ≡ moved_by vfs f bytes
  pub given : own ≡ false → r.1 ≡ vfs
  pub failed : is_neg bytes ≡ true → r.1 ≡ vfs

advance-IsMoved :
    (vfs : Vfs) (f : ℕ) (own : Bool) (bytes : ℤ) → IsMoved vfs f own bytes (advance vfs f own bytes)
unfolding advance set_file
advance-IsMoved vfs f own (negsuc n) = record {
  result = refl;
  moved = λ w e. absurd (ground (arith, e));
  given = λ w. refl;
  failed = λ e. refl;
}
advance-IsMoved vfs f true (pos n) = record {
  result = refl;
  moved = λ w e. refl;
  given = λ w. absurd (ground (arith, w));
  failed = λ e. absurd (ground (arith, e));
}
advance-IsMoved vfs f false (pos n) = record {
  result = refl;
  moved = λ w e. absurd (ground (arith, w));
  given = λ w. refl;
  failed = λ e. absurd (ground (arith, e));
}

or_true : (b : Bool) → (b || true) ≡ true
or_true true = refl
or_true false = refl

may_access-mode :
    (oflags : ℕ) (write : Bool)
    → may_access oflags write ≡ true
    → (has_flag oflags o_rdwr ≡ true)
      ⊎ (has_flag oflags (if write then o_wronly else o_rdonly) ≡ true)
unfolding may_access
may_access-mode oflags write h = elim (Bool-cases (has_flag oflags o_rdwr)) [
  | inl e ↦ inl e
  | inr e ↦ inr (may_flag write (rw e at h))
]
  where
    may_flag :
        (w : Bool)
        → (if w then has_flag oflags o_wronly else has_flag oflags o_rdonly) ≡ true
        → has_flag oflags (if w then o_wronly else o_rdonly) ≡ true
    may_flag true e = e
    may_flag false e = e

mode-may_access :
    (oflags : ℕ) (write : Bool)
    → (has_flag oflags o_rdwr ≡ true)
      ⊎ (has_flag oflags (if write then o_wronly else o_rdonly) ≡ true)
    → may_access oflags write ≡ true
unfolding may_access
mode-may_access oflags write (inl e) = rw e refl
mode-may_access oflags true (inr e) = rw e (or_true (has_flag oflags o_rdwr))
mode-may_access oflags false (inr e) = rw e (or_true (has_flag oflags o_rdwr))

-- What `rw_helper` returns for a descriptor, with the table of open files that it leaves.
pub data Transfer (vfs : Vfs) (task_data : TaskFsData) (fd : ℤ) (nbyte : ℕ) (offset : ℤ)
    (own write : Bool) : ℤ × Vfs → Type 0 where
  refused :
      (errno : ℤ)
      → is_neg errno ≡ true
      → ((f : ℕ) → file_of task_data fd ≡ some f → ¬ IsPermitted vfs f write)
      → Transfer vfs task_data fd nbyte offset own write (errno, vfs)
  transferred :
      (f : ℕ) (ops : FsOps) (op : OpenFile → ℕ → ℤ → ℤ) {r : ℤ × Vfs}
      → file_of task_data fd ≡ some f
      → IsPermitted vfs f write
      → fs_ops_of vfs (file_at vfs f).file_ops ≡ some ops
      → (if write then ops.write else ops.read) ≡ some op
      → IsMoved vfs f own
          (to_int (op (file_at vfs f) nbyte (if own then (file_at vfs f).offset else offset)))
          r
      → Transfer vfs task_data fd nbyte offset own write r

module _ (vfs : Vfs) (task_data : TaskFsData) (fd : ℤ) (nbyte : ℕ) (offset : ℤ)
    (own write : Bool) where
  abbrev Result : ℤ × Vfs → Type 0
  Result = Transfer vfs task_data fd nbyte offset own write

  refused_at :
      (f : ℕ) (errno : ℤ)
      → file_of task_data fd ≡ some f
      → is_neg errno ≡ true
      → ¬ IsPermitted vfs f write
      → Result (errno, vfs)
  refused_at f errno opened n not_permitted = refused errno n (λ g e p.
      not_permitted (subst (λ k. IsPermitted vfs k write) (eq_of_some (sym e ∙ opened)) p))

  rw_file-Transfer :
      (f : ℕ)
      → file_of task_data fd ≡ some f
      → (IsPermitted vfs f write → HasOp vfs f write)
      → Returns Result (rw_file vfs f nbyte offset own write)
  unfolding rw_file
  rw_file-Transfer f opened ready =
      let inode = inode_at vfs (file_at vfs f).inode in
      elim (Bool-cases (is_dir inode.mode)) [
        | inl d ↦ rw d (
            returns
              (refused_at f (neg eisdir) opened refl (λ p. absurd (ground (arith, d, p.regular)))))
        | inr d ↦ elim (Bool-cases (may_access (file_at vfs f).oflags write)) [
          | inr m ↦
              rw (d, m)
                (returns (
                  refused_at f (neg eperm) opened refl (λ p.
                    let e = mode-may_access (file_at vfs f).oflags write p.mode in
                    absurd (ground (arith, m, e)))))
          | inl m ↦
              elim (Bool-cases
                (write && has_flag (superblock_at vfs inode.super).flags mount_readonly)) [
                  | inl w ↦
                      rw (d, m, w)
                        (returns (
                          refused_at f (neg eperm) opened refl
                            (λ p. absurd (ground (arith, w, p.writable)))))
                  | inr w ↦
                      let permitted : IsPermitted vfs f write = record {
                        regular = d;
                        mode = may_access-mode (file_at vfs f).oflags write m;
                        writable = w;
                      } in
                      let (ops, o, op, q) = ready permitted in
                      rw (d, m, w, o, q)
                        (returns
                          (transferred f ops op opened permitted o q (advance-IsMoved vfs f own _)))
                ]
        ]
      ]

  -- If the file system has the operation wherever it is permitted, `rw_helper` returns. It reaches the
  -- operation only for an open descriptor of a file that is no directory, in a mode that the flags of
  -- the file allow, and to write only where the superblock is not read-only; it then passes the file's
  -- own offset or the one given, returns the result as an `int`, and moves the file's own offset by it, in 32 bits,
  -- if that is the one used and the result is no error, and changes nothing otherwise. In every other case it
  -- returns a negative error number and changes nothing.
  pub rw_helper-Transfer :
      ((f : ℕ) → file_of task_data fd ≡ some f → IsPermitted vfs f write → HasOp vfs f write)
      → Returns
          (Transfer vfs task_data fd nbyte offset own write)
          (rw_helper vfs task_data fd nbyte offset own write)
  unfolding rw_helper
  rw_helper-Transfer ready = elim (Option-cases (file_of task_data fd)) [
    | inl closed ↦
        rw (rw_helper, closed)
          (returns (refused (neg ebadf) refl (λ f e. absurd (ground (arith, closed, e)))))
    | inr (f, opened) ↦ rw (rw_helper, opened) (rw_file-Transfer f opened (ready f opened))
  ]
