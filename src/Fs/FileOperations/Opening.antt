-- ===== src/Fs/FileOperations/Opening.antt =====
-- `open` of kernel/fs/file_operations.c: what it keeps hold of.
use project_islay.Prelude.{
  ℕ, ◌+◌, ◌<◌, ◌^◌, ◌≡◌, refl, ap, ◌∙◌, sym, Bool, true, not, inl, inr, ◌&&◌, ◌||◌, Option, some,
  List, ◌==◌, arith, length, set, if◌then◌else◌, Bool-cases, ==-true, Ensures, gives, Ensures-bind,
  Ensures-both, length-set,
}
use mathlib.Core.Path.{subst}
use project_islay.Prelude.Arrays.{get_or-set}
use project_islay.Prelude.Int.{ℤ, pos, is_neg, neg, eperm, enotdir}
use project_islay.Libc.{CString, head}
use project_islay.Fs.{
  OpenFile, FsOps, Vfs, TaskFsData, no_file, file_at, inode_at, superblock_at, fs_ops_of, ops_of,
  has_flag, is_dir, o_directory, o_rdwr, o_wronly, mount_readonly,
}
use project_islay.Fs.InodeCache.References.{
  Held, Small, KeepsCount, one, gained, count_of, put_node-Held,
}
use project_islay.Fs.PathWalk.{slash}
use project_islay.Fs.PathWalk.Balance.{named, pathwalk-Held, pathwalk-NullOnError}
use project_islay.Fs.FileTable.{set_file, alloc_fd}
use project_islay.Fs.FileTable.Allocation.{
  IsFree, Handed, handed, no_descriptor, no_object, alloc_fd-Handed,
}
use project_islay.Fs.FileOperations.{
  open_op, open_inode, open_path, open_allocated, open_file, put_and_fail, install_file,
}

-- What `open` leaves: an error with every reference given back and the descriptors as they were, or a
-- free descriptor that now refers to a file object in use once, which holds one reference to its inode.
pub data Opened (base : ℕ → ℕ) (task_data : TaskFsData) : (ℤ × TaskFsData) × Vfs → Type 0 where
  refused :
      {errno : ℤ} {vfs' : Vfs}
      → is_neg errno ≡ true
      → ((j : ℕ) → count_of vfs' j ≡ base j)
      → Opened base task_data ((errno, task_data), vfs')
  opened :
      (fd f : ℕ) {vfs' : Vfs}
      → IsFree task_data.file_table fd
      → (file_at vfs' f).ref_count ≡ 1
      → ((j : ℕ) → count_of vfs' j ≡ base j + one (file_at vfs' f).inode j)
      → Opened base task_data
          ((pos fd, record task_data { file_table = set task_data.file_table fd (some f) }), vfs')

set_file-Held :
    (files : List OpenFile) (base : ℕ → ℕ) (vfs : Vfs) (held : ℕ → ℕ) (f : ℕ) (file : OpenFile)
    → Held files base vfs held
    → Held (set files f file) base (set_file vfs f file) held
unfolding set_file KeepsCount ops_of
set_file-Held files base vfs held f file h = record {
  counts = h.counts;
  keeps = h.keeps;
  same_files = ap (λ l. set l f file) h.same_files;
}

file_after :
    (vfs : Vfs) (f : ℕ) (file : OpenFile)
    → f < length vfs.open_files
    → file_at (set_file vfs f file) f ≡ file
unfolding set_file
file_after vfs f file inside =
    rw (get_or-set vfs.open_files f f file no_file inside, ==-true f f refl) refl

module _ (base : ℕ → ℕ) (task_data : TaskFsData) where
  put_and_fail-Opened :
      (files : List OpenFile) (vfs : Vfs) (inode : ℕ) (errno : ℤ)
      → is_neg errno ≡ true
      → Held files base vfs (one inode)
      → Ensures (Opened base task_data) (put_and_fail vfs task_data inode errno)
  unfolding put_and_fail
  put_and_fail-Opened files vfs inode errno n h =
      Ensures-bind (put_node-Held files base _ vfs h (λ j. 0) inode (λ j. omega arith))
        (λ vfs' g. gives (refused n (λ j. omega (arith, g.counts j))))

  install_file-Opened :
      (files : List OpenFile) (vfs : Vfs) (fd f oflag : ℕ)
      → IsFree task_data.file_table fd
      → f < length vfs.open_files
      → Held files base vfs (one (file_at vfs f).inode)
      → Opened base task_data (install_file vfs task_data fd f oflag)
  unfolding install_file
  install_file-Opened files vfs fd f oflag free inside h =
      let file : OpenFile = record (file_at vfs f) { oflags = oflag; ref_count = 1 } in
      let now : file_at (set_file vfs f file) f ≡ file = file_after vfs f file inside in
      let h' = set_file-Held files base vfs (one (file_at vfs f).inode) f file h in
      opened fd f free (ap (λ (x : OpenFile). x.ref_count) now)
        (λ j. h'.counts j ∙ ap (λ (x : OpenFile). base j + one x.inode j) (sym now))

  -- the call of the file system's own `open`, and what follows
  open_op-Ensures :
      (files : List OpenFile) (vfs : Vfs) (fd f inode oflag k : ℕ) (ops : FsOps)
      → IsFree task_data.file_table fd
      → f < length files
      → Held files base vfs (one inode)
      → Ensures (Opened base task_data) (
          let vfs' = set_file vfs f (record (file_at vfs f) { file_ops = k; inode = inode }) in
          let ret = open_op ops (file_at vfs' f) oflag in
          if is_neg ret
          then put_and_fail vfs' task_data inode ret
          else some (install_file vfs' task_data fd f oflag))
  open_op-Ensures files vfs fd f inode oflag k ops free inside h =
      let file : OpenFile = record (file_at vfs f) { file_ops = k; inode = inode } in
      let vfs' = set_file vfs f file in
      let here : f < length vfs.open_files =
        subst (λ (l : List OpenFile). f < length l) (sym h.same_files) inside in
      let now : file_at vfs' f ≡ file = file_after vfs f file here in
      let g = set_file-Held files base vfs (one inode) f file h in
      let there : f < length vfs'.open_files =
        subst (λ (l : List OpenFile). f < length l) (sym g.same_files)
          (subst (λ m. f < m) (sym (length-set files f file)) inside) in
      elim (Bool-cases (is_neg (open_op ops (file_at vfs' f) oflag))) [
        | inl n ↦ rw n (put_and_fail-Opened (set files f file) vfs' inode _ n g)
        | inr n ↦ rw n (
            gives (
              install_file-Opened (set files f file) vfs' fd f oflag free there (
                subst (λ (x : OpenFile). Held (set files f file) base vfs' (one x.inode)) (sym now)
                  g)))
      ]

  open_inode-Opened :
      (files : List OpenFile) (vfs : Vfs) (fd f inode oflag : ℕ)
      → IsFree task_data.file_table fd
      → f < length files
      → Held files base vfs (one inode)
      → Ensures (Opened base task_data) (open_inode vfs task_data fd f inode oflag)
  unfolding open_inode
  open_inode-Opened files vfs fd f inode oflag free inside h =
      let super = superblock_at vfs (inode_at vfs inode).super in
      elim (Bool-cases (has_flag oflag o_directory && not (is_dir (inode_at vfs inode).mode))) [
        | inl no_dir ↦
            rw (open_inode, no_dir) (put_and_fail-Opened files vfs inode (neg enotdir) refl h)
        | inr fits ↦
            elim (Bool-cases (
              (has_flag oflag o_rdwr || has_flag oflag o_wronly)
              && has_flag super.flags mount_readonly)) [
                | inl readonly ↦
                    rw (open_inode, fits, readonly)
                      (put_and_fail-Opened files vfs inode (neg eperm) refl h)
                | inr writable ↦
                    rw (open_inode, fits, writable)
                      (Ensures-bind (named super.fs) (λ k _.
                        Ensures-bind (named (fs_ops_of vfs k)) (λ ops _.
                          open_op-Ensures files vfs fd f inode oflag k ops free inside h)))
              ]
      ]

  open_path-Opened :
      (files : List OpenFile) (has_memory : Bool) (n : ℕ) (vfs : Vfs) (fd f : ℕ) (path : CString)
      (oflag : ℕ)
      → IsFree task_data.file_table fd
      → f < length files
      → Small base
      → Held files base vfs (λ j. 0)
      → Ensures (Opened base task_data) (open_path has_memory n vfs task_data fd f path oflag)
  unfolding open_path
  open_path-Opened files has_memory n vfs fd f path oflag free inside small h =
      Ensures-bind (named (if head path == slash then task_data.rootdir else task_data.workdir))
        (λ start _.
          Ensures-bind
            (Ensures-both (pathwalk-Held files base has_memory n vfs start path small h)
              (pathwalk-NullOnError has_memory n vfs start path))
            (λ r (g, null). elim (Bool-cases (is_neg r.0.0)) [
              | inl e ↦
                  let g' = subst (λ o. Held files base r.1 (gained o)) (null e) g in
                  rw e (gives (refused e (λ j. omega (arith, g'.counts j))))
              | inr e ↦ rw e (
                  Ensures-bind (named r.0.1) (λ inode found.
                    open_inode-Opened files r.1 fd f inode oflag free inside
                      (subst (λ o. Held files base r.1 (gained o)) found g)))
            ]))

allocated-Opened :
    (has_memory : Bool) (n : ℕ) (vfs : Vfs) (task_data : TaskFsData) (path : CString) (oflag : ℕ)
    (r : (ℤ × Option ℕ) × Vfs)
    → KeepsCount vfs
    → ((j : ℕ) → count_of vfs j + 3 < 2 ^ 32)
    → Handed vfs task_data r
    → Ensures (Opened (count_of vfs) task_data) (open_allocated has_memory n task_data path oflag r)
unfolding open_allocated
allocated-Opened has_memory n vfs task_data path oflag r keeps small
      (handed fd f free before inside z) =
    let file : OpenFile = record (file_at vfs f) { offset = pos 0 } in
    let start : Held vfs.open_files (count_of vfs) vfs (λ j. 0) = record {
      counts = λ j. omega arith;
      keeps = keeps;
      same_files = refl;
    } in
    open_path-Opened (count_of vfs) task_data (set vfs.open_files f file) has_memory n
      (set_file vfs f file) fd f path oflag free
      (subst (λ m. f < m) (sym (length-set vfs.open_files f file)) inside) small
      (set_file-Held vfs.open_files (count_of vfs) vfs (λ j. 0) f file start)
allocated-Opened has_memory n vfs task_data path oflag r keeps small (no_descriptor all) =
    gives (refused refl (λ j. refl))
allocated-Opened has_memory n vfs task_data path oflag r keeps small (no_object all) =
    gives (refused refl (λ j. refl))

-- If `open` returns, it has either failed with a negative error number, with the descriptors of the
-- task and the count of every inode as they were; or a descriptor that was free refers to a file object
-- in use once, and the inode of that object, and no other, has one reference more. Fetching must leave
-- the count of the cell that it fills, and no count may be within three of its largest value.
pub open_file-Opened :
    (has_memory : Bool) (n : ℕ) (vfs : Vfs) (task_data : TaskFsData) (path : CString) (oflag : ℕ)
    → KeepsCount vfs
    → ((j : ℕ) → count_of vfs j + 3 < 2 ^ 32)
    → Ensures (Opened (count_of vfs) task_data) (open_file has_memory n vfs task_data path oflag)
unfolding open_file
open_file-Opened has_memory n vfs task_data path oflag keeps small =
    elim (Bool-cases (oflag == 0)) [
      | inl z ↦ rw (open_file, z) (gives (refused refl (λ j. refl)))
      | inr nz ↦
          rw (open_file, nz)
            (allocated-Opened has_memory n vfs task_data path oflag (alloc_fd vfs task_data) keeps
              small (alloc_fd-Handed vfs task_data))
    ]
