-- ===== src/Fs/FileTable.antt =====
-- kernel/fs/file_table.c: the table of all open files and the descriptors of a task.
pub mod Descriptors
pub mod Allocation
use project_islay.Prelude.{
  ℕ, ◌+◌, ◌-◌, Option, none, some, List, [], ◌∷◌, ◌==◌, leb, ◌>>=◌, set, get_or, if◌then◌else◌,
}
use project_islay.Prelude.Int.{ℤ, pos, negsuc, is_neg, neg, enfile, ebadf}
use project_islay.Fs.{OpenFile, FsOps, Vfs, TaskFsData, file_at, fs_ops_of, max_open_per_proc}
use project_islay.Fs.InodeCache.{put_node}

-- The first loop of `alloc_fd`, from descriptor `i` on. The table has `max_open_per_proc` entries.
unfoldable pub find_fd : List (Option ℕ) → ℕ → Option ℕ
find_fd [] i = none
find_fd (none ∷ table) i = some i
find_fd (some file ∷ table) i = find_fd table (i + 1)

-- The second loop of `alloc_fd`, from file object `i` on.
unfoldable pub find_file : List OpenFile → ℕ → Option ℕ
find_file [] i = none
find_file (file ∷ files) i =
    let rest = find_file files (i + 1) in if file.ref_count == 0 then some i else rest

unfoldable pub set_file : Vfs → ℕ → OpenFile → Vfs
set_file vfs i file = record vfs { open_files = set vfs.open_files i file }

-- `alloc_fd`: the descriptor or an error, with the file object.
unfoldable pub alloc_fd : Vfs → TaskFsData → (ℤ × Option ℕ) × Vfs
alloc_fd vfs task_data = elim (find_fd task_data.file_table 0) [
  | none ↦ ((neg enfile, none), vfs)
  | some fd ↦ elim (find_file vfs.open_files 0) [
    | none ↦ ((neg enfile, none), vfs)
    | some f ↦ ((pos fd, some f), set_file vfs f (record (file_at vfs f) { offset = pos 0 }))
  ]
]

-- `file->file_ops->close(file)`, if there is one
abbrev pub close_op : FsOps → OpenFile → ℤ
close_op ops file = elim ops.close_file [ none ↦ pos 0 | some close ↦ close file ]

-- the end of `free_fd`
unfoldable pub drop_file : Vfs → TaskFsData → ℕ → ℕ → (ℤ × TaskFsData) × Vfs
drop_file vfs task_data fd f =
    let file = file_at vfs f in
    (
      (pos 0, record task_data { file_table = set task_data.file_table fd none }),
      set_file vfs f (record file { ref_count = file.ref_count - 1 }),
    )

-- `free_fd` from the point where it has the file.
unfoldable pub free_file : Vfs → TaskFsData → ℕ → ℕ → Option ((ℤ × TaskFsData) × Vfs)
free_file vfs task_data fd f =
    let file = file_at vfs f in
    if file.ref_count == 0
    then some ((neg ebadf, task_data), vfs)
    else if file.ref_count == 1
    then (do
      ops ← fs_ops_of vfs file.file_ops
      let ret = close_op ops file
      if is_neg ret
          then some ((ret, task_data), vfs)
          else (do vfs' ← put_node vfs file.inode; some (drop_file vfs' task_data fd f)))
    else some (drop_file vfs task_data fd f)

-- `none` is a panic of `put_node` or a null `file_ops`.
unfoldable pub free_fd : Vfs → TaskFsData → ℤ → Option ((ℤ × TaskFsData) × Vfs)
free_fd vfs task_data (negsuc n) = some ((neg ebadf, task_data), vfs)
free_fd vfs task_data (pos fd) =
    if leb max_open_per_proc fd
    then some ((neg ebadf, task_data), vfs)
    else elim (get_or task_data.file_table fd none) [
      | none ↦ some ((neg ebadf, task_data), vfs)
      | some f ↦ free_file vfs task_data fd f
    ]
