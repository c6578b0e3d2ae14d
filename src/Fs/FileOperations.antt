-- ===== src/Fs/FileOperations.antt =====
-- kernel/fs/file_operations.c: the calls on descriptors. The data of the current task is an
-- argument; that the caller is no interrupt, which `get_fs_data` asserts, is taken for granted.
pub mod Access
pub mod Directory
pub mod Continuing
pub mod Opening
use project_islay.Prelude.{
  ℕ, ◌+◌, ◌-◌, zero, suc, Bool, true, false, not, ◌&&◌, ◌||◌, Option, none, some, List, [], ◌∷◌,
  ◌++◌, ◌==◌, leb, ltb, ◌%◌, ◌^◌, ◌>>=◌, get_or, set, length, ◌⊎◌, inl, inr, if◌then◌else◌,
}
use project_islay.Prelude.Int.{ℤ, pos, negsuc, ◌+ℤ◌, is_neg, neg, ebadf, eisdir, enotdir, eperm}
use project_islay.Fs.{
  OpenFile, FsOps, Dirent, Vfs, TaskFsData, file_at, inode_at, superblock_at, fs_ops_of, has_flag,
  is_dir, max_open_per_proc, mount_readonly, o_directory, o_rdonly, o_rdwr, o_wronly,
}
use project_islay.Libc.{CString, head}
use project_islay.Fs.InodeCache.{put_node}
use project_islay.Fs.PathWalk.{pathwalk, slash}
use project_islay.Fs.FileTable.{set_file, alloc_fd, free_fd}

-- The end of `open`: the file object is in use and the descriptor refers to it.
unfoldable pub install_file : Vfs → TaskFsData → ℕ → ℕ → ℕ → (ℤ × TaskFsData) × Vfs
install_file vfs task_data fd f oflag = (
  (pos fd, record task_data { file_table = set task_data.file_table fd (some f) }),
  set_file vfs f (record (file_at vfs f) { oflags = oflag; ref_count = 1 }),
)

-- `file->file_ops->open(file, oflag)`, if there is one
abbrev pub open_op : FsOps → OpenFile → ℕ → ℤ
open_op ops file oflag = elim ops.open_file [ none ↦ pos 0 | some op ↦ op file oflag ]

-- `put_node(inode); return errno;`
unfoldable pub put_and_fail : Vfs → TaskFsData → ℕ → ℤ → Option ((ℤ × TaskFsData) × Vfs)
put_and_fail vfs task_data inode errno = do
  vfs' ← put_node vfs inode
  some ((errno, task_data), vfs')

-- `open` from the point where it has the inode, the descriptor and the file object.
unfoldable pub open_inode : Vfs → TaskFsData → ℕ → ℕ → ℕ → ℕ → Option ((ℤ × TaskFsData) × Vfs)
open_inode vfs task_data fd f inode oflag =
    let super = superblock_at vfs (inode_at vfs inode).super in
    if has_flag oflag o_directory && not (is_dir (inode_at vfs inode).mode)
    then put_and_fail vfs task_data inode (neg enotdir)
    else if (has_flag oflag o_rdwr || has_flag oflag o_wronly)
        && has_flag super.flags mount_readonly
    then put_and_fail vfs task_data inode (neg eperm)
    else (do
      k ← super.fs
      ops ← fs_ops_of vfs k
      let vfs' = set_file vfs f (record (file_at vfs f) { file_ops = k; inode = inode })
      let ret = open_op ops (file_at vfs' f) oflag
      if is_neg ret
          then put_and_fail vfs' task_data inode ret
          else some (install_file vfs' task_data fd f oflag))

-- `open` from the point where it has the descriptor and the file object.
unfoldable pub open_path :
    Bool → ℕ → Vfs → TaskFsData → ℕ → ℕ → CString → ℕ → Option ((ℤ × TaskFsData) × Vfs)
open_path has_memory n vfs task_data fd f path oflag = do
  start ← if head path == slash then task_data.rootdir else task_data.workdir
  r ← pathwalk has_memory n vfs start path
  if is_neg r.0.0
      then some ((r.0.0, task_data), r.1)
      else (do inode ← r.0.1; open_inode r.1 task_data fd f inode oflag)

-- `open` from the result of `alloc_fd` on.
unfoldable pub open_allocated :
    Bool → ℕ → TaskFsData → CString → ℕ → (ℤ × Option ℕ) × Vfs → Option ((ℤ × TaskFsData) × Vfs)
open_allocated has_memory n task_data path oflag ((errno, none), vfs) =
    some ((errno, task_data), vfs)
open_allocated has_memory n task_data path oflag ((negsuc e, some f), vfs) =
    some ((negsuc e, task_data), vfs)
open_allocated has_memory n task_data path oflag ((pos fd, some f), vfs) =
    open_path has_memory n vfs task_data fd f path oflag

-- `oflag` is the bits of the `int`; `has_memory` and `n` are those of `pathwalk`.
unfoldable pub open_file :
    Bool → ℕ → Vfs → TaskFsData → CString → ℕ → Option ((ℤ × TaskFsData) × Vfs)
open_file has_memory n vfs task_data path oflag =
    if oflag == 0
    then some ((neg eperm, task_data), vfs)
    else open_allocated has_memory n task_data path oflag (alloc_fd vfs task_data)

unfoldable pub close : Vfs → TaskFsData → ℤ → Option ((ℤ × TaskFsData) × Vfs)
close vfs task_data fd = do
  r ← free_fd vfs task_data fd
  if is_neg r.0.0 then some r else some ((pos 0, r.0.1), r.1)

-- `get_fs_data()->file_table[fd]` after the check of `fd`; `none` is the error -EBADF.
unfoldable pub file_of : TaskFsData → ℤ → Option ℕ
file_of task_data (negsuc n) = none
file_of task_data (pos fd) =
    if leb max_open_per_proc fd then none else get_or task_data.file_table fd none

-- the test of the access mode in `rw_helper`
unfoldable pub may_access : ℕ → Bool → Bool
may_access oflags write =
    has_flag oflags o_rdwr || (if write then has_flag oflags o_wronly else has_flag oflags o_rdonly)

-- an integer as an `int` or an `off_t`, both of 32 bits
abbrev pub to_int : ℤ → ℤ
to_int (pos n) =
    if ltb (n % 2 ^ 32) (2 ^ 31) then pos (n % 2 ^ 32) else negsuc (2 ^ 32 - 1 - n % 2 ^ 32)
to_int (negsuc n) =
    if ltb (n % 2 ^ 32) (2 ^ 31) then negsuc (n % 2 ^ 32) else pos (2 ^ 32 - 1 - n % 2 ^ 32)

-- The end of `rw_helper`: the result of the operation, and the offset that it moves.
unfoldable pub advance : Vfs → ℕ → Bool → ℤ → ℤ × Vfs
advance vfs f use_file_offset rw_bytes =
    let file = file_at vfs f in
    if is_neg rw_bytes
    then (rw_bytes, vfs)
    else if use_file_offset
    then (rw_bytes, set_file vfs f (record file { offset = to_int (file.offset +ℤ rw_bytes) }))
    else (rw_bytes, vfs)

-- `rw_helper` from the point where it has the file: `int rw_bytes` keeps 32 bits of the operation's `ssize_t`, which
-- has 64. The bytes themselves are left to the file system. `none` is a call of a null operation.
unfoldable pub rw_file : Vfs → ℕ → ℕ → ℤ → Bool → Bool → Option (ℤ × Vfs)
rw_file vfs f nbyte offset use_file_offset write =
    let file = file_at vfs f in
    let inode = inode_at vfs file.inode in
    let rw_offset = if use_file_offset then file.offset else offset in
    if is_dir inode.mode
    then some (neg eisdir, vfs)
    else if may_access file.oflags write
    then if write && has_flag (superblock_at vfs inode.super).flags mount_readonly
      then some (neg eperm, vfs)
      else (do
        ops ← fs_ops_of vfs file.file_ops
        op ← if write then ops.write else ops.read
        some (advance vfs f use_file_offset (to_int (op file nbyte rw_offset))))
    else some (neg eperm, vfs)

unfoldable pub rw_helper : Vfs → TaskFsData → ℤ → ℕ → ℤ → Bool → Bool → Option (ℤ × Vfs)
rw_helper vfs task_data fd nbyte offset use_file_offset write = elim (file_of task_data fd) [
  | none ↦ some (neg ebadf, vfs)
  | some f ↦ rw_file vfs f nbyte offset use_file_offset write
]

unfoldable pub pwrite : Vfs → TaskFsData → ℤ → ℕ → ℤ → Option (ℤ × Vfs)
pwrite vfs task_data fd count offset = rw_helper vfs task_data fd count offset false true

unfoldable pub write : Vfs → TaskFsData → ℤ → ℕ → Option (ℤ × Vfs)
write vfs task_data fd count = rw_helper vfs task_data fd count (pos 0) true true

unfoldable pub pread : Vfs → TaskFsData → ℤ → ℕ → ℤ → Option (ℤ × Vfs)
pread vfs task_data fd nbyte offset = rw_helper vfs task_data fd nbyte offset false false

unfoldable pub read : Vfs → TaskFsData → ℤ → ℕ → Option (ℤ × Vfs)
read vfs task_data fd nbyte = rw_helper vfs task_data fd nbyte (pos 0) true false

-- the end of a directory as a file's offset, `EOF`
abbrev pub eof : ℤ
eof = negsuc 0

-- The failed assertion on an entry that `readdir` filled in.
abbrev pub bad_dirent : Dirent → Bool
bad_dirent dirent = dirent.d_ino == 0 || head dirent.d_name == 0

-- The loop of `readdirents` with `n` entries of the buffer left: the error of `readdir`, or the offset
-- to continue at and the entries read. `none` is the failed assertion.
unfoldable pub read_dirents :
    (ℤ → ℤ × Dirent) → ℕ → ℤ → List Dirent → Option (ℤ ⊎ (ℤ × List Dirent))
read_dirents readdir zero offset buf = some (inr (offset, buf))
read_dirents readdir (suc n) offset buf =
    let entry = readdir offset in
    let rest = read_dirents readdir n entry.0 (buf ++ entry.1 ∷ []) in
    if is_neg entry.0
    then some (inl entry.0)
    else if bad_dirent entry.1
    then none
    else elim entry.0 [
      | pos zero ↦ some (inr (eof, buf ++ entry.1 ∷ []))
      | pos (suc k) ↦ rest
      | negsuc k ↦ rest
    ]

-- The loop from its start; a null `readdir` is called only if the loop runs.
unfoldable pub read_entries :
    Option (OpenFile → ℤ → ℤ × Dirent) → OpenFile → ℕ → Option (ℤ ⊎ (ℤ × List Dirent))
read_entries readdir file zero = some (inr (file.offset, []))
read_entries readdir file (suc n) = do op ← readdir; read_dirents (op file) (suc n) file.offset []

-- what `readdirents` returns after its loop
unfoldable pub store_offset : Vfs → ℕ → ℤ ⊎ (ℤ × List Dirent) → (ℤ × List Dirent) × Vfs
store_offset vfs f (inl errno) = ((errno, []), vfs)
store_offset vfs f (inr (offset, buf)) =
    ((pos (length buf), buf), set_file vfs f (record (file_at vfs f) { offset = offset }))

-- how often the loop of `readdirents` runs at most
abbrev pub iterations : ℤ → ℕ
iterations (pos n) = n
iterations (negsuc n) = 0

-- `offset == EOF`
abbrev at_eof : ℤ → Bool
at_eof (pos n) = false
at_eof (negsuc n) = n == 0

-- `readdirents` from the point where it has the file.
unfoldable pub read_directory : Vfs → ℕ → ℤ → Option ((ℤ × List Dirent) × Vfs)
read_directory vfs f buf_count = do
  let file = file_at vfs f
  if is_dir (inode_at vfs file.inode).mode
      then (do
        ops ← fs_ops_of vfs file.file_ops
        elim ops.read [
          | none ↦ some ((neg enotdir, []), vfs)
          | some _ ↦ if at_eof file.offset then some ((pos 0, []), vfs) else (do
            r ← read_entries ops.readdir file (iterations buf_count)
            some (store_offset vfs f r))
        ])
      else some ((neg enotdir, []), vfs)

-- The number of entries or an error, and the entries in the caller's buffer.
unfoldable pub readdirents : Vfs → TaskFsData → ℤ → ℤ → Option ((ℤ × List Dirent) × Vfs)
readdirents vfs task_data fd buf_count = elim (file_of task_data fd) [
  | none ↦ some ((neg ebadf, []), vfs)
  | some f ↦ read_directory vfs f buf_count
]
