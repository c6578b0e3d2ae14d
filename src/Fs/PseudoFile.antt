-- ===== src/Fs/PseudoFile.antt =====
-- kernel/fs/pseudo_file.c: the files of devfs and kinfo, which live in memory. A file is known by its address; 0 is
-- NULL.
pub mod Listing
mod Tests
use project_islay.Prelude.{
  ℕ, zero, suc, ◌+◌, ◌-◌, ◌%◌, ◌^◌, Bool, true, false, Option, none, some, List, [], ◌∷◌, ◌==◌, ltb,
  if◌then◌else◌, update,
}
use project_islay.Prelude.Int.{ℤ, pos, negsuc, neg, enotdir, einval}
use project_islay.Libc.{CString, head}
use project_islay.Fs.{Inode, Dirent, is_dir}
use project_islay.Memory.VirtualMemory.{p2l, l2p}

-- `struct pseudo_file`, less the operations of its owner
pub record PseudoFile : Type 0 where
  pub name : CString
  pub inode : ℕ
  pub mode : ℕ
  pub parent : ℕ
  pub sibling : ℕ
  pub child : ℕ

abbrev pub Files : Type 0
Files = ℕ → PseudoFile

unfoldable pub add_pseudo_file : Files → ℕ → ℕ → ℤ × Files
add_pseudo_file files dir file =
    let f1 =
      update files file (record (files file) { sibling = (files dir).child; parent = dir }) in
    if is_dir (files dir).mode
    then (pos 0, update f1 dir (record (f1 dir) { child = file }))
    else (neg enotdir, files)

-- `none` is a failed assertion.
unfoldable pub init_pseudo_file : Files → ℕ → ℕ → CString → Option Files
init_pseudo_file files file mode name =
    if mode == 0
    then none
    else if head name == 0
    then none
    else some (
        update files file
          (record { name = name; inode = file; mode = mode; parent = 0; sibling = 0; child = 0 }))

-- a word as an `off_t`, and back
abbrev pub to_off : ℕ → ℤ
to_off n = if ltb n (2 ^ 31) then pos n else negsuc (2 ^ 32 - 1 - n)

abbrev pub of_off : ℤ → ℕ
of_off (pos n) = n
of_off (negsuc n) = 2 ^ 32 - 1 - n

-- the offset of a file, and 0 for NULL
abbrev pub next_offset : ℕ → ℤ
next_offset file = if file == 0 then pos 0 else to_off (l2p file)

-- `.` and `..`
abbrev pub dot : CString
dot = 46 ∷ []

abbrev pub dot_dot : CString
dot_dot = 46 ∷ 46 ∷ []

-- the entry of a file, and the offset of the next
unfoldable pub read_node : Files → ℕ → ℤ × Dirent
read_node files node = (
  next_offset (files node).sibling,
  record { d_ino = (files node).inode; d_name = (files node).name },
)

-- `mounted_id` is `file->inode->super->mounted_inode->id`.
unfoldable pub pseudo_file_readdir : Files → ℕ → ℕ → ℤ → ℤ × Dirent
unfolding read_node
pseudo_file_readdir files dir mounted_id (negsuc n) = read_node files (p2l (of_off (negsuc n)))
pseudo_file_readdir files dir mounted_id (pos zero) =
    (pos 1, record { d_ino = (files dir).inode; d_name = dot })
pseudo_file_readdir files dir mounted_id (pos (suc n)) =
    let parent = (files dir).parent in
    if n == 0
    then (
      next_offset (files dir).child,
      record { d_ino = if parent == 0 then mounted_id else (files parent).inode; d_name = dot_dot },
    )
    else read_node files (p2l (suc n))

unfoldable pub pseudo_fetch_inode : Files → ℕ → Inode → ℤ × Inode
pseudo_fetch_inode files id inode =
    if (files id).inode == id
    then (pos 0, record inode { mode = (files id).mode })
    else (neg einval, inode)
