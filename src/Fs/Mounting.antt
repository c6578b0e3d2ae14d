-- ===== src/Fs/Mounting.antt =====
-- kernel/fs/mounting.c: mounting a file system on the root or on a directory.
use project_islay.Prelude.{
  ℕ, Bool, true, ◌&&◌, inl, inr, Option, none, some, ◌∷◌, ◌==◌, ◌>>=◌, set, get_elem?, replicate,
  if◌then◌else◌,
}
use Prim.Native.Nat.{bit_and}
use project_islay.Prelude.Int.{ℤ, pos, is_neg, neg, einval, enotdir}
use project_islay.Libc.{CString, head}
use project_islay.Fs.{
  Inode, Vfs, TaskFsData, inode_at, superblock_at, ops_of, is_dir, max_open_per_proc,
}
use project_islay.Fs.InodeCache.{get_inode, put_node, set_inode}
use project_islay.Fs.Registry.{set_superblock, alloc_superblock, free_superblock}
use project_islay.Fs.PathWalk.{pathwalk, slash}

-- `superblk->root_inode = root`
unfoldable pub set_root : Vfs → ℕ → Option ℕ → Vfs
set_root vfs k root = set_superblock vfs k (record (superblock_at vfs k) { root_inode = root })

-- `mnt_inode->mountpoint = true; superblk->mounted_inode = mnt_inode`, unless the mount is the root
unfoldable pub glue : Vfs → ℕ → Option ℕ → Vfs
glue vfs k none = vfs
glue vfs k (some i) =
    let marked = set_inode vfs i (record (inode_at vfs i) { mountpoint = true }) in
    set_superblock marked k (record (superblock_at marked k) { mounted_inode = some i })

-- The superblock becomes the first of the mounts of its file system.
unfoldable pub add_mount : Vfs → ℕ → Option Vfs
add_mount vfs k = do
  i ← (superblock_at vfs k).fs
  fs ← get_elem? vfs.file_systems i
  some (record vfs { file_systems = set vfs.file_systems i (record fs { mounts = k ∷ fs.mounts }) })

-- the test of the root inode that the file system names
abbrev pub is_valid_root : Inode → Bool
is_valid_root inode = is_dir inode.mode && inode.count == 1

unfoldable pub mount_helper : Vfs → ℕ → ℕ → Option ℕ → Option (ℤ × Vfs)
mount_helper vfs mount_data superblk mnt_inode = do
  ops ← ops_of vfs superblk
  mount_op ← ops.mount
  let (ret, root) = mount_op superblk mount_data
  if is_neg ret then some (ret, vfs) else (do
    got ← get_inode vfs superblk root
    let vfs' = set_root got.1 superblk got.0.0
    elim got.0.0 [
      | none ↦ some (got.0.1, vfs')
      | some i ↦
          if is_valid_root (inode_at vfs' i)
          then (do vfs'' ← add_mount (glue vfs' superblk mnt_inode) superblk; some (pos 0, vfs''))
          else (do vfs'' ← put_node vfs' i; some (neg einval, vfs''))
    ])

-- `mount_data` is the pointer handed to the file system.
unfoldable pub mount_rootfs : Vfs → CString → ℕ → Option (ℤ × Vfs)
mount_rootfs vfs name mount_data =
    let (allocated, vfs') = alloc_superblock vfs name in
    elim allocated [
      | inl errno ↦ some (errno, vfs')
      | inr k ↦ (do
        r ← mount_helper vfs' mount_data k none
        if is_neg r.0
            then some (r.0, free_superblock r.1 k)
            else some (pos 0, record (r.1) { vfs_root = (superblock_at r.1 k).root_inode }))
    ]

-- `superblk->flags = flags & superblk->fs->static_flags`
unfoldable pub set_flags : Vfs → ℕ → ℕ → Option Vfs
set_flags vfs k flags = do
  i ← (superblock_at vfs k).fs
  fs ← get_elem? vfs.file_systems i
  some (
      set_superblock vfs k (record (superblock_at vfs k) { flags = bit_and flags fs.static_flags }))

-- `mount` from the point where it has the superblock and the inode to mount upon.
unfoldable pub mount_on : Vfs → ℕ → ℕ → ℕ → ℕ → Option (ℤ × Vfs)
mount_on vfs k inode flags mount_data =
    if is_dir (inode_at vfs inode).mode
    then (do
      r ← mount_helper vfs mount_data k (some inode)
      if is_neg r.0
          then (do vfs' ← put_node (free_superblock r.1 k) inode; some (r.0, vfs'))
          else (do vfs' ← set_flags r.1 k flags; some (pos 0, vfs')))
    else (do vfs' ← put_node (free_superblock vfs k) inode; some (neg enotdir, vfs'))

-- `mount` from the point where it has the superblock.
unfoldable pub mount_path : Bool → ℕ → Vfs → ℕ → CString → ℕ → ℕ → Option (ℤ × Vfs)
mount_path has_memory n vfs k path flags mount_data = do
  root ← vfs.vfs_root
  r ← pathwalk has_memory n vfs root path
  if is_neg r.0.0
      then some (r.0.0, free_superblock r.1 k)
      else (do inode ← r.0.1; mount_on r.1 k inode flags mount_data)

-- `has_memory` and `n` are those of `pathwalk`.
unfoldable pub mount : Bool → ℕ → Vfs → CString → CString → ℕ → ℕ → Option (ℤ × Vfs)
mount has_memory n vfs path name flags mount_data =
    let (allocated, vfs') = alloc_superblock vfs name in
    let mounted : Option (ℤ × Vfs) = elim allocated [
      | inl errno ↦ some (errno, vfs')
      | inr k ↦ mount_path has_memory n vfs' k path flags mount_data
    ] in
    if head path == slash then mounted else some (neg einval, vfs)

-- `task_data_init`; nothing of the old mount_data is left.
unfoldable pub task_data_init : Vfs → TaskFsData
task_data_init vfs = record {
  rootdir = vfs.vfs_root;
  workdir = vfs.vfs_root;
  file_table = replicate max_open_per_proc none;
}
