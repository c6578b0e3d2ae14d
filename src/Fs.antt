-- ===== src/Fs.antt =====
-- kernel/fs: the data of the virtual file system (kernel/fs/fs-internals.h, kernel/include/fs.h).
-- Pointers into the static tables are indices. What a file system does behind `struct fs_ops` is a
-- value of the model.
pub mod InodeCache
pub mod FileTable
pub mod FileOperations
mod Tests
pub mod PseudoFile
pub mod Registry
pub mod PathWalk
pub mod Mounting
use Prim.Native.Nat.{bit_and}
use project_islay.Prelude.{
  ℕ, ◌+◌, ◌%◌, ◌^◌, Bool, true, false, not, Option, none, some, List, [], ◌==◌, ◌>>=◌, get_or,
  get_elem?, if◌then◌else◌,
}
use project_islay.Prelude.Int.{ℤ, pos}
use project_islay.Libc.{CString}

-- `struct inode`; `super` is the index of the superblock.
pub record Inode : Type 0 where
  pub id : ℕ
  pub mode : ℕ
  pub count : ℕ
  pub super : ℕ
  pub mountpoint : Bool
  pub inode_dirty : Bool
  pub file_dirty : Bool
  pub private_data : ℕ

-- `struct open_file`; `inode` is an index into the inode cache, `file_ops` the file system whose operations these
-- are, an index into `file_systems`.
pub record OpenFile : Type 0 where
  pub oflags : ℕ
  pub ref_count : ℕ
  pub offset : ℤ
  pub inode : ℕ
  pub file_ops : ℕ

-- `struct dirent`
pub record Dirent : Type 0 where
  pub d_ino : ℕ
  pub d_name : CString

-- `struct fs_ops`. `none` is a null pointer. `mount` and `fetch_inode` fill in what their callers pass
-- a pointer to, and `readdir` the entry, also when they return an error.
pub record FsOps : Type 0 where
  pub mount : Option (ℕ → ℕ → ℤ × ℕ)
  pub read : Option (OpenFile → ℕ → ℤ → ℤ)
  pub write : Option (OpenFile → ℕ → ℤ → ℤ)
  pub open_file : Option (OpenFile → ℕ → ℤ)
  pub fetch_inode : Option (ℕ → ℕ → Inode → ℤ × Inode)
  pub readdir : Option (OpenFile → ℤ → ℤ × Dirent)
  pub close_file : Option (OpenFile → ℤ)

-- `struct fs`; `mounts` lists the superblocks of the file system, the newest first.
pub record FileSystem : Type 0 where
  pub name : CString
  pub static_flags : ℕ
  pub ops : Option FsOps
  pub mounts : List ℕ

-- `struct superblock`
pub record Superblock : Type 0 where
  pub root_inode : Option ℕ
  pub mounted_inode : Option ℕ
  pub fs : Option ℕ
  pub flags : ℕ

-- The static tables, the `struct fs` objects of the kernel, the list `fs_list` of those that are registered, in its
-- order, and `vfs_root`.
pub record Vfs : Type 0 where
  pub inode_table : List Inode
  pub open_files : List OpenFile
  pub superblocks : List Superblock
  pub file_systems : List FileSystem
  pub fs_list : List ℕ
  pub vfs_root : Option ℕ

-- `struct task_fs_data`
pub record TaskFsData : Type 0 where
  pub rootdir : Option ℕ
  pub workdir : Option ℕ
  pub file_table : List (Option ℕ)

abbrev pub max_open_global : ℕ
max_open_global = 100

abbrev pub max_open_per_proc : ℕ
max_open_per_proc = 20

abbrev pub n_superblock : ℕ
n_superblock = 10

-- a cleared cell of each table
abbrev pub no_inode : Inode
no_inode = record {
  id = 0;
  mode = 0;
  count = 0;
  super = 0;
  mountpoint = false;
  inode_dirty = false;
  file_dirty = false;
  private_data = 0;
}

abbrev pub no_file : OpenFile
no_file = record { oflags = 0; ref_count = 0; offset = pos 0; inode = 0; file_ops = 0 }

abbrev pub no_superblock : Superblock
no_superblock = record { root_inode = none; mounted_inode = none; fs = none; flags = 0 }

abbrev pub inode_at : Vfs → ℕ → Inode
inode_at vfs i = get_or vfs.inode_table i no_inode

abbrev pub file_at : Vfs → ℕ → OpenFile
file_at vfs i = get_or vfs.open_files i no_file

abbrev pub superblock_at : Vfs → ℕ → Superblock
superblock_at vfs i = get_or vfs.superblocks i no_superblock

-- the operations of a file system
unfoldable pub fs_ops_of : Vfs → ℕ → Option FsOps
fs_ops_of vfs k = do fs ← get_elem? vfs.file_systems k; fs.ops

-- `super->fs->ops`; `none` is a null pointer on the way.
unfoldable pub ops_of : Vfs → ℕ → Option FsOps
ops_of vfs super = do k ← (superblock_at vfs super).fs; fs ← get_elem? vfs.file_systems k; fs.ops

-- `flags & flag` as a truth value
abbrev pub has_flag : ℕ → ℕ → Bool
has_flag flags flag = not (bit_and flags flag == 0)

-- `mode & S_IFMT` and `S_ISDIR`
abbrev pub file_type : ℕ → ℕ
file_type mode = bit_and mode 0o170000

abbrev pub is_dir : ℕ → Bool
is_dir mode = file_type mode == 0o040000

-- `unsigned int` increment
abbrev pub inc : ℕ → ℕ
inc n = (n + 1) % 2 ^ 32

abbrev pub mount_readonly : ℕ
mount_readonly = 0x01

-- the flags of kernel/include/uapi/fcntl.h
abbrev pub o_append : ℕ
o_append = 2 ^ 4

abbrev pub o_directory : ℕ
o_directory = 2 ^ 5

abbrev pub o_rdonly : ℕ
o_rdonly = 2 ^ 11

abbrev pub o_rdwr : ℕ
o_rdwr = 2 ^ 12

abbrev pub o_wronly : ℕ
o_wronly = 2 ^ 13
