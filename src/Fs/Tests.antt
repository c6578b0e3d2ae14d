-- ===== src/Fs/Tests.antt =====
-- A small virtual file system: one file system whose root directory, inode 1, holds the file `ab`,
-- inode 2.
use project_islay.Prelude.{
  ℕ, zero, suc, ◌+◌, ◌-◌, ◌<◌, ◌^◌, ◌≡◌, refl, sym, true, false, none, some, [], ◌∷◌, ◌++◌, arith,
  get_or, Returns, Ensures, eq_of_some, if◌then◌else◌, ◌==◌,
}
use mathlib.Core.Path.{subst}
use project_islay.Prelude.Int.{ℤ, pos, negsuc, neg, eexist}
use project_islay.Libc.{CString}
use project_islay.Libc.{strncmp, strlen}
use project_islay.Fs.InodeCache.{get_inode, put_node, set_inode}
use project_islay.Fs.InodeCache.Unique.{IsUnique}
use project_islay.Fs.InodeCache.Lookup.{Got, get_inode-Got}
use project_islay.Fs.InodeCache.References.{KeepsCount, count_of, gained, get_inode-IsUnique}
use project_islay.Fs.FileTable.{set_file, alloc_fd, free_fd, free_file, drop_file}
use project_islay.Fs.FileTable.Descriptors.{refs, Counted, Keeps, free_fd-Counted}
use project_islay.Fs.FileTable.Allocation.{Handed, alloc_fd-Handed}
use project_islay.Fs.PathWalk.{pathwalk, path_tokens}
use project_islay.Fs.PathWalk.Balance.{pathwalk-balance}
use project_islay.Fs.PathWalk.Tokens.{path_of, path_tokens-path_of}
use project_islay.Fs.Registry.{
  cut_after, register_fs, is_registered_fs, check_required_fs_ops, is_taken,
}
use project_islay.Fs.Registry.Names.{IsAccepted, register_fs-twice}
use project_islay.Fs.FileOperations.{
  to_int, open_file, rw_helper, read_dirents, read_entries, read_directory, readdirents,
  store_offset, file_of,
}
use project_islay.Fs.FileOperations.Opening.{Opened, open_file-Opened}
use project_islay.Fs.FileOperations.Access.{IsPermitted, HasOp, Transfer, rw_helper-Transfer}
use project_islay.Fs.FileOperations.Continuing.{IsDirectory, readdirents-twice}
use project_islay.Fs.{
  Inode, OpenFile, Dirent, FsOps, FileSystem, Vfs, TaskFsData, no_inode, no_file, no_superblock,
  ops_of, fs_ops_of,
}

abbrev ab : CString
ab = 97 ∷ 98 ∷ []

-- fetching fills in the mode: inode 1 is the directory
abbrev fetch : ℕ → ℕ → Inode → ℤ × Inode
fetch super id inode = (pos 0, record inode { mode = if id == 1 then 0o040000 else 0o100000 })

-- one entry, then the end
abbrev entries : ℤ → ℤ × Dirent
entries offset = (pos 0, record { d_ino = 2; d_name = ab })

abbrev ops : FsOps
ops = record {
  mount = some (λ super d. (pos 0, 1));
  read = some (λ file nbyte offset. pos nbyte);
  write = some (λ file nbyte offset. pos nbyte);
  open_file = none;
  fetch_inode = some fetch;
  readdir = some (λ file offset. entries offset);
  close_file = none;
}

abbrev testfs : FileSystem
testfs = record { name = 102 ∷ 111 ∷ 111 ∷ []; static_flags = 0; ops = some ops; mounts = 0 ∷ [] }

-- `bar`
abbrev bar : FileSystem
bar = record testfs { name = 98 ∷ 97 ∷ 114 ∷ []; mounts = [] }

-- the inode of the root, in the cell 0 and held once, by the mount
abbrev root : Inode
root = record no_inode { id = 1; mode = 0o040000; count = 1 }

-- the inode of the file, in the cell 1 and held once, by the file object 0
abbrev file_inode : Inode
file_inode = record no_inode { id = 2; mode = 0o100000; count = 1 }

-- a file object open for reading, in use once
abbrev file : OpenFile
file = record no_file { oflags = 2 ^ 11; ref_count = 1; inode = 1 }

abbrev vfs : Vfs
vfs = record {
  inode_table = root ∷ file_inode ∷ no_inode ∷ [];
  open_files = file ∷ no_file ∷ [];
  superblocks = record no_superblock { root_inode = some 0; fs = some 0 } ∷ no_superblock ∷ [];
  file_systems = testfs ∷ bar ∷ [];
  fs_list = 0 ∷ [];
  vfs_root = some 0;
}

abbrev task_data : TaskFsData
task_data = record { rootdir = some 0; workdir = some 0; file_table = some 0 ∷ none ∷ none ∷ [] }

unused : (k : ℕ) → (get_or (no_inode ∷ []) k no_inode).count ≡ 0
unused zero = refl
unused (suc k) = refl

vfs-KeepsCount : KeepsCount vfs
unfolding KeepsCount ops_of
vfs-KeepsCount zero o f e g id inode =
    let same : some fetch ≡ some f =
      subst (λ (x : FsOps). x.fetch_inode ≡ some f) (sym (eq_of_some e)) g in
    subst (λ h. (h 0 id inode).1.count ≡ inode.count) (eq_of_some same) refl
vfs-KeepsCount (suc zero) o f e g id inode = absurd (ground (arith, e))
vfs-KeepsCount (suc (suc s)) o f e g id inode = absurd (ground (arith, e))

vfs-small : (j : ℕ) → count_of vfs j + 3 < 2 ^ 32
vfs-small zero = omega arith
vfs-small (suc zero) = omega arith
vfs-small (suc (suc k)) = omega (arith, unused k)

vfs-IsUnique : IsUnique vfs.inode_table
unfolding IsUnique
vfs-IsUnique zero zero p q s d = refl
vfs-IsUnique zero (suc zero) p q s d = absurd (omega (arith, d))
vfs-IsUnique zero (suc (suc k)) p q s d = absurd (omega (arith, q, unused k))
vfs-IsUnique (suc zero) zero p q s d = absurd (omega (arith, d))
vfs-IsUnique (suc zero) (suc zero) p q s d = refl
vfs-IsUnique (suc zero) (suc (suc k)) p q s d = absurd (omega (arith, q, unused k))
vfs-IsUnique (suc (suc k)) j p q s d = absurd (omega (arith, p, unused k))

-- `/ab`
abbrev path : CString
path = 47 ∷ ab

get_inode_example : Returns (Got vfs 0 3) (get_inode vfs 0 3)
unfolding ops_of
get_inode_example = get_inode-Got vfs 0 3 ops fetch refl refl (λ i inode. refl)

get_inode-IsUnique_example : Ensures (λ r. IsUnique r.1.inode_table) (get_inode vfs 0 3)
get_inode-IsUnique_example = get_inode-IsUnique vfs 0 3 vfs-KeepsCount vfs-IsUnique

pathwalk_example :
    Ensures
      (λ r. (j : ℕ) → count_of r.1 j ≡ count_of vfs j + gained r.0.1 j)
      (pathwalk true 2 vfs 0 path)
pathwalk_example = pathwalk-balance true 2 vfs 0 path vfs-KeepsCount vfs-small

path_tokens_example : path_tokens (path_of (ab ∷ [])) ≡ ab ∷ []
path_tokens_example =
    path_tokens-path_of (ab ∷ []) (((omega arith, (omega arith, tt)), omega arith), tt)

open_file_example :
    Ensures (Opened (count_of vfs) task_data) (open_file true 2 vfs task_data path (2 ^ 11))
open_file_example = open_file-Opened true 2 vfs task_data path (2 ^ 11) vfs-KeepsCount vfs-small

alloc_fd_example : Handed vfs task_data (alloc_fd vfs task_data)
alloc_fd_example = alloc_fd-Handed vfs task_data

-- file object 0 is the one of descriptor 0
read_HasOp :
    (f : ℕ) → file_of task_data (pos 0) ≡ some f → IsPermitted vfs f false → HasOp vfs f false
unfolding file_of fs_ops_of
read_HasOp f e p = subst (λ g. HasOp vfs g false) (eq_of_some e) (ops, refl, _, refl)

rw_helper_example :
    Returns
      (Transfer vfs task_data (pos 0) 8 (pos 0) true false)
      (rw_helper vfs task_data (pos 0) 8 (pos 0) true false)
rw_helper_example = rw_helper-Transfer vfs task_data (pos 0) 8 (pos 0) true false read_HasOp

-- A result from 2 ^ 31 on is negative as an `int`.
result_wraps : to_int (pos (2 ^ 31 + 5)) ≡ negsuc (2 ^ 31 - 6)
result_wraps = refl

-- a directory without an end
abbrev numbered : ℤ → ℤ × Dirent
numbered (pos n) = (pos (n + 1), record { d_ino = n + 1; d_name = ab })
numbered (negsuc n) = (negsuc n, record { d_ino = 0; d_name = [] })

abbrev entry_of : ℕ → Dirent
entry_of n = record { d_ino = n; d_name = ab }

-- the same files, and a directory without an end behind descriptor 1
abbrev dir_ops : FsOps
dir_ops = record ops { readdir = some (λ file offset. numbered offset) }

abbrev dir_file : ℤ → OpenFile
dir_file offset = record no_file { oflags = 2 ^ 11; ref_count = 1; offset = offset }

abbrev dir_vfs : ℤ → Vfs
dir_vfs offset = record vfs {
  open_files = file ∷ dir_file offset ∷ [];
  file_systems = record testfs { ops = some dir_ops } ∷ [];
}

abbrev dir_data : TaskFsData
dir_data = record task_data { file_table = some 0 ∷ some 1 ∷ none ∷ [] }

dir-IsDirectory :
    IsDirectory (dir_vfs (pos 0)) dir_data (pos 1) 1 dir_ops (λ file offset. numbered offset)
unfolding file_of fs_ops_of
dir-IsDirectory = record {
  opened = refl;
  inside = omega arith;
  dir = refl;
  has_ops = refl;
  reads = (_, refl);
  lists = refl;
  more = refl;
  steady = λ o. refl;
}

first_read :
    readdirents (dir_vfs (pos 0)) dir_data (pos 1) (pos 1)
    ≡ some ((pos 1, entry_of 1 ∷ []), dir_vfs (pos 1))
unfolding readdirents read_directory read_entries read_dirents store_offset file_of fs_ops_of
    set_file
first_read = refl

second_read :
    readdirents (dir_vfs (pos 1)) dir_data (pos 1) (pos 2)
    ≡ some ((pos 2, entry_of 2 ∷ entry_of 3 ∷ []), dir_vfs (pos 3))
unfolding readdirents read_directory read_entries read_dirents store_offset file_of fs_ops_of
    set_file
second_read = refl

readdirents_example :
    readdirents (dir_vfs (pos 0)) dir_data (pos 1) (pos (1 + 2))
    ≡ some ((pos (1 + 2), (entry_of 1 ∷ []) ++ (entry_of 2 ∷ entry_of 3 ∷ [])), dir_vfs (pos 3))
readdirents_example =
    readdirents-twice (dir_vfs (pos 0)) (dir_vfs (pos 1)) (dir_vfs (pos 3)) dir_data (pos 1) 1
      dir_ops (λ file offset. numbered offset) 1 2 1 2 (entry_of 1 ∷ [])
      (entry_of 2 ∷ entry_of 3 ∷ []) dir-IsDirectory first_read (λ e. ground (arith, e)) second_read

vfs-Counted : Counted (λ f. 0) task_data.file_table vfs.open_files
unfolding Counted refs
vfs-Counted zero = refl
vfs-Counted (suc zero) = refl
vfs-Counted (suc (suc f)) = ground arith

-- what the close of descriptor 0 leaves
abbrev closed : (ℤ × TaskFsData) × Vfs
closed = drop_file (set_inode vfs 1 (record file_inode { count = 0 })) task_data 0 0

closed-run : free_fd vfs task_data (pos 0) ≡ some closed
unfolding free_fd free_file put_node fs_ops_of
closed-run = refl

free_fd_example : Keeps vfs task_data (λ f. 0) closed
free_fd_example = free_fd-Counted vfs task_data (λ f. 0) (pos 0) closed vfs-Counted closed-run

bar-IsAccepted : IsAccepted vfs 1
unfolding check_required_fs_ops is_taken strncmp strlen
bar-IsAccepted = record { ops = refl; size = refl; fresh = refl }

register_fs_example :
    ((register_fs vfs (some 1)).0 ≡ pos 0)
    × (is_registered_fs (register_fs vfs (some 1)).1 bar.name ≡ true)
    × (register_fs (register_fs vfs (some 1)).1 (some 1)
        ≡ (neg eexist, (register_fs vfs (some 1)).1))
register_fs_example = register_fs-twice vfs 1 bar-IsAccepted

-- A file system that is registered again cuts the list behind it.
register_cuts : register_fs (record vfs { fs_list = 0 ∷ 1 ∷ [] }) (some 0) ≡ (neg eexist, vfs)
unfolding register_fs cut_after check_required_fs_ops is_taken strncmp strlen
register_cuts = refl
