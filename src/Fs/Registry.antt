-- ===== src/Fs/Registry.antt =====
-- kernel/fs/mounting.c: the registered file systems and the superblocks.
pub mod Names
use project_islay.Prelude.{
  ℕ, ◌+◌, Bool, true, false, not, ◌&&◌, ◌||◌, ◌⊎◌, inl, inr, Option, none, some, List, [], ◌∷◌,
  ◌++◌, ◌==◌, ltb, set, get_or, if◌then◌else◌,
}
use project_islay.Prelude.Int.{
  ℤ, pos, negsuc, neg, eexist, einval, enametoolong, enoent, enomem, efault,
}
use project_islay.Libc.{CString, strlen, strncmp}
use project_islay.Fs.{FsOps, FileSystem, Superblock, Vfs, superblock_at, has_flag, mount_readonly}

abbrev pub fs_name_maxlen : ℕ
fs_name_maxlen = 127

-- a pointer that is not null
abbrev is_set {ℓ} : {A : Type ℓ} → Option A → Bool
is_set none = false
is_set (some a) = true

abbrev pub is_zero : ℤ → Bool
is_zero (pos n) = n == 0
is_zero (negsuc n) = false

-- the pointer is to the cell `i`
abbrev is_at : Option ℕ → ℕ → Bool
is_at none i = false
is_at (some j) i = j == i

-- The loop of `find_superblock`, from superblock `k` on.
unfoldable pub find_mounted : List Superblock → ℕ → ℕ → Option ℕ
find_mounted [] mounted k = none
find_mounted (super ∷ supers) mounted k =
    let rest = find_mounted supers mounted (k + 1) in
    if is_set super.fs && is_at super.mounted_inode mounted then some k else rest

unfoldable pub find_superblock : Vfs → ℕ → Option ℕ
find_superblock vfs mounted = find_mounted vfs.superblocks mounted 0

unfoldable pub check_required_fs_ops : FsOps → ℕ → ℤ
check_required_fs_ops ops static_flags =
    if not (is_set ops.mount && is_set ops.read && is_set ops.fetch_inode && is_set ops.readdir)
    then negsuc 0
    else if not (has_flag static_flags mount_readonly) && not (is_set ops.write)
    then negsuc 0
    else pos 0

-- the check of `fs->ops` in `register_fs`
abbrev pub has_ops : FileSystem → Bool
has_ops fs = elim fs.ops [
  | none ↦ false
  | some ops ↦ is_zero (check_required_fs_ops ops fs.static_flags)
]

-- the object `k`, and one without a name for what is none
abbrev pub fs_at : List FileSystem → ℕ → FileSystem
fs_at file_systems k =
    get_or file_systems k (record { name = []; static_flags = 0; ops = none; mounts = [] })

-- A registered file system has the name: the loops that compare names with
-- `strncmp(.., FS_NAME_MAXLEN)`.
unfoldable pub has_name : List FileSystem → List ℕ → CString → Bool
has_name file_systems [] name = false
has_name file_systems (k ∷ list) name =
    let rest = has_name file_systems list name in
    if is_zero (strncmp (fs_at file_systems k).name name fs_name_maxlen) then true else rest

-- The same loop in `register_fs`, which has the new name first.
unfoldable pub is_taken : List FileSystem → List ℕ → CString → Bool
is_taken file_systems [] name = false
is_taken file_systems (k ∷ list) name =
    let rest = is_taken file_systems list name in
    if is_zero (strncmp name (fs_at file_systems k).name fs_name_maxlen) then true else rest

-- `fs->next = NULL`: if the object is in the list, it is the last from now on.
unfoldable pub cut_after : List ℕ → ℕ → List ℕ
cut_after [] k = []
cut_after (j ∷ list) k = let rest = cut_after list k in if j == k then j ∷ [] else j ∷ rest

-- `none` is a null pointer. The object is in the list afterwards, unless the result is an error.
unfoldable pub register_fs : Vfs → Option ℕ → ℤ × Vfs
register_fs vfs none = (neg efault, vfs)
register_fs vfs (some k) =
    let fs = fs_at vfs.file_systems k in
    let list = cut_after vfs.fs_list k in
    if not (has_ops fs)
    then (neg einval, vfs)
    else if ltb (strlen fs.name) 3 || ltb fs_name_maxlen (strlen fs.name)
    then (neg enametoolong, vfs)
    else if is_taken vfs.file_systems list fs.name
    then (neg eexist, record vfs { fs_list = list })
    else (pos 0, record vfs { fs_list = list ++ k ∷ [] })

unfoldable pub is_registered_fs : Vfs → CString → Bool
is_registered_fs vfs name = has_name vfs.file_systems vfs.fs_list name

-- The first loop of `alloc_superblock`.
unfoldable pub find_fs : List FileSystem → List ℕ → CString → Option ℕ
find_fs file_systems [] name = none
find_fs file_systems (k ∷ list) name =
    let rest = find_fs file_systems list name in
    if is_zero (strncmp (fs_at file_systems k).name name fs_name_maxlen) then some k else rest

-- The second loop, from superblock `k` on.
unfoldable pub find_unused : List Superblock → ℕ → Option ℕ
find_unused [] k = none
find_unused (super ∷ supers) k =
    let rest = find_unused supers (k + 1) in if is_set super.fs then rest else some k

unfoldable pub set_superblock : Vfs → ℕ → Superblock → Vfs
set_superblock vfs k super = record vfs { superblocks = set vfs.superblocks k super }

-- `*errno`, or the superblock.
unfoldable pub alloc_superblock : Vfs → CString → (ℤ ⊎ ℕ) × Vfs
alloc_superblock vfs fs_name = elim (find_fs vfs.file_systems vfs.fs_list fs_name) [
  | none ↦ (inl (neg enoent), vfs)
  | some fs ↦ elim (find_unused vfs.superblocks 0) [
    | none ↦ (inl (neg enomem), vfs)
    | some k ↦ (inr k, set_superblock vfs k (record (superblock_at vfs k) { fs = some fs }))
  ]
]

-- `superblk->fs = NULL`
unfoldable pub free_superblock : Vfs → ℕ → Vfs
free_superblock vfs k = set_superblock vfs k (record (superblock_at vfs k) { fs = none })
