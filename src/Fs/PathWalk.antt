-- ===== src/Fs/PathWalk.antt =====
-- kernel/fs/pathwalker.c: from a path to its inode.
pub mod Tokens
pub mod Balance
use project_islay.Prelude.{
  ℕ, zero, suc, ◌+◌, Bool, true, false, not, ◌&&◌, ◌||◌, ◌⊎◌, inl, inr, Option, none, some, List,
  [], ◌∷◌, ◌==◌, leb, ◌>>=◌, if◌then◌else◌,
}
use project_islay.Prelude.Int.{ℤ, pos, negsuc, is_neg, neg, einval, enoent, enomem}
use project_islay.Libc.{CString, strtok, strcmp, strlen}
use project_islay.Fs.{OpenFile, Dirent, Vfs, no_file, inode_at, superblock_at, ops_of, is_dir}
use project_islay.Fs.InodeCache.{get_inode, clone_inode, put_node}
use project_islay.Fs.Registry.{find_superblock, is_zero}

abbrev pub path_max : ℕ
path_max = 4096

abbrev pub slash : ℕ
slash = 47

abbrev within : ℕ → ℕ → ℕ → Bool
within lo c hi = leb lo c && leb c hi

unfoldable pub valid_path_char : ℕ → Bool
valid_path_char c = within 97 c 122 || (within 65 c 90 || (within 48 c 57 || c == slash))

-- the rest of the copy behind a byte
abbrev copied : ℕ → Option (ℤ ⊎ CString) → Option (ℤ ⊎ CString)
copied c none = none
copied c (some (inl errno)) = some (inl errno)
copied c (some (inr buff)) = some (inr (c ∷ buff))

-- `path_init` with room for `n` more bytes: an error, or the string in `path_buff`. `none` is the
-- write of the final zero behind the buffer, when the path has `path_max` bytes or more.
unfoldable pub path_init : CString → ℕ → Option (ℤ ⊎ CString)
path_init path zero = none
path_init [] (suc n) = some (inr [])
path_init (c ∷ path) (suc n) =
    let rest = path_init path n in
    if valid_path_char c then copied c rest else some (inl (neg einval))

-- `path_next`: `str` is the buffer at the first call and null afterwards.
abbrev pub path_next : Option CString → CString → CString × CString
path_next str saved = strtok str (slash ∷ []) saved

-- The tokens that the calls of `path_next` return before the first empty one.
unfoldable pub tokens_from : ℕ → CString × CString → List CString
tokens_from zero (token, saved) = []
tokens_from (suc n) ([], saved) = []
tokens_from (suc n) (c ∷ token, saved) =
    let rest = tokens_from n (path_next none saved) in (c ∷ token) ∷ rest

-- Each token takes at least one byte of the path.
unfoldable pub path_tokens : CString → List CString
path_tokens path = tokens_from (strlen path + 1) (path_next (some path) path)

-- The search of a directory for `name`, from `offset` on: an error, or the number of the inode with 0
-- for a name that is not there. `none` is more than `n` calls of `readdir`.
unfoldable pub find_entry : (ℤ → ℤ × Dirent) → CString → ℕ → ℤ → Option (ℤ ⊎ ℕ)
find_entry readdir name zero offset = none
find_entry readdir name (suc n) offset =
    let entry = readdir offset in
    let rest = find_entry readdir name n entry.0 in
    if is_neg entry.0
    then some (inl entry.0)
    else if is_zero (strcmp entry.1.d_name name)
    then some (inr entry.1.d_ino)
    else if is_zero entry.0
    then some (inr 0)
    else rest

-- the root of what is mounted on an inode
unfoldable pub mounted_root : Vfs → ℕ → Option ℕ
mounted_root vfs i = do super ← find_superblock vfs i; (superblock_at vfs super).root_inode

-- `if (new->mountpoint)`: the inode to go on with. `none` is a panic.
unfoldable pub cross_mount : Vfs → ℕ → Option (ℕ × Vfs)
cross_mount vfs new =
    if (inode_at vfs new).mountpoint
    then (do
      root ← mounted_root vfs new
      released ← put_node vfs new
      vfs' ← clone_inode released root
      some (root, vfs'))
    else some (new, vfs)

-- From the inode to the one with number `next` on the same superblock. A null pointer from `get_inode`
-- is dereferenced.
unfoldable pub descend : Vfs → ℕ → ℕ → Option (ℕ × Vfs)
descend vfs inode next = do
  got ← get_inode vfs (inode_at vfs inode).super next
  new ← got.0.0
  entered ← cross_mount got.1 new
  vfs' ← put_node entered.1 inode
  some (entered.0, vfs')

-- what follows the search of the directory
unfoldable pub take_entry : Vfs → ℕ → ℤ ⊎ ℕ → Option ((ℤ ⊎ ℕ) × Vfs)
take_entry vfs inode (inl errno) = some (inl errno, vfs)
take_entry vfs inode (inr zero) = some (inl (neg enoent), vfs)
take_entry vfs inode (inr (suc next)) = do r ← descend vfs inode (suc next); some (inr r.0, r.1)

-- One turn of the loop: an error with `inode` still held, or the next inode held in its place. `n`
-- bounds the calls of `readdir`.
unfoldable pub walk_step : ℕ → Vfs → ℕ → CString → Option ((ℤ ⊎ ℕ) × Vfs)
walk_step n vfs inode name =
    if is_dir (inode_at vfs inode).mode
    then (do
      ops ← ops_of vfs (inode_at vfs inode).super
      readdir ← ops.readdir
      entry ← find_entry (readdir (record no_file { inode = inode })) name n (pos 0)
      take_entry vfs inode entry)
    else some (inl (neg enoent), vfs)

-- The loop over the tokens: the result, the inode and the state. On an error the inode held is put.
unfoldable pub walk : ℕ → Vfs → ℕ → List CString → Option ((ℤ × Option ℕ) × Vfs)
walk n vfs inode [] = some ((pos 0, some inode), vfs)
walk n vfs inode (name ∷ names) = do
  r ← walk_step n vfs inode name
  elim r.0 [
    | inl errno ↦ (do vfs' ← put_node r.1 inode; some ((errno, none), vfs'))
    | inr new ↦ walk n r.1 new names
  ]

-- Where the walk starts: at the root itself or at what is mounted on it, cloned.
unfoldable pub start_walk : Vfs → ℕ → Option (ℕ × Vfs)
start_walk vfs root =
    if (inode_at vfs root).mountpoint
    then (do top ← mounted_root vfs root; vfs' ← clone_inode vfs top; some (top, vfs'))
    else (do vfs' ← clone_inode vfs root; some (root, vfs'))

-- `pathwalk` from the result of `path_init` on.
unfoldable pub walk_init : ℕ → Vfs → ℕ → ℤ ⊎ CString → Option ((ℤ × Option ℕ) × Vfs)
walk_init n vfs root (inl errno) = some ((errno, none), vfs)
walk_init n vfs root (inr buff) = do
  start ← start_walk vfs root
  walk n start.1 start.0 (path_tokens buff)

-- `has_memory` says whether `kalloc` finds room for the path object. `none` is a panic, a null
-- pointer or more than `n` calls of `readdir` in one directory.
unfoldable pub pathwalk : Bool → ℕ → Vfs → ℕ → CString → Option ((ℤ × Option ℕ) × Vfs)
pathwalk has_memory n vfs root path =
    if has_memory
    then (do init ← path_init path path_max; walk_init n vfs root init)
    else some ((neg enomem, none), vfs)
