-- ===== src/Fs/InodeCache.antt =====
-- kernel/fs/inode.c: the cache of inodes in memory.
pub mod Unique
pub mod Lookup
pub mod Clones
pub mod References
use project_islay.Prelude.{
  ℕ, ◌+◌, ◌-◌, Bool, true, false, not, ◌&&◌, ◌⊎◌, inl, inr, Option, none, some, List, [], ◌∷◌, ◌==◌,
  ltb, ◌>>=◌, ◌>>◌, set, if◌then◌else◌,
}
use project_islay.Prelude.Int.{ℤ, pos, is_neg, neg, enoent, einval}
use project_islay.Fs.{Inode, Vfs, FsOps, inode_at, ops_of, file_type, inc}

unfoldable pub verify_inode : Inode → ℤ
verify_inode inode = if file_type inode.mode == 0 then neg einval else pos 0

-- the inode is in use and is the one asked for
abbrev pub is_cached : ℕ → ℕ → Inode → Bool
is_cached super id inode = ltb 0 inode.count && (inode.super == super && inode.id == id)

-- The loop of `get_inode` over the rest of the table, from cell `i` on: the cell of the inode, or the
-- last free cell that it passed.
unfoldable pub search_table : ℕ → ℕ → List Inode → ℕ → Option ℕ → ℕ ⊎ Option ℕ
search_table super id [] i free = inr free
search_table super id (inode ∷ table) i free =
    let rest = search_table super id table (i + 1) (if ltb 0 inode.count then free else some i) in
    if is_cached super id inode then inl i else rest

unfoldable pub set_inode : Vfs → ℕ → Inode → Vfs
set_inode vfs i inode = record vfs { inode_table = set vfs.inode_table i inode }

-- The inode as `get_inode` leaves it in its cell once it was fetched.
abbrev pub fresh_inode : ℕ → ℕ → Inode → Inode
fresh_inode super id inode = record inode {
  id = id;
  super = super;
  count = 1;
  inode_dirty = false;
  mountpoint = false;
}

-- `get_inode` from the point where it has a free cell.
unfoldable pub load_inode : Vfs → ℕ → ℕ → ℕ → Option ((Option ℕ × ℤ) × Vfs)
unfolding set_inode verify_inode
load_inode vfs super id free = do
  ops ← ops_of vfs super
  fetch ← ops.fetch_inode
  let (errno, inode) = fetch super id (inode_at vfs free)
  let vfs' = set_inode vfs free inode
  if is_neg errno
      then some ((none, errno), vfs')
      else if is_neg (verify_inode inode)
      then some ((none, verify_inode inode), vfs')
      else some ((some free, verify_inode inode), set_inode vfs free (fresh_inode super id inode))

-- The cell of the inode and `*errno`. `none` is a call through a null pointer.
unfoldable pub get_inode : Vfs → ℕ → ℕ → Option ((Option ℕ × ℤ) × Vfs)
unfolding set_inode
get_inode vfs super id = elim (search_table super id vfs.inode_table 0 none) [
  | inl i ↦
      let inode = inode_at vfs i in
      some ((some i, pos 0), set_inode vfs i (record inode { count = inc inode.count }))
  | inr none ↦ some ((none, neg enoent), vfs)
  | inr (some free) ↦ load_inode vfs super id free
]

-- `none` is the failed assertion.
unfoldable pub clone_inode : Vfs → ℕ → Option Vfs
unfolding set_inode
clone_inode vfs i =
    let inode = inode_at vfs i in
    if ltb 0 inode.count
    then some (set_inode vfs i (record inode { count = inc inode.count }))
    else none

-- `node != vfs_root`
abbrev pub is_root : Vfs → ℕ → Bool
is_root vfs i = elim vfs.vfs_root [ none ↦ false | some r ↦ r == i ]

unfoldable pub put_node : Vfs → ℕ → Option Vfs
unfolding set_inode
put_node vfs i =
    let inode = inode_at vfs i in
    let vfs' = set_inode vfs i (record inode { count = inode.count - 1 }) in
    if ltb 0 inode.count
    then (if inode.count - 1 == 0
        then (if is_root vfs i then none else if inode.mountpoint then none else some vfs')
        else some vfs')
    else none
