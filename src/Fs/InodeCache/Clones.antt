-- ===== src/Fs/InodeCache/Clones.antt =====
-- `clone_inode` and `put_node` of kernel/fs/inode.c, one after the other.
use project_islay.Prelude.{
  ℕ, zero, suc, ◌+◌, ◌-◌, ◌<◌, ◌^◌, ◌≡◌, refl, ap, ◌∙◌, some, List, [], ◌∷◌, get_or, length, set,
  arith, ==-true, lt→ltb, ==-false, ◌>>=◌,
}
use project_islay.Prelude.Arrays.{get_or-set}
use project_islay.Fs.{Inode, Vfs, no_inode, inode_at, inc}
use project_islay.Fs.InodeCache.{set_inode, put_node, clone_inode}

pub set-set : {A : Type 0} (xs : List A) (i : ℕ) (v w : A) → set (set xs i v) i w ≡ set xs i w
set-set [] i v w = refl
set-set (x ∷ xs) zero v w = refl
set-set (x ∷ xs) (suc i) v w = ap (λ t. x ∷ t) (set-set xs i v w)

set-get_or : {A : Type 0} (xs : List A) (i : ℕ) (d : A) → set xs i (get_or xs i d) ≡ xs
set-get_or [] i d = refl
set-get_or (x ∷ xs) zero d = refl
set-get_or (x ∷ xs) (suc i) d = ap (λ t. x ∷ t) (set-get_or xs i d)

-- A clone of an inode in use that is put back leaves the cache as it was, unless the count of
-- references is at its largest value.
pub clone_inode-put_node :
    (vfs : Vfs) (i : ℕ)
    → i < length vfs.inode_table
    → 0 < (inode_at vfs i).count
    → (inode_at vfs i).count + 1 < 2 ^ 32
    → (clone_inode vfs i >>= λ cloned. put_node cloned i) ≡ some vfs
unfolding clone_inode put_node set_inode
clone_inode-put_node vfs i h live small =
    let c = (inode_at vfs i).count in
    let more : Inode = record (inode_at vfs i) { count = inc c } in
    let back : inc c - 1 ≡ c = omega (arith, small) in
    rw
      (
        lt→ltb 0 c live,
        get_or-set vfs.inode_table i i more no_inode h,
        ==-true i i refl,
        lt→ltb 0 (inc c) (omega (arith, small)),
        ==-false (inc c - 1) 0 (omega (arith, small, live)),
        back,
      )
      (ap (λ table. some (record vfs { inode_table = table }))
        (set-set vfs.inode_table i more (inode_at vfs i) ∙ set-get_or vfs.inode_table i no_inode))
