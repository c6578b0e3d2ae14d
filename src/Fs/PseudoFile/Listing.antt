-- ===== src/Fs/PseudoFile/Listing.antt =====
-- What a directory of kernel/fs/pseudo_file.c lists, read by the loop of `readdirents`.
use mathlib.Core.List.{append_assoc}
use project_islay.Prelude.{
  ℕ, zero, suc, ◌+◌, ◌-◌, ◌^◌, ◌<◌, ◌≤◌, ◌≡◌, ◌≢◌, refl, sym, ap, ◌∙◌, true, false, inr, some, List,
  [], ◌∷◌, ◌++◌, ◌==◌, ltb, if◌then◌else◌, arith, length, ==-false, lt→ltb,
}
use project_islay.Prelude.Int.{ℤ, pos}
use project_islay.Libc.{head}
use project_islay.Fs.{Dirent}
use project_islay.Fs.FileOperations.{read_dirents, eof, bad_dirent}
use project_islay.Memory.Heap.{higher_half_addr}
use project_islay.Memory.VirtualMemory.{p2l, l2p}
use project_islay.Fs.PseudoFile.{Files, next_offset, dot, dot_dot, read_node, pseudo_file_readdir}

-- A file in the upper half, behind its first two bytes, with an inode number and a name.
pub record IsNode (files : Files) (x : ℕ) : Type 0 where
  pub above : higher_half_addr + 1 < x
  pub below : x < 2 ^ 32
  pub inode : (files x).inode ≢ 0
  pub name : head (files x).name ≢ 0

-- The siblings from `x` on.
abbrev pub IsChain : Files → ℕ → List ℕ → Type 0
IsChain files x [] = x ≡ 0
IsChain files x (y ∷ ys) = (x ≡ y) × IsNode files y × IsChain files (files y).sibling ys

-- their entries
abbrev pub entries : Files → List ℕ → List Dirent
entries files [] = []
entries files (y ∷ ys) =
    record { d_ino = (files y).inode; d_name = (files y).name } ∷ entries files ys

-- One round of the loop, at an entry with nothing behind it
read_dirents-last :
    (readdir : ℤ → ℤ × Dirent) (n : ℕ) (offset : ℤ) (e : Dirent) (buf : List Dirent)
    → readdir offset ≡ (pos 0, e)
    → bad_dirent e ≡ false
    → read_dirents readdir (suc n) offset buf ≡ some (inr (eof, buf ++ e ∷ []))
unfolding read_dirents
read_dirents-last readdir n offset e buf r g =
    let next = ap (λ p. p.0) r in let read = ap (λ p. p.1) r in rw (next, read, g) refl

-- and at one with another.
read_dirents-more :
    (readdir : ℤ → ℤ × Dirent) (n : ℕ) (offset : ℤ) (k : ℕ) (e : Dirent) (buf : List Dirent)
    → readdir offset ≡ (pos (suc k), e)
    → bad_dirent e ≡ false
    → read_dirents readdir (suc n) offset buf ≡ read_dirents readdir n (pos (suc k)) (buf ++ e ∷ [])
unfolding read_dirents
read_dirents-more readdir n offset k e buf r g =
    let next = ap (λ p. p.0) r in
    let read = ap (λ p. p.1) r in
    rw (next, read, g) (ap (λ o. read_dirents readdir n o (buf ++ e ∷ [])) next)

node_offset :
    (x : ℕ)
    → higher_half_addr + 1 < x
    → x < 2 ^ 32
    → next_offset x ≡ pos (suc (suc (x - higher_half_addr - 2)))
node_offset x a b =
    let address : l2p x ≡ suc (suc (x - higher_half_addr - 2)) = omega (arith, a, b) in
    let low : ltb (l2p x) (2 ^ 31) ≡ true = lt→ltb _ _ (omega (arith, a, b)) in
    rw (==-false x 0 (omega (arith, a)), low) (ap pos address)

node_address :
    (x : ℕ) → higher_half_addr + 1 < x → x < 2 ^ 32 → p2l (suc (suc (x - higher_half_addr - 2))) ≡ x
node_address x a b = omega (arith, a, b)

good_entry : (files : Files) (x : ℕ) → IsNode files x → bad_dirent (read_node files x).1 ≡ false
unfolding read_node
good_entry files x h =
    rw (==-false (files x).inode 0 h.inode, ==-false (head (files x).name) 0 h.name) refl

readdir-node :
    (files : Files) (dir mounted_id x : ℕ)
    → IsNode files x
    → pseudo_file_readdir files dir mounted_id (pos (suc (suc (x - higher_half_addr - 2))))
      ≡ read_node files x
unfolding pseudo_file_readdir
readdir-node files dir m x h =
    rw (==-false (suc (x - higher_half_addr - 2)) 0 (omega arith))
      (ap (read_node files) (node_address x h.above h.below))

-- The siblings from a file on are listed in their order, up to the end of the directory.
read_dirents-siblings :
    (files : Files) (dir mounted_id n x : ℕ) (ys : List ℕ) (buf : List Dirent)
    → IsNode files x
    → IsChain files (files x).sibling ys
    → length ys < n
    → read_dirents (pseudo_file_readdir files dir mounted_id) n (next_offset x) buf
      ≡ some (inr (eof, buf ++ entries files (x ∷ ys)))
unfolding read_node
read_dirents-siblings files dir m zero x ys buf h c l = absurd (omega (arith, l))
read_dirents-siblings files dir m (suc n) x [] buf h c l =
    let ends : read_node files x ≡ (pos 0, (read_node files x).1) =
      ap (λ s. (next_offset s, (read_node files x).1)) c in
    rw (node_offset x h.above h.below) (
      read_dirents-last (pseudo_file_readdir files dir m) n _ (read_node files x).1 buf
        (readdir-node files dir m x h ∙ ends) (good_entry files x h))
read_dirents-siblings files dir m (suc n) x (y ∷ ys) buf h (same, hy, c) l =
    let offset = node_offset y hy.above hy.below in
    let goes : read_node files x
        ≡ (pos (suc (suc (y - higher_half_addr - 2))), (read_node files x).1) =
      ap (λ s. (next_offset s, (read_node files x).1)) same
      ∙ ap (λ o. (o, (read_node files x).1)) offset in
    rw (node_offset x h.above h.below) (
      read_dirents-more (pseudo_file_readdir files dir m) n _ _ (read_node files x).1 buf
        (readdir-node files dir m x h ∙ goes) (good_entry files x h)
      ∙ ap
          (λ o.
            read_dirents (pseudo_file_readdir files dir m) n o (buf ++ (read_node files x).1 ∷ []))
          (sym offset)
      ∙ read_dirents-siblings files dir m n y ys (buf ++ (read_node files x).1 ∷ []) hy c
          (omega (arith, l))
      ∙ ap (λ l. some (inr (eof, l)))
          (append_assoc buf ((read_node files x).1 ∷ []) (entries files (y ∷ ys))))

-- the file `..` stands for, by its inode number
abbrev pub parent_inode : Files → ℕ → ℕ → ℕ
parent_inode files dir mounted_id =
    if (files dir).parent == 0 then mounted_id else (files (files dir).parent).inode

-- Reading a directory from its start, with room for every file, gives `.`, then `..`, which is its
-- parent or, in the root of the file system, the directory it is mounted on, and then the files in
-- the order of their list, and ends the directory. The files lie in the upper half, and they, the
-- directory and `..` have an inode number and a name.
pub read_dirents-pseudo_file_readdir :
    (files : Files) (dir mounted_id n : ℕ) (xs : List ℕ)
    → (files dir).inode ≢ 0
    → parent_inode files dir mounted_id ≢ 0
    → IsChain files (files dir).child xs
    → length xs ≤ n
    → read_dirents (pseudo_file_readdir files dir mounted_id) (suc (suc n)) (pos 0) []
      ≡ some (
          inr (
            eof,
            record { d_ino = (files dir).inode; d_name = dot }
                ∷ record { d_ino = parent_inode files dir mounted_id; d_name = dot_dot }
                ∷ entries files xs,
          ))
unfolding pseudo_file_readdir
read_dirents-pseudo_file_readdir files dir m n xs d p c l =
    let readdir = pseudo_file_readdir files dir m in
    let first : Dirent = record { d_ino = (files dir).inode; d_name = dot } in
    let second : Dirent = record { d_ino = parent_inode files dir m; d_name = dot_dot } in
    read_dirents-more readdir (suc n) (pos 0) 0 first [] refl
      (rw (==-false (files dir).inode 0 d) refl)
    ∙ elim xs
          as (λ ys.
            IsChain files (files dir).child ys
            → length ys ≤ n
            → read_dirents readdir (suc n) (pos 1) (first ∷ [])
              ≡ some (inr (eof, first ∷ second ∷ entries files ys))) [
                | [] ↦ λ c' l'.
                    read_dirents-last readdir n (pos 1) second (first ∷ [])
                      (ap (λ f. (next_offset f, second)) c')
                      (rw (==-false (parent_inode files dir m) 0 p) refl)
                | y ∷ ys ↦ λ (same, hy, c') l'.
                    let offset = node_offset y hy.above hy.below in
                    read_dirents-more readdir n (pos 1) _ second (first ∷ [])
                      (ap (λ f. (next_offset f, second)) same ∙ ap (λ o. (o, second)) offset)
                      (rw (==-false (parent_inode files dir m) 0 p) refl)
                    ∙ ap (λ o. read_dirents readdir n o (first ∷ second ∷ [])) (sym offset)
                    ∙ read_dirents-siblings files dir m n y ys (first ∷ second ∷ []) hy c'
                        (omega (arith, l'))
              ]
        c l
