-- ===== src/Fs/PseudoFile/Tests.antt =====
-- Runs of kernel/fs/pseudo_file.c.
use project_islay.Prelude.{ℕ, ◌+◌, ◌≡◌, refl, inr, some, [], ◌∷◌, arith, update}
use project_islay.Prelude.Int.{pos}
use project_islay.Fs.FileOperations.{read_dirents, eof}
use project_islay.Memory.Heap.{higher_half_addr}
use project_islay.Fs.PseudoFile.{PseudoFile, Files, dot, dot_dot, pseudo_file_readdir}
use project_islay.Fs.PseudoFile.Listing.{IsNode, entries, read_dirents-pseudo_file_readdir}

-- three files, the root directory first
abbrev root : ℕ
root = higher_half_addr + 4096

abbrev tty : ℕ
tty = higher_half_addr + 8192

abbrev null : ℕ
null = higher_half_addr + 12288

abbrev file_of : ℕ → ℕ → ℕ → ℕ → ℕ → PseudoFile
file_of inode mode parent sibling child = record {
  name = 97 ∷ [];
  inode = inode;
  mode = mode;
  parent = parent;
  sibling = sibling;
  child = child;
}

abbrev files : Files
files =
    update
      (update (update (λ x. file_of 0 0 0 0 0) root (file_of root 16384 0 0 tty)) tty
        (file_of tty 8192 root null 0))
      null (file_of null 8192 root 0 0)

tty-IsNode : IsNode files tty
tty-IsNode = record {
  above = omega arith;
  below = omega arith;
  inode = λ e. ground (arith, e);
  name = λ e. ground (arith, e);
}

null-IsNode : IsNode files null
null-IsNode = record {
  above = omega arith;
  below = omega arith;
  inode = λ e. ground (arith, e);
  name = λ e. ground (arith, e);
}

pseudo_file_readdir_example :
    read_dirents (pseudo_file_readdir files root 7) 5 (pos 0) []
    ≡ some (
        inr (
          eof,
          record { d_ino = root; d_name = dot }
              ∷ record { d_ino = 7; d_name = dot_dot }
              ∷ entries files (tty ∷ null ∷ []),
        ))
pseudo_file_readdir_example =
    read_dirents-pseudo_file_readdir files root 7 3 (tty ∷ null ∷ []) (λ e. ground (arith, e))
      (λ e. ground (arith, e)) (refl, tty-IsNode, (refl, null-IsNode, refl)) (omega arith)
