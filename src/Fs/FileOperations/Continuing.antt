-- ===== src/Fs/FileOperations/Continuing.antt =====
-- Two calls of `readdirents` of kernel/fs/file_operations.c in a row, through the offset of the file.
use mathlib.Core.Path.{subst}
use mathlib.Core.List.{append-nil, append_assoc}
use project_islay.Prelude.{
  ℕ, zero, suc, ◌+◌, ◌<◌, ◌≡◌, ◌≢◌, refl, sym, ap, ◌∙◌, true, false, ◌⊎◌, inl, inr, Option, none,
  some, List, [], ◌∷◌, ◌++◌, length, length-append, length-set, arith, Bool-cases, ◌>>=◌,
  eq_of_some, ==-true, ==-false,
}
use project_islay.Prelude.Arrays.{get_or-set}
use project_islay.Prelude.Int.{ℤ, pos, negsuc, is_neg}
use project_islay.Fs.{
  OpenFile, FsOps, Dirent, Vfs, TaskFsData, no_file, file_at, inode_at, fs_ops_of, is_dir,
}
use project_islay.Fs.FileTable.{set_file}
use project_islay.Fs.InodeCache.Clones.{set-set}
use project_islay.Fs.FileOperations.{
  file_of, read_dirents, read_entries, store_offset, read_directory, readdirents, at_eof, eof,
  bad_dirent,
}
use project_islay.Fs.FileOperations.Directory.{offset-cases, read_dirents-append}

abbrev Reading : Type 0
Reading = Option (ℤ ⊎ (ℤ × List Dirent))

magnitude : ℤ → ℕ
magnitude (pos n) = n
magnitude (negsuc n) = n

-- the same entries, with others in front
behind : List Dirent → Reading → Reading
behind p none = none
behind p (some (inl errno)) = some (inl errno)
behind p (some (inr (offset, es))) = some (inr (offset, p ++ es))

-- The loop does not look at the entries that it has read.
read_dirents-behind :
    (readdir : ℤ → ℤ × Dirent) (n : ℕ) (offset : ℤ) (p buf : List Dirent)
    → read_dirents readdir n offset (p ++ buf) ≡ behind p (read_dirents readdir n offset buf)
unfolding read_dirents behind
read_dirents-behind readdir zero offset p buf = refl
read_dirents-behind readdir (suc n) offset p buf =
    let e = readdir offset in
    elim (Bool-cases (is_neg e.0)) [
      | inl neg ↦ rw neg refl
      | inr neg ↦ elim (Bool-cases (bad_dirent e.1)) [
        | inl bad ↦ rw (neg, bad) refl
        | inr bad ↦ elim (offset-cases e.0 neg) [
          | inl z ↦ rw (neg, bad, z) (ap (λ l. some (inr (eof, l))) (append_assoc p buf (e.1 ∷ [])))
          | inr (k, q) ↦
              rw (neg, bad, q)
                (ap (λ l. read_dirents readdir n e.0 l) (append_assoc p buf (e.1 ∷ []))
                  ∙ read_dirents-behind readdir n e.0 p (buf ++ e.1 ∷ []))
        ]
      ]
    ]

-- An error of the loop is negative.
read_dirents-errno :
    (readdir : ℤ → ℤ × Dirent) (n : ℕ) (offset : ℤ) (buf : List Dirent) (errno : ℤ)
    → read_dirents readdir n offset buf ≡ some (inl errno)
    → is_neg errno ≡ true
unfolding read_dirents
read_dirents-errno readdir zero offset buf errno e = absurd (ground (arith, e))
read_dirents-errno readdir (suc n) offset buf errno e =
    elim (Bool-cases (is_neg (readdir offset).0)) [
      | inl neg ↦
          let found : (readdir offset).0 ≡ errno = let h = rw neg at e in cc in
          subst (λ o. is_neg o ≡ true) found neg
      | inr neg ↦ elim (Bool-cases (bad_dirent (readdir offset).1)) [
        | inl bad ↦ absurd (ground (arith, rw (neg, bad) at e))
        | inr bad ↦ elim (offset-cases (readdir offset).0 neg) [
          | inl z ↦ absurd (ground (arith, rw (neg, bad, z) at e))
          | inr (k, q) ↦
              read_dirents-errno readdir n (readdir offset).0 (buf ++ (readdir offset).1 ∷ []) errno
                (rw (neg, bad, q) at e)
        ]
      ]
    ]

-- An open directory that is not at its end; its file system looks at the offset it is given, and not at that of the
-- file.
pub record IsDirectory (vfs : Vfs) (task_data : TaskFsData) (fd : ℤ) (f : ℕ) (ops : FsOps)
    (op : OpenFile → ℤ → ℤ × Dirent) : Type 0 where
  pub opened : file_of task_data fd ≡ some f
  pub inside : f < length vfs.open_files
  pub dir : is_dir (inode_at vfs (file_at vfs f).inode).mode ≡ true
  pub has_ops : fs_ops_of vfs (file_at vfs f).file_ops ≡ some ops
  pub reads : (read : OpenFile → ℕ → ℤ → ℤ) × (ops.read ≡ some read)
  pub lists : ops.readdir ≡ some op
  pub more : at_eof (file_at vfs f).offset ≡ false
  pub steady : (offset : ℤ) → op (record (file_at vfs f) { offset = offset }) ≡ op (file_at vfs f)

module _ (vfs : Vfs) (task_data : TaskFsData) (fd : ℤ) (f : ℕ) (ops : FsOps)
    (op : OpenFile → ℤ → ℤ × Dirent) (d : IsDirectory vfs task_data fd f ops op) where
  read_entries-loop :
      (n : ℕ) (file : OpenFile)
      → read_entries (some op) file n ≡ read_dirents (op file) n file.offset []
  unfolding read_entries read_dirents
  read_entries-loop zero file = refl
  read_entries-loop (suc n) file = refl

  readdirents-loop :
      (n : ℕ)
      → readdirents vfs task_data fd (pos n) ≡ (
          read_dirents (op (file_at vfs f)) n (file_at vfs f).offset [] >>= λ r.
          some (store_offset vfs f r))
  unfolding readdirents read_directory
  readdirents-loop n =
      rw
        (
          readdirents,
          read_directory,
          d.opened,
          d.dir,
          d.has_ops,
          d.reads.1,
          d.more,
          d.lists,
          read_entries-loop n (file_at vfs f),
        )
        refl

  -- What a call that succeeds has read, and the offset that it leaves.
  readdirents-success :
      (n count : ℕ) (es : List Dirent) (vfs' : Vfs)
      → readdirents vfs task_data fd (pos n) ≡ some ((pos count, es), vfs')
      → (next : ℤ) × (read_dirents (op (file_at vfs f)) n (file_at vfs f).offset []
          ≡ some (inr (next, es)))
        × (count ≡ length es)
        × (vfs' ≡ set_file vfs f (record (file_at vfs f) { offset = next }))
  unfolding store_offset magnitude
  readdirents-success n count es vfs' e =
      go (read_dirents (op (file_at vfs f)) n (file_at vfs f).offset []) refl
        (sym (readdirents-loop n) ∙ e)
    where
      go :
          (r : Reading)
          → read_dirents (op (file_at vfs f)) n (file_at vfs f).offset [] ≡ r
          → (r >>= λ x. some (store_offset vfs f x)) ≡ some ((pos count, es), vfs')
          → (next : ℤ) × (r ≡ some (inr (next, es)))
            × (count ≡ length es)
            × (vfs' ≡ set_file vfs f (record (file_at vfs f) { offset = next }))
      go none q e' = absurd (ground (arith, e'))
      go (some (inl errno)) q e' =
          let negative =
            read_dirents-errno (op (file_at vfs f)) n (file_at vfs f).offset [] errno q in
          let same : errno ≡ pos count = cc in
          absurd (ground (arith, sym (ap is_neg same) ∙ negative))
      go (some (inr (next, read))) q e' =
          let result : (
            (pos (length read), read),
            set_file vfs f (record (file_at vfs f) { offset = next }),
          )
              ≡ ((pos count, es), vfs') =
            eq_of_some e' in
          let all : read ≡ es = ap (λ r. r.0.1) result in
          let number : pos (length read) ≡ pos count = ap (λ r. r.0.0) result in
          (
            next,
            ap (λ l. some (inr (next, l))) all,
            sym (ap magnitude number) ∙ ap length all,
            sym (ap (λ r. r.1) result),
          )

at_eof-false : (offset : ℤ) → offset ≢ eof → at_eof offset ≡ false
at_eof-false (pos n) h = refl
at_eof-false (negsuc zero) h = absurd (h refl)
at_eof-false (negsuc (suc n)) h = ==-false (suc n) 0 (λ e. absurd (omega (arith, e)))

-- The directory once its offset is moved.
module _ (vfs : Vfs) (task_data : TaskFsData) (fd : ℤ) (f : ℕ) (ops : FsOps)
    (op : OpenFile → ℤ → ℤ × Dirent) (d : IsDirectory vfs task_data fd f ops op) (next : ℤ) where
  abbrev file : OpenFile
  file = record (file_at vfs f) { offset = next }

  abbrev moved : Vfs
  moved = set_file vfs f file

  file_at-moved : file_at moved f ≡ file
  unfolding set_file
  file_at-moved = get_or-set vfs.open_files f f file no_file d.inside ∙ rw (==-true f f refl) refl

  moved-IsDirectory : next ≢ eof → IsDirectory moved task_data fd f ops op
  unfolding set_file fs_ops_of
  moved-IsDirectory more = record {
    opened = d.opened;
    inside = omega (arith, d.inside, length-set vfs.open_files f file);
    dir = ap (λ e. is_dir (inode_at moved e.inode).mode) file_at-moved ∙ d.dir;
    has_ops = ap (λ e. fs_ops_of moved e.file_ops) file_at-moved ∙ d.has_ops;
    reads = d.reads;
    lists = d.lists;
    more = ap (λ e. at_eof e.offset) file_at-moved ∙ at_eof-false next more;
    steady = λ o.
        ap (λ e. op (record e { offset = o })) file_at-moved
        ∙ d.steady o
        ∙ sym (d.steady next)
        ∙ ap op (sym file_at-moved);
  }

  set_file-moved :
      (last : ℤ)
      → set_file moved f (record (file_at moved f) { offset = last })
        ≡ set_file vfs f (record (file_at vfs f) { offset = last })
  unfolding set_file
  set_file-moved last =
      ap (λ e. set_file moved f (record e { offset = last })) file_at-moved
      ∙ ap (λ t. record vfs { open_files = t })
          (set-set vfs.open_files f file (record (file_at vfs f) { offset = last }))

-- Two calls of `readdirents` that both succeed, with buffers of `a` and `b` entries, give together what one call with
-- a buffer of `a + b` gives: the entries of the first and then those of the second, none twice and none left out,
-- and the same state afterwards. The first call must not reach the end of the directory, which is one in the table
-- of open files and whose file system lists by the offset that it is given.
pub readdirents-twice :
    (vfs vfs1 vfs2 : Vfs) (task_data : TaskFsData) (fd : ℤ) (f : ℕ) (ops : FsOps)
    (op : OpenFile → ℤ → ℤ × Dirent) (a b n m : ℕ) (es es' : List Dirent)
    → IsDirectory vfs task_data fd f ops op
    → readdirents vfs task_data fd (pos a) ≡ some ((pos n, es), vfs1)
    → (file_at vfs1 f).offset ≢ eof
    → readdirents vfs1 task_data fd (pos b) ≡ some ((pos m, es'), vfs2)
    → readdirents vfs task_data fd (pos (a + b)) ≡ some ((pos (n + m), es ++ es'), vfs2)
unfolding store_offset behind
readdirents-twice vfs vfs1 vfs2 task_data fd f ops op a b n m es es' d first more second =
    let (next, r, count, e1) = readdirents-success vfs task_data fd f ops op d a n es vfs1 first in
    let at1 : file_at vfs1 f ≡ record (file_at vfs f) { offset = next } =
      ap (λ v. file_at v f) e1 ∙ file_at-moved vfs task_data fd f ops op d next in
    let goes_on : next ≢ eof = λ z. more (ap (λ e. e.offset) at1 ∙ z) in
    let d1 : IsDirectory vfs1 task_data fd f ops op =
      subst (λ v. IsDirectory v task_data fd f ops op) (sym e1)
        (moved-IsDirectory vfs task_data fd f ops op d next goes_on) in
    let (last, r', count', e2) =
      readdirents-success vfs1 task_data fd f ops op d1 b m es' vfs2 second in
    let readdir = op (file_at vfs f) in
    let same_op : op (file_at vfs1 f) ≡ readdir = ap op at1 ∙ d.steady next in
    let rest : read_dirents readdir b next [] ≡ some (inr (last, es')) =
      ap (λ o. read_dirents o b next []) (sym same_op)
      ∙ ap (λ o. read_dirents (op (file_at vfs1 f)) b o []) (sym (ap (λ e. e.offset) at1))
      ∙ r' in
    let whole : read_dirents readdir (a + b) (file_at vfs f).offset []
        ≡ some (inr (last, es ++ es')) =
      read_dirents-append readdir a b (file_at vfs f).offset next [] es r goes_on
      ∙ ap (λ l. read_dirents readdir b next l) (sym (append-nil es))
      ∙ read_dirents-behind readdir b next es []
      ∙ ap (behind es) rest in
    let end : vfs2 ≡ set_file vfs f (record (file_at vfs f) { offset = last }) =
      e2
      ∙ ap (λ v. set_file v f (record (file_at v f) { offset = last })) e1
      ∙ set_file-moved vfs task_data fd f ops op d next last in
    let total : length (es ++ es') ≡ n + m = omega (arith, length-append es es', count, count') in
    readdirents-loop vfs task_data fd f ops op d (a + b)
    ∙ ap (λ x. x >>= λ y. some (store_offset vfs f y)) whole
    ∙ ap (λ k. some ((pos k, es ++ es'), set_file vfs f (record (file_at vfs f) { offset = last })))
        total
    ∙ ap (λ v. some ((pos (n + m), es ++ es'), v)) (sym end)
