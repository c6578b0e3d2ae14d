-- ===== src/Fs/FileTable/Allocation.antt =====
-- `alloc_fd` of kernel/fs/file_table.c: which descriptor and which file object it hands out.
use project_islay.Prelude.{
  ℕ, zero, suc, ◌+◌, ◌<◌, ◌≡◌, ◌≢◌, refl, Option, none, some, List, [], ◌∷◌, get_or, length, arith,
  ==-true, ==-false, ℕ_discrete,
}
use project_islay.Prelude.Int.{ℤ, pos, neg, enfile}
use project_islay.Fs.{OpenFile, Vfs, TaskFsData, no_file, file_at}
use project_islay.Fs.FileTable.{find_fd, find_file, set_file, alloc_fd}

-- descriptor `fd` is in the table and refers to no file
pub IsFree : List (Option ℕ) → ℕ → Type 0
IsFree table fd = get_or table fd (some 0) ≡ none

-- What the first loop finds in the table from descriptor `i` on.
data FoundFd (table : List (Option ℕ)) (i : ℕ) : Option ℕ → Type 0 where
  lowest :
      (k : ℕ) {at : ℕ}
      → at ≡ i + k
      → IsFree table k
      → ((j : ℕ) → j < k → ¬ IsFree table j)
      → FoundFd table i (some at)
  all_taken : ((j : ℕ) → ¬ IsFree table j) → FoundFd table i none

none_below :
    (f : ℕ) (table : List (Option ℕ)) (k : ℕ)
    → ((j : ℕ) → j < k → ¬ IsFree table j)
    → (j : ℕ) → j < suc k
    → ¬ IsFree (some f ∷ table) j
unfolding IsFree
none_below f table k before zero h p = absurd (ground (arith, p))
none_below f table k before (suc j) h p = before j (omega (arith, h)) p

none-IsFree :
    (f : ℕ) (table : List (Option ℕ))
    → ((j : ℕ) → ¬ IsFree table j)
    → (j : ℕ) → ¬ IsFree (some f ∷ table) j
unfolding IsFree
none-IsFree f table all zero p = absurd (ground (arith, p))
none-IsFree f table all (suc j) p = all j p

past_taken :
    (f : ℕ) (table : List (Option ℕ)) (i : ℕ) (r : Option ℕ)
    → FoundFd table (i + 1) r
    → FoundFd (some f ∷ table) i r
unfolding IsFree
past_taken f table i r (lowest k at e before) =
    lowest (suc k) (omega arith) e (none_below f table k before)
past_taken f table i r (all_taken all) = all_taken (none-IsFree f table all)

find_fd_lem : (table : List (Option ℕ)) (i : ℕ) → FoundFd table i (find_fd table i)
unfolding find_fd IsFree
find_fd_lem [] i = all_taken (λ j p. absurd (ground (arith, p)))
find_fd_lem (none ∷ table) i = lowest 0 (omega arith) refl (λ j h. absurd (omega (arith, h)))
find_fd_lem (some f ∷ table) i =
    past_taken f table i (find_fd table (i + 1)) (find_fd_lem table (i + 1))

-- What the second loop finds in the table from file object `i` on.
data FoundFile (files : List OpenFile) (i : ℕ) : Option ℕ → Type 0 where
  unused :
      (k : ℕ) {at : ℕ}
      → at ≡ i + k
      → k < length files
      → (get_or files k no_file).ref_count ≡ 0
      → FoundFile files i (some at)
  all_open :
      ((j : ℕ) → j < length files → 0 < (get_or files j no_file).ref_count) → FoundFile files i none

all_used :
    (file : OpenFile) (files : List OpenFile)
    → file.ref_count ≢ 0
    → ((j : ℕ) → j < length files → 0 < (get_or files j no_file).ref_count)
    → (j : ℕ) → j < length (file ∷ files)
    → 0 < (get_or (file ∷ files) j no_file).ref_count
all_used file files nz all zero h = omega (arith, nz)
all_used file files nz all (suc j) h = all j (omega (arith, h))

past_open :
    (file : OpenFile) (files : List OpenFile) (i : ℕ) (r : Option ℕ)
    → file.ref_count ≢ 0
    → FoundFile files (i + 1) r
    → FoundFile (file ∷ files) i r
past_open file files i r nz (unused k at h z) = unused (suc k) (omega arith) (omega arith) z
past_open file files i r nz (all_open all) = all_open (all_used file files nz all)

find_file_lem : (files : List OpenFile) (i : ℕ) → FoundFile files i (find_file files i)
unfolding find_file
find_file_lem [] i = all_open (λ j h. absurd (omega (arith, h)))
find_file_lem (file ∷ files) i = elim (ℕ_discrete file.ref_count 0) [
  | yes z ↦ rw (==-true file.ref_count 0 z) (unused 0 (omega arith) (omega arith) z)
  | no nz ↦
      rw (==-false file.ref_count 0 nz)
        (past_open file files i (find_file files (i + 1)) nz (find_file_lem files (i + 1)))
]

-- What `alloc_fd` returns.
pub data Handed (vfs : Vfs) (task_data : TaskFsData) : (ℤ × Option ℕ) × Vfs → Type 0 where
  handed :
      (fd f : ℕ)
      → IsFree task_data.file_table fd
      → ((j : ℕ) → j < fd → ¬ IsFree task_data.file_table j)
      → f < length vfs.open_files
      → (file_at vfs f).ref_count ≡ 0
      → Handed vfs task_data
          ((pos fd, some f), set_file vfs f (record (file_at vfs f) { offset = pos 0 }))
  no_descriptor :
      ((j : ℕ) → ¬ IsFree task_data.file_table j) → Handed vfs task_data ((neg enfile, none), vfs)
  no_object :
      ((j : ℕ) → j < length vfs.open_files → 0 < (file_at vfs j).ref_count)
      → Handed vfs task_data ((neg enfile, none), vfs)

module _ (vfs : Vfs) (task_data : TaskFsData) where
  alloc_fd-by_search :
      (fd f : Option ℕ)
      → FoundFd task_data.file_table 0 fd
      → FoundFile vfs.open_files 0 f
      → find_fd task_data.file_table 0 ≡ fd
      → find_file vfs.open_files 0 ≡ f
      → Handed vfs task_data (alloc_fd vfs task_data)
  unfolding alloc_fd
  alloc_fd-by_search none f (all_taken all) _ e g = rw (alloc_fd, e) (no_descriptor all)
  alloc_fd-by_search (some fd) none (lowest k at free before) (all_open all) e g =
      rw (alloc_fd, e, g) (no_object all)
  alloc_fd-by_search (some fd) (some f) (lowest k at free before) (unused j at' h z) e g =
      let same_fd : fd ≡ k = omega (arith, at) in
      let same_file : f ≡ j = omega (arith, at') in
      rw (alloc_fd, e, g, same_fd, same_file) (handed k j free before h z)

  -- `alloc_fd` returns the lowest free descriptor with a file object that nothing refers to, whose
  -- offset it sets to 0; otherwise it changes nothing and returns -ENFILE, and either every descriptor
  -- of the task is taken or every file object is open.
  pub alloc_fd-Handed : Handed vfs task_data (alloc_fd vfs task_data)
  alloc_fd-Handed =
      alloc_fd-by_search (find_fd task_data.file_table 0) (find_file vfs.open_files 0)
        (find_fd_lem task_data.file_table 0) (find_file_lem vfs.open_files 0) refl refl
