-- ===== src/Memory/Heap/Tests.antt =====
-- A free list of three entries.
use project_islay.Prelude.{refl, [], ◌∷◌, update, arith}
use project_islay.Memory.Heap.{Heap, unlink_entry, replace_entry}
use project_islay.Memory.Heap.FreeList.{IsFreeList}
use project_islay.Memory.Heap.Unlink.{unlink_entry-IsFreeList}
use project_islay.Memory.Heap.Replace.{replace_entry-IsFreeList}

abbrev three_entries : Heap
three_entries = record {
  mem = update (update (update (update (λ _. 0) 104 200) 200 100) 204 300) 300 200;
  free_list = 100;
  segments = 0;
  lock = 0;
}

three_entries-IsFreeList : IsFreeList three_entries (100 ∷ 200 ∷ 300 ∷ [])
three_entries-IsFreeList = record {
  last = 300;
  linked =
      (refl, omega arith, refl, (refl, omega arith, refl, (refl, omega arith, refl, (refl, refl))));
  apart = omega arith;
}

unlink_entry_example : IsFreeList (unlink_entry three_entries 200) (100 ∷ 300 ∷ [])
unlink_entry_example =
    unlink_entry-IsFreeList three_entries 200 (100 ∷ []) (300 ∷ []) three_entries-IsFreeList

replace_entry_example : IsFreeList (replace_entry three_entries 200 224) (100 ∷ 224 ∷ 300 ∷ [])
replace_entry_example =
    replace_entry-IsFreeList three_entries 200 224 (100 ∷ []) (300 ∷ []) three_entries-IsFreeList
      (omega arith) (omega arith)
