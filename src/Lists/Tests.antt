-- ===== src/Lists/Tests.antt =====
-- A list with head 0 and the entries 1 and 2.
use project_islay.Prelude.{zero, suc, refl, [], ◌∷◌, ◌++◌, arith}
use project_islay.Lists.{Links, list_add_last}
use project_islay.Lists.Ring.{Fresh, IsRing, list_add_last-IsRing}

abbrev circle : Links
circle = record {
  next = λ x. elim x [ zero ↦ 1 | suc y ↦ elim y [ zero ↦ 2 | suc z ↦ 0 ] ];
  prev = λ x. elim x [ zero ↦ 2 | suc y ↦ elim y [ zero ↦ 0 | suc z ↦ 1 ] ];
}

circle-IsRing : IsRing circle 0 (1 ∷ 2 ∷ [])
circle-IsRing = record {
  chain = (refl, refl, (refl, refl, (refl, refl)));
  distinct = ((omega arith, (omega arith, tt)), ((omega arith, tt), (tt, tt)));
}

three-Fresh : Fresh 3 (0 ∷ 1 ∷ 2 ∷ [])
three-Fresh = (omega arith, (omega arith, (omega arith, tt)))

list_add_last_example : IsRing (list_add_last circle 0 3) 0 ((1 ∷ 2 ∷ []) ++ 3 ∷ [])
list_add_last_example = list_add_last-IsRing circle 0 3 (1 ∷ 2 ∷ []) circle-IsRing three-Fresh
