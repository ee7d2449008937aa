-- ===== src/ObjectDb/Changes/Members.antt =====
-- Which ids the sorted lists of a change set hold.
use naust_jmap.Prelude.{
  ◌≡◌, refl, ap, ◌∙◌, Bool, false, ◌||◌, List, [], ◌∷◌, Option, none, some, Bytes, beq, beq_iff,
  arith,
}
use naust_jmap.Prelude.GoMap
use naust_jmap.Prelude.GoMap.{Distinct, get-put, get-delete, put-Distinct, delete-Distinct}
use naust_jmap.ObjectDb.Changes.{
  RecordId, Disp, Disps, ids_with, disp_eq, sort_ids, insert_sorted, seen,
}

seen-insert_sorted :
    (j a : Bytes) (xs : List Bytes) → seen j (insert_sorted a xs) ≡ (beq a j || seen j xs)
unfolding seen insert_sorted
seen-insert_sorted j a [] = refl
seen-insert_sorted j a (x ∷ xs) = ground (arith, seen-insert_sorted j a xs)

seen-sort_ids : (j : Bytes) (xs : List Bytes) → seen j (sort_ids xs) ≡ seen j xs
unfolding sort_ids seen
seen-sort_ids j [] = refl
seen-sort_ids j (x ∷ xs) =
    seen-insert_sorted j x (sort_ids xs) ∙ ap (λ b. beq x j || b) (seen-sort_ids j xs)

abbrev pub has_disp : Disp → Option Disp → Bool
has_disp x none = false
has_disp x (some y) = disp_eq x y

seen-absent :
    (x : Disp) (j : RecordId) (d : Disps) → GoMap.get j d ≡ none → seen j (ids_with x d) ≡ false
unfolding ids_with seen GoMap.get
seen-absent x j [] h = refl
seen-absent x j ((id, y) ∷ d) h = ground (arith, seen-absent x j d)

seen-ids_with :
    (x : Disp) (j : RecordId) (d : Disps)
    → Distinct d
    → seen j (ids_with x d) ≡ has_disp x (GoMap.get j d)
unfolding ids_with seen GoMap.get
seen-ids_with x j [] h = refl
seen-ids_with x j ((id, y) ∷ d) (hid, h) =
    ground (arith, seen-ids_with x j d h, beq_iff id j, seen-absent x j d)

-- The list of a change set that collects the disposition `x` holds an id exactly if that is its
-- disposition.
pub seen_list :
    (x : Disp) (j : RecordId) (d : Disps)
    → Distinct d
    → seen j (sort_ids (ids_with x d)) ≡ has_disp x (GoMap.get j d)
seen_list x j d h = seen-sort_ids j (ids_with x d) ∙ seen-ids_with x j d h
