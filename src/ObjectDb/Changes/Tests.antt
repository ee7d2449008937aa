-- ===== src/ObjectDb/Changes/Tests.antt =====
-- Runs of Changes on a log of three entries.
use naust_jmap.Prelude.{
  ◌≡◌, ◌≤◌, refl, true, false, List, [], ◌∷◌, Option, none, some, Bytes, beq, arith,
}
use naust_jmap.Prelude.GoMap
use naust_jmap.ObjectDb.Changes.{
  RecordId, Entry, Reads, ChangeSet, ok, insert_sorted, sort_ids, merge_loop, merge_props,
  apply_seen, apply_change, apply_all, apply_entry, consume, touch, visit_entry, walk, ids_with,
  disp_eq, change_set, new_state, changes,
}
use naust_jmap.ObjectDb.Changes.Page.{reported, changes_page_bound}

abbrev mail : Bytes
mail = 77 ∷ []

abbrev one : RecordId
one = 1 ∷ []

abbrev two : RecordId
two = 2 ∷ []

abbrev entry : List RecordId → List RecordId → List RecordId → Option Entry
entry c u d =
    some ((mail, record { created = c; updated = u; destroyed = d; updated_props = none }) ∷ [])

-- The id `two` is created and destroyed again.
abbrev history : Reads
history = record {
  known_type = true;
  global = some 6;
  floor = some 2;
  entries =
      (4, entry (two ∷ []) [] [])
      ∷ (5, entry (one ∷ []) [] [])
      ∷ (6, entry [] (one ∷ []) (two ∷ []))
      ∷ [];
  scanned = true;
  floor_after = some 2;
  type_state = some 6;
}

abbrev expected : ChangeSet
expected = record {
  old_state = 3;
  new_state = 6;
  has_more = false;
  created = one ∷ [];
  updated = [];
  destroyed = [];
  updated_props = none;
}

changes-history : changes history mail (some 3) 5 ≡ ok expected
unfolding changes walk visit_entry touch consume apply_entry apply_all apply_change apply_seen
    new_state change_set ids_with disp_eq sort_ids insert_sorted merge_props merge_loop GoMap.get
    GoMap.put GoMap.delete beq
changes-history = refl

changes_page_bound_example : reported expected ≤ 5
changes_page_bound_example =
    changes_page_bound history mail 3 5 expected (omega arith) changes-history
