-- ===== src/ObjectDb/ChangedIds/Tests.antt =====
-- Runs of ChangedSince on a log of three entries.
use naust_jmap.Prelude.{
  ℕ, ◌≡◌, ◌≤◌, refl, true, false, List, [], ◌∷◌, Option, none, some, Bytes, beq, arith,
}
use naust_jmap.Prelude.GoMap
use naust_jmap.ObjectDb.Changes.{
  RecordId, Entry, Reads, ChangeSet, ok, insert_sorted, sort_ids, seen, merge_loop, merge_props,
  apply_seen, apply_change, apply_all, apply_entry, consume, touch, visit_entry, walk, ids_with,
  disp_eq, change_set, new_state, changes,
}
use naust_jmap.ObjectDb.Changes.Walked.{touching, events}
use naust_jmap.ObjectDb.ChangedIds.{
  TypeChanges, merge, apply, apply_ids, apply_type, apply_named, apply_types, scan_entries,
  type_changes, start_types, changed_since,
}
use naust_jmap.ObjectDb.ChangedIds.Entries.{up_to_seq}
use naust_jmap.ObjectDb.ChangedIds.Answers.{Lists, changed_since_net, changed_since_agrees}
use naust_jmap.ObjectDb.ChangedIds.Budget.{listed, changed_since_budget}
use naust_jmap.ObjectDb.ChangedIds.Unlimited.{changed_since_answers}

abbrev mail : Bytes
mail = 77 ∷ []

abbrev box : Bytes
box = 66 ∷ []

abbrev one : RecordId
one = 1 ∷ []

abbrev two : RecordId
two = 2 ∷ []

abbrev touched : Bytes → List RecordId → List RecordId → List RecordId → Option Entry
touched name c u d =
    some ((name, record { created = c; updated = u; destroyed = d; updated_props = none }) ∷ [])

-- In `mail` the id `two` is created and destroyed again, in `box` it is updated.
abbrev history : Reads
history = record {
  known_type = true;
  global = some 6;
  floor = none_yet;
  entries =
      (4, touched mail (two ∷ []) [] [])
      ∷ (5, touched box [] (two ∷ []) [])
      ∷ (6, touched mail (one ∷ []) [] (two ∷ []))
      ∷ [];
  scanned = true;
  floor_after = none_yet;
  type_state = some 6;
}
  where
    none_yet : Option ℕ
    none_yet = some 0

abbrev answer : List (Bytes × TypeChanges)
answer =
    (box, record { created = []; updated = two ∷ []; destroyed = [] })
    ∷ (mail, record { created = one ∷ []; updated = []; destroyed = [] })
    ∷ []

abbrev mail_changes : ChangeSet
mail_changes = record {
  old_state = 3;
  new_state = 6;
  has_more = false;
  created = one ∷ [];
  updated = [];
  destroyed = [];
  updated_props = some [];
}

history-answer : changed_since history (mail ∷ box ∷ []) (some 3) 0 5 ≡ ok (answer, 6)
unfolding changed_since scan_entries apply_types apply_named apply_type apply_ids apply merge
    start_types type_changes ids_with disp_eq sort_ids insert_sorted GoMap.get GoMap.put beq
history-answer = refl

history-mail : changes history mail (some 3) 0 ≡ ok mail_changes
unfolding changes walk visit_entry touch consume apply_entry apply_all apply_change apply_seen
    new_state change_set ids_with disp_eq sort_ids insert_sorted merge_props merge_loop GoMap.get
    GoMap.put GoMap.delete beq
history-mail = refl

asked : seen mail (mail ∷ box ∷ []) ≡ true
unfolding seen beq
asked = refl

changed_since_net_example :
    (history.global ≡ some 6)
    × ((tc : TypeChanges) × (GoMap.get mail answer ≡ some tc)
        × Lists two false false (events two (touching mail (up_to_seq 6 history.entries))) tc)
unfolding GoMap.get beq
changed_since_net_example =
    changed_since_net history (mail ∷ box ∷ []) 3 0 5 answer 6 mail two false false history-answer
      asked refl

changed_since_agrees_example :
    (tc : TypeChanges) × (GoMap.get mail answer ≡ some tc)
    × (seen two tc.created ≡ seen two mail_changes.created)
    × (seen two tc.updated ≡ seen two mail_changes.updated)
    × (seen two tc.destroyed ≡ seen two mail_changes.destroyed)
unfolding GoMap.get beq
changed_since_agrees_example =
    changed_since_agrees history (mail ∷ box ∷ []) 3 0 0 5 answer 6 mail mail_changes two false
      false history-answer history-mail refl asked refl refl

changed_since_budget_example : listed answer ≤ 5
changed_since_budget_example =
    changed_since_budget history (mail ∷ box ∷ []) 3 0 5 answer 6 (omega arith) history-answer

changed_since_answers_example :
    (types : List (Bytes × TypeChanges)) × (changed_since history (mail ∷ box ∷ []) (some 3) 0 0
      ≡ ok (types, 6))
changed_since_answers_example =
    changed_since_answers history (mail ∷ box ∷ []) 3 6 0 0 refl refl (omega arith) refl
      (omega arith) refl tt refl (omega arith)
