-- ===== src/ObjectDb/Commit.antt =====
-- core/objectdb/objectdb.go: buildBatch and update, which turn the staged changes of an Update into
-- one batch. Maps are lists; json.Marshal of a log entry, the clock and the encoder of records are
-- arguments.
pub mod Touched
pub mod Indexed
pub mod Sorted
pub mod Lines
pub mod Records
pub mod Stored
pub mod Reported
mod Tests
use naust_jmap.Prelude.{
  ℕ, ◌+◌, ◌%◌, ◌^◌, ◌≡◌, ◌==◌, if◌then◌else◌, Bool, true, false, not, ◌&&◌, ◌||◌, List, [], ◌∷◌,
  ◌++◌, Option, none, some, Bytes, beq, blt, length,
}
use naust_jmap.Prelude.GoMap
use naust_jmap.Backend.{Op, set_op, delete_op, encode_int64, decode_int64, add_int64}
use naust_jmap.ObjectDb.Keys.{obj_key, log_key, seq_key, type_state_key, tag_key}
use naust_jmap.ObjectDb.Changes.{Entry, TypeEntry, seen, sort_ids, merge_props}
use naust_jmap.ObjectDb.Schema.{Property, Descriptor, Object, Codec, ◌>>=◌, diff_props}
use naust_jmap.ObjectDb.Indexing.{index_ops, set_index_ops, ref_ops}
use naust_jmap.ObjectDb.Indexing.References.{View}
use naust_jmap.ObjectDb.Update.{Staged, Update, exists_tag}

-- The staged tag operations, in the order of the tags.
abbrev pub tag_step : Bytes → Bytes → Option Bool → List Op → List Op
tag_step acct tag none rest = rest
tag_step acct tag (some true) rest = set_op (tag_key tag acct) none ∷ rest
tag_step acct tag (some false) rest = delete_op (tag_key tag acct) ∷ rest

unfoldable pub tag_batch : Bytes → List (Bytes × Bool) → List Bytes → List Op
tag_batch acct tag_ops [] = []
tag_batch acct tag_ops (tag ∷ tags) =
    tag_step acct tag (GoMap.get tag tag_ops) (tag_batch acct tag_ops tags)

unfoldable pub names_of {ℓ} : {A : Type ℓ} → List (Bytes × A) → List Bytes
names_of [] = []
names_of ((name, a) ∷ rest) = name ∷ names_of rest

-- The order of the staged records: by type, then by id.
unfoldable pub before : Staged → Staged → Bool
before a b = if beq a.type_name b.type_name then blt a.id b.id else blt a.type_name b.type_name

unfoldable pub insert_record : Staged → List Staged → List Staged
insert_record st [] = st ∷ []
insert_record st (x ∷ xs) = if before x st then x ∷ insert_record st xs else st ∷ x ∷ xs

unfoldable pub sort_records : List Staged → List Staged
sort_records [] = []
sort_records (st ∷ sts) = insert_record st (sort_records sts)

abbrev pub no_changes : TypeEntry
no_changes = record { created = []; updated = []; destroyed = []; updated_props = none }

abbrev pub list_of : Option (List Bytes) → List Bytes
list_of none = []
list_of (some names) = names

-- The names that the log may show.
unfoldable pub visible : List (Bytes × Property) → List Bytes → List Bytes
visible props [] = []
visible props (name ∷ names) =
    let rest = visible props names in
    elim (GoMap.get name props) [
      | none ↦ name ∷ rest
      | some p ↦ if p.internal then rest else name ∷ rest
    ]

abbrev pub cancelled : Staged → Bool
cancelled st = elim st.new [ none ↦ st.created | some obj ↦ false ]

abbrev pub fields : Option Object → Object
fields none = []
fields (some obj) = obj

-- The cases of the switch: destroyed, created, quiet, updated.
abbrev pub report_line :
    Option Object → Bool → Bool → Bytes → (Object → List Bytes) → TypeEntry → TypeEntry
report_line none created quiet id props te = record te { destroyed = te.destroyed ++ id ∷ [] }
report_line (some obj) true quiet id props te = record te { created = te.created ++ id ∷ [] }
report_line (some obj) false true id props te = te
report_line (some obj) false false id props te = record te {
  updated = te.updated ++ id ∷ [];
  updated_props = some (merge_props (list_of te.updated_props) (props obj));
}

unfoldable pub report : Descriptor → Staged → TypeEntry → TypeEntry
report t st te =
    report_line st.new st.created st.quiet st.id
      (λ obj. visible t.properties (diff_props (fields st.old) obj)) te

abbrev pub entry_for : Bytes → Entry → TypeEntry
entry_for type_name e = elim (GoMap.get type_name e) [ none ↦ no_changes | some te ↦ te ]

unfoldable pub add_report : Descriptor → Staged → Entry → Entry
add_report t st e = GoMap.put st.type_name (report t st (entry_for st.type_name e)) e

-- The types of which something is reported.
unfoldable pub reported : Entry → Entry
reported [] = []
reported ((type_name, te) ∷ e) =
    let rest = reported e in
    if length te.created + length te.updated + length te.destroyed == 0
    then rest
    else (type_name, te) ∷ rest

unfoldable pub state_ops : Bytes → ℕ → List Bytes → List Op
state_ops acct sequence [] = []
state_ops acct sequence (type_name ∷ names) =
    set_op (type_state_key acct type_name) (some (encode_int64 sequence))
    ∷ state_ops acct sequence names

-- The bumped types that no record has moved.
unfoldable pub only_bumped : List Bytes → List Bytes → List Bytes
only_bumped moved [] = []
only_bumped moved (name ∷ names) =
    let rest = only_bumped moved names in if seen name moved then rest else name ∷ rest

-- What a batch says of the account's records, and the types that it moves.
pub record Built : Type 0 where
  pub ops : List Op
  pub touched : List Bytes

module _ (c : Codec) (types : List (Bytes × Descriptor)) (acct : Bytes) where
  unfoldable pub image_ops : Staged → Option (List Op)
  image_ops st = elim st.new [
    | none ↦ some (delete_op (obj_key acct st.type_name st.id) ∷ [])
    | some obj ↦ (do
      raw ← c.encode_object obj
      some (set_op (obj_key acct st.type_name st.id) (some raw) ∷ []))
  ]

  -- The pre-image that the indexes are told of; a created record has none.
  abbrev pub pre_image : Staged → Option Object
  pre_image st = if st.created then none else st.old

  -- The operations of one record.
  unfoldable pub record_ops : Descriptor → Staged → Option (List Op)
  record_ops t st = do
    image ← image_ops st
    indexed ← index_ops c acct t st.id (pre_image st) st.new
    members ← set_index_ops c acct t st.id (pre_image st) st.new
    some (image ++ indexed ++ ref_ops c acct t st.id (pre_image st) st.new ++ members)

  unfoldable pub staged_ops : List Staged → Option (List Op)
  staged_ops [] = some []
  staged_ops (st ∷ sts) =
      let rest = staged_ops sts in
      if cancelled st then rest else (do
        here ← elim (GoMap.get st.type_name types) [ none ↦ none | some t ↦ record_ops t st ]
        after ← rest
        some (here ++ after))

  unfoldable pub report_in : Staged → Entry → Entry
  report_in st e = elim (GoMap.get st.type_name types) [ none ↦ e | some t ↦ add_report t st e ]

  unfoldable pub staged_entry : List Staged → Entry → Entry
  staged_entry [] e = e
  staged_entry (st ∷ sts) e = staged_entry sts (if cancelled st then e else report_in st e)

  -- The field Types of the log entry.
  unfoldable pub entry_of : Update → Entry
  entry_of u = reported (staged_entry (sort_records u.staged) [])

  module _ (encode_entry : Entry → ℕ → Option Bytes) (now_ms : ℕ) where
    -- The log entry, if a record is reported.
    unfoldable pub log_ops : ℕ → Entry → Option (List Op)
    log_ops sequence [] = some []
    log_ops sequence (te ∷ e) = do
      raw ← encode_entry (te ∷ e) now_ms
      some (set_op (log_key acct sequence) (some raw) ∷ [])

    unfoldable pub build_batch : Update → ℕ → Option Built
    build_batch u sequence =
        let entry = entry_of u in
        let moved = names_of entry in
        let touched = moved ++ only_bumped moved u.bumped in
        do
          records ← staged_ops (sort_records u.staged)
          logged ← log_ops sequence entry
          some (record {
            ops =
                set_op (tag_key exists_tag acct) none
                ∷ (tag_batch acct u.tag_ops (sort_ids (names_of u.tag_ops))
                    ++ records
                    ++ state_ops acct sequence touched
                    ++ logged);
            touched = touched;
          })

    -- The read of the counter.
    unfoldable pub current_sequence : View → Option ℕ
    current_sequence m = elim (m (seq_key acct)) [ none ↦ some 0 | some raw ↦ decode_int64 raw ]

    abbrev pub is_empty : Update → Bool
    is_empty u = (length u.staged + length u.bumped + length u.tag_ops) == 0

    -- update, after the function has staged its changes, up to the fence; `some none` where there is
    -- nothing to write.
    unfoldable pub commit : View → Update → Option (Option Built)
    commit m u = do
      current ← current_sequence m
      let sequence = add_int64 current 1
      if is_empty u then some none else do
        built ← build_batch u sequence
        some (
            some (record {
              ops = built.ops ++ set_op (seq_key acct) (some (encode_int64 sequence)) ∷ [];
              touched = built.touched;
            }))

  -- The types that the notifier tells of.
  unfoldable pub published : List Bytes → List Bytes
  published [] = []
  published (name ∷ names) =
      let rest = published names in
      elim (GoMap.get name types) [
        | none ↦ name ∷ rest
        | some t ↦ if t.internal then rest else name ∷ rest
      ]
