-- ===== src/ObjectDb/Commit/Tests.antt =====
-- An update of core/objectdb/objectdb.go that rewrites an internal property of one message and
-- creates another.
use naust_jmap.Prelude.{
  ℕ, ◌≡◌, ◌≢◌, refl, if◌then◌else◌, true, false, List, [], ◌∷◌, Option, none, some, Bytes, beq, blt,
  ◌==◌, arith,
}
use naust_jmap.Prelude.GoMap
use naust_jmap.Backend.{set_op, encode_int64}
use naust_jmap.Memory.Refinement.{key_effect}
use naust_jmap.ObjectDb.Keys.{obj_key, seq_key, tag_key, type_state_key, log_key, tag_seg}
use naust_jmap.ObjectDb.Changes.{Entry, seen, sort_ids}
use naust_jmap.ObjectDb.Schema.{
  Property, Descriptor, Object, Codec, kind_string, is_null, trim_left, trim_right, check_kind,
  check_value, check_kinds, changed_names, removed_names, diff_props,
}
use naust_jmap.ObjectDb.Indexing.{
  index_ops, index_prop_ops, set_index_ops, set_index_prop_ops, each_prop, ref_ops, blob_refs_of,
  blob_of, add_blob, dropped_refs, added_refs,
}
use naust_jmap.ObjectDb.Indexing.References.{View}
use naust_jmap.ObjectDb.Update.{
  Update, World, exists_tag, ok, start, find, assign, same_key, type_of, get, get_committed, create,
  put_internal, all_internal, id_name,
}
use naust_jmap.ObjectDb.Update.Calls.{Call, call_create, call_put_internal, perform, run}
use naust_jmap.ObjectDb.Update.Runs.{IsStaged, run-IsStaged}
use naust_jmap.ObjectDb.Commit.{
  Built, commit, build_batch, current_sequence, staged_ops, record_ops, image_ops, staged_entry,
  report_in, add_report, report, reported, entry_of, log_ops, state_ops, tag_batch, names_of,
  only_bumped, sort_records, insert_record, before,
}
use naust_jmap.ObjectDb.Commit.Stored.{commit_stores}
use naust_jmap.ObjectDb.Commit.Records.{image_after}

abbrev account : Bytes
account = 7 ∷ []

account_usable : account ≢ tag_seg
account_usable e = absurd (ground arith)

-- Every value is a string, its own bytes; a record is encoded as its last value.
abbrev strings : Codec
strings = record {
  string_of = λ raw. some raw;
  folded_string = λ raw. some raw;
  bool_of = λ raw. none;
  int_of = λ raw. none;
  date_micros = λ raw. none;
  keys_of = λ raw. none;
  strings_of = λ raw. some (raw ∷ []);
  valid_date = λ raw. false;
  valid_object = λ raw. false;
  valid_array = λ raw. false;
  encode_object = λ obj. elim obj [ [] ↦ some [] | (name, raw) ∷ rest ↦ some raw ];
}

abbrev text : Property
text = record {
  kind = kind_string;
  immutable = false;
  server_set = false;
  indexed = false;
  order_by = [];
  set_indexed = false;
  blob_ref = false;
  nullable = false;
  internal = false;
}

abbrev note : Property
note = record text { internal = true }

abbrev email : Descriptor
email = record {
  name = 69 ∷ [];
  properties = (98 ∷ [], text) ∷ (99 ∷ [], note) ∷ [];
  internal = false;
}

abbrev stored : Object
stored = (99 ∷ [], 6 ∷ []) ∷ (98 ∷ [], 5 ∷ []) ∷ (id_name, 1 ∷ []) ∷ []

abbrev noted : Object
noted = (99 ∷ [], 7 ∷ []) ∷ (98 ∷ [], 5 ∷ []) ∷ (id_name, 1 ∷ []) ∷ []

abbrev world : World
world = record {
  types = (69 ∷ [], email) ∷ [];
  committed =
      λ type_name id. some (elim id [ [] ↦ none | b ∷ bs ↦ if b == 1 then some stored else none ]);
}

abbrev calls : List Call
calls =
    call_put_internal (69 ∷ []) (1 ∷ []) noted
    ∷ call_create (69 ∷ []) ((98 ∷ [], 9 ∷ []) ∷ []) (2 ∷ []) (2 ∷ [])
    ∷ []

abbrev after : Update
after = record {
  staged =
      record {
        type_name = 69 ∷ [];
        id = 1 ∷ [];
        old = some stored;
        new = some noted;
        created = false;
        quiet = true;
      }
      ∷ record {
        type_name = 69 ∷ [];
        id = 2 ∷ [];
        old = none;
        new = some ((98 ∷ [], 9 ∷ []) ∷ (id_name, 2 ∷ []) ∷ []);
        created = true;
        quiet = false;
      }
      ∷ [];
  bumped = [];
  tag_ops = [];
}

run-calls : run strings world start calls ≡ ok after
unfolding run perform create put_internal type_of get get_committed find assign same_key GoMap.get
    GoMap.put all_internal diff_props changed_names removed_names check_kinds check_value check_kind
    is_null trim_left trim_right beq
run-calls = refl

start-IsStaged : IsStaged world start
start-IsStaged = record { unique = tt; sound = tt }

after-IsStaged : IsStaged world after
unfolding GoMap.get beq
after-IsStaged =
    run-IsStaged strings world start after calls start-IsStaged
      ((refl, (refl, (refl, tt))), (tt, tt)) run-calls

abbrev encode_entry : Entry → ℕ → Option Bytes
encode_entry e at = some (1 ∷ [])

-- A store that holds nothing.
abbrev empty_view : View
empty_view k = none

abbrev built : Built
built = record {
  ops =
      set_op (tag_key exists_tag account) none
      ∷ set_op (obj_key account (69 ∷ []) (1 ∷ [])) (some (7 ∷ []))
      ∷ set_op (obj_key account (69 ∷ []) (2 ∷ [])) (some (9 ∷ []))
      ∷ set_op (type_state_key account (69 ∷ [])) (some (encode_int64 1))
      ∷ set_op (log_key account 1) (some (1 ∷ []))
      ∷ set_op (seq_key account) (some (encode_int64 1))
      ∷ [];
  touched = (69 ∷ []) ∷ [];
}

commit-after :
    commit strings world.types account encode_entry 0 empty_view after ≡ some (some built)
unfolding commit current_sequence build_batch entry_of reported staged_entry report_in add_report
    report GoMap.get GoMap.put sort_records insert_record before staged_ops record_ops image_ops
    index_ops set_index_ops index_prop_ops set_index_prop_ops each_prop ref_ops blob_refs_of blob_of
    add_blob dropped_refs added_refs tag_batch names_of sort_ids state_ops only_bumped log_ops beq
    blt seen
commit-after = refl

commit_stores_example :
    key_effect (obj_key account (69 ∷ []) (2 ∷ [])) built.ops none
    ≡ image_after strings (find (69 ∷ []) (2 ∷ []) after.staged) none
commit_stores_example =
    commit_stores strings world.types account account_usable encode_entry 0 (69 ∷ []) (2 ∷ [])
      empty_view after built none after-IsStaged.unique commit-after
