-- ===== src/ObjectDb/Lookup/Tests.antt =====
-- Two committed messages with a member, of which a staged one loses it, and a created one with it.
use naust_jmap.Prelude.{◌≡◌, refl, true, false, List, [], ◌∷◌, none, some, Bytes, beq, blt}
use naust_jmap.Prelude.GoMap
use naust_jmap.ObjectDb.Changes.{seen, sort_ids, insert_sorted}
use naust_jmap.ObjectDb.Schema.{Property, Codec, kind_array}
use naust_jmap.ObjectDb.Indexing.{set_members}
use naust_jmap.ObjectDb.Update.{Staged, same_key, find}
use naust_jmap.ObjectDb.Lookup.{remove, has_member, overlay, ids_where_member, lowest_member_id}
use naust_jmap.ObjectDb.Lookup.Least.{lowest_member_id-ids_where_member}

-- A value is the list of its one string.
abbrev lists : Codec
lists = record {
  string_of = λ raw. none;
  folded_string = λ raw. none;
  bool_of = λ raw. none;
  int_of = λ raw. none;
  date_micros = λ raw. none;
  keys_of = λ raw. none;
  strings_of = λ raw. some (raw ∷ []);
  valid_date = λ raw. false;
  valid_object = λ raw. false;
  valid_array = λ raw. true;
  encode_object = λ obj. none;
}

abbrev threads : Property
threads = record {
  kind = kind_array;
  immutable = false;
  server_set = false;
  indexed = false;
  order_by = [];
  set_indexed = true;
  blob_ref = false;
  nullable = false;
  internal = false;
}

abbrev message : Bytes → Bytes → Staged
message id thread = record {
  type_name = 69 ∷ [];
  id = id;
  old = none;
  new = some ((116 ∷ [], thread) ∷ []);
  created = true;
  quiet = false;
}

abbrev staged : List Staged
staged = message (1 ∷ []) (8 ∷ []) ∷ message (5 ∷ []) (7 ∷ []) ∷ []

abbrev committed : List Bytes
committed = (1 ∷ []) ∷ (3 ∷ []) ∷ []

in_thread :
    ids_where_member lists (69 ∷ []) (116 ∷ []) threads (7 ∷ []) committed staged
    ≡ some ((3 ∷ []) ∷ (5 ∷ []) ∷ [])
unfolding ids_where_member overlay has_member set_members GoMap.get remove seen sort_ids
    insert_sorted beq blt
in_thread = refl

lowest_member_id-ids_where_member_example :
    lowest_member_id lists (69 ∷ []) (116 ∷ []) threads (7 ∷ []) committed staged
    ≡ some (some (3 ∷ []))
unfolding find same_key beq blt
lowest_member_id-ids_where_member_example =
    lowest_member_id-ids_where_member lists (69 ∷ []) (116 ∷ []) threads (7 ∷ []) committed
      ((3 ∷ []) ∷ (5 ∷ []) ∷ []) staged (refl, (refl, tt)) ((refl, tt), (tt, tt)) in_thread
