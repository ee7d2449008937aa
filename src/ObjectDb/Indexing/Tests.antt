-- ===== src/ObjectDb/Indexing/Tests.antt =====
-- A message that moves its reference from one blob to another.
use naust_jmap.Prelude.{◌≡◌, ◌≢◌, refl, true, false, List, [], ◌∷◌, none, some, Bytes, beq, arith}
use naust_jmap.Prelude.GoMap
use naust_jmap.Prelude.GoMap.{Distinct}
use naust_jmap.Memory.Refinement.{key_effect}
use naust_jmap.Backend.{Op, set_op, delete_op}
use naust_jmap.ObjectDb.Keys.{tag_seg, ref_key, pending_key, idx_key}
use naust_jmap.ObjectDb.Changes.{seen}
use naust_jmap.ObjectDb.Schema.{
  kind_id, kind_string, kind_array, index_value, bare_value, order_segs, Property, Descriptor,
  Object, Codec,
}
use naust_jmap.ObjectDb.Indexing.{
  index_ops, each_prop, index_prop_ops, indexed_value, switch_ops, set_index_ops,
  set_index_prop_ops, set_members, departed, arrived, ref_ops, blob_refs_of, blob_of, add_blob,
  dropped_refs, added_refs,
}
use naust_jmap.ObjectDb.Indexing.Entries.{shown, is_entry, entry_of, entry_at}
use naust_jmap.ObjectDb.Indexing.Kept.{index_ops_lem}
use naust_jmap.ObjectDb.Indexing.Members.{set_index_ops_lem}
use naust_jmap.ObjectDb.Indexing.References.{HasHints, View, apply, ref_ops-HasHints}

abbrev account : Bytes
account = 7 ∷ []

-- Every value is a string, its own bytes.
abbrev strings : Codec
strings = record {
  string_of = λ raw. some raw;
  folded_string = λ raw. some raw;
  bool_of = λ raw. none;
  int_of = λ raw. none;
  date_micros = λ raw. none;
  keys_of = λ raw. none;
  strings_of = λ raw. some (raw ∷ []);
  valid_date = λ raw. false;
  valid_object = λ raw. false;
  valid_array = λ raw. false;
  encode_object = λ obj. some [];
}

abbrev blob : Property
blob = record {
  kind = kind_id;
  immutable = false;
  server_set = false;
  indexed = false;
  order_by = [];
  set_indexed = false;
  blob_ref = true;
  nullable = false;
  internal = false;
}

abbrev email : Descriptor
email = record { name = 69 ∷ []; properties = (98 ∷ [], blob) ∷ []; internal = false }

abbrev first : Object
first = (98 ∷ [], 1 ∷ []) ∷ []

abbrev second : Object
second = (98 ∷ [], 2 ∷ []) ∷ []

moves :
    ref_ops strings account email (3 ∷ []) (some first) (some second)
    ≡ delete_op (ref_key account (1 ∷ []) (69 ∷ []) (3 ∷ []))
      ∷ set_op (pending_key account (1 ∷ [])) none
      ∷ set_op (ref_key account (2 ∷ []) (69 ∷ []) (3 ∷ [])) none
      ∷ delete_op (pending_key account (2 ∷ []))
      ∷ []
unfolding ref_ops blob_refs_of blob_of add_blob dropped_refs added_refs seen GoMap.get beq
moves = refl

account-ne : account ≢ tag_seg
account-ne h = cc

abbrev empty : View
empty k = none

empty-HasHints : HasHints account empty
empty-HasHints b bytes free up gone = up refl

ref_ops-HasHints_example :
    HasHints account
      (apply (ref_ops strings account email (3 ∷ []) (some first) (some second)) empty)
ref_ops-HasHints_example =
    ref_ops-HasHints strings account account-ne email (3 ∷ []) (some first) (some second) empty
      empty-HasHints

-- A message with a subject that is indexed by its text, and a keyword that is indexed by membership.
abbrev text : Property
text = record blob { kind = kind_string; indexed = true; blob_ref = false }

abbrev words : Property
words = record blob { kind = kind_array; set_indexed = true; blob_ref = false }

abbrev message : Descriptor
message = record {
  name = 69 ∷ [];
  properties = (115 ∷ [], text) ∷ (107 ∷ [], words) ∷ [];
  internal = false;
}

abbrev draft : Object
draft = (115 ∷ [], 10 ∷ []) ∷ (107 ∷ [], 20 ∷ []) ∷ []

abbrev sent : Object
sent = (115 ∷ [], 11 ∷ []) ∷ (107 ∷ [], 21 ∷ []) ∷ []

message-Distinct : Distinct message.properties
message-Distinct = unfold GoMap.get beq in (refl, (refl, tt))

abbrev subject_ops : List Op
subject_ops =
    delete_op (idx_key account (69 ∷ []) (115 ∷ []) (10 ∷ []) [] (3 ∷ []))
    ∷ set_op (idx_key account (69 ∷ []) (115 ∷ []) (11 ∷ []) [] (3 ∷ [])) none
    ∷ []

index-message :
    index_ops strings account message (3 ∷ []) (some draft) (some sent) ≡ some subject_ops
unfolding index_ops each_prop index_prop_ops indexed_value index_value bare_value switch_ops
    order_segs GoMap.get beq
index-message = refl

index_ops_lem_example :
    key_effect
      (idx_key account (69 ∷ []) (115 ∷ []) (11 ∷ []) [] (3 ∷ []))
      subject_ops
      (shown (is_entry (some (10 ∷ [], [])) (11 ∷ []) []))
    ≡ shown (is_entry (some (11 ∷ [], [])) (11 ∷ []) [])
index_ops_lem_example =
    index_ops_lem strings account account-ne message (3 ∷ []) (115 ∷ []) text (some draft)
      (some sent) (some (10 ∷ [], [])) (some (11 ∷ [], [])) subject_ops (11 ∷ []) []
      message-Distinct (unfold GoMap.get beq in refl) refl
      (unfold entry_of entry_at indexed_value index_value bare_value order_segs GoMap.get beq in
        refl)
      (unfold entry_of entry_at indexed_value index_value bare_value order_segs GoMap.get beq in
        refl)
      refl index-message

abbrev word_ops : List Op
word_ops =
    delete_op (idx_key account (69 ∷ []) (107 ∷ []) (20 ∷ []) [] (3 ∷ []))
    ∷ set_op (idx_key account (69 ∷ []) (107 ∷ []) (21 ∷ []) [] (3 ∷ [])) none
    ∷ []

set_index-message :
    set_index_ops strings account message (3 ∷ []) (some draft) (some sent) ≡ some word_ops
unfolding set_index_ops each_prop set_index_prop_ops set_members departed arrived seen GoMap.get beq
set_index-message = refl

set_index_ops_lem_example :
    key_effect
      (idx_key account (69 ∷ []) (107 ∷ []) (20 ∷ []) [] (3 ∷ []))
      word_ops
      (shown (seen (20 ∷ []) ((20 ∷ []) ∷ [])))
    ≡ shown (seen (20 ∷ []) ((21 ∷ []) ∷ []))
set_index_ops_lem_example =
    set_index_ops_lem strings account account-ne message (3 ∷ []) (107 ∷ []) (20 ∷ []) words
      (some draft) (some sent) ((20 ∷ []) ∷ []) ((21 ∷ []) ∷ []) word_ops message-Distinct
      (unfold GoMap.get beq in refl) refl (λ e. unfold GoMap.get beq in ground arith)
      (λ e. unfold GoMap.get beq in ground arith) (unfold set_members GoMap.get beq in refl)
      (unfold set_members GoMap.get beq in refl) set_index-message
