-- ===== src/ObjectDb/Schema/Tests.antt =====
-- The order of two integers of an indexed property, and the names that differ between two records.
use naust_jmap.Prelude.{◌≡◌, refl, true, false, not, [], ◌∷◌, none, some, beq, blt, arith}
use naust_jmap.Prelude.GoMap
use naust_jmap.Backend.{encode_int64}
use naust_jmap.Backend.Counter.{lt_int64}
use naust_jmap.ObjectDb.Changes.{seen}
use naust_jmap.ObjectDb.Schema.{
  kind_int, Property, Object, Codec, index_value, sort_int, bare_value, diff_props, is_null,
  trim_left, trim_right, valid_id,
}
use naust_jmap.ObjectDb.Schema.Values.{same?, sort_int-index_value, diff_props_lem}

-- A value of one byte stands for itself; there are no other values.
abbrev digits : Codec
digits = record {
  string_of = λ raw. some raw;
  folded_string = λ raw. some raw;
  bool_of = λ raw. none;
  int_of = λ raw. elim raw [ [] ↦ none | b ∷ bs ↦ some b ];
  date_micros = λ raw. none;
  keys_of = λ raw. some [];
  strings_of = λ raw. some [];
  valid_date = λ raw. false;
  valid_object = λ raw. false;
  valid_array = λ raw. false;
  encode_object = λ obj. some [];
}

abbrev size : Property
size = record {
  kind = kind_int;
  immutable = false;
  server_set = false;
  indexed = true;
  order_by = [];
  set_indexed = false;
  blob_ref = false;
  nullable = false;
  internal = false;
}

sort_int-index_value_example : blt (encode_int64 3) (encode_int64 9) ≡ lt_int64 3 9
unfolding sort_int index_value bare_value
sort_int-index_value_example =
    sort_int-index_value digits size (3 ∷ []) (9 ∷ []) 3 9 (encode_int64 3) (encode_int64 9) refl
      refl (omega arith) (omega arith) refl refl

abbrev before : Object
before = (1 ∷ [], 5 ∷ []) ∷ (2 ∷ [], 6 ∷ []) ∷ []

abbrev after : Object
after = (1 ∷ [], 5 ∷ []) ∷ (3 ∷ [], 6 ∷ []) ∷ []

diff_props_lem_example :
    seen (2 ∷ []) (diff_props before after)
    ≡ not (same? (GoMap.get (2 ∷ []) before) (GoMap.get (2 ∷ []) after))
diff_props_lem_example =
    diff_props_lem (2 ∷ []) before after (unfold GoMap.get beq in (refl, (refl, tt)))

null-spaced : is_null (32 ∷ b'n' ∷ b'u' ∷ b'l' ∷ b'l' ∷ 10 ∷ []) ≡ true
unfolding is_null trim_left trim_right beq
null-spaced = refl

no_id-empty : valid_id [] ≡ false
unfolding valid_id
no_id-empty = refl
