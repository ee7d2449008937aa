-- ===== src/ObjectDb/Update.antt =====
-- core/objectdb/objectdb.go: Update and the methods that stage its changes. A map is a list with
-- each key once. The committed records are a function, which the lease keeps from changing.
pub mod Staging
pub mod Calls
pub mod Sound
pub mod Runs
use naust_jmap.Prelude.{
  ℕ, ◌≡◌, ◌==◌, if◌then◌else◌, Bool, true, false, not, ◌&&◌, ◌||◌, List, [], ◌∷◌, ◌++◌, Option,
  none, some, Bytes, beq, blt,
}
use naust_jmap.Prelude.GoMap
use naust_jmap.ObjectDb.Changes.{seen}
use naust_jmap.ObjectDb.Schema.{
  Property, Descriptor, Object, Codec, check_kinds, diff_props, passes, raw_of,
}

pub data Error : Type 0 where
  unknown_type not_found id_mismatch invalid_value changes_visible carries_id empty_tag registry_tag
        store_failed :
      Error

pub data Result {ℓ} (T : Type ℓ) : Type ℓ where
  err : Error → Result T
  ok : T → Result T

infixl 5 ◌>>=◌ ◌>>◌
-- if err != nil { return err }
abbrev pub ◌>>=◌ {ℓ κ} : {T : Type ℓ} {U : Type κ} → Result T → (T → Result U) → Result U
err e >>= rest = err e
ok found >>= rest = rest found

abbrev pub ◌>>◌ {κ} : {U : Type κ} → Result (Unit {0}) → Result U → Result U
checked >> rest = checked >>= λ nothing. rest

-- if !good { return e }
abbrev pub check : Bool → Error → Result (Unit {0})
check true e = ok tt
check false e = err e

-- stagedRecord
pub record Staged : Type 0 where
  pub type_name : Bytes
  pub id : Bytes
  pub old : Option Object
  pub new : Option Object
  pub created : Bool
  pub quiet : Bool

pub record Update : Type 0 where
  pub staged : List Staged
  pub bumped : List Bytes
  pub tag_ops : List (Bytes × Bool)

-- The Update that the function of a commit starts with.
abbrev pub start : Update
start = record { staged = []; bumped = []; tag_ops = [] }

-- The comparison of two recKeys.
unfoldable pub same_key : Bytes → Bytes → Staged → Bool
same_key type_name id st = beq st.type_name type_name && beq st.id id

-- u.staged[stagedKey(typeName, id)], and the assignment to it.
unfoldable pub find : Bytes → Bytes → List Staged → Option Staged
find type_name id [] = none
find type_name id (st ∷ sts) = if same_key type_name id st then some st else find type_name id sts

unfoldable pub assign : Staged → List Staged → List Staged
assign st [] = st ∷ []
assign st (x ∷ xs) = if same_key st.type_name st.id x then st ∷ xs else x ∷ assign st xs

-- What the store and the registered types give to an Update: none is an error of the store,
-- some none a missing record.
pub record World : Type 0 where
  pub types : List (Bytes × Descriptor)
  pub committed : Bytes → Bytes → Option (Option Object)

abbrev pub id_name : Bytes
id_name = b'i' ∷ b'd' ∷ []

abbrev pub exists_tag : Bytes
exists_tag = b'e' ∷ b'x' ∷ b'i' ∷ b's' ∷ b't' ∷ b's' ∷ []

abbrev pub found_object : Option Object → Result Object
found_object none = err not_found
found_object (some obj) = ok obj

abbrev pub stage : Update → Staged → Update
stage u st = record u { staged = assign st u.staged }

module _ (c : Codec) (w : World) where
  unfoldable pub type_of : Bytes → Result Descriptor
  type_of type_name = elim (GoMap.get type_name w.types) [ none ↦ err unknown_type | some t ↦ ok t ]

  -- getCommitted
  unfoldable pub get_committed : Bytes → Bytes → Result Object
  get_committed type_name id = do
    t ← type_of type_name
    elim (w.committed type_name id) [ none ↦ err store_failed | some found ↦ found_object found ]

  -- Update.Get
  unfoldable pub get : Update → Bytes → Bytes → Result Object
  get u type_name id = elim (find type_name id u.staged) [
    | some st ↦ found_object st.new
    | none ↦ get_committed type_name id
  ]

  -- The id that Create assigns is an argument, with its JSON text.
  unfoldable pub create : Update → Bytes → Object → Bytes → Bytes → Result Update
  create u type_name obj id id_json = do
    t ← type_of type_name
    check (elim (GoMap.get id_name obj) [ none ↦ true | some raw ↦ false ]) carries_id
    check (check_kinds c t.properties obj none) invalid_value
    ok (
        stage u (record {
          type_name = type_name;
          id = id;
          old = none;
          new = some (GoMap.put id_name id_json obj);
          created = true;
          quiet = false;
        }))

  -- The id that the object carries.
  abbrev pub carries : Object → Bytes → Bool
  carries obj id = passes (c.string_of (raw_of (GoMap.get id_name obj))) (λ s. beq s id)

  -- Put of a record that is staged already.
  unfoldable pub put_again : Update → Descriptor → Object → Staged → Result Update
  put_again u t obj st = do
    prior ← found_object st.new
    check (check_kinds c t.properties obj (some prior)) invalid_value
    ok (stage u (record st { new = some obj; quiet = false }))

  unfoldable pub put_first : Update → Descriptor → Bytes → Bytes → Object → Result Update
  put_first u t type_name id obj = do
    old ← get_committed type_name id
    check (check_kinds c t.properties obj (some old)) invalid_value
    ok (
        stage u (record {
          type_name = type_name;
          id = id;
          old = some old;
          new = some obj;
          created = false;
          quiet = false;
        }))

  unfoldable pub put : Update → Bytes → Bytes → Object → Result Update
  put u type_name id obj = do
    t ← type_of type_name
    check (carries obj id) id_mismatch
    elim (find type_name id u.staged) [
      | some st ↦ put_again u t obj st
      | none ↦ put_first u t type_name id obj
    ]

  abbrev pub internal_step : Option Property → Bool → Bool
  internal_step none rest = false
  internal_step (some p) rest = p.internal && rest

  -- The loop of PutInternal over the names that differ.
  unfoldable pub all_internal : List (Bytes × Property) → List Bytes → Bool
  all_internal props [] = true
  all_internal props (name ∷ names) =
      internal_step (GoMap.get name props) (all_internal props names)

  -- The entry that PutInternal leaves in the staged records.
  abbrev pub internal_entry : Bytes → Bytes → Object → Object → Option Staged → Staged
  internal_entry type_name id prior obj (some st) = record st { new = some obj }
  internal_entry type_name id prior obj none = record {
    type_name = type_name;
    id = id;
    old = some prior;
    new = some obj;
    created = false;
    quiet = true;
  }

  unfoldable pub put_internal : Update → Bytes → Bytes → Object → Result Update
  put_internal u type_name id obj = do
    t ← type_of type_name
    check (carries obj id) id_mismatch
    prior ← get u type_name id
    check (check_kinds c t.properties obj (some prior)) invalid_value
    check (all_internal t.properties (diff_props prior obj)) changes_visible
    ok (stage u (internal_entry type_name id prior obj (find type_name id u.staged)))

  unfoldable pub destroy : Update → Bytes → Bytes → Result Update
  destroy u type_name id = do
    t ← type_of type_name
    elim (find type_name id u.staged) [
      | some st ↦ (do prior ← found_object st.new; ok (stage u (record st { new = none })))
      | none ↦ (do
        old ← get_committed type_name id
        ok (
            stage u (record {
              type_name = type_name;
              id = id;
              old = some old;
              new = none;
              created = false;
              quiet = false;
            })))
    ]

  unfoldable pub bump_state : Update → Bytes → Result Update
  bump_state u type_name = do
    t ← type_of type_name
    ok (record u {
      bumped = if seen type_name u.bumped then u.bumped else u.bumped ++ type_name ∷ [];
    })

unfoldable pub set_account_tag : Update → Bytes → Result Update
set_account_tag u tag = do
  check (not (beq tag [])) empty_tag
  ok (record u { tag_ops = GoMap.put tag true u.tag_ops })

unfoldable pub clear_account_tag : Update → Bytes → Result Update
clear_account_tag u tag = do
  check (not (beq tag [])) empty_tag
  check (not (beq tag exists_tag)) registry_tag
  ok (record u { tag_ops = GoMap.put tag false u.tag_ops })
