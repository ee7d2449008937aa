-- ===== src/ObjectDb/Indexing.antt =====
-- The indexes that a commit maintains with a record: indexOps (core/objectdb/objectdb.go),
-- setMembers and setIndexOps (setindex.go), blobRefsOf and refOps (blobs.go). Each gives the
-- operations that the code appends to the batch. Go ranges over a descriptor's properties in any
-- order; here it is the order of the list.
pub mod Entries
pub mod Swaps
pub mod Kept
pub mod Members
pub mod References
mod Tests
use naust_jmap.Prelude.{
  ℕ, ◌≡◌, ◌==◌, if◌then◌else◌, Bool, true, false, not, ◌&&◌, ◌||◌, List, [], ◌∷◌, ◌++◌, Option,
  none, some, Bytes, beq,
}
use naust_jmap.Prelude.GoMap
use naust_jmap.Backend.{Op, set_op, delete_op}
use naust_jmap.ObjectDb.Keys.{idx_key, ref_key, pending_key}
use naust_jmap.ObjectDb.Changes.{seen, merge_loop}
use naust_jmap.ObjectDb.Schema.{
  Property, Descriptor, Object, Codec, kind_object, kind_array, index_value, order_segs, ◌>>=◌,
  raw_of,
}

-- old[name] of a record that may be nil.
abbrev pub value_of : Option Object → Bytes → Option Bytes
value_of none name = none
value_of (some obj) name = GoMap.get name obj

-- Where both values are absent or the same there is nothing to do. The callers' order is that of
-- the record given.
abbrev pub fields_of : Option Object → Object
fields_of none = []
fields_of (some obj) = obj

module _ (c : Codec) where
  -- The value that a record is indexed under, if any; the outer Option is an error.
  unfoldable pub indexed_value : Property → Option Bytes → Option (Option Bytes)
  indexed_value p none = some none
  indexed_value p (some raw) = do v ← index_value c p raw; some (some v)

  -- setMembers
  unfoldable pub set_members : Property → Option Bytes → Option (List Bytes)
  set_members p none = some []
  set_members p (some raw) = elim p.kind [
    | kind_object ↦ (do ks ← c.keys_of raw; some (merge_loop [] ks))
    | kind_array ↦ c.strings_of raw
    | _ ↦ none
  ]

module _ (c : Codec) (acct : Bytes) (t : Descriptor) (id : Bytes) where
  abbrev pub entry_key : Bytes → Bytes → List Bytes → Bytes
  entry_key prop value order = idx_key acct t.name prop value order id

  -- The switch of indexOps.
  unfoldable pub switch_ops :
      Bytes
      → Property
      → Option Object
      → Option Object
      → Option Bytes
      → Option Bytes
      → Option (List Op)
  switch_ops prop p old new none none = some []
  switch_ops prop p old new none (some v) = do
    order ← order_segs c t.properties p.order_by (fields_of new)
    some (set_op (entry_key prop v order) none ∷ [])
  switch_ops prop p old new (some v) none = do
    order ← order_segs c t.properties p.order_by (fields_of old)
    some (delete_op (entry_key prop v order) ∷ [])
  switch_ops prop p old new (some v) (some w) = if beq v w then some [] else do
    order ← order_segs c t.properties p.order_by (fields_of new)
    some (delete_op (entry_key prop v order) ∷ set_op (entry_key prop w order) none ∷ [])

  unfoldable pub index_prop_ops :
      Bytes → Property → Option Object → Option Object → Option (List Op)
  index_prop_ops prop p old new = if not p.indexed then some [] else do
    v ← indexed_value c p (value_of old prop)
    w ← indexed_value c p (value_of new prop)
    switch_ops prop p old new v w

  unfoldable pub departed : Bytes → List Bytes → List Bytes → List Op
  departed prop new_members [] = []
  departed prop new_members (m ∷ ms) =
      let rest = departed prop new_members ms in
      if seen m new_members then rest else delete_op (entry_key prop m []) ∷ rest

  unfoldable pub arrived : Bytes → List Bytes → List Bytes → List Op
  arrived prop old_members [] = []
  arrived prop old_members (m ∷ ms) =
      let rest = arrived prop old_members ms in
      if seen m old_members then rest else set_op (entry_key prop m []) none ∷ rest

  unfoldable pub set_index_prop_ops :
      Bytes → Property → Option Object → Option Object → Option (List Op)
  set_index_prop_ops prop p old new =
      if not p.set_indexed
      then some []
      else if beq (raw_of (value_of old prop)) (raw_of (value_of new prop))
      then some []
      else do
        olds ← set_members c p (value_of old prop)
        news ← set_members c p (value_of new prop)
        some (departed prop news olds ++ arrived prop olds news)

  -- The loops of indexOps and setIndexOps over the properties.
  unfoldable pub each_prop :
      (Bytes → Property → Option (List Op)) → List (Bytes × Property) → Option (List Op)
  each_prop ops [] = some []
  each_prop ops ((prop, p) ∷ props) = do
    here ← ops prop p
    rest ← each_prop ops props
    some (here ++ rest)

  unfoldable pub index_ops : Option Object → Option Object → Option (List Op)
  index_ops old new = each_prop (λ prop p. index_prop_ops prop p old new) t.properties

  unfoldable pub set_index_ops : Option Object → Option Object → Option (List Op)
  set_index_ops old new = each_prop (λ prop p. set_index_prop_ops prop p old new) t.properties

  -- blobRefsOf, on the properties that are left: the blob of a property, if it has one.
  unfoldable pub blob_of : Bytes → Property → Option Object → Option Bytes
  blob_of prop p obj =
      if not p.blob_ref
      then none
      else elim (value_of obj prop) [ none ↦ none | some raw ↦ c.string_of raw ]

  unfoldable pub add_blob : Option Bytes → List Bytes → List Bytes
  add_blob none refs = refs
  add_blob (some b) refs = if seen b refs then refs else b ∷ refs

  unfoldable pub blob_refs_of : List (Bytes × Property) → Option Object → List Bytes
  blob_refs_of [] obj = []
  blob_refs_of ((prop, p) ∷ props) obj = add_blob (blob_of prop p obj) (blob_refs_of props obj)

  unfoldable pub dropped_refs : List Bytes → List Bytes → List Op
  dropped_refs news [] = []
  dropped_refs news (b ∷ bs) =
      let rest = dropped_refs news bs in
      if seen b news
      then rest
      else delete_op (ref_key acct b t.name id) ∷ set_op (pending_key acct b) none ∷ rest

  unfoldable pub added_refs : List Bytes → List Bytes → List Op
  added_refs olds [] = []
  added_refs olds (b ∷ bs) =
      let rest = added_refs olds bs in
      if seen b olds
      then rest
      else set_op (ref_key acct b t.name id) none ∷ delete_op (pending_key acct b) ∷ rest

  unfoldable pub ref_ops : Option Object → Option Object → List Op
  ref_ops old new =
      let olds = blob_refs_of t.properties old in
      let news = blob_refs_of t.properties new in dropped_refs news olds ++ added_refs olds news
