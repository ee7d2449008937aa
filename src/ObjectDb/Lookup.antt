-- ===== src/ObjectDb/Lookup.antt =====
-- The reads of a membership index: IdsWhereMember and LowestMemberId of core/objectdb/setindex.go, as
-- an Update sees them. The committed ids are those of the index keys that the scan yields.
pub mod Least
mod Tests
use naust_jmap.Prelude.{
  ◌≡◌, if◌then◌else◌, Bool, true, false, not, ◌&&◌, ◌||◌, List, [], ◌∷◌, Option, none, some, Bytes,
  beq, blt, map,
}
use naust_jmap.Prelude.GoMap
use naust_jmap.KeyEnc.{prefix_range}
use naust_jmap.ObjectDb.Changes.{seen, sort_ids}
use naust_jmap.ObjectDb.Schema.{Property, Codec, ◌>>=◌}
use naust_jmap.ObjectDb.Indexing.{set_members}
use naust_jmap.ObjectDb.Blobs.{keys_in, id_from_obj_key}
use naust_jmap.ObjectDb.Update.{Staged, same_key}

-- DB.IdsWhereMember of a property that is SetIndexed, from the keys of the store.
unfoldable pub member_ids : List Bytes → Bytes → Bytes → Bytes → Bytes → List Bytes
member_ids keys acct type_name prop member =
    map id_from_obj_key
      (keys_in (prefix_range (acct ∷ (b'x' ∷ []) ∷ type_name ∷ prop ∷ member ∷ [])) keys)

-- delete(set, id)
unfoldable pub remove : Bytes → List Bytes → List Bytes
remove id [] = []
remove id (x ∷ xs) = let rest = remove id xs in if beq x id then rest else x ∷ rest

-- The smaller of two ids that may be missing.
unfoldable pub lower : Option Bytes → Option Bytes → Option Bytes
lower none o = o
lower (some a) none = some a
lower (some a) (some b) = if blt a b then some a else some b

module _ (c : Codec) (type_name : Bytes) (prop : Bytes) (p : Property) (member : Bytes) where
  -- Whether the staged version of a record contains the member.
  unfoldable pub has_member : Staged → Option Bool
  has_member st = elim st.new [
    | none ↦ some false
    | some obj ↦ (do members ← set_members c p (GoMap.get prop obj); some (seen member members))
  ]

  unfoldable pub overlay : List Bytes → List Staged → Option (List Bytes)
  overlay set [] = some set
  overlay set (st ∷ sts) =
      if beq st.type_name type_name
      then (do
        b ← has_member st
        overlay (if b then st.id ∷ remove st.id set else remove st.id set) sts)
      else overlay set sts

  unfoldable pub ids_where_member : List Bytes → List Staged → Option (List Bytes)
  ids_where_member committed sts = do set ← overlay committed sts; some (sort_ids set)

  -- staged[id]
  unfoldable pub overridden : List Staged → Bytes → Bool
  overridden [] id = false
  overridden (st ∷ sts) id = same_key type_name id st || overridden sts id

  -- The best of the staged members so far, and of those that follow.
  unfoldable pub staged_best : Option Bytes → List Staged → Option (Option Bytes)
  staged_best best [] = some best
  staged_best best (st ∷ sts) =
      if beq st.type_name type_name
      then (do b ← has_member st; staged_best (if b then lower (some st.id) best else best) sts)
      else staged_best best sts

  -- The first committed id that no staged record overrides.
  unfoldable pub first_free : List Staged → List Bytes → Option Bytes
  first_free sts [] = none
  first_free sts (x ∷ xs) =
      let rest = first_free sts xs in if overridden sts x then rest else some x

  unfoldable pub lowest_member_id : List Bytes → List Staged → Option (Option Bytes)
  lowest_member_id committed sts = do
    best ← staged_best none sts
    some (lower (first_free sts committed) best)
