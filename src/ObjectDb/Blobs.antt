-- ===== src/ObjectDb/Blobs.antt =====
-- core/objectdb/blobs.go: upload records, pending hints and the sweep. The store is what a call
-- reads of it: its keys in order, and what it holds at each. Instants are nanoseconds.
pub mod Ranges
pub mod Touched
pub mod Effects
pub mod Turns
pub mod Hints
mod Tests
use naust_jmap.Prelude.{
  ℕ, ◌+◌, ◌-◌, ◌*◌, ◌%◌, ◌==◌, ltb, if◌then◌else◌, Bool, true, false, not, ◌&&◌, ◌||◌, List, [],
  ◌∷◌, ◌++◌, Option, none, some, Bytes, beq, length, take, drop, ◌≡◌, min,
}
use naust_jmap.Backend.{Op, set_op, delete_op, assert_op}
use naust_jmap.KeyEnc.{prefix_range}
use naust_jmap.KeyEnc.Range.{in_range}
use naust_jmap.ObjectDb.Keys.{upload_key, pending_key, seg_start}
use naust_jmap.ObjectDb.Keys.Names.{Name, key_of}
use naust_jmap.Memory.Refinement.{key_effect}
use naust_jmap.ObjectDb.Changes.{seen}
use naust_jmap.ObjectDb.Schema.{◌>>=◌}
use naust_jmap.ObjectDb.Indexing.References.{View}

-- BlobUpload.
pub record BlobUpload : Type 0 where
  pub uploaded_at : ℕ
  pub uploaders : List Bytes

-- json.Marshal and json.Unmarshal on upload records.
pub record Format : Type 0 where
  pub encode : BlobUpload → Bytes
  pub decode : Bytes → Option BlobUpload
  pub decode-encode : (r : BlobUpload) → decode (encode r) ≡ some r

abbrev pub second : ℕ
second = 1_000_000_000

-- idFromObjKey
unfoldable pub id_from_obj_key : Bytes → Bytes
id_from_obj_key k = let body = take (length k - 2) k in drop (seg_start body (length body - 1)) body

-- The scan of a range, with the keys that it visits.
unfoldable pub keys_in : Bytes × Option Bytes → List Bytes → List Bytes
keys_in range [] = []
keys_in range (k ∷ ks) = let rest = keys_in range ks in if in_range range k then k ∷ rest else rest

unfoldable pub any_in : Bytes × Option Bytes → List Bytes → Bool
any_in range [] = false
any_in range (k ∷ ks) = in_range range k || any_in range ks

-- BlobReferenced
unfoldable pub blob_referenced : List Bytes → Bytes → Bytes → Bool
blob_referenced keys acct b = any_in (prefix_range (acct ∷ (b'r' ∷ []) ∷ b ∷ [])) keys

module _ (f : Format) where
  -- BlobUpload: `none` is an undecodable record, `some none` is ErrNotFound.
  unfoldable pub blob_upload : View → Bytes → Bytes → Option (Option BlobUpload)
  blob_upload m acct b = elim (m (upload_key acct b)) [
    | none ↦ some none
    | some raw ↦ (do r ← f.decode raw; some (some r))
  ]

  -- Update.BlobExists
  unfoldable pub blob_exists : View → Bytes → Bytes → Option Bool
  blob_exists m acct b = do
    found ← blob_upload m acct b
    elim found [ none ↦ some false | some r ↦ some true ]

  abbrev pub record_of : Option BlobUpload → BlobUpload
  record_of none = record { uploaded_at = 0; uploaders = [] }
  record_of (some r) = r

  unfoldable pub with_upload : Bytes → ℕ → BlobUpload → BlobUpload
  with_upload uploader now r = record {
    uploaded_at = now - now % second;
    uploaders = if seen uploader r.uploaders then r.uploaders else r.uploaders ++ uploader ∷ [];
  }

  -- recordUpload up to its fence.
  unfoldable pub record_upload : View → Bytes → Bytes → Bytes → ℕ → Option (List Op)
  record_upload m acct b uploader now = do
    found ← blob_upload m acct b
    let r = with_upload uploader now (record_of found)
    some (set_op (upload_key acct b) (some (f.encode r)) ∷ set_op (pending_key acct b) none ∷ [])

-- The store of the contents. A fenced one appends its deletions to the batch, and they touch no key
-- of the object database; another deletes by itself. `none` and `false` are errors.
pub record BlobStore : Type 0 where
  pub fenced : Bool
  pub append_delete : Bytes → Option (List Op)
  pub delete : Bytes → Bool
  pub append_delete-spares :
      (b : Bytes) (ops : List Op) (n : Name) (cur : Option Bytes)
      → append_delete b ≡ some ops
      → key_effect (key_of n) ops cur ≡ cur

abbrev pub max_sweep_per_call : ℕ
max_sweep_per_call = 1024

unfoldable pub content_ops : BlobStore → Bytes → Option (List Op)
content_ops store b =
    if store.fenced then store.append_delete b else if store.delete b then some [] else none

module _ (f : Format) (store : BlobStore) (keys : List Bytes) (m : View) (acct : Bytes) where
  -- One candidate: the operations that it adds to the batch, and whether its blob is deleted.
  unfoldable pub judge : ℕ → ℕ → Bytes → Option BlobUpload → Option (List Op × Bool)
  judge now grace b none = some (delete_op (pending_key acct b) ∷ [], false)
  judge now grace b (some r) =
      if ltb now (r.uploaded_at + grace)
      then some ([], false)
      else if blob_referenced keys acct b
      then some (delete_op (pending_key acct b) ∷ [], false)
      else do
        ops ← content_ops store b
        some (ops ++ delete_op (upload_key acct b) ∷ delete_op (pending_key acct b) ∷ [], true)

  unfoldable pub sweep_candidate : ℕ → ℕ → Bytes → Option (List Op × Bool)
  sweep_candidate now grace b = do found ← blob_upload f m acct b; judge now grace b found

  unfoldable pub sweep_candidates : ℕ → ℕ → List Bytes → Option (List Op × List Bytes)
  sweep_candidates now grace [] = some ([], [])
  sweep_candidates now grace (b ∷ bs) = do
    here ← sweep_candidate now grace b
    rest ← sweep_candidates now grace bs
    some (here.0 ++ rest.0, if here.1 then b ∷ rest.1 else rest.1)

  -- The ids of the first hints.
  unfoldable pub ids_of : List Bytes → List Bytes
  ids_of [] = []
  ids_of (k ∷ ks) = id_from_obj_key k ∷ ids_of ks

  unfoldable pub candidates : List Bytes
  candidates =
      take max_sweep_per_call (ids_of (keys_in (prefix_range (acct ∷ (b'p' ∷ []) ∷ [])) keys))

-- What SweepBlobs writes (nothing where there is no operation) and answers.
pub record Swept : Type 0 where
  pub ops : List Op
  pub deleted : List Bytes
  pub more : Bool

abbrev pub min_unreferenced_age : ℕ
min_unreferenced_age = 3600 * second

abbrev pub swept : List Bytes → List Op × List Bytes → Swept
swept cs ([], deleted) = record { ops = []; deleted = []; more = false }
swept cs (op ∷ ops, deleted) = record {
  ops = op ∷ ops;
  deleted = deleted;
  more = length cs == max_sweep_per_call;
}

-- SweepBlobs up to its fence. The probe without the lease is the same scan.
unfoldable pub sweep_blobs : Format → BlobStore → List Bytes → View → Bytes → ℕ → ℕ → Option Swept
sweep_blobs f store keys m acct now grace =
    let window = if ltb grace min_unreferenced_age then min_unreferenced_age else grace in
    let cs = candidates f store keys m acct in
    do result ← sweep_candidates f store keys m acct now window cs; some (swept cs result)
