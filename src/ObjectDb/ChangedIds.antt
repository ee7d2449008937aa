-- ===== src/ObjectDb/ChangedIds.antt =====
-- core/objectdb/changedids.go: ChangedSince, the changes of several types at once that
-- Foo/queryChanges reads. A map over the types is an association list; the order in which Go
-- visits it decides only which id meets the budget, and then the whole answer is refused.
pub mod Merged
pub mod Entries
pub mod Budget
pub mod Answers
pub mod Unlimited
mod Tests
use naust_jmap.Prelude.{
  ℕ, suc, ◌+◌, ◌-◌, ◌==◌, ltb, leb, if◌then◌else◌, Bool, true, false, not, ◌&&◌, ◌||◌, List, [],
  ◌∷◌, Option, none, some, Bytes, map,
}
use naust_jmap.Prelude.GoMap
use naust_jmap.ObjectDb.Changes.{
  RecordId, Disp, is_created, is_updated, is_destroyed, is_omitted, Disps, TypeEntry, Entry, Log,
  Error, unknown_type, cannot_calculate_changes, store_failed, bad_entry, Result, ok, err, ◌>>=◌,
  ◌>>◌, refuse, read, Reads, ids_with, sort_ids, no_scan_err,
}

pub record TypeChanges : Type 0 where
  pub created : List RecordId
  pub updated : List RecordId
  pub destroyed : List RecordId

-- The switch of the local function `apply`, for an id that is there.
unfoldable pub merge : Disp → Disp → Disp
merge is_omitted next = is_created
merge is_created is_destroyed = is_omitted
merge is_created next = is_created
merge is_destroyed is_created = is_updated
merge prev next = next

-- maxIds <= 0 || held <= maxIds
abbrev pub within : ℕ → ℕ → Bool
within max_ids held = max_ids == 0 || leb held max_ids

-- `apply`, on the ids of one type and the count over all types.
unfoldable pub apply : ℕ → RecordId → Disp → Disps × ℕ → (Disps × ℕ) × Bool
apply max_ids id next (d, held) = elim (GoMap.get id d) [
  | none ↦ ((GoMap.put id next d, suc held), within max_ids (suc held))
  | some prev ↦ ((GoMap.put id (merge prev next) d, held), true)
]

-- One of the three loops over the ids of an entry; false is that the budget is hit.
unfoldable pub apply_ids : ℕ → Disp → List RecordId → Disps × ℕ → (Disps × ℕ) × Bool
apply_ids max_ids next [] dh = (dh, true)
apply_ids max_ids next (id ∷ ids) dh =
    let (dh', more) = apply max_ids id next dh in
    let rest = apply_ids max_ids next ids dh' in if more then rest else (dh', false)

unfoldable pub apply_type : ℕ → TypeEntry → Disps × ℕ → (Disps × ℕ) × Bool
apply_type max_ids te dh =
    let (dh1, more1) = apply_ids max_ids is_created te.created dh in
    let (dh2, more2) = apply_ids max_ids is_updated te.updated dh1 in
    let destroys = apply_ids max_ids is_destroyed te.destroyed dh2 in
    if more1 then (if more2 then destroys else (dh2, false)) else (dh1, false)

-- The map `disp`, and `held`.
abbrev pub Held : Type 0
Held = List (Bytes × Disps) × ℕ

-- The body of the loop over the requested types: te, touches := entry.Types[name].
unfoldable pub apply_named : ℕ → Option TypeEntry → Disps × ℕ → (Disps × ℕ) × Bool
apply_named max_ids none dh = (dh, true)
apply_named max_ids (some te) dh = apply_type max_ids te dh

-- That loop, for one entry.
unfoldable pub apply_types : ℕ → Entry → List (Bytes × Disps) → ℕ → Held × Bool
apply_types max_ids entry [] held = (([], held), true)
apply_types max_ids entry ((name, d) ∷ types) held =
    let ((d', held'), more) = apply_named max_ids (GoMap.get name entry) (d, held) in
    let ((types', held''), more') = apply_types max_ids entry types held' in
    if more then (((name, d') ∷ types', held''), more') else (((name, d') ∷ types, held'), false)

-- The end of the scan: the answer so far, `budgetHit`, or `scanErr`.
pub data Scanned : Type 0 where
  whole : Held → Scanned
  over_budget bad : Scanned

-- The callback of the scan over the entries.
unfoldable pub scan_entries : ℕ → ℕ → Log → Held → Scanned
scan_entries up_to max_ids [] h = whole h
scan_entries up_to max_ids ((seq, none) ∷ log) h = if ltb up_to seq then whole h else bad
scan_entries up_to max_ids ((seq, some entry) ∷ log) h =
    let (h', more) = apply_types max_ids entry h.0 h.1 in
    let rest = scan_entries up_to max_ids log h' in
    if ltb up_to seq then whole h else if more then rest else over_budget

unfoldable pub type_changes : Disps → TypeChanges
type_changes d = record {
  created = sort_ids (ids_with is_created d);
  updated = sort_ids (ids_with is_updated d);
  destroyed = sort_ids (ids_with is_destroyed d);
}

abbrev pub finish : Scanned → Result (List (Bytes × TypeChanges))
finish (whole (types, held)) = ok (map (λ (t : Bytes × Disps). (t.0, type_changes t.1)) types)
finish over_budget = err cannot_calculate_changes
finish bad = err bad_entry

-- The map with an empty disposition for each requested type.
unfoldable pub start_types : List Bytes → List (Bytes × Disps)
start_types [] = []
start_types (name ∷ names) = GoMap.put name [] (start_types names)

-- ChangedSince, with the sequence number that the answer is current to. In `Reads`, `known_type`
-- is that every requested type is known; `type_state` is not read. `since` is none if negative.
unfoldable pub changed_since :
    Reads → List Bytes → Option ℕ → ℕ → ℕ → Result (List (Bytes × TypeChanges) × ℕ)
changed_since r names since_state max_behind max_ids = do
  refuse (not r.known_type) unknown_type
  since ← elim since_state [ none ↦ err cannot_calculate_changes | some n ↦ ok n ]
  up_to ← read r.global
  refuse (ltb up_to since) cannot_calculate_changes
  refuse (ltb 0 max_behind && ltb max_behind (up_to - since)) cannot_calculate_changes
  floor ← read r.floor
  refuse (ltb (since + 1) floor) cannot_calculate_changes
  refuse (not r.scanned) store_failed
  types ← finish (scan_entries up_to max_ids r.entries (start_types names, 0))
  floor_after ← read r.floor_after
  refuse (ltb (since + 1) floor_after) cannot_calculate_changes
  ok (types, up_to)
