-- ===== src/ObjectDb/Changes.antt =====
-- core/objectdb/changes.go and changedids.go. What the two functions read from the store is a
-- record: the counters, the log floor before and after the scan, and the entries that the scan
-- yields from `since + 1` on, `none` for a value that does not decode. A state string is its number.
pub mod Coalesce
pub mod Members
pub mod Walked
pub mod Window
pub mod Page
pub mod Refusal
mod Tests
use naust_jmap.Prelude.{
  ℕ, suc, ◌+◌, ◌-◌, ◌==◌, ltb, leb, if◌then◌else◌, Bool, true, false, not, ◌&&◌, ◌||◌, List, [],
  ◌∷◌, ◌++◌, Option, none, some, Bytes, beq, blt, length,
}
use naust_jmap.Prelude.GoMap

abbrev pub RecordId : Type 0
RecordId = Bytes

-- logTypeEntry; a nil UpdatedProps is `none`.
pub record TypeEntry : Type 0 where
  pub created : List RecordId
  pub updated : List RecordId
  pub destroyed : List RecordId
  pub updated_props : Option (List Bytes)

-- The field Types of logEntry.
abbrev pub Entry : Type 0
Entry = List (Bytes × TypeEntry)

abbrev pub Log : Type 0
Log = List (ℕ × Option Entry)

pub data Disp : Type 0 where
  is_created is_updated is_destroyed is_omitted : Disp

pub data Error : Type 0 where
  unknown_type cannot_calculate_changes store_failed bad_entry : Error

pub data Result {ℓ} (T : Type ℓ) : Type ℓ where
  err : Error → Result T
  ok : T → Result T

-- if err != nil { return nil, err }
abbrev pub ◌>>=◌ {ℓ κ} : {T : Type ℓ} {U : Type κ} → Result T → (T → Result U) → Result U
err e >>= rest = err e
ok found >>= rest = rest found

abbrev pub ◌>>◌ {κ} : {U : Type κ} → Result (Unit {0}) → Result U → Result U
checked >> rest = checked >>= λ nothing. rest

infixl 5 ◌>>=◌ ◌>>◌
-- if bad { return nil, e }
abbrev pub refuse : Bool → Error → Result (Unit {0})
refuse true e = err e
refuse false e = ok tt

abbrev pub read {ℓ} : {A : Type ℓ} → Option A → Result A
read none = err store_failed
read (some a) = ok a

-- sort.Slice and sort.Strings, ascending.
unfoldable pub insert_sorted : Bytes → List Bytes → List Bytes
insert_sorted a [] = a ∷ []
insert_sorted a (x ∷ xs) = if blt x a then x ∷ insert_sorted a xs else a ∷ x ∷ xs

unfoldable pub sort_ids : List Bytes → List Bytes
sort_ids [] = []
sort_ids (x ∷ xs) = insert_sorted x (sort_ids xs)

-- mergeProps: `seen` and `out` grow together.
unfoldable pub seen : Bytes → List Bytes → Bool
seen name [] = false
seen name (x ∷ xs) = beq x name || seen name xs

unfoldable pub merge_loop : List Bytes → List Bytes → List Bytes
merge_loop out [] = out
merge_loop out (name ∷ names) = merge_loop (if seen name out then out else out ++ name ∷ []) names

unfoldable pub merge_props : List Bytes → List Bytes → List Bytes
merge_props a b = sort_ids (merge_loop (merge_loop [] a) b)

-- The dispositions of the ids of one type.
abbrev pub Disps : Type 0
Disps = List (RecordId × Disp)

-- The local function `apply` of Changes: the map, and whether `propsKnown` is set to false.
unfoldable pub apply_seen : RecordId → Disp → Disp → Disps → Disps × Bool
apply_seen id is_created is_updated d = (d, true)
apply_seen id is_created is_destroyed d = (GoMap.delete id d, true)
apply_seen id is_updated is_destroyed d = (GoMap.put id is_destroyed d, true)
apply_seen id is_destroyed is_created d = (GoMap.put id is_updated d, false)
apply_seen id prev next d = (GoMap.put id next d, true)

unfoldable pub apply_change : RecordId → Disp → Disps → Disps × Bool
apply_change id next d = elim (GoMap.get id d) [
  | none ↦ (GoMap.put id next d, true)
  | some prev ↦ apply_seen id prev next d
]

-- One of the three loops over the ids of an entry.
unfoldable pub apply_all : Disp → List RecordId → Disps × Bool → Disps × Bool
apply_all next [] (d, known) = (d, known)
apply_all next (id ∷ ids) (d, known) =
    let (d', keeps) = apply_change id next d in apply_all next ids (d', known && keeps)

unfoldable pub apply_entry : TypeEntry → Disps × Bool → Disps × Bool
apply_entry te dk =
    apply_all is_destroyed te.destroyed
      (apply_all is_updated te.updated (apply_all is_created te.created dk))

-- The variables of Changes that the callback of the scan writes.
pub record Walk : Type 0 where
  pub disp : Disps
  pub props_known : Bool
  pub updated_props : List Bytes
  pub last_consumed : ℕ
  pub has_more : Bool
  pub scan_err : Option Error

-- The end of the callback: the entry is consumed whole.
unfoldable pub consume : ℕ → TypeEntry → Walk → Walk
consume seq te w =
    let (d, known) = apply_entry te (w.disp, w.props_known) in
    record w {
      disp = d;
      props_known =
          if ltb 0 (length te.updated)
          then elim te.updated_props [ none ↦ false | some ps ↦ known ]
          else known;
      updated_props =
          if ltb 0 (length te.updated)
          then elim te.updated_props [
            | none ↦ w.updated_props
            | some ps ↦ merge_props w.updated_props ps
          ]
          else w.updated_props;
      last_consumed = seq;
    }

-- The callback on an entry that touches the type; the Boolean is what it returns to the scan.
unfoldable pub touch : ℕ → ℕ → TypeEntry → Walk → Walk × Bool
touch max_changes seq te w =
    let projected = length w.disp + length te.created + length te.updated + length te.destroyed in
    if ltb 0 max_changes && ltb max_changes projected
    then (if ltb 0 (length w.disp)
        then (record w { has_more = true }, false)
        else (record w { scan_err = some cannot_calculate_changes }, false))
    else (consume seq te w, true)

unfoldable pub visit_entry : Bytes → ℕ → ℕ → Option Entry → Walk → Walk × Bool
visit_entry name max_changes seq none w = (record w { scan_err = some bad_entry }, false)
visit_entry name max_changes seq (some entry) w = elim (GoMap.get name entry) [
  | none ↦ (if length w.disp == 0 then record w { last_consumed = seq } else w, true)
  | some te ↦ touch max_changes seq te w
]

unfoldable pub walk : Bytes → ℕ → Log → Walk → Walk
walk name max_changes [] w = w
walk name max_changes ((seq, v) ∷ log) w =
    let (w', more) = visit_entry name max_changes seq v w in
    let rest = walk name max_changes log w' in if more then rest else w'

-- What the functions read; `none` is an error of the store or of a counter's decoding.
pub record Reads : Type 0 where
  pub known_type : Bool
  pub global : Option ℕ
  pub floor : Option ℕ
  pub entries : Log
  pub scanned : Bool
  pub floor_after : Option ℕ
  pub type_state : Option ℕ

pub record ChangeSet : Type 0 where
  pub old_state : ℕ
  pub new_state : ℕ
  pub has_more : Bool
  pub created : List RecordId
  pub updated : List RecordId
  pub destroyed : List RecordId
  pub updated_props : Option (List Bytes)

unfoldable pub disp_eq : Disp → Disp → Bool
disp_eq is_created is_created = true
disp_eq is_updated is_updated = true
disp_eq is_destroyed is_destroyed = true
disp_eq is_omitted is_omitted = true
disp_eq a b = false

-- The loop over the map, for one of the three lists.
unfoldable pub ids_with : Disp → Disps → List RecordId
ids_with x [] = []
ids_with x ((id, y) ∷ d) = let rest = ids_with x d in if disp_eq x y then id ∷ rest else rest

abbrev pub start_walk : ℕ → Walk
start_walk since = record {
  disp = [];
  props_known = true;
  updated_props = [];
  last_consumed = since;
  has_more = false;
  scan_err = none;
}

unfoldable pub change_set : ℕ → Walk → ℕ → ChangeSet
change_set since w state = record {
  old_state = since;
  new_state = state;
  has_more = w.has_more;
  created = sort_ids (ids_with is_created w.disp);
  updated = sort_ids (ids_with is_updated w.disp);
  destroyed = sort_ids (ids_with is_destroyed w.disp);
  updated_props = if w.props_known then some w.updated_props else none;
}

abbrev pub no_scan_err : Option Error → Result (Unit {0})
no_scan_err none = ok tt
no_scan_err (some e) = err e

-- The end of Changes: an intermediate state, or the type's own.
unfoldable pub new_state : ℕ → Walk → Option ℕ → Result ChangeSet
new_state since w type_state =
    if w.has_more
    then ok (change_set since w w.last_consumed)
    else do state ← read type_state; ok (change_set since w state)

-- Changes. `since` is none where the state does not parse or is negative.
unfoldable pub changes : Reads → Bytes → Option ℕ → ℕ → Result ChangeSet
changes r name since_state max_changes = do
  refuse (not r.known_type) unknown_type
  since ← elim since_state [ none ↦ err cannot_calculate_changes | some n ↦ ok n ]
  global ← read r.global
  refuse (ltb global since) cannot_calculate_changes
  floor ← read r.floor
  refuse (ltb (since + 1) floor) cannot_calculate_changes
  let w = walk name max_changes r.entries (start_walk since)
  refuse (not r.scanned) store_failed
  no_scan_err w.scan_err
  floor_after ← read r.floor_after
  refuse (ltb (since + 1) floor_after) cannot_calculate_changes
  new_state since w r.type_state
