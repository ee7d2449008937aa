-- ===== src/Memory.antt =====
-- core/providers/backend/memory/memory.go: the in-memory backend. The mutex makes each method one
-- step. Sizes do not overflow; `used + delta` is kept as two sums, so that no number is negative.
pub mod Keys
pub mod Batches
pub mod Refinement
pub mod Capacity
pub mod Scan
pub mod Scans
mod Tests
use naust_jmap.Prelude.{
  ℕ, zero, suc, ◌+◌, ◌-◌, ◌==◌, if◌then◌else◌, ltb, Bool, true, false, not, ◌&&◌, ◌||◌, List, [],
  ◌∷◌, ◌++◌, Option, none, some, Bytes, beq, blt, length, get_elem?, take, drop, map,
}
use naust_jmap.Prelude.GoMap
use naust_jmap.Backend.{
  Error, assert_failed, no_space, bad_counter, Op, set_op, delete_op, add_op, assert_op, Batch,
  encode_int64, decode_int64, add_int64,
}

abbrev pub Data : Type 0
Data = List (Bytes × Bytes)

pub record Store : Type 0 where
  pub entries : Data
  pub keys : List Bytes
  pub capacity : ℕ
  pub used : ℕ

-- New, with the option WithCapacity; no option is capacity 0.
unfoldable pub new : ℕ → Store
new capacity = record { entries = []; keys = []; capacity = capacity; used = 0 }

-- Get; `none` is ErrNotFound.
unfoldable pub get : Store → Bytes → Option Bytes
get s k = GoMap.get k s.entries

-- MultiGet; a nil slot is `none`.
unfoldable pub multi_get : Store → List Bytes → List (Option Bytes)
unfolding get
multi_get s [] = []
multi_get s (k ∷ ks) = GoMap.get k s.entries ∷ multi_get s ks

-- sort.SearchStrings on an ascending slice: the first index whose key is not below k.
unfoldable pub search_strings : List Bytes → Bytes → ℕ
search_strings [] k = 0
search_strings (x ∷ xs) k = let rest = search_strings xs k in if blt x k then suc rest else 0

unfoldable pub insert_key : List Bytes → Bytes → List Bytes
insert_key keys k = let i = search_strings keys k in take i keys ++ k ∷ drop i keys

abbrev pub key_at : List Bytes → ℕ → Bytes → Bool
key_at keys i k = elim (get_elem? keys i) [ none ↦ false | some x ↦ beq x k ]

unfoldable pub remove_key : List Bytes → Bytes → List Bytes
remove_key keys k =
    let i = search_strings keys k in
    if key_at keys i k then take i keys ++ drop (suc i) keys else keys

-- bytes.Clone on a possibly nil slice, where nil has no bytes.
abbrev pub bytes_of : Option Bytes → Bytes
bytes_of none = []
bytes_of (some v) = v

abbrev pub equal? : Option Bytes → Bytes → Bool
equal? none v = false
equal? (some current) v = beq current v

abbrev pub is_none {ℓ} : {A : Type ℓ} → Option A → Bool
is_none none = true
is_none (some a) = false

-- The body of the first loop of WriteBatch: does this operation let the batch go on?
unfoldable pub assert_holds : Data → Op → Bool
assert_holds d (assert_op k none) = is_none (GoMap.get k d)
assert_holds d (assert_op k (some v)) = equal? (GoMap.get k d) v
assert_holds d _ = true

unfoldable pub check_asserts : Data → List Op → Bool
check_asserts d [] = true
check_asserts d (op ∷ ops) = assert_holds d op && check_asserts d ops

-- The map `pending`: a staged value, or `none` for a staged deletion.
abbrev pub Pending : Type 0
Pending = List (Bytes × Option Bytes)

-- The local function `lookup`.
unfoldable pub lookup : Data → Pending → Bytes → Option Bytes
lookup d pending k = elim (GoMap.get k pending) [ some st ↦ st | none ↦ GoMap.get k d ]

-- The counter that OpAdd starts from; `none` is the error of DecodeInt64.
unfoldable pub counter_base : Option Bytes → Option ℕ
counter_base none = some 0
counter_base (some v) = decode_int64 v

unfoldable pub stage_op : Data → Pending → Op → Option Pending
stage_op d pending (set_op k v) = some (GoMap.put k (some (bytes_of v)) pending)
stage_op d pending (delete_op k) = some (GoMap.put k none pending)
stage_op d pending (add_op k delta) = elim (counter_base (lookup d pending k)) [
  | none ↦ none
  | some base ↦ some (GoMap.put k (some (encode_int64 (add_int64 base delta))) pending)
]
stage_op d pending (assert_op k v) = some pending

-- The second loop of WriteBatch.
unfoldable pub stage : Data → Pending → List Op → Option Pending
stage d pending [] = some pending
stage d pending (op ∷ ops) = elim (stage_op d pending op) [ none ↦ none | some p ↦ stage d p ops ]

abbrev pub size_of : Option Bytes → ℕ
size_of none = 0
size_of (some v) = length v

-- The capacity loop: the value bytes that the pending entries replace, and those they store.
unfoldable pub old_bytes : Data → Pending → ℕ
old_bytes d [] = 0
old_bytes d ((k, st) ∷ p) = size_of (GoMap.get k d) + old_bytes d p

unfoldable pub new_bytes : Pending → ℕ
new_bytes [] = 0
new_bytes ((k, st) ∷ p) = size_of st + new_bytes p

-- The body of the last loop.
unfoldable pub apply_entry : Store → Bytes → Option Bytes → Store
apply_entry s k none =
    if is_none (GoMap.get k s.entries)
    then s
    else record s { entries = GoMap.delete k s.entries; keys = remove_key s.keys k }
apply_entry s k (some v) = record s {
  entries = GoMap.put k v s.entries;
  keys = if is_none (GoMap.get k s.entries) then insert_key s.keys k else s.keys;
}

unfoldable pub apply_pending : Store → Pending → Store
apply_pending s [] = s
apply_pending s ((k, st) ∷ p) = apply_pending (apply_entry s k st) p

-- The capacity check, with the new value of `used`; `none` is ErrNoSpace.
unfoldable pub charge : Store → Pending → Option Store
charge s pending =
    let old = old_bytes s.entries pending in
    let next = new_bytes pending in
    if s.capacity == 0
    then some s
    else if ltb (s.capacity + old) (s.used + next)
    then none
    else some (record s { used = s.used + next - old })

-- WriteBatch: the error, `none` for nil, and the store after the call.
unfoldable pub write_batch : Store → Batch → Option Error × Store
write_batch s b =
    if check_asserts s.entries b.ops
    then elim (stage s.entries [] b.ops) [
      | none ↦ (some bad_counter, s)
      | some pending ↦ elim (charge s pending) [
        | none ↦ (some no_space, s)
        | some s' ↦ (none, apply_pending s' pending)
      ]
    ]
    else (some assert_failed, s)

-- Close
unfoldable pub close : Store → Store
close s = record s { entries = []; keys = [] }
