-- ===== src/ObjectDb/Trim.antt =====
-- core/objectdb/trim.go: the retention of the change log. What a call reads is a record: the
-- counters, and the entries of the account's log in the order of the scan, each with its key and
-- its commit time, `none` for a value that does not decode. Both scans read the same entries,
-- because the call holds the account's lease. Instants and durations are not negative; a zero stands
-- for the values that disable a trigger.
pub mod Passes
pub mod Due
pub mod Floor
mod Tests
use naust_jmap.Prelude.{
  ℕ, ◌+◌, ◌-◌, ◌/◌, ◌==◌, ltb, leb, if◌then◌else◌, Bool, true, false, not, ◌&&◌, ◌||◌, List, [],
  ◌∷◌, Option, none, some, Bytes,
}
use naust_jmap.Backend
use naust_jmap.Backend.{Batch, encode_int64}
use naust_jmap.ObjectDb.Keys.{seq_from_log_key, log_floor_key}
use naust_jmap.ObjectDb.Changes.{
  Result, err, ok, ◌>>=◌, ◌>>◌, refuse, read, store_failed, bad_entry,
}

unfoldable pub max_trim_per_call : ℕ
max_trim_per_call = 4096

abbrev pub Aged : Type 0
Aged = Bytes × Option ℕ

-- The variables of pass one.
pub record Count : Type 0 where
  pub total : ℕ
  pub expired : ℕ
  pub prefix_live : Bool
  pub bad : Bool

-- The callback of pass one; the Boolean is what it returns to the scan.
unfoldable pub count_entry : ℕ → ℕ → Bool → Option ℕ → Count → Count × Bool
count_entry retention cutoff over_cap at c =
    let counted : Count = record c { total = c.total + 1 } in
    let aged : Count = record counted { expired = c.expired + 1 } in
    if c.prefix_live then (counted, over_cap) else elim at [
      | none ↦ (record counted { bad = true }, false)
      | some a ↦
          if (retention == 0) || (a == 0) || ltb cutoff a
          then (record counted { prefix_live = true }, over_cap)
          else if leb max_trim_per_call aged.expired && not over_cap
          then (aged, false)
          else (aged, true)
    ]

unfoldable pub count_entries : ℕ → ℕ → Bool → List Aged → Count → Count
count_entries retention cutoff over_cap [] c = c
count_entries retention cutoff over_cap ((k, at) ∷ es) c =
    let (c', more) = count_entry retention cutoff over_cap at c in
    let rest = count_entries retention cutoff over_cap es c' in if more then rest else c'

unfoldable pub drop_count : ℕ → Bool → Count → ℕ
drop_count max_entries over_cap c =
    let capped =
      if over_cap && ltb c.expired (c.total - max_entries)
      then c.total - max_entries
      else c.expired in
    if ltb max_trim_per_call capped then max_trim_per_call else capped

-- The variables of pass two, and its callback.
pub record Prefix : Type 0 where
  pub batch : Batch
  pub deleted : ℕ
  pub new_floor : ℕ

unfoldable pub delete_entry : Bytes → Prefix → Prefix
delete_entry k p = record {
  batch = Backend.delete p.batch k;
  deleted = p.deleted + 1;
  new_floor = seq_from_log_key k + 1;
}

unfoldable pub delete_prefix : ℕ → List Aged → Prefix → Prefix
delete_prefix drop [] p = p
delete_prefix drop ((k, at) ∷ es) p =
    let rest = delete_prefix drop es (delete_entry k p) in if p.deleted == drop then p else rest

-- What the call reads; `none` and `false` are errors of the store, an absent counter is 0.
pub record Reads : Type 0 where
  pub leased : Bool
  pub floor : Option ℕ
  pub global : Option ℕ
  pub entries : List Aged
  pub counted : Bool
  pub collected : Bool

-- logFloor and the read of the sequence: a missing key gives 0, `none` is an error.
abbrev pub start_count : Count
start_count = record { total = 0; expired = 0; prefix_live = false; bad = false }

abbrev pub start_prefix : Prefix
start_prefix = record { batch = record { ops = [] }; deleted = 0; new_floor = 0 }

unfoldable pub oldest_of : ℕ → ℕ
oldest_of floor = if ltb floor 1 then 1 else floor

unfoldable pub cap_exceeded : ℕ → ℕ → ℕ → Bool
cap_exceeded max_entries global oldest = ltb 0 max_entries && ltb max_entries (global - oldest + 1)

-- Pass two: the batch before its fence, and the number of entries that it deletes.
unfoldable pub drop_batch : Reads → Bytes → ℕ → Result (Option (Batch × ℕ))
drop_batch r acct drop =
    let p = delete_prefix drop r.entries start_prefix in
    if drop == 0 then ok none else do
      refuse (not r.collected) store_failed
      if p.deleted == 0
          then ok none
          else ok (
              some (
                Backend.set p.batch (log_floor_key acct) (some (encode_int64 p.new_floor)),
                p.deleted,
              ))

-- now.Add(-retention).UnixMilli(), on nanoseconds.
abbrev pub unix_milli : ℕ → ℕ
unix_milli t = t / 1_000_000

-- The part between the two passes.
unfoldable pub trim_log : Reads → Bytes → ℕ → ℕ → ℕ → Bool → Result (Option (Batch × ℕ))
trim_log r acct retention cutoff max_entries over_cap =
    let c = count_entries retention cutoff over_cap r.entries start_count in
    do
      refuse (not r.counted) store_failed
      refuse c.bad bad_entry
      drop_batch r acct (drop_count max_entries over_cap c)

-- TrimChanges up to its write; `none` is a call that writes nothing and answers 0.
unfoldable pub trim_changes : Reads → Bytes → ℕ → ℕ → ℕ → Result (Option (Batch × ℕ))
trim_changes r acct now retention max_entries =
    if (retention == 0) && (max_entries == 0) then ok none else do
      refuse (not r.leased) store_failed
      floor ← read r.floor
      global ← read r.global
      let oldest = oldest_of floor
      let over_cap = cap_exceeded max_entries global oldest
      if ltb global oldest
          then ok none
          else trim_log r acct retention (unix_milli (now - retention)) max_entries over_cap
