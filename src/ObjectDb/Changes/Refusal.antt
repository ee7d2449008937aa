-- ===== src/ObjectDb/Changes/Refusal.antt =====
-- When Changes refuses.
use naust_jmap.Prelude.{ℕ, ◌+◌, ◌≤◌, ◌≡◌, true, Option, some, Bytes, arith}
use naust_jmap.ObjectDb.Changes.{Reads, ChangeSet, ok, changes}

-- Changes answers only for a known type and from a state that the server has issued and whose
-- entries are still in the log: the state is at most the sequence number, and the log's floor is
-- past the state's successor neither before the scan nor after it.
pub changes_answers_only :
    (r : Reads) (name : Bytes) (since_state : Option ℕ) (max : ℕ) (cs : ChangeSet)
    → changes r name since_state max ≡ ok cs
    → (r.known_type ≡ true)
      × ((since : ℕ) × (since_state ≡ some since)
          × ((global : ℕ) × (r.global ≡ some global) × (since ≤ global))
          × ((floor : ℕ) × (r.floor ≡ some floor) × (floor ≤ since + 1))
          × ((floor : ℕ) × (r.floor_after ≡ some floor) × (floor ≤ since + 1)))
unfolding changes
changes_answers_only r name since_state max cs h = ground arith
