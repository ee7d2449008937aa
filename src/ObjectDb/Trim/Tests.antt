-- ===== src/ObjectDb/Trim/Tests.antt =====
-- A trim of a log of three entries, the first two of which are old.
use naust_jmap.Prelude.{ℕ, ◌≡◌, refl, List, [], ◌∷◌, some, Bytes, arith}
use naust_jmap.Prelude.GoMap
use naust_jmap.Backend
use naust_jmap.Memory
use naust_jmap.Memory.{Store}
use naust_jmap.ObjectDb.Changes.{ok}
use naust_jmap.ObjectDb.Trim.{max_trim_per_call, oldest_of, trim_changes}
use naust_jmap.ObjectDb.Trim.Passes.{leading}
use naust_jmap.ObjectDb.Trim.Due.{clean, due, trim_batch, trim_changes_lem}
use naust_jmap.ObjectDb.Trim.Floor.{keyed}

abbrev account : Bytes
account = 7 ∷ []

abbrev log : List (ℕ × ℕ)
log = (4, 10) ∷ (5, 20) ∷ (6, 90) ∷ []

abbrev logged : List (Bytes × ℕ)
logged = keyed account log

due-logged : due 50 40 0 logged ≡ 2
unfolding due leading max_trim_per_call
due-logged = refl

trim_changes_lem_example :
    trim_changes (clean 4 6 logged) account 90_000_000 50_000_000 0
    ≡ ok (some (trim_batch account 2 logged, 2))
unfolding due leading oldest_of max_trim_per_call
trim_changes_lem_example = trim_changes_lem 4 6 logged account 90_000_000 50_000_000 0 (omega arith)

abbrev lease_key : Bytes
lease_key = 1 ∷ []

abbrev claim : Bytes
claim = 2 ∷ []

abbrev leased : Store
leased = record { entries = (lease_key, claim) ∷ []; keys = lease_key ∷ []; capacity = 0; used = 1 }
