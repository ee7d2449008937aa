-- ===== src/ObjectDb/Keys/Tests.antt =====
-- Runs of the key builders on the account A.
use naust_jmap.Prelude.{◌≡◌, ◌≢◌, refl, [], ◌∷◌, Bytes, arith}
use naust_jmap.Backend.{encode_int64, put_uint}
use naust_jmap.KeyEnc.Range.{in_range, AllSegs}
use naust_jmap.ObjectDb.Keys.{tag_seg}
use naust_jmap.ObjectDb.Keys.Names.{entry, key_of, segs_of, key_of_injective}
use naust_jmap.ObjectDb.Keys.LogRange.{log_range, is_later, log_range_covers}

abbrev account : Bytes
account = b'A' ∷ []

account-ne : account ≢ tag_seg
account-ne = λ h. cc

key_of_injective_example : entry account 3 ≡ entry account 3
key_of_injective_example =
    key_of_injective (entry account 3) (entry account 3) (account-ne, omega arith)
      (account-ne, omega arith) refl

entry-AllSegs : AllSegs (segs_of (entry account 9))
unfolding segs_of encode_int64 put_uint
entry-AllSegs = (
  (omega arith, tt),
  (
    (omega arith, tt),
    (
      (
        omega arith,
        (
          omega arith,
          (
            omega arith,
            (omega arith, (omega arith, (omega arith, (omega arith, (omega arith, tt))))),
          ),
        ),
      ),
      tt,
    ),
  ),
)

log_range_covers_example :
    in_range (log_range account 4) (key_of (entry account 9)) ≡ is_later account 4 (entry account 9)
log_range_covers_example =
    log_range_covers account 4 (entry account 9) (omega arith, tt) account-ne (omega arith)
      entry-AllSegs (account-ne, omega arith)
