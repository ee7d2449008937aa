-- ===== src/Lease/Tests.antt =====
-- Runs of the lease managers, with numbers written in unary.
use naust_jmap.Prelude.{
  ℕ, zero, suc, ◌≡◌, ◌≢◌, ◌↔◌, refl, ap, if◌then◌else◌, false, [], ◌∷◌, none, some, Bytes, beq,
  length, arith,
}
use naust_jmap.Prelude.GoMap
use naust_jmap.Backend
use naust_jmap.Backend.{Batch, Op, set_op, assert_failed}
use naust_jmap.Memory
use naust_jmap.Memory.{Store, new}
use naust_jmap.Lease.Token.{Format, index_byte, mint_token, parse_claim_expiry, parse-mint}
use naust_jmap.Lease.{
  Manager, Attempt, acquired, swapped, kept, cas, commit, store_acquire, store_release,
  new_claim_value, new_expired_token, is_live,
}
use naust_jmap.Lease.Exchange.{swap_value, cas_lem}
use naust_jmap.Lease.System.{System, update, acquires, IsRetired}
use naust_jmap.Lease.Fencing.{here, next, lost_lease_fenced}
use naust_jmap.Lease.Takeover.{store_acquire_takes}

abbrev ticks : ℕ → Bytes
ticks zero = []
ticks (suc n) = 48 ∷ ticks n

length-ticks : (n : ℕ) → length (ticks n) ≡ n
length-ticks zero = refl
length-ticks (suc n) = ap suc (length-ticks n)

index_byte-ticks : (n : ℕ) → index_byte (ticks n) b'|' ≡ none
unfolding index_byte
index_byte-ticks zero = refl
index_byte-ticks (suc n) = ground (arith, index_byte-ticks n)

abbrev unary : Format
unary = record {
  time_text = ticks;
  parse_time = λ s. some (length s);
  uint_text = ticks;
  parse-time = λ t h. ap some (length-ticks t);
  time_bar = index_byte-ticks;
  uint_injective = λ m n h. omega (arith, ap length h, length-ticks m, length-ticks n);
}

abbrev key : Bytes
key = 108 ∷ 99 ∷ 47 ∷ 65 ∷ []

abbrev manager : Manager
manager = record { nonce = 7 ∷ []; expiry = 2; seq = 0; token = none; pending = none; held = none }

abbrev write : Batch
write = record { ops = set_op (65 ∷ []) (some (1 ∷ [])) ∷ [] }

abbrev first_claim : Bytes
first_claim = mint_token unary (7 ∷ []) 1 3

parse-mint_example : parse_claim_expiry unary (some first_claim) ≡ some 3
parse-mint_example = parse-mint unary (7 ∷ []) 1 3 (omega arith)

cas_lem_example :
    (Memory.get (cas (new 0) key none first_claim).1 key ≡ (
      if beq key key
      then swap_value (cas (new 0) key none first_claim).0 (Memory.get (new 0) key) first_claim
      else Memory.get (new 0) key))
    × (((cas (new 0) key none first_claim).0 ≡ kept) ↔ (¬ (Memory.get (new 0) key ≡ none)))
cas_lem_example = cas_lem (new 0) key none first_claim key

no_claim : Memory.get (new 0) key ≢ some first_claim
unfolding Memory.get new GoMap.get
no_claim = λ h. cc

abbrev system : System
system = record { store = new 0; managers = λ i. record manager { seq = 1 } }

system-IsRetired : IsRetired unary key (7 ∷ []) 1 3 system
system-IsRetired = record {
  past = λ j. record { width = refl; minted = λ h. omega arith; not_pending = λ h. cc };
  not_current = no_claim;
}

-- Another process takes the account over.
abbrev moved : System
moved =
    let r = store_acquire unary key (system.managers 0) system.store none 5 5 in
    record { store = r.2; managers = update system.managers 0 r.1 }

lost_lease_fenced_example :
    ((commit key first_claim moved.store write).0 ≡ some assert_failed)
    × ((k : Bytes)
        → Memory.get (commit key first_claim moved.store write).1 k ≡ Memory.get moved.store k)
lost_lease_fenced_example =
    lost_lease_fenced unary key (7 ∷ []) 1 3 {s = system} {t = moved}
      (next here (acquires 0 none 5 5 refl)) system-IsRetired write

cas-new : (cas (new 0) key none first_claim).0 ≡ swapped
unfolding cas Backend.set Backend.assert new Memory.write_batch Memory.check_asserts
    Memory.assert_holds Memory.stage Memory.stage_op Memory.charge GoMap.get GoMap.put
cas-new = refl

takes_claim :
    (store_acquire unary key manager (new 0) none 1 1).0
    ≡ acquired (new_claim_value unary manager 1)
unfolding store_acquire new_claim_value is_live parse_claim_expiry
takes_claim = rw cas-new refl

abbrev attempt : Attempt × Manager × Store
attempt = store_acquire unary key manager (new 0) none 1 1

abbrev new_claim : Bytes
new_claim = new_claim_value unary manager 1

store_acquire_takes_example :
    (is_live unary none 1 ≡ false)
    × (Memory.get (new 0) key ≡ none)
    × (Memory.get attempt.2 key ≡ some new_claim)
    × (attempt.1.held ≡ some new_claim)
    × (parse_claim_expiry unary (some new_claim) ≡ some 3)
store_acquire_takes_example =
    store_acquire_takes unary key manager (new 0) none 1 1 new_claim (omega arith) takes_claim

abbrev holder : Manager
holder = record manager { seq = 1; held = some first_claim }

abbrev claimed : Store
claimed = record { entries = (key, first_claim) ∷ []; keys = key ∷ []; capacity = 0; used = 0 }

abbrev released : Manager × Store
released = store_release unary key holder claimed 2

release_swaps : (cas claimed key (some first_claim) (new_expired_token unary holder 2)).0 ≡ swapped
unfolding cas Backend.set Backend.assert mint_token Memory.write_batch Memory.check_asserts
    Memory.assert_holds Memory.stage Memory.stage_op Memory.charge GoMap.get GoMap.put beq
release_swaps = refl

-- The account without a claim.
