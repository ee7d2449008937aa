-- ===== src/Lease.antt =====
-- core/providers/lease: storelease.go and lease.go. The writer lease of one account: claims in a
-- shared store, and the managers of several processes that swap them. Each access to the store is
-- one step; a manager's own mutex is `held` and `pending`, which let one caller at a time in.
pub mod Token
pub mod Exchange
pub mod System
pub mod Fencing
pub mod Takeover
mod Tests
use naust_jmap.Prelude.{
  ℕ, suc, ◌+◌, ◌-◌, ltb, if◌then◌else◌, Bool, true, false, List, [], ◌∷◌, ◌++◌, Option, none, some,
  Bytes,
}
use naust_jmap.Backend
use naust_jmap.Backend.{Error, assert_failed, Batch, Op}
use naust_jmap.Memory
use naust_jmap.Memory.{Store, write_batch}
use Token.{Format, mint_token, parse_claim_expiry}

pub data Swap : Type 0 where
  swapped kept : Swap
  failed : Error → Swap

abbrev pub outcome : Option Error → Swap
outcome none = swapped
outcome (some assert_failed) = kept
outcome (some e) = failed e

-- cas, on a backend without a native compare-and-swap.
unfoldable pub cas : Store → Bytes → Option Bytes → Bytes → Swap × Store
cas s key expected new_val =
    let b = Backend.set (Backend.assert (record { ops = [] }) key expected) key (some new_val) in
    let (e, s') = write_batch s b in (outcome e, s')

-- getClaim: an absent key is a nil value.
unfoldable pub get_claim : Store → Bytes → Option Bytes
get_claim s key = Memory.get s key

-- "lc/" + account
unfoldable pub store_claim_key : Bytes → Bytes
store_claim_key account = b'l' ∷ b'c' ∷ b'/' ∷ account

-- A manager as one account's callers use it. `token` is the claim that an InProcess manager last
-- wrote, `pending` the claim of an InProcess.Acquire that is under way, `held` the claim of the
-- lease that is out.
pub record Manager : Type 0 where
  pub nonce : Bytes
  pub expiry : ℕ
  pub seq : ℕ
  pub token : Option Bytes
  pub pending : Option Bytes
  pub held : Option Bytes

pub data Attempt : Type 0 where
  waits lost : Attempt
  acquired : Bytes → Attempt
  broken : Error → Attempt

abbrev pub second : ℕ
second = 1_000_000_000

module _ (f : Format) where
  -- newClaimValue and newExpiredToken: the counter goes up first.
  unfoldable pub new_claim_value : Manager → ℕ → Bytes
  new_claim_value m now = mint_token f m.nonce (suc m.seq) (now + m.expiry)

  unfoldable pub new_expired_token : Manager → ℕ → Bytes
  new_expired_token m now = mint_token f m.nonce (suc m.seq) (now - second)

  -- A well-formed claim whose deadline is ahead.
  unfoldable pub is_live : Option Bytes → ℕ → Bool
  is_live old now = elim (parse_claim_expiry f old) [ none ↦ false | some exp ↦ ltb now exp ]

  -- One round of the loop in StoreLease.Acquire: `old` was read before, at `now` the deadline is
  -- tested, and at `later` the token is minted.
  unfoldable pub store_acquire :
      Bytes → Manager → Store → Option Bytes → ℕ → ℕ → Attempt × Manager × Store
  store_acquire key m s old now later =
      let claim = new_claim_value m later in
      let minted : Manager = record m { seq = suc m.seq } in
      let (swap, s') = cas s key old claim in
      if is_live old now then (waits, m, s) else elim swap [
        | swapped ↦ (acquired claim, record minted { held = some claim }, s')
        | kept ↦ (lost, minted, s')
        | failed e ↦ (broken e, minted, s')
      ]

  -- storeLease.Release: `done` is that nothing is held.
  unfoldable pub store_release : Bytes → Manager → Store → ℕ → Manager × Store
  store_release key m s now = elim m.held [
    | none ↦ (m, s)
    | some claim ↦
        let (swap, s') = cas s key (some claim) (new_expired_token m now) in
        (record m { seq = suc m.seq; held = none }, s')
  ]

  -- InProcess.Acquire up to its first swap: the claim is minted once.
  unfoldable pub in_process_mint : Manager → ℕ → Manager
  in_process_mint m now =
      let claim = new_claim_value m now in record m { seq = suc m.seq; pending = some claim }

  -- One swap of InProcess.Acquire, from the cached token or from a claim that was read: it does
  -- not ask whether the claim has expired.
  unfoldable pub in_process_swap :
      Bytes → Manager → Store → Bytes → Option Bytes → Attempt × Manager × Store
  in_process_swap key m s claim old =
      let (swap, s') = cas s key old claim in
      elim swap [
        | swapped ↦
            (acquired claim, record m { token = some claim; pending = none; held = some claim }, s')
        | kept ↦ (lost, m, s')
        | failed e ↦ (broken e, record m { pending = none }, s')
      ]

-- inProcessLease.Release: the claim stays in the store.
unfoldable pub in_process_release : Manager → Manager
in_process_release m = record m { held = none }

-- Fence, and then the commit: the batch asserts the lease's claim.
unfoldable pub fence : Bytes → Bytes → Batch → Batch
fence key claim b = Backend.assert b key (some claim)

unfoldable pub commit : Bytes → Bytes → Store → Batch → Option Error × Store
unfolding fence
commit key claim s b = write_batch s (fence key claim b)
