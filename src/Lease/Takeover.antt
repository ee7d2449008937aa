-- ===== src/Lease/Takeover.antt =====
-- When a StoreLease takes an account over, and what its release leaves.
use naust_jmap.Prelude.{
  ℕ, suc, ◌+◌, ◌-◌, ◌≤◌, ◌<◌, ◌≡◌, ◌≢◌, refl, sym, ap, ◌∙◌, false, Bool-cases, ◌⊎◌, inl, inr,
  Option, none, some, Bytes, beq_refl, arith,
}
use naust_jmap.Backend.{Error}
use naust_jmap.Memory
use naust_jmap.Memory.{Store}
use naust_jmap.Lease.Token.{Format, year_10000, parse_claim_expiry, parse-mint}
use naust_jmap.Lease.Exchange.{cas_lem, cas-swapped}
use naust_jmap.Lease.{
  Manager, acquired, Swap, swapped, kept, failed, cas, store_acquire, store_release,
  new_claim_value, new_expired_token, is_live, second,
}

module _ (f : Format) (key : Bytes) (m : Manager) (s : Store) where
  Swap-cases : (w : Swap) → (w ≡ swapped) ⊎ (w ≡ kept) ⊎ ((e : Error) × (w ≡ failed e))
  Swap-cases swapped = inl refl
  Swap-cases kept = inr (inl refl)
  Swap-cases (failed e) = inr (inr (e, refl))

  -- The claim behind a swap that answered that it swapped, or that it did not.
  claim_swapped :
      (old : Option Bytes) (new_val : Bytes)
      → (cas s key old new_val).0 ≡ swapped
      → Memory.get (cas s key old new_val).1 key ≡ some new_val
  claim_swapped old new_val sw = (cas_lem s key old new_val key).0 ∙ rw (beq_refl key, sw)

  claim_kept :
      (old : Option Bytes) (new_val : Bytes)
      → Memory.get s key ≢ old
      → Memory.get (cas s key old new_val).1 key ≡ Memory.get s key
  claim_kept old new_val other =
      (cas_lem s key old new_val key).0
      ∙ rw (beq_refl key, (cas_lem s key old new_val key).1.1 other)

  -- If an attempt of StoreLease answers that it acquired claim `c`: the claim that it had read was
  -- absent, malformed or past its deadline, it was still the claim in the store, and now `c` is;
  -- the manager holds `c`, whose deadline is `expiry` after the mint, which is before the year 10000.
  pub store_acquire_takes :
      (old : Option Bytes) (now later : ℕ) (c : Bytes)
      → later + m.expiry < year_10000
      → (store_acquire f key m s old now later).0 ≡ acquired c
      → let r = store_acquire f key m s old now later in
        (is_live f old now ≡ false)
        × (Memory.get s key ≡ old)
        × (Memory.get r.2 key ≡ some c)
        × (r.1.held ≡ some c)
        × (parse_claim_expiry f (some c) ≡ some (later + m.expiry))
  unfolding store_acquire new_claim_value
  store_acquire_takes old now later c before h = elim (Bool-cases (is_live f old now)) [
    | inl live ↦ absurd (ground arith)
    | inr dead ↦ elim (Swap-cases (cas s key old (new_claim_value f m later)).0) [
      | inl sw ↦ (
        dead,
        cas-swapped s key old (new_claim_value f m later) sw,
        rw (dead, sw) (claim_swapped old (new_claim_value f m later) sw ∙ ap some (same dead sw)),
        rw (dead, sw) (ap some (same dead sw)),
        ap (λ x. parse_claim_expiry f (some x)) (sym (same dead sw))
            ∙ parse-mint f m.nonce (suc m.seq) (later + m.expiry) before,
      )
      | inr (inl sw) ↦ absurd (ground arith)
      | inr (inr (e, sw)) ↦ absurd (ground arith)
    ]
  ]
    where
      same :
          is_live f old now ≡ false
          → (cas s key old (new_claim_value f m later)).0 ≡ swapped
          → new_claim_value f m later ≡ c
      same dead sw = ground arith

  release_step :
      (claim : Bytes) (now : ℕ)
      → m.held ≡ some claim
      → store_release f key m s now ≡ (
        record m { seq = suc m.seq; held = none },
        (cas s key (some claim) (new_expired_token f m now)).1,
      )
  unfolding store_release
  release_step claim now out = ground arith

  -- Release of a lease, if its swap is made: the lease is given up, and the claim that it leaves is
  -- not live for any clock from a second before the release on.
  pub store_release_frees :
      (claim : Bytes) (now clock : ℕ)
      → now - second < year_10000
      → m.held ≡ some claim
      → (cas s key (some claim) (new_expired_token f m now)).0 ≡ swapped
      → now ≤ clock + second
      → let r = store_release f key m s now in
        (r.0.held ≡ none) × (is_live f (Memory.get r.1 key) clock ≡ false)
  store_release_frees claim now clock before out sw late =
      rw (release_step claim now out)
        (refl, rw (claim_swapped (some claim) (new_expired_token f m now) sw) expired)
    where
      expired : is_live f (some (new_expired_token f m now)) clock ≡ false
      expired =
          unfold is_live new_expired_token in
          rw (parse-mint f m.nonce (suc m.seq) (now - second) before, is_live) (ground arith)

  -- Release of a lease whose claim was replaced gives the lease up and leaves the new claim alone.
  pub store_release_spares :
      (claim : Bytes) (now : ℕ)
      → m.held ≡ some claim
      → Memory.get s key ≢ some claim
      → let r = store_release f key m s now in
        (r.0.held ≡ none) × (Memory.get r.1 key ≡ Memory.get s key)
  store_release_spares claim now out other =
      rw (release_step claim now out)
        (refl, claim_kept (some claim) (new_expired_token f m now) other)
