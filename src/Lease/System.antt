-- ===== src/Lease/System.antt =====
-- Any number of processes, of either kind of manager, on the claim of one account.
use naust_jmap.Prelude.{
  ℕ, suc, ◌≤◌, ◌==◌, ◌≡◌, ◌≢◌, refl, sym, ◌∙◌, if◌then◌else◌, Option-cases, ◌⊎◌, inl, inr, Option,
  none, some, Bytes, beq_refl, length, arith,
}
use naust_jmap.Backend.{Batch}
use naust_jmap.Memory
use naust_jmap.Memory.{Store, write_batch}
use naust_jmap.Memory.Refinement.{key_effect}
use naust_jmap.Lease.Token.{Format, mint_token, mint_injective}
use naust_jmap.Lease.Exchange.{cas_lem, swap_value}
use naust_jmap.Lease.{
  Manager, Swap, swapped, kept, failed, cas, commit, store_acquire, store_release, in_process_mint,
  in_process_swap, in_process_release, new_claim_value, new_expired_token,
}

pub record System : Type 0 where
  pub store : Store
  pub managers : ℕ → Manager

abbrev pub claim_of : Bytes → System → Option Bytes
claim_of key s = Memory.get s.store key

abbrev pub update : (ℕ → Manager) → ℕ → Manager → ℕ → Manager
update ms i m j = if j == i then m else ms j

-- The batch of a commit writes data and not the claim of the account.
abbrev pub Spares : Bytes → Batch → Type 0
Spares key b = (cur : Option Bytes) → key_effect key b.ops cur ≡ cur

-- One access to the store, or a mint, by process i. A swap may use any claim that was read before,
-- and the clocks of the processes may show any time.
module _ (f : Format) (key : Bytes) where
  pub data Step (s : System) : System → Type 0 where
    acquires :
        (i : ℕ) (old : Option Bytes) (now later : ℕ)
        → (s.managers i).held ≡ none
        → Step s (
            let r = store_acquire f key (s.managers i) s.store old now later in
            record { store = r.2; managers = update s.managers i r.1 })
    releases :
        (i now : ℕ)
        → Step s (
            let r = store_release f key (s.managers i) s.store now in
            record { store = r.1; managers = update s.managers i r.0 })
    mints :
        (i now : ℕ)
        → (s.managers i).held ≡ none
        → Step s
            (record s { managers = update s.managers i (in_process_mint f (s.managers i) now) })
    takes :
        (i : ℕ) (claim : Bytes) (old : Option Bytes)
        → (s.managers i).pending ≡ some claim
        → Step s (
            let r = in_process_swap f key (s.managers i) s.store claim old in
            record { store = r.2; managers = update s.managers i r.1 })
    lets_go :
        (i : ℕ)
        → Step s (record s { managers = update s.managers i (in_process_release (s.managers i)) })
    commits :
        (claim : Bytes) (b : Batch)
        → Spares key b
        → Step s (record s { store = (commit key claim s.store b).1 })

module _ (f : Format) (key nonce : Bytes) (n e : ℕ) where
  abbrev pub target : Bytes
  target = mint_token f nonce n e

  -- The manager can mint the target no more, and is not about to write it.
  pub record Past (m : Manager) : Type 0 where
    pub width : length m.nonce ≡ length nonce
    pub minted : m.nonce ≡ nonce → n ≤ m.seq
    pub not_pending : m.pending ≢ some target

  -- The token was minted, and is not the current claim.
  pub record IsRetired (s : System) : Type 0 where
    pub past : (j : ℕ) → Past (s.managers j)
    pub not_current : claim_of key s ≢ some target

  pub fresh_claim : (m : Manager) (exp : ℕ) → Past m → mint_token f m.nonce (suc m.seq) exp ≢ target
  fresh_claim m exp p h =
      let same = mint_injective f m.nonce nonce (suc m.seq) n exp e p.width h in
      let bound = p.minted same.0 in omega (arith, same.1)

  pub cas-not_current :
      (s : Store) (old : Option Bytes) (new_val : Bytes)
      → Memory.get s key ≢ some target
      → new_val ≢ target
      → Memory.get (cas s key old new_val).1 key ≢ some target
  cas-not_current s old new_val h k =
      rw ((cas_lem s key old new_val key).0, beq_refl key)
        (swap_value-ne (cas s key old new_val).0 h k)
    where
      swap_value-ne :
          (w : Swap)
          → Memory.get s key ≢ some target
          → new_val ≢ target
          → swap_value w (Memory.get s key) new_val ≢ some target
      swap_value-ne swapped p q = λ x. q (ground arith)
      swap_value-ne kept p q = p
      swap_value-ne (failed x) p q = p

  pub Past-grow :
      {m : Manager} (m' : Manager)
      → Past m
      → m'.nonce ≡ m.nonce
      → m.seq ≤ m'.seq
      → m'.pending ≢ some target
      → Past m'
  Past-grow {m} m' p same more pend = record {
    width = rw same p.width;
    minted = λ q. omega (arith, p.minted (sym same ∙ q));
    not_pending = pend;
  }

module _ (f : Format) (key : Bytes) (m : Manager) (s : Store) where
  pub store_acquire_fields :
      (old : Option Bytes) (now later : ℕ)
      → let r = store_acquire f key m s old now later in
        (r.1.nonce ≡ m.nonce)
        × (m.seq ≤ r.1.seq)
        × (r.1.pending ≡ m.pending)
        × ((r.2 ≡ s) ⊎ (r.2 ≡ (cas s key old (new_claim_value f m later)).1))
  unfolding store_acquire
  store_acquire_fields old now later = ground arith

  pub store_release_fields :
      (now : ℕ)
      → let r = store_release f key m s now in
        (r.0.nonce ≡ m.nonce)
        × (m.seq ≤ r.0.seq)
        × (r.0.pending ≡ m.pending)
        × ((r.1 ≡ s)
            ⊎ ((claim : Bytes) × (r.1 ≡ (cas s key (some claim) (new_expired_token f m now)).1)))
  unfolding store_release
  store_release_fields now = elim (Option-cases m.held) [
    | inl idle ↦ ground arith
    | inr (claim, out) ↦ rw out (refl, omega arith, refl, inr (claim, refl))
  ]

  pub in_process_swap_fields :
      (claim : Bytes) (old : Option Bytes)
      → let r = in_process_swap f key m s claim old in
        (r.1.nonce ≡ m.nonce)
        × (m.seq ≤ r.1.seq)
        × ((r.1.pending ≡ none) ⊎ (r.1.pending ≡ m.pending))
        × (r.2 ≡ (cas s key old claim).1)
  unfolding in_process_swap
  in_process_swap_fields claim old = ground arith
