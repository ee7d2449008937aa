-- ===== src/Lease/Fencing.antt =====
-- A lease that was superseded stays superseded: the fence of storelease.go and lease.go.
use naust_jmap.Prelude.{
  ℕ, ◌+◌, ◌-◌, ◌==◌, ◌≡◌, ◌≢◌, refl, ap, ◌∙◌, Bool-cases, ◌⊎◌, inl, inr, List, [], ◌∷◌, ◌++◌,
  Option, none, some, Bytes, arith,
}
use naust_jmap.Backend
use naust_jmap.Backend.{Error, Batch, Op, assert_failed, assert_op}
use naust_jmap.Memory
use naust_jmap.Memory.{Store, write_batch}
use naust_jmap.Memory.Refinement.{key_effect, op_effect, write_batch_effect}
use naust_jmap.Lease.Token.{Format}
use naust_jmap.Lease.Exchange.{commit_fenced}
use naust_jmap.Lease.{
  Manager, cas, commit, in_process_mint, in_process_release, new_claim_value, new_expired_token,
  second, fence,
}
use naust_jmap.Lease.System.{
  System, Step, acquires, releases, mints, takes, lets_go, commits, Spares, update,
}
use naust_jmap.Lease.System.{
  target, Past, IsRetired, fresh_claim, cas-not_current, Past-grow, store_acquire_fields,
  store_release_fields, in_process_swap_fields,
}

pub key_effect-append :
    (key : Bytes) (ops more : List Op) (cur : Option Bytes)
    → key_effect key (ops ++ more) cur ≡ key_effect key more (key_effect key ops cur)
unfolding key_effect
key_effect-append key [] more cur = refl
key_effect-append key (op ∷ ops) more cur = key_effect-append key ops more (op_effect key op cur)

commit-Spares :
    (key claim : Bytes) (s : Store) (b : Batch)
    → Spares key b
    → Memory.get (commit key claim s b).1 key ≡ Memory.get s key
unfolding commit fence Backend.assert
commit-Spares key claim s b spares =
    write_batch_effect s fenced key ∙ either (write_batch s fenced).0
  where
    fenced : Batch
    fenced = record b { ops = b.ops ++ assert_op key (some claim) ∷ [] }

    either :
        (e : Option Error)
        → (elim e [
          | none ↦ key_effect key fenced.ops (Memory.get s key)
          | some x ↦ Memory.get s key
        ])
          ≡ Memory.get s key
    either none =
        key_effect-append key b.ops (assert_op key (some claim) ∷ []) (Memory.get s key)
        ∙ (unfold key_effect op_effect in spares (Memory.get s key))
    either (some x) = refl

module _ (f : Format) (key nonce : Bytes) (n e : ℕ) where
  pending-ne :
      (o old : Option Bytes)
      → (o ≡ none) ⊎ (o ≡ old)
      → old ≢ some (target f key nonce n e)
      → o ≢ some (target f key nonce n e)
  pending-ne o old (inl x) h = λ k. cc (x, k)
  pending-ne o old (inr x) h = rw x h

  update-Past :
      (ms : ℕ → Manager) (i : ℕ) (m : Manager)
      → ((j : ℕ) → Past f key nonce n e (ms j))
      → Past f key nonce n e m
      → (j : ℕ) → Past f key nonce n e (update ms i m j)
  update-Past ms i m all h j = elim (Bool-cases (j == i)) [
    | inl same ↦ rw same h
    | inr other ↦ rw other (all j)
  ]

  either_store :
      (s : Store) (old : Option Bytes) (new_val : Bytes) (s' : Store)
      → Memory.get s key ≢ some (target f key nonce n e)
      → new_val ≢ target f key nonce n e
      → (s' ≡ s) ⊎ (s' ≡ (cas s key old new_val).1)
      → Memory.get s' key ≢ some (target f key nonce n e)
  either_store s old new_val s' h k (inl same) = rw same h
  either_store s old new_val s' h k (inr swap) =
      rw swap (cas-not_current f key nonce n e s old new_val h k)

  -- Whatever a process does, a token that was minted and is not the current claim stays so.
  Step-IsRetired :
      {s t : System} → Step f key s t → IsRetired f key nonce n e s → IsRetired f key nonce n e t
  unfolding new_claim_value new_expired_token in_process_mint in_process_release
  Step-IsRetired {s} (acquires i old now later free) r =
      let m = s.managers i in
      let (same, more, pend, swap) = store_acquire_fields f key m s.store old now later in
      record {
        past =
            update-Past s.managers i _ r.past
              (Past-grow f key nonce n e _ (r.past i) same more (rw pend ((r.past i).not_pending)));
        not_current =
            either_store s.store old (new_claim_value f m later) _ r.not_current
              (fresh_claim f key nonce n e m (later + m.expiry) (r.past i)) swap;
      }
  Step-IsRetired {s} (releases i now) r =
      let m = s.managers i in
      let (same, more, pend, swap) = store_release_fields f key m s.store now in
      record {
        past =
            update-Past s.managers i _ r.past
              (Past-grow f key nonce n e _ (r.past i) same more (rw pend ((r.past i).not_pending)));
        not_current = elim swap [
          | inl kept_store ↦ rw kept_store r.not_current
          | inr (claim, wrote) ↦
              either_store s.store (some claim) (new_expired_token f m now) _ r.not_current
                (fresh_claim f key nonce n e m (now - second) (r.past i)) (inr wrote)
        ];
      }
  Step-IsRetired {s} (mints i now free) r =
      let m = s.managers i in
      record {
        past = update-Past s.managers i _ r.past (
            Past-grow f key nonce n e _ (r.past i) refl (omega arith)
              (λ h. fresh_claim f key nonce n e m (now + m.expiry) (r.past i) (ground arith)));
        not_current = r.not_current;
      }
  Step-IsRetired {s} (takes i claim old pending) r =
      let m = s.managers i in
      let (same, more, pend, wrote) = in_process_swap_fields f key m s.store claim old in
      record {
        past = update-Past s.managers i _ r.past (
            Past-grow f key nonce n e _ (r.past i) same more
              (pending-ne _ m.pending pend ((r.past i).not_pending)));
        not_current =
            either_store s.store old claim _ r.not_current
              (λ h. (r.past i).not_pending (pending ∙ ap some h)) (inr wrote);
      }
  Step-IsRetired {s} (lets_go i) r = record {
    past =
        update-Past s.managers i _ r.past
          (Past-grow f key nonce n e _ (r.past i) refl (omega arith) ((r.past i).not_pending));
    not_current = r.not_current;
  }
  Step-IsRetired {s} (commits claim b spares) r = record {
    past = r.past;
    not_current = rw (commit-Spares key claim s.store b spares) r.not_current;
  }

  pub data Reach (s : System) : System → Type 0 where
    here : Reach s s
    next : {t u : System} → Reach s t → Step f key t u → Reach s u

  Reach-IsRetired :
      {s t : System} → Reach s t → IsRetired f key nonce n e s → IsRetired f key nonce n e t
  Reach-IsRetired here r = r
  Reach-IsRetired (next path step) r = Step-IsRetired step (Reach-IsRetired path r)

  -- Once a lease's token is not the current claim, no commit under that lease is ever applied
  -- again, whatever the processes of either kind do, in any interleaving and with any clocks: each
  -- such commit answers ErrAssertFailed and leaves every key as it was. (Nonces have one length;
  -- a process that shares the token's nonce has counted past it, and none is about to write it; the
  -- batches that are committed do not change the claim's key.)
  pub lost_lease_fenced :
      {s t : System}
      → Reach s t
      → IsRetired f key nonce n e s
      → (b : Batch)
      → let r = commit key (target f key nonce n e) t.store b in
        (r.0 ≡ some assert_failed) × ((k : Bytes) → Memory.get r.1 k ≡ Memory.get t.store k)
  lost_lease_fenced {t = t} path r b =
      commit_fenced key (target f key nonce n e) t.store b (Reach-IsRetired path r).not_current
