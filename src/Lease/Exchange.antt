-- ===== src/Lease/Exchange.antt =====
-- The compare-and-swap that an asserting batch gives, and the fence.
use naust_jmap.Prelude.{
  ◌≡◌, ◌≢◌, ◌↔◌, refl, ap, ◌∙◌, if◌then◌else◌, List, [], ◌∷◌, ◌++◌, Option, none, some, Bytes, beq,
  arith,
}
use naust_jmap.Backend
use naust_jmap.Backend.{Error, Batch, Op, assert_failed, set_op, assert_op, delete_op, add_op}
use naust_jmap.Memory
use naust_jmap.Memory.{Store, write_batch, stage, stage_op, charge}
use naust_jmap.Memory.Refinement.{
  AssertsHold, write_batch_effect, assert_failed_iff, asserts_of_applied, key_effect, op_effect,
}
use naust_jmap.Lease.{Swap, swapped, kept, failed, outcome, cas, commit, fence}

-- The claim after a swap, whatever its answer.
abbrev pub swap_value : Swap → Option Bytes → Bytes → Option Bytes
swap_value swapped old new_val = some new_val
swap_value kept old new_val = old
swap_value (failed e) old new_val = old

abbrev cas_batch : Bytes → Option Bytes → Bytes → Batch
cas_batch key expected new_val =
    Backend.set (Backend.assert (record { ops = [] }) key expected) key (some new_val)

outcome-swapped : (e : Option Error) → outcome e ≡ swapped → e ≡ none
outcome-swapped none h = refl
outcome-swapped (some x) h = absurd (ground arith)

outcome-kept : (e : Option Error) → outcome e ≡ kept → e ≡ some assert_failed
outcome-kept none h = cc
outcome-kept (some x) h = ground arith

cas_value :
    (e : Option Error) (key k new_val : Bytes) (old : Option Bytes)
    → (elim e [ none ↦ if beq key k then some new_val else old | some x ↦ old ])
      ≡ (if beq key k then swap_value (outcome e) old new_val else old)
cas_value none key k new_val old = refl
cas_value (some x) key k new_val old = ground arith

cas-get :
    (s : Store) (key : Bytes) (expected : Option Bytes) (new_val k : Bytes)
    → Memory.get (cas s key expected new_val).1 k ≡ (
        if beq key k
        then swap_value (cas s key expected new_val).0 (Memory.get s k) new_val
        else Memory.get s k)
unfolding cas Backend.set Backend.assert key_effect op_effect
cas-get s key expected new_val k =
    write_batch_effect s (cas_batch key expected new_val) k
    ∙ cas_value (write_batch s (cas_batch key expected new_val)).0 key k new_val (Memory.get s k)

pub cas-swapped :
    (s : Store) (key : Bytes) (expected : Option Bytes) (new_val : Bytes)
    → (cas s key expected new_val).0 ≡ swapped
    → Memory.get s key ≡ expected
unfolding cas Backend.set Backend.assert
cas-swapped s key expected new_val h =
    (asserts_of_applied s (cas_batch key expected new_val) (outcome-swapped _ h)).0

-- cas says that it did not swap exactly when the key does not hold what is expected. After a swap
-- the key holds the new value, else what it held; no other key changes.
pub cas_lem :
    (s : Store) (key : Bytes) (expected : Option Bytes) (new_val k : Bytes)
    → (Memory.get (cas s key expected new_val).1 k ≡ (
        if beq key k
        then swap_value (cas s key expected new_val).0 (Memory.get s k) new_val
        else Memory.get s k))
      × (((cas s key expected new_val).0 ≡ kept) ↔ (¬ (Memory.get s key ≡ expected)))
unfolding cas Backend.set Backend.assert
cas_lem s key expected new_val k = (
  cas-get s key expected new_val k,
  (
    λ h e. (assert_failed_iff s (cas_batch key expected new_val)).0 (outcome-kept _ h) (e, tt),
    λ n. ap outcome ((assert_failed_iff s (cas_batch key expected new_val)).1 (λ a. n a.0)),
  ),
)

asserts-append :
    (m : Bytes → Option Bytes) (ops more : List Op)
    → AssertsHold m (ops ++ more)
    → AssertsHold m more
asserts-append m [] more h = h
asserts-append m (assert_op k v ∷ ops) more h = asserts-append m ops more h.1
asserts-append m (set_op k v ∷ ops) more h = asserts-append m ops more h
asserts-append m (delete_op k ∷ ops) more h = asserts-append m ops more h
asserts-append m (add_op k v ∷ ops) more h = asserts-append m ops more h

-- A commit under a lease is refused, and leaves the store as it was, when the claim in the store is
-- not the lease's own.
pub commit_fenced :
    (key claim : Bytes) (s : Store) (b : Batch)
    → Memory.get s key ≢ some claim
    → ((commit key claim s b).0 ≡ some assert_failed)
      × ((k : Bytes) → Memory.get (commit key claim s b).1 k ≡ Memory.get s k)
unfolding commit fence Backend.assert
commit_fenced key claim s b stale = (refused, λ k. write_batch_effect s fenced k ∙ rw refused)
  where
    fenced : Batch
    fenced = record b { ops = b.ops ++ assert_op key (some claim) ∷ [] }

    refused : (write_batch s fenced).0 ≡ some assert_failed
    refused =
        (assert_failed_iff s fenced).1
          (λ a. stale (asserts-append (Memory.get s) b.ops (assert_op key (some claim) ∷ []) a).0)
