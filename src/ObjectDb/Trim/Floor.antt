-- ===== src/ObjectDb/Trim/Floor.antt =====
-- What the batch of TrimChanges leaves in the store.
use naust_jmap.Prelude.{
  ℕ, ◌+◌, ◌≤◌, ◌<◌, ◌≡◌, refl, ap, ◌∙◌, if◌then◌else◌, Bool, true, false, ◌||◌, List, [], ◌∷◌, ◌++◌,
  Option, none, some, Bytes, beq, take,
}
use mathlib.Core.List.{append_assoc}
use naust_jmap.Backend
use naust_jmap.Backend.{Batch, Op, delete_op, set_op, assert_op, encode_int64, two64}
use naust_jmap.Memory
use naust_jmap.Memory.{Store}
use naust_jmap.Memory.Refinement.{key_effect, op_effect, write_batch_effect}
use naust_jmap.Lease.{commit, fence}
use naust_jmap.Lease.Fencing.{key_effect-append}
use naust_jmap.ObjectDb.Keys.{log_key, log_floor_key}
use naust_jmap.ObjectDb.Trim.{Aged}
use naust_jmap.ObjectDb.Trim.Passes.{decoded, deletions, floor_past}
use naust_jmap.ObjectDb.Trim.Due.{trim_batch}

-- The entries of an account's log, from their sequence numbers and commit times.
abbrev pub keyed : Bytes → List (ℕ × ℕ) → List (Bytes × ℕ)
keyed acct [] = []
keyed acct ((q, a) ∷ log) = (log_key acct q, a) ∷ keyed acct log

-- Ascending sequence numbers, each an int64 and none below b.
abbrev pub IsAscending : ℕ → List (ℕ × ℕ) → Type 0
IsAscending b [] = Unit
IsAscending b ((q, a) ∷ log) = (b ≤ q) × (q < two64) × IsAscending (q + 1) log

unfoldable pub among : Bytes → List Aged → Bool
among k [] = false
among k ((j, at) ∷ es) = beq j k || among k es

key_effect-deletions :
    (k : Bytes) (es : List Aged) (cur : Option Bytes)
    → key_effect k (deletions es) cur ≡ (if among k es then none else cur)
unfolding key_effect op_effect deletions among
key_effect-deletions k [] cur = refl
key_effect-deletions k ((j, at) ∷ es) cur =
    key_effect-deletions k es (if beq j k then none else cur) ∙ either (beq j k) (among k es)
  where
    either :
        (b c : Bool)
        → (if c then none else (if b then none else cur)) ≡ (if b || c then none else cur)
    either true true = refl
    either true false = refl
    either false c = refl

-- What the fenced batch makes of one key.
trim_batch-effect :
    (acct key claim : Bytes) (n : ℕ) (es : List (Bytes × ℕ)) (k : Bytes) (cur : Option Bytes)
    → key_effect k ((trim_batch acct n es).ops ++ assert_op key (some claim) ∷ []) cur ≡ (
        if beq (log_floor_key acct) k
        then some (encode_int64 (floor_past 0 (take n (decoded es))))
        else if among k (take n (decoded es))
        then none
        else cur)
trim_batch-effect acct key claim n es k cur =
    unfold trim_batch in
    (ap (λ o. key_effect k o cur) (append_assoc (deletions (take n (decoded es))) _ _)
      ∙ key_effect-append k (deletions (take n (decoded es))) _ cur
      ∙ (unfold key_effect op_effect in
          ap
            (λ c.
              if beq (log_floor_key acct) k
              then some (encode_int64 (floor_past 0 (take n (decoded es))))
              else c)
            (key_effect-deletions k (take n (decoded es)) cur)))

-- A key after the commit of a trim that is applied.
pub get-trimmed :
    (acct key claim : Bytes) (s : Store) (n : ℕ) (es : List (Bytes × ℕ)) (k : Bytes)
    → (commit key claim s (trim_batch acct n es)).0 ≡ none
    → Memory.get (commit key claim s (trim_batch acct n es)).1 k ≡ (
        if beq (log_floor_key acct) k
        then some (encode_int64 (floor_past 0 (take n (decoded es))))
        else if among k (take n (decoded es))
        then none
        else Memory.get s k)
unfolding commit fence Backend.assert
get-trimmed acct key claim s n es k applied =
    write_batch_effect s _ k
    ∙ ap
        (λ o. elim o [
          | none ↦
              key_effect k ((trim_batch acct n es).ops ++ assert_op key (some claim) ∷ [])
                (Memory.get s k)
          | some e ↦ Memory.get s k
        ])
        applied
    ∙ trim_batch-effect acct key claim n es k (Memory.get s k)
