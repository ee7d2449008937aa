-- ===== src/Memory/Refinement.antt =====
-- What a batch does to each key, and when it is refused.
use naust_jmap.Prelude.{
  ◌≡◌, ◌↔◌, refl, ap, ◌∙◌, if◌then◌else◌, true, Bool-cases, Option-cases, inl, inr, List, [], ◌∷◌,
  Option, none, some, Bytes, beq, beq_iff, arith,
}
use naust_jmap.Prelude.GoMap
use naust_jmap.Prelude.GoMap.{Distinct, get-put}
use naust_jmap.Backend.{
  Batch, Op, set_op, delete_op, add_op, assert_op, assert_failed, encode_int64, add_int64,
}
use naust_jmap.Memory.{
  Store, Data, Pending, get, stage, stage_op, charge, apply_pending, apply_entry, write_batch,
  bytes_of, counter_base, lookup, check_asserts, assert_holds,
}
use naust_jmap.Memory.Batches.{charge-eq, get-apply_entry, stage-Distinct}

-- The sequential meaning of the operations at one key `k` that holds `cur`: asserts read only.
unfoldable pub op_effect : Bytes → Op → Option Bytes → Option Bytes
op_effect k (set_op j v) cur = if beq j k then some (bytes_of v) else cur
op_effect k (delete_op j) cur = if beq j k then none else cur
op_effect k (add_op j delta) cur =
    if beq j k
    then (elim (counter_base cur) [
      | none ↦ none
      | some base ↦ some (encode_int64 (add_int64 base delta))
    ])
    else cur
op_effect k (assert_op j v) cur = cur

unfoldable pub key_effect : Bytes → List Op → Option Bytes → Option Bytes
key_effect k [] cur = cur
key_effect k (op ∷ ops) cur = key_effect k ops (op_effect k op cur)

lookup-stage_op :
    (d : Data) (p : Pending) (op : Op) (k : Bytes) {q : Pending}
    → stage_op d p op ≡ some q
    → lookup d q k ≡ op_effect k op (lookup d p k)
unfolding stage_op lookup op_effect
lookup-stage_op d p (set_op j v) k e = ground (arith, get-put j k (some (bytes_of v)) p)
lookup-stage_op d p (delete_op j) k e = ground (arith, get-put j k none p)
lookup-stage_op d p (add_op j delta) k e = elim (Option-cases (counter_base (lookup d p j))) [
  | inl bad ↦ ground arith
  | inr (base, found) ↦
      ground (arith, beq_iff j k, get-put j k (some (encode_int64 (add_int64 base delta))) p)
]
lookup-stage_op d p (assert_op j v) k e = ground arith

lookup-stage :
    (ops : List Op) (d : Data) (p : Pending) (k : Bytes) {q : Pending}
    → stage d p ops ≡ some q
    → lookup d q k ≡ key_effect k ops (lookup d p k)
unfolding stage key_effect
lookup-stage [] d p k e = ground arith
lookup-stage (op ∷ ops) d p k e = elim (Option-cases (stage_op d p op)) [
  | inl bad ↦ ground arith
  | inr (r, staged) ↦
      lookup-stage ops d r k (ground arith)
      ∙ ap (key_effect k ops) (lookup-stage_op d p op k staged)
]

get-apply_pending :
    (p : Pending) (s : Store) (k : Bytes)
    → Distinct p
    → GoMap.get k (apply_pending s p).entries ≡ lookup s.entries p k
unfolding apply_pending lookup GoMap.get
get-apply_pending [] s k h = refl
get-apply_pending ((j, st) ∷ p) s k (hj, h) =
    ground
      (arith, get-apply_pending p (apply_entry s j st) k h, get-apply_entry s j st k, beq_iff j k)

commit-effect :
    (s : Store) (ops : List Op) (p : Pending) (k : Bytes) {r : Store}
    → stage s.entries [] ops ≡ some p
    → charge s p ≡ some r
    → GoMap.get k (apply_pending r p).entries ≡ key_effect k ops (GoMap.get k s.entries)
commit-effect s ops p k {r} staged room = ground (
  arith,
  get-apply_pending p r k (stage-Distinct ops s.entries [] tt staged),
  ap (λ (x : Store). lookup x.entries p k) (charge-eq s p room),
  lookup-stage ops s.entries [] k staged,
  lookup_nil s.entries k,
)
  where
    lookup_nil : (d : Data) (j : Bytes) → lookup d [] j ≡ GoMap.get j d
    lookup_nil d j = unfold lookup GoMap.get in refl

-- Whatever WriteBatch answers: with an error the store is as it was, and with none every key holds
-- what the batch's operations, in their order, make of its value.
pub write_batch_effect :
    (s : Store) (b : Batch) (k : Bytes)
    → get (write_batch s b).1 k
      ≡ (elim (write_batch s b).0 [ none ↦ key_effect k b.ops (get s k) | some e ↦ get s k ])
unfolding write_batch get
write_batch_effect s b k = elim (Bool-cases (check_asserts s.entries b.ops)) [
  | inr refused ↦ rw refused
  | inl held ↦ elim (Option-cases (stage s.entries [] b.ops)) [
    | inl bad ↦ rw (held, bad)
    | inr (p, staged) ↦ elim (Option-cases (charge s p)) [
      | inl full ↦ rw (held, staged, full)
      | inr (r, room) ↦ rw (held, staged, room) (commit-effect s b.ops p k staged room)
    ]
  ]
]

-- Every assert of the batch finds the value that it expects, nil being an absent key.
abbrev pub AssertsHold : (Bytes → Option Bytes) → List Op → Type 0
AssertsHold m [] = Unit
AssertsHold m (assert_op k v ∷ ops) = (m k ≡ v) × AssertsHold m ops
AssertsHold m (set_op k v ∷ ops) = AssertsHold m ops
AssertsHold m (delete_op k ∷ ops) = AssertsHold m ops
AssertsHold m (add_op k v ∷ ops) = AssertsHold m ops

assert_holds-some :
    (d : Data) (k v : Bytes)
    → (assert_holds d (assert_op k (some v)) ≡ true) ↔ (GoMap.get k d ≡ some v)
unfolding assert_holds
assert_holds-some d k v = elim (Option-cases (GoMap.get k d)) [
  | inl absent ↦ ground arith
  | inr (w, found) ↦ ground (arith, beq_iff w v)
]

pub check_asserts_iff :
    (d : Data) (ops : List Op) → (check_asserts d ops ≡ true) ↔ AssertsHold (λ k. GoMap.get k d) ops
unfolding check_asserts assert_holds
check_asserts_iff d [] = ground arith
check_asserts_iff d (assert_op k none ∷ ops) = ground (arith, check_asserts_iff d ops)
check_asserts_iff d (assert_op k (some v) ∷ ops) =
    ground (arith, check_asserts_iff d ops, assert_holds-some d k v)
check_asserts_iff d (set_op k v ∷ ops) = check_asserts_iff d ops
check_asserts_iff d (delete_op k ∷ ops) = check_asserts_iff d ops
check_asserts_iff d (add_op k v ∷ ops) = check_asserts_iff d ops

-- WriteBatch answers ErrAssertFailed exactly when some assert does not hold in the store as it was
-- before the batch; the batch's own writes play no part in its asserts.
pub assert_failed_iff :
    (s : Store) (b : Batch)
    → ((write_batch s b).0 ≡ some assert_failed) ↔ (¬ AssertsHold (get s) b.ops)
unfolding write_batch get
assert_failed_iff s b = elim (Bool-cases (check_asserts s.entries b.ops)) [
  | inr refused ↦
      rw refused (λ _ h. cc (refused, (check_asserts_iff s.entries b.ops).1 h), λ _. refl)
  | inl held ↦
      rw held (λ e. ground arith, λ n. absurd (n ((check_asserts_iff s.entries b.ops).0 held)))
]

-- A batch that is applied found all its asserts to hold.
pub asserts_of_applied :
    (s : Store) (b : Batch) → (write_batch s b).0 ≡ none → AssertsHold (get s) b.ops
unfolding write_batch get
asserts_of_applied s b e = elim (Bool-cases (check_asserts s.entries b.ops)) [
  | inr refused ↦ absurd (ground arith)
  | inl held ↦ (check_asserts_iff s.entries b.ops).0 held
]
