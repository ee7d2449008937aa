-- ===== src/Memory/Batches.antt =====
-- The well-formedness of the store, and that every batch keeps it.
use naust_jmap.Prelude.{
  ℕ, ◌+◌, ◌-◌, ◌≤◌, ◌≡◌, refl, ap, subst, if◌then◌else◌, not, Bool-cases, Option-cases, ◌⊎◌, inl,
  inr, List, [], ◌∷◌, Option, none, some, Bytes, beq, beq_iff, length, arith,
}
use naust_jmap.Prelude.GoMap
use naust_jmap.Prelude.GoMap.{
  Distinct, get-put, get-delete, put-Distinct, delete-Distinct, delete_absent,
}
use naust_jmap.Backend.{encode_int64, add_int64, Batch, Op, set_op, delete_op, add_op, assert_op}
use naust_jmap.Memory.{
  Store, Data, Pending, new, stage, stage_op, charge, apply_entry, apply_pending, write_batch,
  is_none, size_of, old_bytes, new_bytes, counter_base, lookup, check_asserts, bytes_of,
}
use naust_jmap.Memory.Keys.{
  mem_key, IsSorted, insert_key-IsSorted, remove_key-IsSorted, mem-insert_key, mem-remove_key,
}

-- The value bytes that the store holds.
abbrev pub total : Data → ℕ
total [] = 0
total ((k, v) ∷ d) = length v + total d

-- `keys` holds exactly the keys of the map, in ascending order.
pub record IsShaped (s : Store) : Type 0 where
  pub sorted : IsSorted s.keys
  pub same : (k : Bytes) → mem_key k s.keys ≡ not (is_none (GoMap.get k s.entries))
  pub distinct : Distinct s.entries

-- And where there is a limit, `used` counts the stored value bytes and is within it.
pub record IsValid (s : Store) : Type 0 where
  pub shaped : IsShaped s
  pub charged : (s.capacity ≡ 0) ⊎ ((s.used ≡ total s.entries) × (s.used ≤ s.capacity))

total-put :
    (k v : Bytes) (d : Data)
    → total (GoMap.put k v d) + size_of (GoMap.get k d) ≡ total d + length v
unfolding GoMap.put GoMap.get
total-put k v [] = omega arith
total-put k v ((j, w) ∷ d) = ground (arith, total-put k v d)

total-delete :
    (k : Bytes) (d : Data)
    → Distinct d
    → total (GoMap.delete k d) + size_of (GoMap.get k d) ≡ total d
unfolding GoMap.delete GoMap.get
total-delete k [] h = omega arith
total-delete k ((j, w) ∷ d) (hj, h) =
    ground (arith, total-delete k d h, beq_iff j k, delete_absent k d)

apply_entry-IsSorted :
    (s : Store) (k : Bytes) (st : Option Bytes) → IsShaped s → IsSorted (apply_entry s k st).keys
unfolding apply_entry
apply_entry-IsSorted s k none v = ground (arith, remove_key-IsSorted s.keys k v.sorted, v.sorted)
apply_entry-IsSorted s k (some w) v =
    ground (arith, insert_key-IsSorted s.keys k, v.same k, v.sorted)

apply_entry-same :
    (s : Store) (k : Bytes) (st : Option Bytes)
    → IsShaped s
    → (j : Bytes)
    → mem_key j (apply_entry s k st).keys ≡ not (is_none (GoMap.get j (apply_entry s k st).entries))
unfolding apply_entry
apply_entry-same s k none v j =
    ground
      (arith, mem-remove_key j s.keys k v.sorted, get-delete k j s.entries, v.same j, beq_iff k j)
apply_entry-same s k (some w) v j =
    ground
      (arith, mem-insert_key j s.keys k, get-put k j w s.entries, v.same j, beq_iff k j, v.same k)

apply_entry-Distinct :
    (s : Store) (k : Bytes) (st : Option Bytes)
    → Distinct s.entries
    → Distinct (apply_entry s k st).entries
unfolding apply_entry
apply_entry-Distinct s k none h = ground (arith, delete-Distinct k s.entries h, h)
apply_entry-Distinct s k (some w) h = put-Distinct k w s.entries h

total-apply_entry :
    (s : Store) (k : Bytes) (st : Option Bytes)
    → Distinct s.entries
    → total (apply_entry s k st).entries + size_of (GoMap.get k s.entries)
      ≡ total s.entries + size_of st
unfolding apply_entry
total-apply_entry s k none h = ground (arith, total-delete k s.entries h)
total-apply_entry s k (some w) h = total-put k w s.entries

pub get-apply_entry :
    (s : Store) (k : Bytes) (st : Option Bytes) (j : Bytes)
    → GoMap.get j (apply_entry s k st).entries ≡ (if beq k j then st else GoMap.get j s.entries)
unfolding apply_entry
get-apply_entry s k none j = ground (arith, get-delete k j s.entries, beq_iff k j)
get-apply_entry s k (some w) j = get-put k j w s.entries

capacity-apply_entry :
    (s : Store) (k : Bytes) (st : Option Bytes)
    → ((apply_entry s k st).capacity ≡ s.capacity) × ((apply_entry s k st).used ≡ s.used)
unfolding apply_entry
capacity-apply_entry s k none = ground arith
capacity-apply_entry s k (some w) = (refl, refl)

-- A change to a key that is not pending does not change what the pending entries replace.
old_bytes-apply_entry :
    (s : Store) (k : Bytes) (st : Option Bytes) (p : Pending)
    → GoMap.get k p ≡ none
    → old_bytes (apply_entry s k st).entries p ≡ old_bytes s.entries p
unfolding old_bytes GoMap.get
old_bytes-apply_entry s k st [] h = refl
old_bytes-apply_entry s k st ((j, x) ∷ p) h =
    ground
      (arith, old_bytes-apply_entry s k st p, get-apply_entry s k st j, beq_iff k j, beq_iff j k)

apply_entry-IsShaped :
    (s : Store) (k : Bytes) (st : Option Bytes) → IsShaped s → IsShaped (apply_entry s k st)
apply_entry-IsShaped s k st v = record {
  sorted = apply_entry-IsSorted s k st v;
  same = apply_entry-same s k st v;
  distinct = apply_entry-Distinct s k st v.distinct;
}

apply_pending-IsShaped : (p : Pending) (s : Store) → IsShaped s → IsShaped (apply_pending s p)
unfolding apply_pending
apply_pending-IsShaped [] s v = v
apply_pending-IsShaped ((k, st) ∷ p) s v =
    apply_pending-IsShaped p (apply_entry s k st) (apply_entry-IsShaped s k st v)

pub total-apply_pending :
    (p : Pending) (s : Store)
    → Distinct s.entries
    → Distinct p
    → total (apply_pending s p).entries + old_bytes s.entries p ≡ total s.entries + new_bytes p
unfolding apply_pending old_bytes new_bytes
total-apply_pending [] s hs hp = omega arith
total-apply_pending ((k, st) ∷ p) s hs (hk, hp) = omega (
  arith,
  total-apply_pending p (apply_entry s k st) (apply_entry-Distinct s k st hs) hp,
  total-apply_entry s k st hs,
  old_bytes-apply_entry s k st p hk,
)

capacity-apply_pending :
    (p : Pending) (s : Store)
    → ((apply_pending s p).capacity ≡ s.capacity) × ((apply_pending s p).used ≡ s.used)
unfolding apply_pending
capacity-apply_pending [] s = (refl, refl)
capacity-apply_pending ((k, st) ∷ p) s =
    ground (arith, capacity-apply_pending p (apply_entry s k st), capacity-apply_entry s k st)

stage_op-Distinct :
    (d : Data) (p : Pending) (op : Op) {q : Pending}
    → Distinct p
    → stage_op d p op ≡ some q
    → Distinct q
unfolding stage_op
stage_op-Distinct d p (set_op k v) h e = ground (arith, put-Distinct k (some (bytes_of v)) p h)
stage_op-Distinct d p (delete_op k) h e = ground (arith, put-Distinct k none p h)
stage_op-Distinct d p (add_op k delta) h e = elim (Option-cases (counter_base (lookup d p k))) [
  | inl no_base ↦ ground arith
  | inr (base, found) ↦
      ground (arith, put-Distinct k (some (encode_int64 (add_int64 base delta))) p h)
]
stage_op-Distinct d p (assert_op k v) h e = ground arith

pub stage-Distinct :
    (ops : List Op) (d : Data) (p : Pending) {q : Pending}
    → Distinct p
    → stage d p ops ≡ some q
    → Distinct q
unfolding stage
stage-Distinct [] d p h e = ground arith
stage-Distinct (op ∷ ops) d p h e = elim (Option-cases (stage_op d p op)) [
  | inl bad ↦ ground arith
  | inr (r, staged) ↦ stage-Distinct ops d r (stage_op-Distinct d p op h staged) (ground arith)
]

pub charge-eq :
    (s : Store) (p : Pending) {r : Store} → charge s p ≡ some r → record s { used = r.used } ≡ r
unfolding charge
charge-eq s p e = ground arith

used-charge :
    (s : Store) (p : Pending) {r : Store}
    → charge s p ≡ some r
    → (s.capacity ≡ 0)
      ⊎ ((r.used ≡ s.used + new_bytes p - old_bytes s.entries p)
          × (s.used + new_bytes p ≤ s.capacity + old_bytes s.entries p))
unfolding charge
used-charge s p e = ground arith

used-IsShaped : (s : Store) (u : ℕ) → IsShaped s → IsShaped (record s { used = u })
used-IsShaped s u v = record { sorted = v.sorted; same = v.same; distinct = v.distinct }

commit-charged :
    (s : Store) (p : Pending) {r : Store}
    → IsValid s
    → Distinct p
    → charge s p ≡ some r
    → (r.capacity ≡ 0) ⊎ ((r.used ≡ total (apply_pending r p).entries) × (r.used ≤ r.capacity))
commit-charged s p {r} v h e = ground (
  arith,
  charge-eq s p e,
  used-charge s p e,
  total-apply_pending p r,
  ap (λ (x : Store). x.entries) (charge-eq s p e),
  v.shaped.distinct,
)

commit-IsValid :
    (s : Store) (p : Pending) {r : Store}
    → IsValid s
    → Distinct p
    → charge s p ≡ some r
    → IsValid (apply_pending r p)
commit-IsValid s p {r} v h e = record {
  shaped =
      apply_pending-IsShaped p r
        (subst IsShaped (charge-eq s p e) (used-IsShaped s r.used v.shaped));
  charged = ground (arith, commit-charged s p v h e, capacity-apply_pending p r);
}

-- A batch, applied or refused, keeps the store well formed: `keys` holds the keys of the map in
-- strictly ascending order, and under a capacity `used` is the sum of the stored value sizes and
-- within the capacity.
pub write_batch-IsValid : (s : Store) (b : Batch) → IsValid s → IsValid (write_batch s b).1
unfolding write_batch
write_batch-IsValid s b v = elim (Bool-cases (check_asserts s.entries b.ops)) [
  | inr refused ↦ rw refused v
  | inl held ↦ elim (Option-cases (stage s.entries [] b.ops)) [
    | inl bad ↦ rw (held, bad) v
    | inr (p, staged) ↦ elim (Option-cases (charge s p)) [
      | inl full ↦ rw (held, staged, full) v
      | inr (r, room) ↦
          rw (held, staged, room)
            (commit-IsValid s p v (stage-Distinct b.ops s.entries [] tt staged) room)
    ]
  ]
]

pub new-IsValid : (capacity : ℕ) → IsValid (new capacity)
unfolding new
new-IsValid capacity = record {
  shaped = record { sorted = tt; same = λ k. (unfold GoMap.get in refl); distinct = tt };
  charged = inr (refl, omega arith);
}
