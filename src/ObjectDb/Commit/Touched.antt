-- ===== src/ObjectDb/Commit/Touched.antt =====
-- The keys that the operations of a commit touch: those of core/objectdb/objectdb.go, setindex.go and
-- blobs.go that keep indexes, references, tags, states and the log leave every record alone.
use naust_jmap.Prelude.{
  ℕ, ◌<◌, Bool, ◌≡◌, ◌≢◌, refl, subst, ◌∙◌, inl, inr, true, false, Option-cases, List, [], ◌∷◌,
  ◌++◌, Option, none, some, Bytes, beq, arith,
}
use naust_jmap.Prelude.GoMap
use naust_jmap.Backend.{Op, set_op, delete_op, two64, encode_int64}
use naust_jmap.Memory.Refinement.{key_effect, op_effect}
use naust_jmap.Lease.Fencing.{key_effect-append}
use naust_jmap.ObjectDb.Keys.{
  obj_key, idx_key, ref_key, pending_key, tag_key, type_state_key, log_key, seq_key, tag_seg,
}
use naust_jmap.ObjectDb.Keys.Names.{
  object, index, ref, pending, tagged, type_state, entry, counter, key_of,
}
use naust_jmap.ObjectDb.Changes.{Entry}
use naust_jmap.ObjectDb.Schema.{Descriptor, Codec}
use naust_jmap.ObjectDb.Indexing.References.{name-ne}
use naust_jmap.ObjectDb.Commit.{tag_step, tag_batch, state_ops, log_ops}

-- The operations do not change what the store holds at a key.
abbrev pub Leaves : Bytes → List Op → Type 0
Leaves k ops = (cur : Option Bytes) → key_effect k ops cur ≡ cur

pub nothing-Leaves : (k : Bytes) → Leaves k []
unfolding key_effect
nothing-Leaves k cur = refl

pub set_op-Leaves :
    (k j : Bytes) (v : Option Bytes) (ops : List Op)
    → beq j k ≡ false
    → Leaves k ops
    → Leaves k (set_op j v ∷ ops)
unfolding key_effect op_effect
set_op-Leaves k j v ops h rest cur = rw h (rest cur)

pub delete_op-Leaves :
    (k j : Bytes) (ops : List Op) → beq j k ≡ false → Leaves k ops → Leaves k (delete_op j ∷ ops)
unfolding key_effect op_effect
delete_op-Leaves k j ops h rest cur = rw h (rest cur)

pub append-Leaves : (k : Bytes) (xs ys : List Op) → Leaves k xs → Leaves k ys → Leaves k (xs ++ ys)
append-Leaves k xs ys hx hy cur = key_effect-append k xs ys cur ∙ hy (key_effect k xs cur) ∙ hx cur

module _ (acct : Bytes) (usable : acct ≢ tag_seg) (type_name id : Bytes) where
  -- No other kind of key is a record's.
  pub idx-obj :
      (t prop v : Bytes) (o : List Bytes) (i : Bytes)
      → beq (idx_key acct t prop v o i) (obj_key acct type_name id) ≡ false
  idx-obj t prop v o i =
      unfold key_of in
      name-ne (index acct t prop v o i) (object acct type_name id) usable usable (λ e. ground arith)

  pub ref-obj : (b t i : Bytes) → beq (ref_key acct b t i) (obj_key acct type_name id) ≡ false
  ref-obj b t i =
      unfold key_of in
      name-ne (ref acct b t i) (object acct type_name id) usable usable (λ e. ground arith)

  pub pending-obj : (b : Bytes) → beq (pending_key acct b) (obj_key acct type_name id) ≡ false
  pending-obj b =
      unfold key_of in
      name-ne (pending acct b) (object acct type_name id) usable usable (λ e. ground arith)

  pub tag-obj : (tag : Bytes) → beq (tag_key tag acct) (obj_key acct type_name id) ≡ false
  tag-obj tag =
      unfold key_of in
      name-ne (tagged tag acct) (object acct type_name id) tt usable (λ e. ground arith)

  state-obj : (t : Bytes) → beq (type_state_key acct t) (obj_key acct type_name id) ≡ false
  state-obj t =
      unfold key_of in
      name-ne (type_state acct t) (object acct type_name id) usable usable (λ e. ground arith)

  log-obj : (n : ℕ) → n < two64 → beq (log_key acct n) (obj_key acct type_name id) ≡ false
  log-obj n small =
      unfold key_of in
      name-ne (entry acct n) (object acct type_name id) (usable, small) usable (λ e. ground arith)

  pub seq-obj : beq (seq_key acct) (obj_key acct type_name id) ≡ false
  seq-obj =
      unfold key_of in
      name-ne (counter acct) (object acct type_name id) usable usable (λ e. ground arith)

  abbrev pub the_key : Bytes
  the_key = obj_key acct type_name id

  -- The step of the loop over the tags.
  tag_step-Leaves :
      (tag : Bytes) (is_set : Option Bool) (rest : List Op)
      → Leaves the_key rest
      → Leaves the_key (tag_step acct tag is_set rest)
  tag_step-Leaves tag none rest h = h
  tag_step-Leaves tag (some true) rest h = set_op-Leaves the_key _ none rest (tag-obj tag) h
  tag_step-Leaves tag (some false) rest h = delete_op-Leaves the_key _ rest (tag-obj tag) h

  pub tag_batch-Leaves :
      (tag_ops : List (Bytes × Bool)) (tags : List Bytes)
      → Leaves the_key (tag_batch acct tag_ops tags)
  unfolding tag_batch
  tag_batch-Leaves tag_ops [] = nothing-Leaves the_key
  tag_batch-Leaves tag_ops (tag ∷ tags) =
      tag_step-Leaves tag (GoMap.get tag tag_ops) _ (tag_batch-Leaves tag_ops tags)

  pub state_ops-Leaves :
      (sequence : ℕ) (names : List Bytes) → Leaves the_key (state_ops acct sequence names)
  unfolding state_ops
  state_ops-Leaves sequence [] = nothing-Leaves the_key
  state_ops-Leaves sequence (t ∷ names) =
      set_op-Leaves the_key _ (some (encode_int64 sequence)) _ (state-obj t)
        (state_ops-Leaves sequence names)

  pub log_ops-Leaves :
      (c : Codec) (types : List (Bytes × Descriptor)) (encode_entry : Entry → ℕ → Option Bytes)
      (now_ms sequence : ℕ) (e : Entry) (xs : List Op)
      → sequence < two64
      → log_ops c types acct encode_entry now_ms sequence e ≡ some xs
      → Leaves the_key xs
  unfolding log_ops
  log_ops-Leaves c types encode_entry now_ms sequence [] xs small h =
      subst (Leaves the_key) (same [] xs h) (nothing-Leaves the_key)
    where
      same : (xs ys : List Op) → some xs ≡ some ys → xs ≡ ys
      same xs ys e = cc
  log_ops-Leaves c types encode_entry now_ms sequence (te ∷ e) xs small h =
      elim (Option-cases (encode_entry (te ∷ e) now_ms)) [
        | inl bad ↦ absurd (clash (rw bad at h))
        | inr (raw, found) ↦ subst (Leaves the_key) (same _ xs (rw found at h)) (
            set_op-Leaves the_key _ (some raw) [] (log-obj sequence small) (nothing-Leaves the_key))
      ]
    where
      same : (xs ys : List Op) → some xs ≡ some ys → xs ≡ ys
      same xs ys e = cc

      clash : ◌≡◌ {A = Option (List Op)} none (some xs) → ⊥
      clash e = ground arith
