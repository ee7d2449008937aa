-- ===== src/ObjectDb/Commit/Stored.antt =====
-- What a commit (update in core/objectdb/objectdb.go) leaves in the store of each record.
use naust_jmap.Prelude.{
  ℕ, ◌<◌, ◌≡◌, ◌≢◌, sym, ap, ◌∙◌, inl, inr, Bool-cases, Option-cases, List, [], ◌∷◌, ◌++◌, Option,
  none, some, Bytes, arith,
}
use naust_jmap.Backend.{Op, set_op, two64, encode_int64, add_int64}
use naust_jmap.Memory.Refinement.{key_effect}
use naust_jmap.Lease.Fencing.{key_effect-append}
use naust_jmap.ObjectDb.Keys.{obj_key, seq_key, tag_seg}
use naust_jmap.ObjectDb.Changes.{Entry}
use naust_jmap.ObjectDb.Schema.{Descriptor, Codec}
use naust_jmap.ObjectDb.Indexing.References.{View}
use naust_jmap.ObjectDb.Update.{Update, exists_tag, find}
use naust_jmap.ObjectDb.Update.Staging.{Unique}
use naust_jmap.ObjectDb.Commit.{
  Built, sort_records, staged_ops, entry_of, log_ops, build_batch, current_sequence, is_empty,
  commit,
}
use naust_jmap.ObjectDb.Commit.Touched.{
  Leaves, nothing-Leaves, set_op-Leaves, tag_batch-Leaves, state_ops-Leaves, log_ops-Leaves,
  tag-obj, seq-obj,
}
use naust_jmap.ObjectDb.Commit.Records.{image_after, staged_ops-effect}
use naust_jmap.ObjectDb.Commit.Sorted.{find-sort_records, sort_records-Unique}

module _ (c : Codec) (types : List (Bytes × Descriptor)) (acct : Bytes) (usable : acct ≢ tag_seg)
    (encode_entry : Entry → ℕ → Option Bytes) (now_ms : ℕ) (type_name id : Bytes) where
  no_built : (b : Built) → ◌≡◌ {A = Option Built} none (some b) → ⊥
  no_built b e = absurd (ground arith)

  same_built : (a b : Built) → some a ≡ some b → a ≡ b
  same_built a b e = cc

  -- The parts of a batch around the records' own operations.
  around-effect :
      (tag_op : Op) (tags records states logged : List Op) (cur : Option Bytes)
      → Leaves (obj_key acct type_name id) (tag_op ∷ tags)
      → Leaves (obj_key acct type_name id) states
      → Leaves (obj_key acct type_name id) logged
      → key_effect (obj_key acct type_name id) (tag_op ∷ (tags ++ records ++ states ++ logged)) cur
        ≡ key_effect (obj_key acct type_name id) records cur
  around-effect tag_op tags records states logged cur ht hs hl =
      key_effect-append (obj_key acct type_name id) (((tag_op ∷ tags) ++ records) ++ states) logged
        cur
      ∙ hl _
      ∙ key_effect-append (obj_key acct type_name id) ((tag_op ∷ tags) ++ records) states cur
      ∙ hs _
      ∙ key_effect-append (obj_key acct type_name id) (tag_op ∷ tags) records cur
      ∙ ap (key_effect (obj_key acct type_name id) records) (ht cur)

  build_batch-effect :
      (u : Update) (sequence : ℕ) (b : Built) (cur : Option Bytes)
      → Unique u.staged
      → sequence < two64
      → build_batch c types acct encode_entry now_ms u sequence ≡ some b
      → key_effect (obj_key acct type_name id) b.ops cur
        ≡ image_after c (find type_name id u.staged) cur
  unfolding build_batch
  build_batch-effect u sequence b cur unique small h =
      elim (Option-cases (staged_ops c types acct (sort_records u.staged))) [
        | inl bad ↦ absurd (no_built b (rw bad at h))
        | inr (records, hr) ↦
            elim (Option-cases
              (log_ops c types acct encode_entry now_ms sequence (entry_of c types acct u))) [
                | inl bad ↦ absurd (no_built b (rw (hr, bad) at h))
                | inr (logged, hl) ↦
                    ap (λ (x : Built). key_effect (obj_key acct type_name id) x.ops cur)
                      (sym (same_built _ b (rw (hr, hl) at h)))
                    ∙ around-effect _ _ records _ logged cur
                        (set_op-Leaves _ _ none _ (tag-obj acct usable type_name id exists_tag)
                          (tag_batch-Leaves acct usable type_name id _ _))
                        (state_ops-Leaves acct usable type_name id sequence _)
                        (log_ops-Leaves acct usable type_name id c types encode_entry now_ms
                          sequence _ logged small hl)
                    ∙ staged_ops-effect c types acct usable type_name id (sort_records u.staged)
                        records cur (sort_records-Unique u.staged unique) hr
                    ∙ ap (λ o. image_after c o cur) (find-sort_records type_name id u.staged)
              ]
      ]

  -- The batch without the counter.
  committed_batch :
      (m : View) (u : Update) (built : Built)
      → commit c types acct encode_entry now_ms m u ≡ some (some built)
      → (current : ℕ) × (b : Built) × (build_batch c types acct encode_entry now_ms u
            (add_int64 current 1)
          ≡ some b)
        × (b.ops ++ set_op (seq_key acct) (some (encode_int64 (add_int64 current 1))) ∷ []
            ≡ built.ops)
  unfolding commit
  committed_batch m u built h =
      elim (Option-cases (current_sequence c types acct encode_entry now_ms m)) [
        | inl bad ↦ absurd (no_commit (rw bad at h))
        | inr (current, hc) ↦ elim (Bool-cases (is_empty c types acct encode_entry now_ms u)) [
          | inl empty ↦ absurd (nothing (rw (hc, empty) at h))
          | inr full ↦
              elim (Option-cases
                (build_batch c types acct encode_entry now_ms u (add_int64 current 1))) [
                  | inl bad ↦ absurd (no_commit (rw (hc, full, bad) at h))
                  | inr (b, hb) ↦ (
                    current,
                    b,
                    hb,
                    ap (λ (x : Built). x.ops) (same _ built (rw (hc, full, hb) at h)),
                  )
                ]
        ]
      ]
    where
      no_commit : ◌≡◌ {A = Option (Option Built)} none (some (some built)) → ⊥
      no_commit e = absurd (ground arith)

      nothing : ◌≡◌ {A = Option (Option Built)} (some none) (some (some built)) → ⊥
      nothing e = absurd (ground arith)

      same : (a b : Built) → ◌≡◌ {A = Option (Option Built)} (some (some a)) (some (some b)) → a ≡ b
      same a b e = cc

  -- After the batch of an update in which no record is staged twice, the store holds at each
  -- record's key: what it held before, if the record is not staged or was both created and
  -- destroyed; nothing, if it is staged as destroyed; the encoding of the new version otherwise.
  -- (The account is not the reserved segment.)
  pub commit_stores :
      (m : View) (u : Update) (built : Built) (cur : Option Bytes)
      → Unique u.staged
      → commit c types acct encode_entry now_ms m u ≡ some (some built)
      → key_effect (obj_key acct type_name id) built.ops cur
        ≡ image_after c (find type_name id u.staged) cur
  commit_stores m u built cur unique h =
      let (current, b, hb, joined) = committed_batch m u built h in
      ap (λ o. key_effect (obj_key acct type_name id) o cur) (sym joined)
      ∙ key_effect-append (obj_key acct type_name id) b.ops _ cur
      ∙ set_op-Leaves _ _ _ [] (seq-obj acct usable type_name id) (nothing-Leaves _) _
      ∙ build_batch-effect u (add_int64 current 1) b cur unique (omega arith) hb
