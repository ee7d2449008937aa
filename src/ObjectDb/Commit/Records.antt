-- ===== src/ObjectDb/Commit/Records.antt =====
-- What the batch of a commit (buildBatch and update in core/objectdb/objectdb.go) makes of each
-- record of the account.
use naust_jmap.Prelude.{
  ◌≡◌, ◌≢◌, refl, sym, ap, ◌∙◌, inl, inr, if◌then◌else◌, Bool, true, false, Bool-cases,
  Option-cases, List, [], ◌∷◌, ◌++◌, Option, none, some, Bytes, beq, beq_refl, arith,
}
use naust_jmap.Prelude.GoMap
use naust_jmap.Backend.{Op, set_op, delete_op}
use naust_jmap.Memory.Refinement.{key_effect, op_effect}
use naust_jmap.Lease.Fencing.{key_effect-append}
use naust_jmap.ObjectDb.Keys.{obj_key, tag_seg}
use naust_jmap.ObjectDb.Keys.Names.{object, key_of}
use naust_jmap.ObjectDb.Schema.{Descriptor, Object, Codec}
use naust_jmap.ObjectDb.Indexing.{index_ops, set_index_ops}
use naust_jmap.ObjectDb.Indexing.References.{name-ne}
use naust_jmap.ObjectDb.Update.{Staged, same_key, find}
use naust_jmap.ObjectDb.Update.Staging.{Unique, same_key_iff, same_key_refl, find-same}
use naust_jmap.ObjectDb.Commit.{cancelled, image_ops, record_ops, staged_ops, pre_image}
use naust_jmap.ObjectDb.Commit.Touched.{Leaves, nothing-Leaves}
use naust_jmap.ObjectDb.Commit.Indexed.{index_ops-Leaves, set_index_ops-Leaves, ref_ops-Leaves}

-- What the store holds at a record's key after a commit, from the staged entry of the record.
abbrev pub image_after : Codec → Option Staged → Option Bytes → Option Bytes
image_after c none cur = cur
image_after c (some st) cur =
    if cancelled st then cur else elim st.new [ none ↦ none | some obj ↦ c.encode_object obj ]

module _ (c : Codec) (types : List (Bytes × Descriptor)) (acct : Bytes) (usable : acct ≢ tag_seg)
    (type_name id : Bytes) where
  named_apart :
      (st : Staged)
      → same_key type_name id st ≡ false
      → object acct st.type_name st.id ≢ object acct type_name id
  named_apart st other e =
      let (t, i) = parts st.type_name st.id type_name id e in
      clash (
        sym (same_key_refl st)
        ∙ ap (λ x. same_key x st.id st) t
        ∙ ap (λ x. same_key type_name x st) i
        ∙ other)
    where
      clash : true ≡ false → ⊥
      clash e = ground arith

      parts : (a b x y : Bytes) → object acct a b ≡ object acct x y → (a ≡ x) × (b ≡ y)
      parts a b x y e = (ground arith, ground arith)

  obj-other :
      (st : Staged)
      → same_key type_name id st ≡ false
      → beq (obj_key acct st.type_name st.id) (obj_key acct type_name id) ≡ false
  obj-other st other =
      unfold key_of in
      name-ne (object acct st.type_name st.id) (object acct type_name id) usable usable
        (named_apart st other)

  beq-obj :
      (st : Staged)
      → beq (obj_key acct st.type_name st.id) (obj_key acct type_name id) ≡ same_key type_name id st
  beq-obj st = elim (Bool-cases (same_key type_name id st)) [
    | inl same ↦
        let (t, i) = same_key_iff type_name id st same in
        ap (λ x. beq (obj_key acct x st.id) (obj_key acct type_name id)) t
        ∙ ap (λ x. beq (obj_key acct type_name x) (obj_key acct type_name id)) i
        ∙ beq_refl (obj_key acct type_name id)
        ∙ sym same
    | inr other ↦ obj-other st other ∙ sym other
  ]

  abbrev pub the_key : Bytes
  the_key = obj_key acct type_name id

  -- The new bytes of a record, at the key of the record that is asked for.
  abbrev pub image_of : Staged → Option Bytes
  image_of st = elim st.new [ none ↦ none | some obj ↦ c.encode_object obj ]

  no_ops : (xs : List Op) → ◌≡◌ {A = Option (List Op)} none (some xs) → ⊥
  no_ops xs e = absurd (ground arith)

  same_ops : (xs ys : List Op) → some xs ≡ some ys → xs ≡ ys
  same_ops xs ys e = cc

  delete-effect :
      (st : Staged) (cur : Option Bytes)
      → key_effect the_key (delete_op (obj_key acct st.type_name st.id) ∷ []) cur
        ≡ (if same_key type_name id st then none else cur)
  unfolding key_effect op_effect
  delete-effect st cur = rw (beq-obj st) refl

  set-effect :
      (st : Staged) (raw : Bytes) (cur : Option Bytes)
      → key_effect the_key (set_op (obj_key acct st.type_name st.id) (some raw) ∷ []) cur
        ≡ (if same_key type_name id st then some raw else cur)
  unfolding key_effect op_effect
  set-effect st raw cur = rw (beq-obj st) refl

  image_ops-effect :
      (st : Staged) (xs : List Op) (cur : Option Bytes)
      → image_ops c types acct st ≡ some xs
      → key_effect the_key xs cur ≡ (if same_key type_name id st then image_of st else cur)
  unfolding image_ops
  image_ops-effect st xs cur h = elim (Option-cases st.new) [
    | inl gone ↦
        ap (λ o. key_effect the_key o cur) (sym (same_ops _ xs (rw gone at h)))
        ∙ delete-effect st cur
        ∙ ap
            (λ (o : Option Object).
              if same_key type_name id st
              then elim o [ none ↦ none | some obj ↦ c.encode_object obj ]
              else cur)
            (sym gone)
    | inr (obj, kept) ↦ elim (Option-cases (c.encode_object obj)) [
      | inl bad ↦ absurd (no_ops xs (rw (kept, bad) at h))
      | inr (raw, found) ↦
          ap (λ o. key_effect the_key o cur) (sym (same_ops _ xs (rw (kept, found) at h)))
          ∙ set-effect st raw cur
          ∙ ap (λ o. if same_key type_name id st then o else cur) (sym found)
          ∙ ap
              (λ (o : Option Object).
                if same_key type_name id st
                then elim o [ none ↦ none | some x ↦ c.encode_object x ]
                else cur)
              (sym kept)
    ]
  ]

  -- Operations that leave the key alone after others.
  then-Leaves :
      (xs ys : List Op) (cur : Option Bytes)
      → Leaves the_key ys
      → key_effect the_key (xs ++ ys) cur ≡ key_effect the_key xs cur
  then-Leaves xs ys cur h = key_effect-append the_key xs ys cur ∙ h (key_effect the_key xs cur)

  record_ops-effect :
      (t : Descriptor) (st : Staged) (xs : List Op) (cur : Option Bytes)
      → record_ops c types acct t st ≡ some xs
      → key_effect the_key xs cur ≡ (if same_key type_name id st then image_of st else cur)
  unfolding record_ops
  record_ops-effect t st xs cur h = elim (Option-cases (image_ops c types acct st)) [
    | inl bad ↦ absurd (no_ops xs (rw bad at h))
    | inr (image, hi) ↦
        elim (Option-cases (index_ops c acct t st.id (pre_image c types acct st) st.new)) [
          | inl bad ↦ absurd (no_ops xs (rw (hi, bad) at h))
          | inr (indexed, hx) ↦
              elim (Option-cases
                (set_index_ops c acct t st.id (pre_image c types acct st) st.new)) [
                  | inl bad ↦ absurd (no_ops xs (rw (hi, hx, bad) at h))
                  | inr (members, hm) ↦
                      ap (λ o. key_effect the_key o cur)
                        (sym (same_ops _ xs (rw (hi, hx, hm) at h)))
                      ∙ then-Leaves _ members cur
                          (set_index_ops-Leaves acct usable type_name id c t st.id _ _ members hm)
                      ∙ then-Leaves _ _ cur (ref_ops-Leaves acct usable type_name id c t st.id _ _)
                      ∙ then-Leaves image indexed cur
                          (index_ops-Leaves acct usable type_name id c t st.id _ _ indexed hx)
                      ∙ image_ops-effect st image cur hi
                ]
        ]
  ]

  -- The turn of one record in the loop.
  staged_step :
      (st : Staged) (sts : List Staged) (ops : List Op)
      → cancelled st ≡ false
      → staged_ops c types acct (st ∷ sts) ≡ some ops
      → (here : List Op) × (after : List Op) × ((cur : Option Bytes)
          → key_effect the_key here cur ≡ (if same_key type_name id st then image_of st else cur))
        × (staged_ops c types acct sts ≡ some after)
        × (here ++ after ≡ ops)
  unfolding staged_ops
  staged_step st sts ops k h = elim (Option-cases (GoMap.get st.type_name types)) [
    | inl bad ↦ absurd (no_ops ops (rw (k, bad) at h))
    | inr (t, ht) ↦ elim (Option-cases (record_ops c types acct t st)) [
      | inl bad ↦ absurd (no_ops ops (rw (k, ht, bad) at h))
      | inr (here, hh) ↦ elim (Option-cases (staged_ops c types acct sts)) [
        | inl bad ↦ absurd (no_ops ops (rw (k, ht, hh, bad) at h))
        | inr (after, ha) ↦ (
          here,
          after,
          λ cur. record_ops-effect t st here cur hh,
          ha,
          same_ops _ ops (rw (k, ht, hh, ha) at h),
        )
      ]
    ]
  ]

  skipped :
      (b : Bool) (st : Staged) (o : Option Staged) (cur : Option Bytes)
      → cancelled st ≡ true
      → (b ≡ true → o ≡ none)
      → image_after c o cur ≡ image_after c (if b then some st else o) cur
  skipped true st o cur k h =
      ap (λ x. image_after c x cur) (h refl) ∙ ap (λ x. if x then cur else image_of st) (sym k)
  skipped false st o cur k h = refl

  written :
      (b : Bool) (st : Staged) (o : Option Staged) (cur : Option Bytes)
      → cancelled st ≡ false
      → (b ≡ true → o ≡ none)
      → image_after c o (if b then image_of st else cur)
        ≡ image_after c (if b then some st else o) cur
  written true st o cur k h =
      ap (λ x. image_after c x (image_of st)) (h refl)
      ∙ ap (λ x. if x then cur else image_of st) (sym k)
  written false st o cur k h = refl

  pub staged_ops-effect :
      (sts : List Staged) (ops : List Op) (cur : Option Bytes)
      → Unique sts
      → staged_ops c types acct sts ≡ some ops
      → key_effect the_key ops cur ≡ image_after c (find type_name id sts) cur
  unfolding find staged_ops
  staged_ops-effect [] ops cur u h =
      ap (λ o. key_effect the_key o cur) (sym (same_ops [] ops h)) ∙ nothing-Leaves the_key cur
  staged_ops-effect (st ∷ sts) ops cur (fresh, u) h = elim (Bool-cases (cancelled st)) [
    | inl gone ↦
        staged_ops-effect sts ops cur u (rw gone at h)
        ∙ skipped (same_key type_name id st) st (find type_name id sts) cur gone
            (λ same. sym (find-same type_name id st sts same) ∙ fresh)
    | inr kept ↦
        let (here, after, effect, ha, joined) = staged_step st sts ops kept h in
        ap (λ o. key_effect the_key o cur) (sym joined)
        ∙ key_effect-append the_key here after cur
        ∙ staged_ops-effect sts after (key_effect the_key here cur) u ha
        ∙ ap (image_after c (find type_name id sts)) (effect cur)
        ∙ written (same_key type_name id st) st (find type_name id sts) cur kept
            (λ same. sym (find-same type_name id st sts same) ∙ fresh)
  ]
