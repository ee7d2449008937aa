-- ===== src/ObjectDb/Blobs/Effects.antt =====
-- What the operations of a sweep do to the keys of a blob.
use naust_jmap.Prelude.{
  ℕ, ◌+◌, ◌≤◌, ◌≡◌, ◌≢◌, refl, sym, subst, ap, ◌∙◌, ◌⊎◌, inl, inr, ltb, if◌then◌else◌, Bool, true,
  false, ◌&&◌, Bool-cases, Option-cases, List, [], ◌++◌, Option, none, some, Bytes, beq, beq_iff,
  arith,
}
use naust_jmap.Backend.{Op}
use naust_jmap.Memory.Refinement.{key_effect}
use naust_jmap.Lease.Fencing.{key_effect-append}
use naust_jmap.ObjectDb.Keys.{ref_key, pending_key, upload_key, tag_seg}
use naust_jmap.ObjectDb.Keys.Names.{ref, pending, upload, key_of}
use naust_jmap.ObjectDb.Schema.{◌>>=◌}
use naust_jmap.ObjectDb.Indexing.References.{View}
use naust_jmap.ObjectDb.Blobs.{
  BlobUpload, Format, BlobStore, blob_upload, blob_referenced, content_ops, judge, sweep_candidate,
}
use naust_jmap.ObjectDb.Blobs.Touched.{
  blob_ops, content_ops-spares, hint_op, pending-blob_ops, pending-hint_op, ref-blob_ops,
  ref-hint_op, upload-blob_ops, upload-hint_op,
}

module _ (f : Format) (store : BlobStore) (keys : List Bytes) (m : View) (acct : Bytes)
    (usable : acct ≢ tag_seg) (now grace : ℕ) where
  -- What a candidate's turn comes to.
  pub data Fate (b : Bytes) : List Op → Bool → Type 0 where
    gone : m (upload_key acct b) ≡ none → Fate b (hint_op acct usable b) false
    young : Fate b [] false
    stale : blob_referenced keys acct b ≡ true → Fate b (hint_op acct usable b) false
    doomed :
        (r : BlobUpload) (ops : List Op)
        → blob_upload f m acct b ≡ some (some r)
        → r.uploaded_at + grace ≤ now
        → blob_referenced keys acct b ≡ false
        → content_ops store b ≡ some ops
        → Fate b (ops ++ blob_ops acct usable b) true

  not_found : (b : Bytes) → blob_upload f m acct b ≡ some none → m (upload_key acct b) ≡ none
  unfolding blob_upload
  not_found b h = elim (Option-cases (m (upload_key acct b))) [
    | inl absent ↦ absent
    | inr (raw, found) ↦ absurd (
        bad (f.decode raw) (
          sym (
            ap (λ o. elim o [ none ↦ some none | some x ↦ (do r ← f.decode x; some (some r)) ])
              found)
          ∙ h))
  ]
    where
      bad : (o : Option BlobUpload) → (do r ← o; some (some r)) ≡ some none → ⊥
      bad none e = ground arith
      bad (some r) e = ground arith

  conv :
      (b : Bytes) {x ops : List Op} {y del : Bool}
      → Fate b x y
      → ◌≡◌ {A = Option (List Op × Bool)} (some (x, y)) (some (ops, del))
      → Fate b ops del
  conv b {x} {ops} {y} {del} h e =
      subst (λ p. Fate b p.0 p.1) {x = (x, y)} {y = (ops, del)} (inner e) h
    where
      inner :
          ◌≡◌ {A = Option (List Op × Bool)} (some (x, y)) (some (ops, del))
          → ◌≡◌ {A = List Op × Bool} (x, y) (ops, del)
      inner e = cc

  aged : (r : BlobUpload) → ltb now (r.uploaded_at + grace) ≡ false → r.uploaded_at + grace ≤ now
  aged r h = ground arith

  no_result :
      {ops : List Op} {del : Bool} → ◌≡◌ {A = Option (List Op × Bool)} none (some (ops, del)) → ⊥
  no_result e = absurd (ground arith)

  -- The answer, from the tests that it depends on.
  abbrev judged : Bytes → Bool → Bool → Option (List Op) → Option (List Op × Bool)
  judged b true referenced content = some ([], false)
  judged b false true content = some (hint_op acct usable b, false)
  judged b false false none = none
  judged b false false (some more) = some (more ++ blob_ops acct usable b, true)

  by_tests :
      (b : Bytes) (r : BlobUpload) (ops : List Op) (del fresh referenced : Bool)
      (content : Option (List Op))
      → blob_upload f m acct b ≡ some (some r)
      → ltb now (r.uploaded_at + grace) ≡ fresh
      → blob_referenced keys acct b ≡ referenced
      → content_ops store b ≡ content
      → judged b fresh referenced content ≡ some (ops, del)
      → Fate b ops del
  by_tests b r ops del true referenced content h t u c e = conv b young e
  by_tests b r ops del false true content h t u c e = conv b (stale u) e
  by_tests b r ops del false false none h t u c e = absurd (no_result e)
  by_tests b r ops del false false (some more) h t u c e = conv b (doomed r more h (aged r t) u c) e

  judge-Fate :
      (b : Bytes) (found : Option BlobUpload) (ops : List Op) (del : Bool)
      → blob_upload f m acct b ≡ some found
      → judge f store keys m acct now grace b found ≡ some (ops, del)
      → Fate b ops del
  unfolding judge
  judge-Fate b none ops del h e = conv b (gone (not_found b h)) e
  judge-Fate b (some r) ops del h e = by_tests b r ops del _ _ _ h refl refl refl (
      sym (
        split (ltb now (r.uploaded_at + grace)) (blob_referenced keys acct b) (content_ops store b))
      ∙ e)
    where
      split :
          (fresh referenced : Bool) (content : Option (List Op))
          → ◌≡◌ {A = Option (List Op × Bool)}
              (if fresh
                then some ([], false)
                else if referenced
                then some (hint_op acct usable b, false)
                else do more ← content; some (more ++ blob_ops acct usable b, true))
              (judged b fresh referenced content)
      split true referenced content = refl
      split false true content = refl
      split false false none = refl
      split false false (some more) = refl

  pub sweep_candidate-Fate :
      (b : Bytes) (ops : List Op) (del : Bool)
      → sweep_candidate f store keys m acct now grace b ≡ some (ops, del)
      → Fate b ops del
  unfolding sweep_candidate
  sweep_candidate-Fate b ops del e = elim (Option-cases (blob_upload f m acct b)) [
    | inl bad ↦
        absurd (no_result (sym (ap (λ o. o >>= judge f store keys m acct now grace b) bad) ∙ e))
    | inr (found, h) ↦
        judge-Fate b found ops del h
          (sym (ap (λ o. o >>= judge f store keys m acct now grace b) h) ∙ e)
  ]

  -- The keys of a blob c after the turn of a candidate b.
  pub ref-Fate :
      (b : Bytes) {ops : List Op} {del : Bool} (c t i : Bytes) (cur : Option Bytes)
      → Fate b ops del
      → key_effect (ref_key acct c t i) ops cur ≡ cur
  ref-Fate b c t i cur (gone h) = ref-hint_op acct usable b c t i cur
  ref-Fate b c t i cur young = (unfold key_effect in refl)
  ref-Fate b c t i cur (stale h) = ref-hint_op acct usable b c t i cur
  ref-Fate b c t i cur (doomed r ops h old free e) =
      key_effect-append (ref_key acct c t i) ops (blob_ops acct usable b) cur
      ∙ ref-blob_ops acct usable b c t i (key_effect (ref_key acct c t i) ops cur)
      ∙ (unfold key_of in content_ops-spares store b ops (ref acct c t i) cur e)

  pub upload-Fate :
      (b : Bytes) {ops : List Op} {del : Bool} (c : Bytes) (cur : Option Bytes)
      → Fate b ops del
      → key_effect (upload_key acct c) ops cur ≡ (if del && beq b c then none else cur)
  upload-Fate b c cur (gone h) = upload-hint_op acct usable b c cur
  upload-Fate b c cur young = (unfold key_effect in refl)
  upload-Fate b c cur (stale h) = upload-hint_op acct usable b c cur
  upload-Fate b c cur (doomed r ops h old free e) =
      key_effect-append (upload_key acct c) ops (blob_ops acct usable b) cur
      ∙ upload-blob_ops acct usable b c (key_effect (upload_key acct c) ops cur)
      ∙ ap (λ o. if beq b c then none else o)
          (unfold key_of in content_ops-spares store b ops (upload acct c) cur e)

  -- Why the hint of a blob may go.
  abbrev pub Cleared : Bytes → Bool → Type 0
  Cleared c deleted =
      (m (upload_key acct c) ≡ none) ⊎ ((blob_referenced keys acct c ≡ true) ⊎ (deleted ≡ true))

  pub pending-Fate :
      (b : Bytes) {ops : List Op} {del : Bool} (c : Bytes) (cur : Option Bytes)
      → Fate b ops del
      → (key_effect (pending_key acct c) ops cur ≡ cur) ⊎ Cleared c (del && beq b c)
  pending-Fate b c cur (gone h) = elim (Bool-cases (beq b c)) [
    | inl same ↦ inr (inl (subst (λ x. m (upload_key acct x) ≡ none) ((beq_iff b c).0 same) h))
    | inr other ↦ inl (pending-hint_op acct usable b c cur ∙ rw other refl)
  ]
  pending-Fate b c cur young = inl (unfold key_effect in refl)
  pending-Fate b c cur (stale h) = elim (Bool-cases (beq b c)) [
    | inl same ↦
        inr (inr (inl (subst (λ x. blob_referenced keys acct x ≡ true) ((beq_iff b c).0 same) h)))
    | inr other ↦ inl (pending-hint_op acct usable b c cur ∙ rw other refl)
  ]
  pending-Fate b c cur (doomed r ops h old free e) = elim (Bool-cases (beq b c)) [
    | inl same ↦ inr (inr (inr same))
    | inr other ↦ inl (
        key_effect-append (pending_key acct c) ops (blob_ops acct usable b) cur
        ∙ pending-blob_ops acct usable b c (key_effect (pending_key acct c) ops cur)
        ∙ ap (λ t. if t then none else key_effect (pending_key acct c) ops cur) other
        ∙ (unfold key_of in content_ops-spares store b ops (pending acct c) cur e))
  ]

  -- A blob that the sweep may delete.
  pub record IsDoomed (c : Bytes) : Type 0 where
    pub upload_record : BlobUpload
    pub found : blob_upload f m acct c ≡ some (some upload_record)
    pub old : upload_record.uploaded_at + grace ≤ now
    pub free : blob_referenced keys acct c ≡ false

  pub IsDoomed-Fate :
      (b : Bytes) {ops : List Op} {del : Bool} → Fate b ops del → del ≡ true → IsDoomed b
  IsDoomed-Fate b (gone h) d = absurd (ground arith)
  IsDoomed-Fate b young d = absurd (ground arith)
  IsDoomed-Fate b (stale h) d = absurd (ground arith)
  IsDoomed-Fate b (doomed r ops h old free e) d = record {
    upload_record = r;
    found = h;
    old = old;
    free = free;
  }
