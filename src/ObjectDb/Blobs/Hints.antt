-- ===== src/ObjectDb/Blobs/Hints.antt =====
-- The pending hints and the grace window: what keeps a referenced blob, and what finds the others.
use naust_jmap.Prelude.{
  ℕ, ◌≡◌, ◌≢◌, refl, subst, inl, inr, ltb, if◌then◌else◌, true, false, Bool-cases, Option-cases,
  List, [], ◌∷◌, Option, none, some, Bytes, beq, beq_iff, beq_refl, arith,
}
use naust_jmap.Backend.{Op, set_op}
use naust_jmap.Memory.Refinement.{key_effect, op_effect}
use naust_jmap.ObjectDb.Keys.{ref_key, pending_key, upload_key, tag_seg}
use naust_jmap.ObjectDb.Changes.{seen}
use naust_jmap.ObjectDb.Indexing.References.{
  View, apply, HasHints, hint_kept, held, pending-upload, pending-ref, pendings-other, other-ne,
}
use naust_jmap.ObjectDb.Blobs.{
  Format, BlobStore, blob_upload, record_upload, candidates, Swept, min_unreferenced_age,
}
use naust_jmap.ObjectDb.Blobs.Touched.{uploads-other, upload-ref, upload-pending}
use naust_jmap.ObjectDb.Blobs.Turns.{Turns}

module _ (acct : Bytes) (usable : acct ≢ tag_seg) where
  abbrev pub upload_ops : Bytes → Option Bytes → List Op
  upload_ops b raw = set_op (upload_key acct b) raw ∷ set_op (pending_key acct b) none ∷ []

  untouched_upload :
      (b : Bytes) (raw : Option Bytes) (m : View) (k : Bytes)
      → beq (upload_key acct b) k ≡ false
      → beq (pending_key acct b) k ≡ false
      → apply (upload_ops b raw) m k ≡ m k
  unfolding apply key_effect op_effect
  untouched_upload b raw m k p q = rw (p, q) refl

  hinted :
      (b : Bytes) (raw : Option Bytes) (m : View)
      → apply (upload_ops b raw) m (pending_key acct b) ≡ some []
  unfolding apply key_effect op_effect
  hinted b raw m = rw (beq_refl (pending_key acct b)) refl

  upload_ops-HasHints :
      (b : Bytes) (raw : Option Bytes) (m : View)
      → HasHints acct m
      → HasHints acct (apply (upload_ops b raw) m)
  upload_ops-HasHints b raw m h c bytes free up = elim (Bool-cases (beq b c)) [
    | inl same ↦ held acct usable (apply (upload_ops b raw) m (pending_key acct c)) (
        subst (λ x. apply (upload_ops b raw) m (pending_key acct x) ≡ some [])
          ((beq_iff b c).0 same) (hinted b raw m))
    | inr other ↦
        hint_kept acct usable m (apply (upload_ops b raw) m) c
          (λ t i.
            untouched_upload b raw m (ref_key acct c t i) (upload-ref acct usable b c t i)
              (pending-ref acct usable b c t i))
          (untouched_upload b raw m (upload_key acct c)
            (uploads-other acct usable b c (other-ne acct usable b c other))
            (pending-upload acct usable b c))
          (untouched_upload b raw m (pending_key acct c) (upload-pending acct usable b c)
            (pendings-other acct usable b c (other-ne acct usable b c other)))
          h bytes free up
  ]

  -- After recordUpload each uploaded blob that no record refers to is a candidate of the sweep, if
  -- that was so before it.
  pub record_upload-HasHints :
      (f : Format) (m : View) (b uploader : Bytes) (now : ℕ) (ops : List Op)
      → record_upload f m acct b uploader now ≡ some ops
      → HasHints acct m
      → HasHints acct (apply ops m)
  unfolding record_upload
  record_upload-HasHints f m b uploader now ops e h = elim (Option-cases (blob_upload f m acct b)) [
    | inl bad ↦ absurd (no_ops (rw bad at e))
    | inr (found, ok) ↦
        subst (λ o. HasHints acct (apply o m)) (ops_eq _ _ (rw ok at e))
          (upload_ops-HasHints b _ m h)
  ]
    where
      no_ops : ◌≡◌ {A = Option (List Op)} none (some ops) → ⊥
      no_ops e = absurd (ground arith)

      ops_eq : (x y : List Op) → some x ≡ some y → x ≡ y
      ops_eq x y e = cc

-- The window that a sweep uses.
abbrev pub window_of : ℕ → ℕ
window_of grace = if ltb grace min_unreferenced_age then min_unreferenced_age else grace

module _ (f : Format) (store : BlobStore) (keys : List Bytes) (m : View) (acct : Bytes)
    (usable : acct ≢ tag_seg) (now grace : ℕ) where
  -- The turns that stand behind a sweep.
  pub record IsRun (r : Swept) : Type 0 where
    pub deleted : List Bytes
    pub turns :
        Turns f store keys m acct usable now
          (window_of grace)
          (candidates f store keys m acct)
          r.ops
          deleted
    pub answered : (c : Bytes) → seen c r.deleted ≡ true → seen c deleted ≡ true
