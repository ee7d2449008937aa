-- ===== src/ObjectDb/Blobs/Touched.antt =====
-- The keys that a sweep (core/objectdb/blobs.go) touches.
use naust_jmap.Prelude.{
  ◌≡◌, ◌≢◌, refl, sym, subst, ◌∙◌, inl, inr, if◌then◌else◌, true, false, Bool-cases, List, [], ◌∷◌,
  Option, none, some, Bytes, beq, beq_iff, beq_refl, arith,
}
use naust_jmap.Backend.{Op, delete_op}
use naust_jmap.Memory.Refinement.{key_effect, op_effect}
use naust_jmap.ObjectDb.Keys.{ref_key, pending_key, upload_key, tag_seg}
use naust_jmap.ObjectDb.Keys.Names.{Name, ref, pending, upload, key_of}
use naust_jmap.ObjectDb.Indexing.References.{name-ne, pending-upload, pending-ref, pendings-other}
use naust_jmap.ObjectDb.Blobs.{BlobStore, content_ops}

module _ (acct : Bytes) (usable : acct ≢ tag_seg) where
  upload_ne : (b c : Bytes) → b ≢ c → upload acct b ≢ upload acct c
  upload_ne b c h e = h (ground arith)

  pub uploads-other : (b c : Bytes) → b ≢ c → beq (upload_key acct b) (upload_key acct c) ≡ false
  uploads-other b c h =
      unfold key_of in name-ne (upload acct b) (upload acct c) usable usable (upload_ne b c h)

  pub upload-ref :
      (b c type_name id : Bytes) → beq (upload_key acct b) (ref_key acct c type_name id) ≡ false
  upload-ref b c type_name id =
      unfold key_of in
      name-ne (upload acct b) (ref acct c type_name id) usable usable (λ e. ground arith)

  pub upload-pending : (b c : Bytes) → beq (upload_key acct b) (pending_key acct c) ≡ false
  upload-pending b c =
      unfold key_of in name-ne (upload acct b) (pending acct c) usable usable (λ e. ground arith)

  -- Operations on the record and the hint of a blob.
  abbrev pub hint_op : Bytes → List Op
  hint_op b = delete_op (pending_key acct b) ∷ []

  abbrev pub blob_ops : Bytes → List Op
  blob_ops b = delete_op (upload_key acct b) ∷ delete_op (pending_key acct b) ∷ []

  pub ref-hint_op :
      (b c t i : Bytes) (cur : Option Bytes) → key_effect (ref_key acct c t i) (hint_op b) cur ≡ cur
  unfolding key_effect op_effect
  ref-hint_op b c t i cur = rw (pending-ref acct usable b c t i) refl

  pub upload-hint_op :
      (b c : Bytes) (cur : Option Bytes) → key_effect (upload_key acct c) (hint_op b) cur ≡ cur
  unfolding key_effect op_effect
  upload-hint_op b c cur = rw (pending-upload acct usable b c) refl

  pub ref-blob_ops :
      (b c t i : Bytes) (cur : Option Bytes)
      → key_effect (ref_key acct c t i) (blob_ops b) cur ≡ cur
  unfolding key_effect op_effect
  ref-blob_ops b c t i cur = rw (upload-ref b c t i, pending-ref acct usable b c t i) refl

  beq-injective :
      (f : Bytes → Bytes)
      → ((b c : Bytes) → b ≢ c → beq (f b) (f c) ≡ false)
      → (b c : Bytes) → beq (f b) (f c) ≡ beq b c
  beq-injective f h b c = elim (Bool-cases (beq b c)) [
    | inl same ↦
        subst (λ x. beq (f b) (f x) ≡ beq b x) ((beq_iff b c).0 same)
          (beq_refl (f b) ∙ sym (beq_refl b))
    | inr other ↦ h b c (λ e. clash (sym other ∙ (beq_iff b c).1 e)) ∙ sym other
  ]
    where
      clash : false ≡ true → ⊥
      clash e = ground arith

  pub beq-upload : (b c : Bytes) → beq (upload_key acct b) (upload_key acct c) ≡ beq b c
  beq-upload = beq-injective (upload_key acct) uploads-other

  pub beq-pending : (b c : Bytes) → beq (pending_key acct b) (pending_key acct c) ≡ beq b c
  beq-pending = beq-injective (pending_key acct) (pendings-other acct usable)

  pub upload-blob_ops :
      (b c : Bytes) (cur : Option Bytes)
      → key_effect (upload_key acct c) (blob_ops b) cur ≡ (if beq b c then none else cur)
  unfolding key_effect op_effect
  upload-blob_ops b c cur = rw (beq-upload b c, pending-upload acct usable b c) refl

  pub pending-hint_op :
      (b c : Bytes) (cur : Option Bytes)
      → key_effect (pending_key acct c) (hint_op b) cur ≡ (if beq b c then none else cur)
  unfolding key_effect op_effect
  pending-hint_op b c cur = rw (beq-pending b c) refl

  pub pending-blob_ops :
      (b c : Bytes) (cur : Option Bytes)
      → key_effect (pending_key acct c) (blob_ops b) cur ≡ (if beq b c then none else cur)
  unfolding key_effect op_effect
  pending-blob_ops b c cur = rw (beq-pending b c, upload-pending b c) refl

pub content_ops-spares :
    (store : BlobStore) (b : Bytes) (ops : List Op) (n : Name) (cur : Option Bytes)
    → content_ops store b ≡ some ops
    → key_effect (key_of n) ops cur ≡ cur
unfolding content_ops
content_ops-spares store b ops n cur e = elim (Bool-cases store.fenced) [
  | inl f ↦ store.append_delete-spares b ops n cur (rw f at e)
  | inr f ↦ elim (Bool-cases (store.delete b)) [
    | inl d ↦ empty ops (rw (f, d) at e)
    | inr d ↦ absurd (clash (rw (f, d) at e))
  ]
]
  where
    empty :
        (xs : List Op)
        → ◌≡◌ {A = Option (List Op)} (some []) (some xs)
        → key_effect (key_of n) xs cur ≡ cur
    empty [] e = unfold key_effect in refl
    empty (x ∷ xs) e = absurd (ground arith)

    clash : ◌≡◌ {A = Option (List Op)} none (some ops) → ⊥
    clash e = ground arith
