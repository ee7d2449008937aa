-- ===== src/ObjectDb/Indexing/References.antt =====
-- The pending hints of core/objectdb/blobs.go that refOps keeps.
use naust_jmap.Prelude.{
  ◌≡◌, ◌≢◌, refl, sym, subst, ◌∙◌, inl, inr, true, false, Bool-cases, List, [], ◌∷◌, ◌++◌, Option,
  none, some, Bytes, AllBytes, beq, beq_iff, beq_refl, arith,
}
use naust_jmap.Backend.{Op, set_op, delete_op}
use naust_jmap.Memory.Refinement.{key_effect, op_effect}
use naust_jmap.Lease.Fencing.{key_effect-append}
use naust_jmap.ObjectDb.Keys.{ref_key, pending_key, upload_key, tag_seg}
use naust_jmap.ObjectDb.Keys.Names.{
  Name, ref, pending, upload, key_of, key_of_injective, IsUsable, beq-ne,
}
use naust_jmap.ObjectDb.Changes.{seen}
use naust_jmap.ObjectDb.Schema.{Descriptor, Object, Codec}
use naust_jmap.ObjectDb.Indexing.{blob_refs_of, dropped_refs, added_refs, ref_ops}

-- What a store holds, by key.
abbrev pub View : Type 0
View = Bytes → Option Bytes

unfoldable pub apply : List Op → View → View
apply ops m k = key_effect k ops (m k)

pub apply-append :
    (xs ys : List Op) (m : View) (k : Bytes) → apply (xs ++ ys) m k ≡ apply ys (apply xs m) k
unfolding apply
apply-append xs ys m k = key_effect-append k xs ys (m k)

-- No record refers to the blob.
abbrev pub IsUnreferenced : Bytes → Bytes → View → Type 0
IsUnreferenced acct b m = (type_name id : Bytes) → m (ref_key acct b type_name id) ≡ none

-- Each blob of the account that was uploaded and that no record refers to is a candidate of the
-- sweep.
abbrev pub HasHints : Bytes → View → Type 0
HasHints acct m =
    (b : Bytes)
    → AllBytes b
    → IsUnreferenced acct b m
    → m (upload_key acct b) ≢ none
    → m (pending_key acct b) ≢ none

pub name-ne : (m n : Name) → IsUsable m → IsUsable n → m ≢ n → beq (key_of m) (key_of n) ≡ false
name-ne m n hm hn h = beq-ne _ _ (λ e. h (key_of_injective m n hm hn e))

module _ (acct : Bytes) (usable : acct ≢ tag_seg) where
  pub pending-upload : (b c : Bytes) → beq (pending_key acct b) (upload_key acct c) ≡ false
  pending-upload b c =
      unfold key_of in name-ne (pending acct b) (upload acct c) usable usable (λ e. ground arith)

  pub pending-ref :
      (b c type_name id : Bytes) → beq (pending_key acct b) (ref_key acct c type_name id) ≡ false
  pending-ref b c type_name id =
      unfold key_of in
      name-ne (pending acct b) (ref acct c type_name id) usable usable (λ e. ground arith)

  pub ref-upload :
      (b type_name id c : Bytes) → beq (ref_key acct b type_name id) (upload_key acct c) ≡ false
  ref-upload b type_name id c =
      unfold key_of in
      name-ne (ref acct b type_name id) (upload acct c) usable usable (λ e. ground arith)

  pub ref-pending :
      (b type_name id c : Bytes) → beq (ref_key acct b type_name id) (pending_key acct c) ≡ false
  ref-pending b type_name id c =
      unfold key_of in
      name-ne (ref acct b type_name id) (pending acct c) usable usable (λ e. ground arith)

  ref_ne : (b type_name id c t i : Bytes) → b ≢ c → ref acct b type_name id ≢ ref acct c t i
  ref_ne b type_name id c t i h e = h (ground arith)

  pending_ne : (b c : Bytes) → b ≢ c → pending acct b ≢ pending acct c
  pending_ne b c h e = h (ground arith)

  pub refs-other :
      (b type_name id c t i : Bytes)
      → b ≢ c
      → beq (ref_key acct b type_name id) (ref_key acct c t i) ≡ false
  refs-other b type_name id c t i h =
      unfold key_of in
      name-ne (ref acct b type_name id) (ref acct c t i) usable usable
        (ref_ne b type_name id c t i h)

  pub pendings-other : (b c : Bytes) → b ≢ c → beq (pending_key acct b) (pending_key acct c) ≡ false
  pendings-other b c h =
      unfold key_of in name-ne (pending acct b) (pending acct c) usable usable (pending_ne b c h)

  -- The operations of one reference that goes, and of one that comes.
  abbrev pub drop_pair : Bytes → Bytes → Bytes → List Op
  drop_pair b type_name id =
      delete_op (ref_key acct b type_name id) ∷ set_op (pending_key acct b) none ∷ []

  abbrev pub add_pair : Bytes → Bytes → Bytes → List Op
  add_pair b type_name id =
      set_op (ref_key acct b type_name id) none ∷ delete_op (pending_key acct b) ∷ []

  -- The view at the keys of another blob.
  untouched_drop :
      (b type_name id : Bytes) (m : View) (k : Bytes)
      → beq (ref_key acct b type_name id) k ≡ false
      → beq (pending_key acct b) k ≡ false
      → apply (drop_pair b type_name id) m k ≡ m k
  unfolding apply key_effect op_effect
  untouched_drop b type_name id m k p q = rw (p, q) refl

  untouched_add :
      (b type_name id : Bytes) (m : View) (k : Bytes)
      → beq (ref_key acct b type_name id) k ≡ false
      → beq (pending_key acct b) k ≡ false
      → apply (add_pair b type_name id) m k ≡ m k
  unfolding apply key_effect op_effect
  untouched_add b type_name id m k p q = rw (p, q) refl

  pub hint_kept :
      (m m' : View) (c : Bytes)
      → ((t i : Bytes) → m' (ref_key acct c t i) ≡ m (ref_key acct c t i))
      → m' (upload_key acct c) ≡ m (upload_key acct c)
      → m' (pending_key acct c) ≡ m (pending_key acct c)
      → HasHints acct m
      → AllBytes c
      → IsUnreferenced acct c m'
      → m' (upload_key acct c) ≢ none
      → m' (pending_key acct c) ≢ none
  hint_kept m m' c r u p h bytes free up gone =
      h c bytes (λ t i. sym (r t i) ∙ free t i) (λ e. up (u ∙ e)) (sym p ∙ gone)

  pending-dropped :
      (b type_name id : Bytes) (m : View)
      → apply (drop_pair b type_name id) m (pending_key acct b) ≡ some []
  unfolding apply key_effect op_effect
  pending-dropped b type_name id m = rw (beq_refl (pending_key acct b)) refl

  ref-added :
      (b type_name id : Bytes) (m : View)
      → apply (add_pair b type_name id) m (ref_key acct b type_name id) ≡ some []
  unfolding apply key_effect op_effect
  ref-added b type_name id m =
      rw (beq_refl (ref_key acct b type_name id), pending-ref b b type_name id) refl

  pub held : (o : Option Bytes) → o ≡ some [] → o ≡ none → ⊥
  held o p q = absurd (ground arith)

  pub other-ne : (b c : Bytes) → beq b c ≡ false → b ≢ c
  other-ne b c h e = absurd (clash (sym h ∙ (beq_iff b c).1 e))
    where
      clash : false ≡ true → ⊥
      clash e = ground arith

  drop-HasHints :
      (b type_name id : Bytes) (m : View)
      → HasHints acct m
      → HasHints acct (apply (drop_pair b type_name id) m)
  drop-HasHints b type_name id m h c bytes free up = elim (Bool-cases (beq b c)) [
    | inl same ↦ held (apply (drop_pair b type_name id) m (pending_key acct c)) (
        subst (λ x. apply (drop_pair b type_name id) m (pending_key acct x) ≡ some [])
          ((beq_iff b c).0 same) (pending-dropped b type_name id m))
    | inr other ↦
        hint_kept m (apply (drop_pair b type_name id) m) c
          (λ t i.
            untouched_drop b type_name id m (ref_key acct c t i)
              (refs-other b type_name id c t i (other-ne b c other)) (pending-ref b c t i))
          (untouched_drop b type_name id m (upload_key acct c) (ref-upload b type_name id c)
            (pending-upload b c))
          (untouched_drop b type_name id m (pending_key acct c) (ref-pending b type_name id c)
            (pendings-other b c (other-ne b c other)))
          h bytes free up
  ]

  add-HasHints :
      (b type_name id : Bytes) (m : View)
      → HasHints acct m
      → HasHints acct (apply (add_pair b type_name id) m)
  add-HasHints b type_name id m h c bytes free up = elim (Bool-cases (beq b c)) [
    | inl same ↦ absurd (
        held (apply (add_pair b type_name id) m (ref_key acct b type_name id))
          (ref-added b type_name id m)
          (subst (λ x. apply (add_pair b type_name id) m (ref_key acct x type_name id) ≡ none)
            (sym ((beq_iff b c).0 same)) (free type_name id)))
    | inr other ↦
        hint_kept m (apply (add_pair b type_name id) m) c
          (λ t i.
            untouched_add b type_name id m (ref_key acct c t i)
              (refs-other b type_name id c t i (other-ne b c other)) (pending-ref b c t i))
          (untouched_add b type_name id m (upload_key acct c) (ref-upload b type_name id c)
            (pending-upload b c))
          (untouched_add b type_name id m (pending_key acct c) (ref-pending b type_name id c)
            (pendings-other b c (other-ne b c other)))
          h bytes free up
  ]

  -- A batch of operations that goes through the pairs one after another.
  HasHints-then :
      (xs ys : List Op) (m : View)
      → HasHints acct (apply ys (apply xs m))
      → HasHints acct (apply (xs ++ ys) m)
  HasHints-then xs ys m h c bytes free up gone =
      h c bytes (λ t i. sym (apply-append xs ys m _) ∙ free t i)
        (λ e. up (apply-append xs ys m _ ∙ e)) (sym (apply-append xs ys m _) ∙ gone)

module _ (c : Codec) (acct : Bytes) (usable : acct ≢ tag_seg) (t : Descriptor) (id : Bytes) where
  dropped_refs-HasHints :
      (news olds : List Bytes) (m : View)
      → HasHints acct m
      → HasHints acct (apply (dropped_refs c acct t id news olds) m)
  unfolding dropped_refs
  dropped_refs-HasHints news [] m h = (unfold apply key_effect in h)
  dropped_refs-HasHints news (b ∷ olds) m h = elim (Bool-cases (seen b news)) [
    | inl stays ↦ rw stays (dropped_refs-HasHints news olds m h)
    | inr goes ↦ rw goes (
        HasHints-then acct usable (drop_pair acct usable b t.name id)
          (dropped_refs c acct t id news olds) m
          (dropped_refs-HasHints news olds _ (drop-HasHints acct usable b t.name id m h)))
  ]

  added_refs-HasHints :
      (olds news : List Bytes) (m : View)
      → HasHints acct m
      → HasHints acct (apply (added_refs c acct t id olds news) m)
  unfolding added_refs
  added_refs-HasHints olds [] m h = (unfold apply key_effect in h)
  added_refs-HasHints olds (b ∷ news) m h = elim (Bool-cases (seen b olds)) [
    | inl there ↦ rw there (added_refs-HasHints olds news m h)
    | inr fresh ↦ rw fresh (
        HasHints-then acct usable (add_pair acct usable b t.name id)
          (added_refs c acct t id olds news) m
          (added_refs-HasHints olds news _ (add-HasHints acct usable b t.name id m h)))
  ]

  -- Whatever the old and the new version of a record refer to: after the operations of refOps, each
  -- uploaded blob that no record refers to is a candidate of the sweep, if that was so before them.
  pub ref_ops-HasHints :
      (old new : Option Object) (m : View)
      → HasHints acct m
      → HasHints acct (apply (ref_ops c acct t id old new) m)
  unfolding ref_ops
  ref_ops-HasHints old new m h =
      HasHints-then acct usable (dropped_refs c acct t id news olds)
        (added_refs c acct t id olds news) m
        (added_refs-HasHints olds news _ (dropped_refs-HasHints news olds m h))
    where
      olds : List Bytes
      olds = blob_refs_of c acct t id t.properties old

      news : List Bytes
      news = blob_refs_of c acct t id t.properties new
