-- ===== src/ObjectDb/Blobs/Ranges.antt =====
-- The scan of BlobReferenced, over the keys of a store.
use naust_jmap.Prelude.{
  ◌≡◌, ◌≢◌, refl, sym, subst, ap, ◌∙◌, inl, inr, Bool, true, false, ◌||◌, ◌&&◌, Bool-cases,
  and_left, and_right, Option-cases, List, [], ◌∷◌, Option, none, some, Bytes, AllBytes, beq,
  beq_iff, beq_refl, arith,
}
use mathlib.Core.Path.{ap₂}
use naust_jmap.KeyEnc.{prefix_range}
use naust_jmap.KeyEnc.Range.{in_range, segs_prefix, AllSegs, prefix_range_covers}
use naust_jmap.ObjectDb.Keys.{ref_key, tag_seg}
use naust_jmap.ObjectDb.Keys.Names.{
  Name, object, index, entry, floor, counter, type_state, tagged, upload, ref, pending, segs_of,
  key_of, key_of-segs_of, IsUsable, beq-ne,
}
use naust_jmap.ObjectDb.Changes.{seen}
use naust_jmap.ObjectDb.Blobs.{any_in, blob_referenced}
use naust_jmap.ObjectDb.Indexing.References.{View, IsUnreferenced}

-- The keys are those at which the store holds something, and all are of the object database, with
-- parts that are bytes.
pub record IsListing (keys : List Bytes) (m : View) : Type 0 where
  pub complete : (k : Bytes) → m k ≢ none → seen k keys ≡ true
  pub sound : (k : Bytes) → seen k keys ≡ true → m k ≢ none
  pub named :
      (k : Bytes)
      → seen k keys ≡ true
      → (n : Name) × IsUsable n × AllSegs (segs_of n) × (k ≡ key_of n)

or_right : (b : Bool) {c : Bool} → c ≡ true → (b || c) ≡ true
or_right true h = refl
or_right false h = h

or_rest : (b : Bool) {c : Bool} → (b || c) ≡ true → b ≡ false → c ≡ true
or_rest true h f = absurd (ground arith)
or_rest false h f = h

any_in-seen :
    (range : Bytes × Option Bytes) (keys : List Bytes) (k : Bytes)
    → seen k keys ≡ true
    → in_range range k ≡ true
    → any_in range keys ≡ true
unfolding seen any_in
any_in-seen range [] k h r = absurd (ground arith)
any_in-seen range (j ∷ keys) k h r = elim (Bool-cases (beq j k)) [
  | inl same ↦ rw (subst (λ x. in_range range x ≡ true) (sym ((beq_iff j k).0 same)) r) refl
  | inr other ↦ or_right (in_range range j) (any_in-seen range keys k (or_rest (beq j k) h other) r)
]

any_in-found :
    (range : Bytes × Option Bytes) (keys : List Bytes)
    → any_in range keys ≡ true
    → (k : Bytes) × (seen k keys ≡ true) × (in_range range k ≡ true)
unfolding seen any_in
any_in-found range [] h = absurd (ground arith)
any_in-found range (j ∷ keys) h = elim (Bool-cases (in_range range j)) [
  | inl here ↦ (j, rw (beq_refl j) refl, here)
  | inr skipped ↦
      let (k, there, inside) = any_in-found range keys (or_rest (in_range range j) h skipped) in
      (k, or_right (beq j k) there, inside)
]

refers : Bytes → Bytes → Name → Bool
refers acct b (ref a c type_name id) = beq acct a && beq b c
refers acct b _ = false

by_kind :
    (acct b : Bytes) (n : Name)
    → acct ≢ tag_seg
    → segs_prefix (acct ∷ (b'r' ∷ []) ∷ b ∷ []) (segs_of n) ≡ refers acct b n
unfolding segs_of refers segs_prefix beq
by_kind acct b (ref a c type_name id) ha = ground (arith, beq_refl (b'r' ∷ []))
by_kind acct b (entry a sequence) ha = ground arith
by_kind acct b (object a t i) ha = ground arith
by_kind acct b (index a t p v o i) ha = ground arith
by_kind acct b (floor a) ha = ground arith
by_kind acct b (counter a) ha = ground arith
by_kind acct b (type_state a t) ha = ground arith
by_kind acct b (tagged t a) ha = rw (beq-ne acct tag_seg ha) refl
by_kind acct b (upload a c) ha = ground arith
by_kind acct b (pending a c) ha = ground arith

-- A blob whose scan finds nothing has no reference whose type and id are bytes.
pub unreferenced_absent :
    (keys : List Bytes) (m : View) (acct b type_name id : Bytes)
    → IsListing keys m
    → AllBytes acct
    → AllBytes b
    → AllBytes type_name
    → AllBytes id
    → blob_referenced keys acct b ≡ false
    → m (ref_key acct b type_name id) ≡ none
unfolding blob_referenced
unreferenced_absent keys m acct b type_name id l ha hb ht hi h =
    elim (Option-cases (m (ref_key acct b type_name id))) [
      | inl absent ↦ absent
      | inr (v, found) ↦ absurd (
          clash
            (sym h ∙ any_in-seen _ keys _ (l.complete _ (λ e. none_ne v (sym e ∙ found))) inside))
    ]
  where
    clash : false ≡ true → ⊥
    clash e = ground arith

    none_ne : (v : Bytes) → none ≡ some v → ⊥
    none_ne v e = ground arith

    prefixed :
        segs_prefix (acct ∷ (b'r' ∷ []) ∷ b ∷ []) (acct ∷ (b'r' ∷ []) ∷ b ∷ type_name ∷ id ∷ [])
        ≡ true
    prefixed =
        unfold segs_prefix in rw (beq_refl acct, beq_refl b) (ground (arith, beq_refl (b'r' ∷ [])))

    inside :
        in_range (prefix_range (acct ∷ (b'r' ∷ []) ∷ b ∷ [])) (ref_key acct b type_name id) ≡ true
    inside =
        unfold ref_key in
        prefix_range_covers (acct ∷ (b'r' ∷ []) ∷ b ∷ [])
          (acct ∷ (b'r' ∷ []) ∷ b ∷ type_name ∷ id ∷ []) (ha, ((omega arith, tt), (hb, tt)))
          (ha, ((omega arith, tt), (hb, (ht, (hi, tt)))))
        ∙ prefixed

refers_ref :
    (acct b : Bytes) (n : Name)
    → refers acct b n ≡ true
    → (t : Bytes) × (i : Bytes) × (n ≡ ref acct b t i)
unfolding refers
refers_ref acct b (ref a c t i) h = (
  t,
  i,
  ap₂ (λ x y. ref x y t i) (sym ((beq_iff acct a).0 (and_left _ _ h)))
      (sym ((beq_iff b c).0 (and_right _ _ h))),
)
refers_ref acct b (entry a sequence) h = absurd (ground arith)
refers_ref acct b (object a t i) h = absurd (ground arith)
refers_ref acct b (index a t p v o i) h = absurd (ground arith)
refers_ref acct b (floor a) h = absurd (ground arith)
refers_ref acct b (counter a) h = absurd (ground arith)
refers_ref acct b (type_state a t) h = absurd (ground arith)
refers_ref acct b (tagged t a) h = absurd (ground arith)
refers_ref acct b (upload a c) h = absurd (ground arith)
refers_ref acct b (pending a c) h = absurd (ground arith)

-- A blob whose scan finds something is referred to.
pub referenced_found :
    (keys : List Bytes) (m : View) (acct b : Bytes)
    → IsListing keys m
    → acct ≢ tag_seg
    → AllBytes acct
    → AllBytes b
    → blob_referenced keys acct b ≡ true
    → ¬ IsUnreferenced acct b m
unfolding blob_referenced
referenced_found keys m acct b l usable ha hb h free =
    let (k, there, inside) = any_in-found _ keys h in
    let (n, _, bytes, e) = l.named k there in
    let (t, i, same) =
      refers_ref acct b n (sym (by_scan n bytes) ∙ sym (ap (in_range _) e) ∙ inside) in
    l.sound k there (ap m (e ∙ ap key_of same ∙ ref_name t i) ∙ free t i)
  where
    ref_name : (t i : Bytes) → key_of (ref acct b t i) ≡ ref_key acct b t i
    ref_name t i = unfold key_of in refl

    by_scan :
        (n : Name)
        → AllSegs (segs_of n)
        → in_range (prefix_range (acct ∷ (b'r' ∷ []) ∷ b ∷ [])) (key_of n) ≡ refers acct b n
    by_scan n bytes =
        ap (in_range _) (key_of-segs_of n)
        ∙ prefix_range_covers (acct ∷ (b'r' ∷ []) ∷ b ∷ []) (segs_of n)
            (ha, ((omega arith, tt), (hb, tt))) bytes
        ∙ by_kind acct b n usable
