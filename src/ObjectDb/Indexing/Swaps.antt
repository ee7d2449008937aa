-- ===== src/ObjectDb/Indexing/Swaps.antt =====
-- What indexOps of core/objectdb/objectdb.go does to the entry of one property.
use naust_jmap.Prelude.{
  ◌≡◌, ◌≢◌, refl, sym, ◌∙◌, inl, inr, if◌then◌else◌, Bool, true, false, not, ◌&&◌, Bool-cases,
  Option-cases, List, [], ◌∷◌, Option, none, some, Bytes, beq, beq_iff, arith,
}
use mathlib.Core.Path.{ap₂}
use naust_jmap.Backend.{Op, set_op, delete_op}
use naust_jmap.Memory.Refinement.{key_effect, op_effect}
use naust_jmap.ObjectDb.Keys.{idx_key, tag_seg}
use naust_jmap.ObjectDb.Schema.{Property, Descriptor, Object, Codec, order_segs}
use naust_jmap.ObjectDb.Indexing.{value_of, fields_of, indexed_value, switch_ops, index_prop_ops}
use naust_jmap.ObjectDb.Indexing.Entries.{
  beqs, beq-idx, idx-other, shown, hidden, replaced, entry_at, entry_of, is_entry, SameOrder,
}

pub unless {ℓ} : {A : Type ℓ} (b : Bool) (x y : A) → b ≡ true → (if not b then x else y) ≡ y
unless b x y e = rw e refl

module _ (c : Codec) (acct : Bytes) (usable : acct ≢ tag_seg) (t : Descriptor) (id : Bytes) where
  -- The operations that take the one entry away and put the other in its place.
  abbrev pub swap_ops : Bytes → Option (Bytes × List Bytes) → Option (Bytes × List Bytes) → List Op
  swap_ops prop none none = []
  swap_ops prop none (some (w, r)) = set_op (idx_key acct t.name prop w r id) none ∷ []
  swap_ops prop (some (v, o)) none = delete_op (idx_key acct t.name prop v o id) ∷ []
  swap_ops prop (some (v, o)) (some (w, r)) =
      if beq v w
      then []
      else delete_op (idx_key acct t.name prop v r id)
        ∷ set_op (idx_key acct t.name prop w r id) none
        ∷ []

  pub swap_ops-shown :
      (prop : Bytes) (e e' : Option (Bytes × List Bytes)) (v : Bytes) (o : List Bytes)
      → SameOrder e e'
      → key_effect (idx_key acct t.name prop v o id) (swap_ops prop e e') (shown (is_entry e v o))
        ≡ shown (is_entry e' v o)
  unfolding key_effect op_effect
  swap_ops-shown prop none none v o h = refl
  swap_ops-shown prop none (some (w, r)) v o h =
      rw (beq-idx acct usable t.name id prop w v r o) refl
  swap_ops-shown prop (some (x, q)) none v o h =
      rw (beq-idx acct usable t.name id prop x v q o) (hidden (beq x v && beqs q o))
  swap_ops-shown prop (some (x, q)) (some (w, r)) v o h = elim (Bool-cases (beq x w)) [
    | inl same ↦ rw same (ap₂ (λ y z. shown (beq y v && beqs z o)) ((beq_iff x w).0 same) h)
    | inr other ↦
        rw
          (
            other,
            beq-idx acct usable t.name id prop x v r o,
            beq-idx acct usable t.name id prop w v r o,
            h,
          )
          (replaced (beq x v && beqs r o) (beq w v && beqs r o))
  ]

  no_entry :
      (p : Property) (obj : Option Object) (e : Option (Bytes × List Bytes))
      → entry_at c t p obj none ≡ some e
      → e ≡ none
  unfolding entry_at
  no_entry p obj none h = refl
  no_entry p obj (some x) h = absurd (ground arith)

  an_entry :
      (p : Property) (obj : Option Object) (v : Bytes) (e : Option (Bytes × List Bytes))
      → entry_at c t p obj (some v) ≡ some e
      → (order : List Bytes) × (order_segs c t.properties p.order_by (fields_of obj) ≡ some order)
        × (e ≡ some (v, order))
  unfolding entry_at
  an_entry p obj v e h =
      elim (Option-cases (order_segs c t.properties p.order_by (fields_of obj))) [
        | inl bad ↦ absurd (clash (rw bad at h))
        | inr (order, found) ↦ (order, found, entry_eq _ _ (sym (rw found at h)))
      ]
    where
      clash : ◌≡◌ {A = Option (Option (Bytes × List Bytes))} none (some e) → ⊥
      clash h = absurd (ground arith)

      entry_eq : (x y : Option (Bytes × List Bytes)) → some x ≡ some y → x ≡ y
      entry_eq x y h = cc

  -- The switch of indexOps makes that swap.
  switch_ops-swap :
      (prop : Bytes) (p : Property) (old new : Option Object) (v w : Option Bytes)
      (e e' : Option (Bytes × List Bytes))
      → entry_at c t p old v ≡ some e
      → entry_at c t p new w ≡ some e'
      → switch_ops c acct t id prop p old new v w ≡ some (swap_ops prop e e')
  unfolding switch_ops
  switch_ops-swap prop p old new none none e e' he hf =
      rw (no_entry p old e he, no_entry p new e' hf) refl
  switch_ops-swap prop p old new none (some w) e e' he hf =
      let (r, found, is) = an_entry p new w e' hf in rw (no_entry p old e he, is, found) refl
  switch_ops-swap prop p old new (some v) none e e' he hf =
      let (o, found, is) = an_entry p old v e he in rw (no_entry p new e' hf, is, found) refl
  switch_ops-swap prop p old new (some v) (some w) e e' he hf =
      let (o, there, was) = an_entry p old v e he in
      let (r, found, is) = an_entry p new w e' hf in
      elim (Bool-cases (beq v w)) [
        | inl same ↦ rw (was, is, same) refl
        | inr other ↦ rw (was, is, other, found) refl
      ]

  -- The operations of one property.
  pub index_prop_ops-swap :
      (prop : Bytes) (p : Property) (old new : Option Object) (e e' : Option (Bytes × List Bytes))
      → p.indexed ≡ true
      → entry_of c t prop p old ≡ some e
      → entry_of c t prop p new ≡ some e'
      → index_prop_ops c acct t id prop p old new ≡ some (swap_ops prop e e')
  unfolding index_prop_ops entry_of
  index_prop_ops-swap prop p old new e e' i he hf =
      elim (Option-cases (indexed_value c p (value_of old prop))) [
        | inl bad ↦ absurd (no_entries e (rw bad at he))
        | inr (v, hv) ↦ elim (Option-cases (indexed_value c p (value_of new prop))) [
          | inl bad ↦ absurd (no_entries e' (rw bad at hf))
          | inr (w, hw) ↦
              unless p.indexed _ _ i
              ∙ rw (hv, hw) (switch_ops-swap prop p old new v w e e' (rw hv at he) (rw hw at hf))
        ]
      ]
    where
      no_entries : (x : Option (Bytes × List Bytes)) → none ≡ some x → ⊥
      no_entries x h = absurd (ground arith)

  pub none_ops : (x : List Op) → ◌≡◌ {A = Option (List Op)} none (some x) → ⊥
  none_ops x h = absurd (ground arith)

  pub ops_eq : (x y : List Op) → some x ≡ some y → x ≡ y
  ops_eq x y h = cc

  -- The operations of another property.
  switch_ops-other :
      (q : Bytes) (p : Property) (old new : Option Object) (v w : Option Bytes) (ops : List Op)
      (prop value : Bytes) (order : List Bytes) (cur : Option Bytes)
      → beq q prop ≡ false
      → switch_ops c acct t id q p old new v w ≡ some ops
      → key_effect (idx_key acct t.name prop value order id) ops cur ≡ cur
  unfolding switch_ops key_effect op_effect
  switch_ops-other q p old new none none ops prop value order cur ne h =
      rw (sym (ops_eq [] ops h)) refl
  switch_ops-other q p old new none (some w) ops prop value order cur ne h =
      elim (Option-cases (order_segs c t.properties p.order_by (fields_of new))) [
        | inl bad ↦ absurd (none_ops ops (rw bad at h))
        | inr (r, found) ↦
            rw
              (
                sym (ops_eq _ ops (rw found at h)),
                idx-other acct usable t.name id q prop w value r order ne,
              )
              refl
      ]
  switch_ops-other q p old new (some v) none ops prop value order cur ne h =
      elim (Option-cases (order_segs c t.properties p.order_by (fields_of old))) [
        | inl bad ↦ absurd (none_ops ops (rw bad at h))
        | inr (r, found) ↦
            rw
              (
                sym (ops_eq _ ops (rw found at h)),
                idx-other acct usable t.name id q prop v value r order ne,
              )
              refl
      ]
  switch_ops-other q p old new (some v) (some w) ops prop value order cur ne h =
      elim (Bool-cases (beq v w)) [
        | inl same ↦ rw (sym (ops_eq [] ops (rw same at h))) refl
        | inr other ↦ elim (Option-cases (order_segs c t.properties p.order_by (fields_of new))) [
          | inl bad ↦ absurd (none_ops ops (rw (other, bad) at h))
          | inr (r, found) ↦
              rw
                (
                  sym (ops_eq _ ops (rw (other, found) at h)),
                  idx-other acct usable t.name id q prop v value r order ne,
                  idx-other acct usable t.name id q prop w value r order ne,
                )
                refl
        ]
      ]

  pub index_prop_ops-other :
      (q : Bytes) (p : Property) (old new : Option Object) (ops : List Op) (prop value : Bytes)
      (order : List Bytes) (cur : Option Bytes)
      → beq q prop ≡ false
      → index_prop_ops c acct t id q p old new ≡ some ops
      → key_effect (idx_key acct t.name prop value order id) ops cur ≡ cur
  unfolding index_prop_ops
  index_prop_ops-other q p old new ops prop value order cur ne h = elim (Bool-cases p.indexed) [
    | inr plain ↦ rw (sym (ops_eq [] ops (rw plain at h))) (unfold key_effect in refl)
    | inl indexed ↦ elim (Option-cases (indexed_value c p (value_of old q))) [
      | inl bad ↦ absurd (none_ops ops (rw bad at (sym (unless p.indexed _ _ indexed) ∙ h)))
      | inr (v, hv) ↦ elim (Option-cases (indexed_value c p (value_of new q))) [
        | inl bad ↦ absurd (none_ops ops (rw (hv, bad) at (sym (unless p.indexed _ _ indexed) ∙ h)))
        | inr (w, hw) ↦
            switch_ops-other q p old new v w ops prop value order cur ne
              (rw (hv, hw) at (sym (unless p.indexed _ _ indexed) ∙ h))
      ]
    ]
  ]
