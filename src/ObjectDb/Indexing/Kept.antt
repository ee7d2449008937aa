-- ===== src/ObjectDb/Indexing/Kept.antt =====
-- The property indexes agree with the records: indexOps of core/objectdb/objectdb.go.
use naust_jmap.Prelude.{
  ◌≡◌, ◌≢◌, refl, sym, subst, ap, ◌∙◌, inl, inr, true, false, Bool-cases, Option-cases, List, [],
  ◌∷◌, ◌++◌, Option, none, some, Bytes, beq, beq_iff, arith,
}
use mathlib.Core.Path.{ap₂}
use naust_jmap.Prelude.GoMap
use naust_jmap.Prelude.GoMap.{Distinct}
use naust_jmap.Backend.{Op}
use naust_jmap.Memory.Refinement.{key_effect}
use naust_jmap.Lease.Fencing.{key_effect-append}
use naust_jmap.ObjectDb.Keys.{idx_key, tag_seg}
use naust_jmap.ObjectDb.Schema.{Property, Descriptor, Object, Codec, ◌>>=◌}
use naust_jmap.ObjectDb.Indexing.{index_prop_ops, each_prop, index_ops}
use naust_jmap.ObjectDb.Indexing.Entries.{shown, entry_of, is_entry, SameOrder}
use naust_jmap.ObjectDb.Indexing.Swaps.{
  swap_ops, swap_ops-shown, index_prop_ops-swap, index_prop_ops-other, none_ops, ops_eq,
}

abbrev pub PropOps : Type 0
PropOps = Bytes → Property → Option (List Op)

-- The properties that are not named leave a key alone.
abbrev pub LeaveAlone : PropOps → Bytes → Bytes → Type 0
LeaveAlone ops prop k =
    (q : Bytes) (p : Property) (xs : List Op) (cur : Option Bytes)
    → beq q prop ≡ false
    → ops q p ≡ some xs
    → key_effect k xs cur ≡ cur

-- The operations of the first property, and the rest.
pub record IsSplit (ops : PropOps) (q : Bytes) (p : Property) (rest_ops : Option (List Op))
    (all : List Op) : Type 0 where
  pub first : List Op
  pub rest : List Op
  pub first_ops : ops q p ≡ some first
  pub rest_eq : rest_ops ≡ some rest
  pub joined : first ++ rest ≡ all

module _ (c : Codec) (acct : Bytes) (usable : acct ≢ tag_seg) (t : Descriptor) (id : Bytes) where
  pub IsSplit-ops :
      (ops : PropOps) (q : Bytes) (p : Property) (rest : Option (List Op)) (all : List Op)
      → (do xs ← ops q p; ys ← rest; some (xs ++ ys)) ≡ some all
      → IsSplit ops q p rest all
  IsSplit-ops ops q p rest all e = elim (Option-cases (ops q p)) [
    | inl bad ↦ absurd (none_ops c acct usable t id all (rw bad at e))
    | inr (xs, hx) ↦ elim (Option-cases rest) [
      | inl bad ↦ absurd (none_ops c acct usable t id all (rw (hx, bad) at e))
      | inr (ys, hy) ↦ record {
        first = xs;
        rest = ys;
        first_ops = hx;
        rest_eq = hy;
        joined = ops_eq c acct usable t id (xs ++ ys) all (rw (hx, hy) at e);
      }
    ]
  ]

  each_prop-absent :
      (ops : PropOps) (props : List (Bytes × Property)) (prop k : Bytes) (all : List Op)
      (cur : Option Bytes)
      → LeaveAlone ops prop k
      → GoMap.get prop props ≡ none
      → each_prop c acct t id ops props ≡ some all
      → key_effect k all cur ≡ cur
  unfolding each_prop GoMap.get
  each_prop-absent ops [] prop k all cur alone absent e =
      rw (sym (ops_eq c acct usable t id [] all e)) (unfold key_effect in refl)
  each_prop-absent ops ((q, p) ∷ props) prop k all cur alone absent e =
      let s = IsSplit-ops ops q p (each_prop c acct t id ops props) all e in
      elim (Bool-cases (beq q prop)) [
        | inl same ↦ absurd (clash p (rw same at absent))
        | inr other ↦
            ap (λ o. key_effect k o cur) (sym s.joined)
            ∙ key_effect-append k s.first s.rest cur
            ∙ each_prop-absent ops props prop k s.rest (key_effect k s.first cur) alone
                (rw other at absent) s.rest_eq
            ∙ alone q p s.first cur other s.first_ops
      ]
    where
      clash : (p : Property) → some p ≡ none → ⊥
      clash p h = absurd (ground arith)

  -- Of all the properties' operations, a key of one property's index sees those of that property.
  pub each_prop-at :
      (ops : PropOps) (props : List (Bytes × Property)) (prop k : Bytes) (p : Property)
      (xs all : List Op) (cur : Option Bytes)
      → LeaveAlone ops prop k
      → Distinct props
      → GoMap.get prop props ≡ some p
      → ops prop p ≡ some xs
      → each_prop c acct t id ops props ≡ some all
      → key_effect k all cur ≡ key_effect k xs cur
  unfolding each_prop GoMap.get
  each_prop-at ops [] prop k p xs all cur alone d found h e = absurd (ground arith)
  each_prop-at ops ((q, r) ∷ props) prop k p xs all cur alone (fresh, d) found h e =
      let s = IsSplit-ops ops q r (each_prop c acct t id ops props) all e in
      elim (Bool-cases (beq q prop)) [
        | inl same ↦
            ap (λ o. key_effect k o cur) (sym s.joined)
            ∙ key_effect-append k s.first s.rest cur
            ∙ each_prop-absent ops props prop k s.rest (key_effect k s.first cur) alone
                (subst (λ x. GoMap.get x props ≡ none) ((beq_iff q prop).0 same) fresh) s.rest_eq
            ∙ ap (λ o. key_effect k o cur)
                (ops_eq c acct usable t id s.first xs (
                  sym s.first_ops
                  ∙ ap₂ ops ((beq_iff q prop).0 same) (same_value r p (rw same at found))
                  ∙ h))
        | inr other ↦
            ap (λ o. key_effect k o cur) (sym s.joined)
            ∙ key_effect-append k s.first s.rest cur
            ∙ each_prop-at ops props prop k p xs s.rest (key_effect k s.first cur) alone d
                (rw other at found) h s.rest_eq
            ∙ ap (key_effect k xs) (alone q r s.first cur other s.first_ops)
      ]
    where
      same_value : (r p : Property) → some r ≡ some p → r ≡ p
      same_value r p h = cc

  pub each_prop-some :
      (ops : PropOps) (props : List (Bytes × Property)) (prop : Bytes) (p : Property)
      (all : List Op)
      → GoMap.get prop props ≡ some p
      → each_prop c acct t id ops props ≡ some all
      → (xs : List Op) × (ops prop p ≡ some xs)
  unfolding each_prop GoMap.get
  each_prop-some ops [] prop p all found e = absurd (ground arith)
  each_prop-some ops ((q, r) ∷ props) prop p all found e =
      let s = IsSplit-ops ops q r (each_prop c acct t id ops props) all e in
      elim (Bool-cases (beq q prop)) [
        | inl same ↦ (
          s.first,
          sym (ap₂ ops ((beq_iff q prop).0 same) (same_value r p (rw same at found))) ∙ s.first_ops,
        )
        | inr other ↦ each_prop-some ops props prop p s.rest (rw other at found) s.rest_eq
      ]
    where
      same_value : (r p : Property) → some r ≡ some p → r ≡ p
      same_value r p h = cc

  -- In a descriptor without double names, for an indexed property: if the index holds the entry of
  -- the record's old version and no other one of the record under the property, then after the
  -- operations of indexOps it holds that of the new version and no other. Either version may be
  -- absent, and the order segments are the same in both.
  pub index_ops_lem :
      (prop : Bytes) (p : Property) (old new : Option Object) (e e' : Option (Bytes × List Bytes))
      (ops : List Op) (value : Bytes) (order : List Bytes)
      → Distinct t.properties
      → GoMap.get prop t.properties ≡ some p
      → p.indexed ≡ true
      → entry_of c t prop p old ≡ some e
      → entry_of c t prop p new ≡ some e'
      → SameOrder e e'
      → index_ops c acct t id old new ≡ some ops
      → key_effect (idx_key acct t.name prop value order id) ops (shown (is_entry e value order))
        ≡ shown (is_entry e' value order)
  unfolding index_ops
  index_ops_lem prop p old new e e' ops value order d found i he hf same h =
      each_prop-at (λ q r. index_prop_ops c acct t id q r old new) t.properties prop
        (idx_key acct t.name prop value order id) p (swap_ops c acct usable t id prop e e') ops
        (shown (is_entry e value order))
        (λ q r xs cur ne hx.
          index_prop_ops-other c acct usable t id q r old new xs prop value order cur ne hx)
        d found (index_prop_ops-swap c acct usable t id prop p old new e e' i he hf) h
      ∙ swap_ops-shown c acct usable t id prop e e' value order same
