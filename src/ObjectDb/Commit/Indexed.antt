-- ===== src/ObjectDb/Commit/Indexed.antt =====
-- The operations on the indexes and references of a record (indexOps in core/objectdb/objectdb.go,
-- setIndexOps in setindex.go, refOps in blobs.go) leave every record's key alone.
use naust_jmap.Prelude.{
  ◌≡◌, ◌≢◌, sym, subst, ◌∙◌, inl, inr, Bool-cases, Option-cases, List, [], ◌∷◌, ◌++◌, Option, none,
  some, Bytes, beq,
}
use naust_jmap.Backend.{Op}
use naust_jmap.ObjectDb.Keys.{obj_key, tag_seg}
use naust_jmap.ObjectDb.Changes.{seen}
use naust_jmap.ObjectDb.Schema.{Property, Descriptor, Object, Codec, order_segs, raw_of, ◌>>=◌}
use naust_jmap.ObjectDb.Indexing.{
  value_of, fields_of, indexed_value, set_members, switch_ops, index_prop_ops, departed, arrived,
  set_index_prop_ops, each_prop, index_ops, set_index_ops, dropped_refs, added_refs, ref_ops,
}
use naust_jmap.ObjectDb.Indexing.Swaps.{none_ops, ops_eq, unless}
use naust_jmap.ObjectDb.Indexing.Kept.{PropOps, IsSplit-ops}
use naust_jmap.ObjectDb.Commit.Touched.{
  Leaves, nothing-Leaves, set_op-Leaves, delete_op-Leaves, append-Leaves, idx-obj, ref-obj,
  pending-obj,
}

module _ (acct : Bytes) (usable : acct ≢ tag_seg) (type_name id : Bytes) (c : Codec)
    (t : Descriptor) (i : Bytes) where
  from_eq :
      (xs ys : List Op)
      → some xs ≡ some ys
      → Leaves (obj_key acct type_name id) xs
      → Leaves (obj_key acct type_name id) ys
  from_eq xs ys e h =
      subst (Leaves (obj_key acct type_name id)) (ops_eq c acct usable t i xs ys e) h

  switch_ops-Leaves :
      (prop : Bytes) (p : Property) (old new : Option Object) (v w : Option Bytes) (xs : List Op)
      → switch_ops c acct t i prop p old new v w ≡ some xs
      → Leaves (obj_key acct type_name id) xs
  unfolding switch_ops
  switch_ops-Leaves prop p old new none none xs h =
      from_eq [] xs h (nothing-Leaves (obj_key acct type_name id))
  switch_ops-Leaves prop p old new none (some w) xs h =
      elim (Option-cases (order_segs c t.properties p.order_by (fields_of new))) [
        | inl bad ↦ absurd (none_ops c acct usable t i xs (rw bad at h))
        | inr (o, found) ↦ from_eq _ xs (rw found at h) (
            set_op-Leaves (obj_key acct type_name id) _ none []
              (idx-obj acct usable type_name id t.name prop w o i)
              (nothing-Leaves (obj_key acct type_name id)))
      ]
  switch_ops-Leaves prop p old new (some v) none xs h =
      elim (Option-cases (order_segs c t.properties p.order_by (fields_of old))) [
        | inl bad ↦ absurd (none_ops c acct usable t i xs (rw bad at h))
        | inr (o, found) ↦ from_eq _ xs (rw found at h) (
            delete_op-Leaves (obj_key acct type_name id) _ []
              (idx-obj acct usable type_name id t.name prop v o i)
              (nothing-Leaves (obj_key acct type_name id)))
      ]
  switch_ops-Leaves prop p old new (some v) (some w) xs h = elim (Bool-cases (beq v w)) [
    | inl same ↦ from_eq [] xs (rw same at h) (nothing-Leaves (obj_key acct type_name id))
    | inr other ↦ elim (Option-cases (order_segs c t.properties p.order_by (fields_of new))) [
      | inl bad ↦ absurd (none_ops c acct usable t i xs (rw (other, bad) at h))
      | inr (o, found) ↦ from_eq _ xs (rw (other, found) at h) (
          delete_op-Leaves (obj_key acct type_name id) _ _
            (idx-obj acct usable type_name id t.name prop v o i)
            (set_op-Leaves (obj_key acct type_name id) _ none []
              (idx-obj acct usable type_name id t.name prop w o i)
              (nothing-Leaves (obj_key acct type_name id))))
    ]
  ]

  index_prop_ops-Leaves :
      (old new : Option Object) (prop : Bytes) (p : Property) (xs : List Op)
      → index_prop_ops c acct t i prop p old new ≡ some xs
      → Leaves (obj_key acct type_name id) xs
  unfolding index_prop_ops
  index_prop_ops-Leaves old new prop p xs h = elim (Bool-cases p.indexed) [
    | inr plain ↦ from_eq [] xs (rw plain at h) (nothing-Leaves (obj_key acct type_name id))
    | inl indexed ↦ indexed_Leaves (sym (unless p.indexed _ _ indexed) ∙ h)
  ]
    where
      indexed_Leaves :
          (do
            v ← indexed_value c p (value_of old prop)
            w ← indexed_value c p (value_of new prop)
            switch_ops c acct t i prop p old new v w)
            ≡ some xs
          → Leaves (obj_key acct type_name id) xs
      indexed_Leaves e = elim (Option-cases (indexed_value c p (value_of old prop))) [
        | inl bad ↦ absurd (none_ops c acct usable t i xs (rw bad at e))
        | inr (v, hv) ↦ elim (Option-cases (indexed_value c p (value_of new prop))) [
          | inl bad ↦ absurd (none_ops c acct usable t i xs (rw (hv, bad) at e))
          | inr (w, hw) ↦ switch_ops-Leaves prop p old new v w xs (rw (hv, hw) at e)
        ]
      ]

  departed-Leaves :
      (prop : Bytes) (news olds : List Bytes)
      → Leaves (obj_key acct type_name id) (departed c acct t i prop news olds)
  unfolding departed
  departed-Leaves prop news [] = nothing-Leaves (obj_key acct type_name id)
  departed-Leaves prop news (x ∷ olds) = elim (Bool-cases (seen x news)) [
    | inl there ↦ rw there (departed-Leaves prop news olds)
    | inr gone ↦ rw gone (
        delete_op-Leaves (obj_key acct type_name id) _ _
          (idx-obj acct usable type_name id t.name prop x [] i) (departed-Leaves prop news olds))
  ]

  arrived-Leaves :
      (prop : Bytes) (olds news : List Bytes)
      → Leaves (obj_key acct type_name id) (arrived c acct t i prop olds news)
  unfolding arrived
  arrived-Leaves prop olds [] = nothing-Leaves (obj_key acct type_name id)
  arrived-Leaves prop olds (x ∷ news) = elim (Bool-cases (seen x olds)) [
    | inl there ↦ rw there (arrived-Leaves prop olds news)
    | inr fresh ↦ rw fresh (
        set_op-Leaves (obj_key acct type_name id) _ none _
          (idx-obj acct usable type_name id t.name prop x [] i) (arrived-Leaves prop olds news))
  ]

  dropped_refs-Leaves :
      (news olds : List Bytes)
      → Leaves (obj_key acct type_name id) (dropped_refs c acct t i news olds)
  unfolding dropped_refs
  dropped_refs-Leaves news [] = nothing-Leaves (obj_key acct type_name id)
  dropped_refs-Leaves news (b ∷ olds) = elim (Bool-cases (seen b news)) [
    | inl there ↦ rw there (dropped_refs-Leaves news olds)
    | inr gone ↦ rw gone (
        delete_op-Leaves (obj_key acct type_name id) _ _
          (ref-obj acct usable type_name id b t.name i)
          (set_op-Leaves (obj_key acct type_name id) _ none _
            (pending-obj acct usable type_name id b) (dropped_refs-Leaves news olds)))
  ]

  added_refs-Leaves :
      (olds news : List Bytes)
      → Leaves (obj_key acct type_name id) (added_refs c acct t i olds news)
  unfolding added_refs
  added_refs-Leaves olds [] = nothing-Leaves (obj_key acct type_name id)
  added_refs-Leaves olds (b ∷ news) = elim (Bool-cases (seen b olds)) [
    | inl there ↦ rw there (added_refs-Leaves olds news)
    | inr fresh ↦ rw fresh (
        set_op-Leaves (obj_key acct type_name id) _ none _
          (ref-obj acct usable type_name id b t.name i)
          (delete_op-Leaves (obj_key acct type_name id) _ _ (pending-obj acct usable type_name id b)
            (added_refs-Leaves olds news)))
  ]

  pub ref_ops-Leaves :
      (old new : Option Object) → Leaves (obj_key acct type_name id) (ref_ops c acct t i old new)
  unfolding ref_ops
  ref_ops-Leaves old new =
      append-Leaves (obj_key acct type_name id) _ _ (dropped_refs-Leaves _ _)
        (added_refs-Leaves _ _)

  set_index_prop_ops-Leaves :
      (old new : Option Object) (prop : Bytes) (p : Property) (xs : List Op)
      → set_index_prop_ops c acct t i prop p old new ≡ some xs
      → Leaves (obj_key acct type_name id) xs
  unfolding set_index_prop_ops
  set_index_prop_ops-Leaves old new prop p xs h = elim (Bool-cases p.set_indexed) [
    | inr plain ↦ from_eq [] xs (rw plain at h) (nothing-Leaves (obj_key acct type_name id))
    | inl indexed ↦
        elim (Bool-cases (beq (raw_of (value_of old prop)) (raw_of (value_of new prop)))) [
          | inl same ↦
              from_eq [] xs (rw same at (sym (unless p.set_indexed _ _ indexed) ∙ h))
                (nothing-Leaves (obj_key acct type_name id))
          | inr differ ↦ members_Leaves (rw differ at (sym (unless p.set_indexed _ _ indexed) ∙ h))
        ]
  ]
    where
      members_Leaves :
          (do
            olds ← set_members c p (value_of old prop)
            news ← set_members c p (value_of new prop)
            some (departed c acct t i prop news olds ++ arrived c acct t i prop olds news))
            ≡ some xs
          → Leaves (obj_key acct type_name id) xs
      members_Leaves e = elim (Option-cases (set_members c p (value_of old prop))) [
        | inl bad ↦ absurd (none_ops c acct usable t i xs (rw bad at e))
        | inr (olds, ho) ↦ elim (Option-cases (set_members c p (value_of new prop))) [
          | inl bad ↦ absurd (none_ops c acct usable t i xs (rw (ho, bad) at e))
          | inr (news, hn) ↦ from_eq _ xs (rw (ho, hn) at e) (
              append-Leaves (obj_key acct type_name id) _ _ (departed-Leaves prop news olds)
                (arrived-Leaves prop olds news))
        ]
      ]

  each_prop-Leaves :
      (ops : PropOps) (props : List (Bytes × Property)) (all : List Op)
      → ((q : Bytes) (p : Property) (xs : List Op)
          → ops q p ≡ some xs
          → Leaves (obj_key acct type_name id) xs)
      → each_prop c acct t i ops props ≡ some all
      → Leaves (obj_key acct type_name id) all
  unfolding each_prop
  each_prop-Leaves ops [] all one h = from_eq [] all h (nothing-Leaves (obj_key acct type_name id))
  each_prop-Leaves ops ((q, p) ∷ props) all one h =
      let s = IsSplit-ops c acct usable t i ops q p (each_prop c acct t i ops props) all h in
      subst (Leaves (obj_key acct type_name id)) s.joined (
        append-Leaves (obj_key acct type_name id) _ _ (one q p s.first s.first_ops)
          (each_prop-Leaves ops props s.rest one s.rest_eq))

  pub index_ops-Leaves :
      (old new : Option Object) (xs : List Op)
      → index_ops c acct t i old new ≡ some xs
      → Leaves (obj_key acct type_name id) xs
  unfolding index_ops
  index_ops-Leaves old new xs h =
      each_prop-Leaves _ t.properties xs (λ q p ys e. index_prop_ops-Leaves old new q p ys e) h

  pub set_index_ops-Leaves :
      (old new : Option Object) (xs : List Op)
      → set_index_ops c acct t i old new ≡ some xs
      → Leaves (obj_key acct type_name id) xs
  unfolding set_index_ops
  set_index_ops-Leaves old new xs h =
      each_prop-Leaves _ t.properties xs (λ q p ys e. set_index_prop_ops-Leaves old new q p ys e) h
