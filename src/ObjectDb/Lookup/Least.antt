-- ===== src/ObjectDb/Lookup/Least.antt =====
-- The least id of a list, and LowestMemberId against IdsWhereMember (core/objectdb/setindex.go).
use naust_jmap.Prelude.{
  ◌≡◌, refl, sym, ap, ◌∙◌, inl, inr, if◌then◌else◌, true, false, ◌&&◌, ◌||◌, Bool-cases,
  Option-cases, List, [], ◌∷◌, Option, none, some, Bytes, beq, beq_iff, blt, blt_trans, blt_total,
  blt_asymm, arith,
}
use naust_jmap.Memory.Keys.{Above, IsSorted}
use naust_jmap.ObjectDb.Changes.{sort_ids, insert_sorted}
use naust_jmap.ObjectDb.Schema.{Property, Codec}
use naust_jmap.ObjectDb.Update.{Staged, same_key, find}
use naust_jmap.ObjectDb.Update.Staging.{Unique, not_found, not_found_after}
use naust_jmap.ObjectDb.Lookup.{
  remove, lower, has_member, overlay, ids_where_member, overridden, staged_best, first_free,
  lowest_member_id,
}

abbrev pub first : List Bytes → Option Bytes
first [] = none
first (x ∷ xs) = some x

lower_comm : (a b : Option Bytes) → lower a b ≡ lower b a
unfolding lower
lower_comm none none = refl
lower_comm none (some b) = refl
lower_comm (some a) none = refl
lower_comm (some a) (some b) = ground (arith, blt_total a b, blt_asymm a b)

lower_assoc : (a b d : Option Bytes) → lower a (lower b d) ≡ lower (lower a b) d
unfolding lower
lower_assoc none b d = refl
lower_assoc (some a) none d = refl
lower_assoc (some a) (some b) none = ground arith
lower_assoc (some a) (some b) (some d) = ground (
  arith,
  blt_total a b,
  blt_total b d,
  blt_total a d,
  blt_trans a b d,
  blt_trans d b a,
  blt_trans a d b,
  blt_trans b a d,
  blt_trans b d a,
  blt_trans d a b,
)

-- The least id of a list.
unfoldable least : List Bytes → Option Bytes
least [] = none
least (x ∷ xs) = lower (some x) (least xs)

lower-none : (a : Option Bytes) → lower a none ≡ a
unfolding lower
lower-none none = refl
lower-none (some a) = refl

lower_first : (a b : Bytes) → blt a b ≡ true → lower (some a) (some b) ≡ some a
unfolding lower
lower_first a b h = rw h refl

first-insert_sorted :
    (a : Bytes) (xs : List Bytes) → first (insert_sorted a xs) ≡ lower (some a) (first xs)
unfolding insert_sorted lower
first-insert_sorted a [] = refl
first-insert_sorted a (x ∷ xs) = ground (arith, blt_total a x, blt_asymm a x)

first-sort_ids : (xs : List Bytes) → first (sort_ids xs) ≡ least xs
unfolding sort_ids least
first-sort_ids [] = refl
first-sort_ids (x ∷ xs) =
    first-insert_sorted x (sort_ids xs) ∙ ap (lower (some x)) (first-sort_ids xs)

module _ (c : Codec) (type_name : Bytes) (prop : Bytes) (p : Property) (member : Bytes) where
  -- The ids that no staged record overrides.
  free : List Staged → List Bytes → List Bytes
  free sts [] = []
  free sts (x ∷ xs) =
      let rest = free sts xs in
      if overridden c type_name prop p member sts x then rest else x ∷ rest

  not_overridden :
      (sts : List Staged) (id : Bytes)
      → find type_name id sts ≡ none
      → overridden c type_name prop p member sts id ≡ false
  unfolding overridden find
  not_overridden [] id h = refl
  not_overridden (st ∷ sts) id h =
      ap (λ b. b || overridden c type_name prop p member sts id)
        (not_found (same_key type_name id st) st _ h)
      ∙ not_overridden sts id (not_found_after (same_key type_name id st) st _ h)

  free-nothing : (set : List Bytes) → free [] set ≡ set
  unfolding free overridden
  free-nothing [] = refl
  free-nothing (x ∷ xs) = ap (λ r. x ∷ r) (free-nothing xs)

  -- A staged record of the type takes its id out of what is free.
  same_key-id :
      (st : Staged) (id : Bytes)
      → beq st.type_name type_name ≡ true
      → same_key type_name id st ≡ beq id st.id
  unfolding same_key
  same_key-id st id h = ap (λ b. b && beq st.id id) h ∙ swap st.id id
    where
      swap : (a b : Bytes) → beq a b ≡ beq b a
      swap a b = ground (arith, beq_iff a b, beq_iff b a)

  free-remove :
      (st : Staged) (sts : List Staged) (set : List Bytes)
      → beq st.type_name type_name ≡ true
      → free sts (remove st.id set) ≡ free (st ∷ sts) set
  unfolding free remove overridden
  free-remove st sts [] h = refl
  free-remove st sts (x ∷ xs) h = elim (Bool-cases (beq x st.id)) [
    | inl same ↦ rw (same_key-id st x h, same) (free-remove st sts xs h)
    | inr other ↦
        rw (same_key-id st x h, other)
          (ap (λ r. if overridden c type_name prop p member sts x then r else x ∷ r)
            (free-remove st sts xs h))
  ]

  free-other :
      (st : Staged) (sts : List Staged) (set : List Bytes)
      → beq st.type_name type_name ≡ false
      → free (st ∷ sts) set ≡ free sts set
  unfolding free overridden same_key
  free-other st sts [] h = refl
  free-other st sts (x ∷ xs) h = rw h (
      ap (λ r. if overridden c type_name prop p member sts x then r else x ∷ r)
        (free-other st sts xs h))

  -- The best so far only adds to the staged best.
  staged_best-lower :
      (sts : List Staged) (a x b : Option Bytes)
      → staged_best c type_name prop p member x sts ≡ some b
      → staged_best c type_name prop p member (lower a x) sts ≡ some (lower a b)
  unfolding staged_best
  staged_best-lower [] a x b h =
      ap (λ (o : Option (Option Bytes)). elim o [ none ↦ none | some y ↦ some (lower a y) ]) h
  staged_best-lower (st ∷ sts) a x b h = elim (Bool-cases (beq st.type_name type_name)) [
    | inr other ↦ rw other (staged_best-lower sts a x b (rw other at h))
    | inl ours ↦ elim (Option-cases (has_member c type_name prop p member st)) [
      | inl bad ↦ absurd (failed (rw (ours, bad) at h))
      | inr (true, contains) ↦
          rw (ours, contains)
            (ap (λ y. staged_best c type_name prop p member y sts)
                (lower_assoc (some st.id) a x
                  ∙ ap (λ y. lower y x) (lower_comm (some st.id) a)
                  ∙ sym (lower_assoc a (some st.id) x))
              ∙ staged_best-lower sts a (lower (some st.id) x) b (rw (ours, contains) at h))
      | inr (false, not_member) ↦
          rw (ours, not_member) (staged_best-lower sts a x b (rw (ours, not_member) at h))
    ]
  ]
    where
      failed : ◌≡◌ {A = Option (Option Bytes)} none (some b) → ⊥
      failed e = absurd (ground arith)

  first_free-least :
      (sts : List Staged) (set : List Bytes)
      → IsSorted set
      → first_free c type_name prop p member sts set ≡ least (free sts set)
  unfolding first_free free least
  first_free-least sts [] h = refl
  first_free-least sts (x ∷ xs) (hx, h) =
      elim (Bool-cases (overridden c type_name prop p member sts x)) [
        | inl taken ↦ rw taken (first_free-least sts xs h)
        | inr open_id ↦ rw open_id (sym (below xs hx))
      ]
    where
      below : (ys : List Bytes) → Above x ys → lower (some x) (least (free sts ys)) ≡ some x
      below [] h = lower-none (some x)
      below (y ∷ ys) (hy, h) = elim (Bool-cases (overridden c type_name prop p member sts y)) [
        | inl taken ↦ rw taken (below ys h)
        | inr open_id ↦ rw open_id (
            lower_assoc (some x) (some y) (least (free sts ys))
            ∙ ap (λ o. lower o (least (free sts ys))) (lower_first x y hy)
            ∙ below ys h)
      ]

  -- Where the overlay of the staged records is computed, so is the staged best, and the lower of it
  -- and of the free ids is the least of the overlay.
  overlay-least :
      (sts : List Staged) (set s : List Bytes)
      → Unique sts
      → overlay c type_name prop p member set sts ≡ some s
      → (b : Option Bytes) × (staged_best c type_name prop p member none sts ≡ some b)
        × (lower (least (free sts set)) b ≡ least s)
  unfolding overlay staged_best free least
  overlay-least [] set s u h =
      (none, refl, lower-none _ ∙ ap least (free-nothing set) ∙ ap least (same set s h))
    where
      same : (a b : List Bytes) → some a ≡ some b → a ≡ b
      same a b e = cc
  overlay-least (st ∷ sts) set s (fresh, u) h = elim (Bool-cases (beq st.type_name type_name)) [
    | inr other ↦
        let (b, hb, e) = overlay-least sts set s u (rw other at h) in
        (b, rw other hb, ap (λ f. lower (least f) b) (free-other st sts set other) ∙ e)
    | inl ours ↦ elim (Option-cases (has_member c type_name prop p member st)) [
      | inl bad ↦ absurd (failed (rw (ours, bad) at h))
      | inr (false, not_member) ↦
          let (b, hb, e) = overlay-least sts (remove st.id set) s u (rw (ours, not_member) at h) in
          (
            b,
            rw (ours, not_member) hb,
            ap (λ f. lower (least f) b) (sym (free-remove st sts set ours)) ∙ e,
          )
      | inr (true, contains) ↦
          let (b, hb, e) =
            overlay-least sts (st.id ∷ remove st.id set) s u (rw (ours, contains) at h) in
          (
            lower (some st.id) b,
            rw (ours, contains) (staged_best-lower sts (some st.id) none b hb),
            lower_assoc (least (free (st ∷ sts) set)) (some st.id) b
                ∙ ap (λ o. lower o b) (lower_comm (least (free (st ∷ sts) set)) (some st.id))
                ∙ ap (λ f. lower (lower (some st.id) (least f)) b)
                    (sym (free-remove st sts set ours))
                ∙ ap (λ f. lower (least f) b) (sym (kept_first ours))
                ∙ e,
          )
    ]
  ]
    where
      failed : ◌≡◌ {A = Option (List Bytes)} none (some s) → ⊥
      failed e = absurd (ground arith)

      kept_first :
          beq st.type_name type_name ≡ true
          → free sts (st.id ∷ remove st.id set) ≡ st.id ∷ free sts (remove st.id set)
      kept_first ours =
          ap (λ b. if b then free sts (remove st.id set) else st.id ∷ free sts (remove st.id set))
            (not_overridden sts st.id
              (ap (λ n. find n st.id sts) (sym ((beq_iff _ _).0 ours)) ∙ fresh))

  -- In an update that stages no record twice, over the committed ids in ascending order: where
  -- IdsWhereMember answers, LowestMemberId answers too, with the first of its ids, or with none
  -- where it has none.
  pub lowest_member_id-ids_where_member :
      (committed ids : List Bytes) (sts : List Staged)
      → Unique sts
      → IsSorted committed
      → ids_where_member c type_name prop p member committed sts ≡ some ids
      → lowest_member_id c type_name prop p member committed sts ≡ some (first ids)
  unfolding ids_where_member lowest_member_id
  lowest_member_id-ids_where_member committed ids sts u sorted h =
      elim (Option-cases (overlay c type_name prop p member committed sts)) [
        | inl bad ↦ absurd (failed (rw bad at h))
        | inr (s, hs) ↦
            let (b, hb, e) = overlay-least sts committed s u hs in
            rw hb (
              ap some (
                ap (λ o. lower o b) (first_free-least sts committed sorted)
                ∙ e
                ∙ sym (first-sort_ids s)
                ∙ ap first (same (sort_ids s) ids (rw hs at h))))
      ]
    where
      failed : ◌≡◌ {A = Option (List Bytes)} none (some ids) → ⊥
      failed e = absurd (ground arith)

      same : (a b : List Bytes) → some a ≡ some b → a ≡ b
      same a b e = cc
