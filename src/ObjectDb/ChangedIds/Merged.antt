-- ===== src/ObjectDb/ChangedIds/Merged.antt =====
-- The dispositions of ChangedSince, one id at a time, against the life of a record.
use naust_jmap.Prelude.{
  ℕ, suc, ◌≡◌, refl, sym, ap, subst, ◌∙◌, if◌then◌else◌, Bool, true, false, ◌||◌, Bool-cases,
  Option-cases, inl, inr, List, [], ◌∷◌, ◌++◌, Option, none, some, beq, beq_iff, arith,
}
use naust_jmap.Prelude.GoMap
use naust_jmap.Prelude.GoMap.{Distinct, get-put, put-Distinct}
use naust_jmap.ObjectDb.Changes.{
  RecordId, Disp, is_created, is_updated, is_destroyed, is_omitted, Disps, TypeEntry,
}
use naust_jmap.ObjectDb.Changes.Coalesce.{occurrences, entry_events, lives, touched_by}
use naust_jmap.ObjectDb.ChangedIds.{merge, within, apply, apply_ids, apply_type}

abbrev pub upd_merge : Option Disp → Disp → Option Disp
upd_merge none next = some next
upd_merge (some prev) next = some (merge prev next)

abbrev pub fold_merge : Option Disp → List Disp → Option Disp
fold_merge cur [] = cur
fold_merge cur (e ∷ es) = fold_merge (upd_merge cur e) es

pub fold_merge-append :
    (cur : Option Disp) (xs ys : List Disp)
    → fold_merge cur (xs ++ ys) ≡ fold_merge (fold_merge cur xs) ys
fold_merge-append cur [] ys = refl
fold_merge-append cur (x ∷ xs) ys = fold_merge-append (upd_merge cur x) xs ys

get-apply :
    (m : ℕ) (id j : RecordId) (next : Disp) (dh : Disps × ℕ)
    → GoMap.get j (apply m id next dh).0.0
      ≡ (if beq id j then upd_merge (GoMap.get j dh.0) next else GoMap.get j dh.0)
unfolding apply
get-apply m id j next (d, h) = elim (Option-cases (GoMap.get id d)) [
  | inl new ↦ ground (arith, get-put id j next d, beq_iff id j)
  | inr (prev, old) ↦ ground (arith, get-put id j (merge prev next) d, beq_iff id j)
]

apply-Distinct :
    (m : ℕ) (id : RecordId) (next : Disp) (dh : Disps × ℕ)
    → Distinct dh.0
    → Distinct (apply m id next dh).0.0
unfolding apply
apply-Distinct m id next (d, h) distinct = at (GoMap.get id d)
  where
    at :
        (o : Option Disp)
        → Distinct
            (elim o as (λ x. (Disps × ℕ) × Bool) [
              | none ↦ ((GoMap.put id next d, suc h), within m (suc h))
              | some prev ↦ ((GoMap.put id (merge prev next) d, h), true)
            ]).0.0
    at none = put-Distinct id next d distinct
    at (some prev) = put-Distinct id (merge prev next) d distinct

pub apply_ids-cons :
    (m : ℕ) (next : Disp) (id : RecordId) (ids : List RecordId) (dh : Disps × ℕ)
    → (apply_ids m next (id ∷ ids) dh).1 ≡ true
    → apply_ids m next (id ∷ ids) dh ≡ apply_ids m next ids (apply m id next dh).0
unfolding apply_ids
apply_ids-cons m next id ids dh go = ground arith

pub apply_ids-head :
    (m : ℕ) (next : Disp) (id : RecordId) (ids : List RecordId) (dh : Disps × ℕ)
    → (apply_ids m next (id ∷ ids) dh).1 ≡ true
    → (apply m id next dh).1 ≡ true
unfolding apply_ids
apply_ids-head m next id ids dh go = ground arith

get-apply_ids :
    (m : ℕ) (j : RecordId) (next : Disp) (ids : List RecordId) (dh : Disps × ℕ)
    → (apply_ids m next ids dh).1 ≡ true
    → GoMap.get j (apply_ids m next ids dh).0.0
      ≡ fold_merge (GoMap.get j dh.0) (occurrences j next ids)
get-apply_ids m j next [] dh go = unfold apply_ids in refl
get-apply_ids m j next (id ∷ ids) dh go =
    let step = apply_ids-cons m next id ids dh go in
    let ih = get-apply_ids m j next ids (apply m id next dh).0 (ap (λ r. r.1) (sym step) ∙ go) in
    let here = get-apply m id j next dh in
    ap (λ r. GoMap.get j r.0.0) step ∙ ih ∙ elim (Bool-cases (beq id j)) [
      | inl same ↦ rw same (ap (λ o. fold_merge o (occurrences j next ids)) (rw same at here))
      | inr other ↦ rw other (ap (λ o. fold_merge o (occurrences j next ids)) (rw other at here))
    ]

apply_ids-Distinct :
    (m : ℕ) (next : Disp) (ids : List RecordId) (dh : Disps × ℕ)
    → Distinct dh.0
    → (apply_ids m next ids dh).1 ≡ true
    → Distinct (apply_ids m next ids dh).0.0
apply_ids-Distinct m next [] dh distinct go = unfold apply_ids in distinct
apply_ids-Distinct m next (id ∷ ids) dh distinct go =
    let step = apply_ids-cons m next id ids dh go in
    rw step (
      apply_ids-Distinct m next ids (apply m id next dh).0 (apply-Distinct m id next dh distinct)
        (ap (λ r. r.1) (sym step) ∙ go))

-- The three loops of an entry that did not meet the budget.
pub apply_type-loops :
    (m : ℕ) (te : TypeEntry) (dh : Disps × ℕ)
    → (apply_type m te dh).1 ≡ true
    → let one = apply_ids m is_created te.created dh in
      let two = apply_ids m is_updated te.updated one.0 in
      let three = apply_ids m is_destroyed te.destroyed two.0 in
      (one.1 ≡ true) × (two.1 ≡ true) × (three.1 ≡ true) × (apply_type m te dh ≡ three)
unfolding apply_type
apply_type-loops m te dh go = ground arith

-- What is known of an entry that did not meet the budget.
pub record Typed (m : ℕ) (te : TypeEntry) (dh : Disps × ℕ) : Type 0 where
  pub gets :
      (j : RecordId)
      → GoMap.get j (apply_type m te dh).0.0 ≡ fold_merge (GoMap.get j dh.0) (entry_events j te)
  pub distinct : Distinct dh.0 → Distinct (apply_type m te dh).0.0

pub apply_type-Typed :
    (m : ℕ) (te : TypeEntry) (dh : Disps × ℕ) → (apply_type m te dh).1 ≡ true → Typed m te dh
apply_type-Typed m te dh go = record {
  gets = λ j.
      ap (λ r. GoMap.get j r.0.0) on.3
      ∙ get-apply_ids m j is_destroyed te.destroyed two.0 on.2
      ∙ ap (λ o. fold_merge o (occurrences j is_destroyed te.destroyed))
          (get-apply_ids m j is_updated te.updated one.0 on.1)
      ∙ ap
          (λ o.
            fold_merge (fold_merge o (occurrences j is_updated te.updated))
              (occurrences j is_destroyed te.destroyed))
          (get-apply_ids m j is_created te.created dh on.0)
      ∙ sym (
          fold_merge-append (GoMap.get j dh.0) (occurrences j is_created te.created) _
          ∙ fold_merge-append _ (occurrences j is_updated te.updated)
              (occurrences j is_destroyed te.destroyed));
  distinct = λ d.
      subst (λ (r : (Disps × ℕ) × Bool). Distinct r.0.0) (sym on.3)
        (apply_ids-Distinct m is_destroyed te.destroyed two.0
          (apply_ids-Distinct m is_updated te.updated one.0
            (apply_ids-Distinct m is_created te.created dh d on.0) on.1)
          on.2);
}
  where
    one : (Disps × ℕ) × Bool
    one = apply_ids m is_created te.created dh

    two : (Disps × ℕ) × Bool
    two = apply_ids m is_updated te.updated one.0

    on :
        (one.1 ≡ true)
        × (two.1 ≡ true)
        × ((apply_ids m is_destroyed te.destroyed two.0).1 ≡ true)
        × (apply_type m te dh ≡ apply_ids m is_destroyed te.destroyed two.0)
    on = apply_type-loops m te dh go

-- The disposition of a record; one that came to be and is gone again is kept as omitted.
abbrev pub net_merge : Bool → Bool → Bool → Option Disp
net_merge false false true = some is_omitted
net_merge false false false = none
net_merge false true touched = some is_created
net_merge true false touched = some is_destroyed
net_merge true true true = some is_updated
net_merge true true false = none

fold_merge-net :
    (es : List Disp) (before now t after : Bool)
    → lives now es ≡ some after
    → fold_merge (net_merge before now t) es ≡ net_merge before after (t || touched_by es)
unfolding merge
fold_merge-net [] before now t after h = ground arith
fold_merge-net (is_created ∷ es) before false t after h =
    ground (arith, fold_merge-net es before true true after h)
fold_merge-net (is_updated ∷ es) before true t after h =
    ground (arith, fold_merge-net es before true true after h)
fold_merge-net (is_destroyed ∷ es) before true t after h =
    ground (arith, fold_merge-net es before false true after h)
fold_merge-net (is_created ∷ es) before true t after h = cc
fold_merge-net (is_updated ∷ es) before false t after h = cc
fold_merge-net (is_destroyed ∷ es) before false t after h = cc
fold_merge-net (is_omitted ∷ es) before true t after h = cc
fold_merge-net (is_omitted ∷ es) before false t after h = cc

pub fold_merge-lives :
    (es : List Disp) (before after : Bool)
    → lives before es ≡ some after
    → fold_merge none es ≡ net_merge before after (touched_by es)
fold_merge-lives es false after h = fold_merge-net es false false false after h
fold_merge-lives es true after h = fold_merge-net es true true false after h
