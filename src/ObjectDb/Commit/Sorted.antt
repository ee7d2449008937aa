-- ===== src/ObjectDb/Commit/Sorted.antt =====
-- The order of the staged records in buildBatch (core/objectdb/objectdb.go) keeps what is staged.
use naust_jmap.Prelude.{
  ◌≡◌, refl, sym, ap, ◌∙◌, inl, inr, if◌then◌else◌, Bool, true, false, Bool-cases, List, [], ◌∷◌,
  Option, none, some, Bytes, beq, beq_refl, blt, blt_irrefl, arith,
}
use naust_jmap.ObjectDb.Update.{Staged, same_key, find}
use naust_jmap.ObjectDb.Update.Staging.{
  Unique, same_key_iff, same_key-swap, not_found, not_found_after,
}
use naust_jmap.ObjectDb.Commit.{before, insert_record, sort_records}

-- Sorting keeps what is staged.
before_irrefl :
    (type_name id : Bytes) (a b : Staged)
    → same_key type_name id a ≡ true
    → same_key type_name id b ≡ true
    → before a b ≡ false
unfolding before
before_irrefl type_name id a b ha hb =
    let (ta, ia) = same_key_iff type_name id a ha in
    let (tb, ib) = same_key_iff type_name id b hb in
    ap (λ x. if beq x b.type_name then blt a.id b.id else blt x b.type_name) (ta ∙ sym tb)
    ∙ ap (λ x. if x then blt a.id b.id else blt b.type_name b.type_name) (beq_refl b.type_name)
    ∙ ap (λ x. blt x b.id) (ia ∙ sym ib)
    ∙ blt_irrefl b.id

find-insert_record :
    (type_name id : Bytes) (st : Staged) (sts : List Staged)
    → find type_name id (insert_record st sts)
      ≡ (if same_key type_name id st then some st else find type_name id sts)
unfolding find insert_record
find-insert_record type_name id st [] = refl
find-insert_record type_name id st (x ∷ xs) = elim (Bool-cases (before x st)) [
  | inr last ↦ rw last refl
  | inl first ↦ rw first (
      ap (λ o. if same_key type_name id x then some x else o)
        (find-insert_record type_name id st xs)
      ∙ apart (same_key type_name id x) (same_key type_name id st) (find type_name id xs)
          (λ a b. clash (sym (before_irrefl type_name id x st a b) ∙ first)))
]
  where
    clash : false ≡ true → ⊥
    clash e = ground arith

    apart :
        (a b : Bool) (o : Option Staged)
        → (a ≡ true → b ≡ true → ⊥)
        → (if a then some x else (if b then some st else o))
          ≡ (if b then some st else (if a then some x else o))
    apart true true o h = absurd (h refl refl)
    apart true false o h = refl
    apart false b o h = refl

insert_record-Unique :
    (st : Staged) (sts : List Staged)
    → find st.type_name st.id sts ≡ none
    → Unique sts
    → Unique (insert_record st sts)
unfolding insert_record find
insert_record-Unique st [] fresh h = (fresh, h)
insert_record-Unique st (x ∷ xs) fresh (hx, h) = elim (Bool-cases (before x st)) [
  | inr last ↦ rw last (fresh, (hx, h))
  | inl first ↦ rw first (
    find-insert_record x.type_name x.id st xs
        ∙ ap (λ b. if b then some st else find x.type_name x.id xs)
            (same_key-swap st x (not_found _ x _ fresh))
        ∙ hx,
    insert_record-Unique st xs (not_found_after _ x _ fresh) h,
  )
]

pub find-sort_records :
    (type_name id : Bytes) (sts : List Staged)
    → find type_name id (sort_records sts) ≡ find type_name id sts
unfolding sort_records find
find-sort_records type_name id [] = refl
find-sort_records type_name id (st ∷ sts) =
    find-insert_record type_name id st (sort_records sts)
    ∙ ap (λ o. if same_key type_name id st then some st else o) (find-sort_records type_name id sts)

pub sort_records-Unique : (sts : List Staged) → Unique sts → Unique (sort_records sts)
unfolding sort_records
sort_records-Unique [] h = h
sort_records-Unique (st ∷ sts) (fresh, h) =
    insert_record-Unique st (sort_records sts) (find-sort_records st.type_name st.id sts ∙ fresh)
      (sort_records-Unique sts h)
