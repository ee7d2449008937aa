-- ===== src/ObjectDb/Update/Staging.antt =====
-- The staged records of an Update (core/objectdb/objectdb.go): each record is staged once.
use naust_jmap.Prelude.{
  ◌≡◌, refl, sym, ap, ◌∙◌, inl, inr, if◌then◌else◌, Bool, true, false, ◌&&◌, Bool-cases, List, [],
  ◌∷◌, Option, none, some, Bytes, beq, beq_iff, beq_refl, arith,
}
use naust_jmap.ObjectDb.Update.{Staged, same_key, find, assign}

-- No record is staged twice.
abbrev pub Unique : List Staged → Type 0
Unique [] = Unit
Unique (st ∷ sts) = (find st.type_name st.id sts ≡ none) × Unique sts

pub same_key_iff :
    (type_name id : Bytes) (st : Staged)
    → same_key type_name id st ≡ true
    → (st.type_name ≡ type_name) × (st.id ≡ id)
unfolding same_key
same_key_iff type_name id st h = ((beq_iff _ _).0 (first _ _ h), (beq_iff _ _).0 (second _ _ h))
  where
    first : (a b : Bool) → (a && b) ≡ true → a ≡ true
    first true b e = refl
    first false b e = absurd (ground arith)

    second : (a b : Bool) → (a && b) ≡ true → b ≡ true
    second true b e = e
    second false b e = absurd (ground arith)

pub same_key_refl : (st : Staged) → same_key st.type_name st.id st ≡ true
unfolding same_key
same_key_refl st = rw (beq_refl st.type_name, beq_refl st.id) refl

-- Two entries that a key names have the same parts.
pub find-same :
    (type_name id : Bytes) (st : Staged) (sts : List Staged)
    → same_key type_name id st ≡ true
    → find st.type_name st.id sts ≡ find type_name id sts
find-same type_name id st sts h =
    let (t, i) = same_key_iff type_name id st h in
    ap (λ x. find x st.id sts) t ∙ ap (λ x. find type_name x sts) i

pub same_key-swap :
    (a b : Staged) → same_key a.type_name a.id b ≡ false → same_key b.type_name b.id a ≡ false
same_key-swap a b h = elim (Bool-cases (same_key b.type_name b.id a)) [
  | inr other ↦ other
  | inl same ↦
      let (t, i) = same_key_iff b.type_name b.id a same in
      absurd (
        clash (
          sym
            (ap (λ x. same_key x a.id b) t ∙ ap (λ x. same_key b.type_name x b) i ∙ same_key_refl b)
          ∙ h))
]
  where
    clash : true ≡ false → ⊥
    clash e = ground arith

pub not_found :
    (b : Bool) (st : Staged) (o : Option Staged) → (if b then some st else o) ≡ none → b ≡ false
not_found true st o e = absurd (ground arith)
not_found false st o e = refl

pub not_found_after :
    (b : Bool) (st : Staged) (o : Option Staged) → (if b then some st else o) ≡ none → o ≡ none
not_found_after true st o e = absurd (ground arith)
not_found_after false st o e = e

-- Where one entry is under another's key, the keys that name them are the same.
same_key_along :
    (type_name id : Bytes) (a b : Staged)
    → same_key a.type_name a.id b ≡ true
    → same_key type_name id a ≡ same_key type_name id b
unfolding same_key
same_key_along type_name id a b h =
    let (t, i) = same_key_iff a.type_name a.id b h in
    ap (λ x. beq x type_name && beq a.id id) (sym t)
    ∙ ap (λ x. beq b.type_name type_name && beq x id) (sym i)

-- Reading after an assignment.
pub find-assign :
    (type_name id : Bytes) (st : Staged) (sts : List Staged)
    → find type_name id (assign st sts)
      ≡ (if same_key type_name id st then some st else find type_name id sts)
unfolding find assign
find-assign type_name id st [] = refl
find-assign type_name id st (x ∷ xs) = elim (Bool-cases (same_key st.type_name st.id x)) [
  | inl replaced ↦
      rw replaced (over _ _ st x (find type_name id xs) (same_key_along type_name id st x replaced))
  | inr other ↦ rw other (
      ap (λ o. if same_key type_name id x then some x else o) (find-assign type_name id st xs)
      ∙ apart _ _ st x (find type_name id xs) (λ a b. differ a b (sym other)))
]
  where
    over :
        (a b : Bool) (st x : Staged) (o : Option Staged)
        → a ≡ b
        → (if a then some st else o) ≡ (if a then some st else (if b then some x else o))
    over true b st x o e = refl
    over false true st x o e = absurd (ground arith)
    over false false st x o e = refl

    apart :
        (a b : Bool) (st x : Staged) (o : Option Staged)
        → (a ≡ true → b ≡ true → ⊥)
        → (if b then some x else (if a then some st else o))
          ≡ (if a then some st else (if b then some x else o))
    apart true true st x o h = absurd (h refl refl)
    apart true false st x o h = refl
    apart false b st x o h = refl

    differ :
        same_key type_name id st ≡ true
        → same_key type_name id x ≡ true
        → false ≡ same_key st.type_name st.id x
        → ⊥
    differ a b e =
        let (t, i) = same_key_iff type_name id st a in
        clash (e ∙ ap (λ y. same_key y st.id x) t ∙ ap (λ y. same_key type_name y x) i ∙ b)
      where
        clash : false ≡ true → ⊥
        clash e = ground arith

pub assign-Unique : (st : Staged) (sts : List Staged) → Unique sts → Unique (assign st sts)
unfolding assign find
assign-Unique st [] h = (refl, tt)
assign-Unique st (x ∷ xs) (fresh, h) = elim (Bool-cases (same_key st.type_name st.id x)) [
  | inl replaced ↦ rw replaced (sym (find-same st.type_name st.id x xs replaced) ∙ fresh, h)
  | inr other ↦ rw other (
    find-assign x.type_name x.id st xs
        ∙ ap (λ b. if b then some st else find x.type_name x.id xs) (same_key-swap st x other)
        ∙ fresh,
    assign-Unique st xs h,
  )
]
