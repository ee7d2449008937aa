-- ===== src/ObjectDb/Update/Sound.antt =====
-- What the staged records of an Update (core/objectdb/objectdb.go) remember of the committed ones,
-- and that PutInternal keeps to internal properties.
use naust_jmap.Prelude.{
  ◌≡◌, refl, sym, subst, ap, ◌∙◌, inl, inr, ◌⊎◌, Bool, true, false, not, ◌&&◌, Bool-cases,
  Option-cases, List, [], ◌∷◌, Option, none, some, Bytes, beq, beq_iff, arith,
}
use naust_jmap.Prelude.GoMap
use naust_jmap.Prelude.GoMap.{Distinct}
use naust_jmap.ObjectDb.Changes.{seen}
use naust_jmap.ObjectDb.Schema.{Property, Descriptor, Object, Codec, diff_props}
use naust_jmap.ObjectDb.Schema.Values.{same?, diff_props_lem}
use naust_jmap.ObjectDb.Update.{Staged, World, find, assign, same_key, all_internal, internal_step}
use naust_jmap.ObjectDb.Update.Staging.{same_key_iff}

-- The name is not one of the type's internal properties.
abbrev pub IsPublic : World → Bytes → Bytes → Type 0
IsPublic w type_name name =
    (t : Descriptor) (p : Property)
    → GoMap.get type_name w.types ≡ some t
    → GoMap.get name t.properties ≡ some p
    → p.internal ≡ false

-- Two versions agree on the properties that are not internal.
abbrev pub SamePublic : World → Bytes → Object → Object → Type 0
SamePublic w type_name old new =
    (name : Bytes) → IsPublic w type_name name → GoMap.get name old ≡ GoMap.get name new

-- A created record has no old version and is not quiet; another one's is the committed record.
abbrev pub Remembers : World → Staged → Type 0
Remembers w st =
    ((st.created ≡ true) × (st.old ≡ none) × (st.quiet ≡ false))
    ⊎ ((st.created ≡ false)
        × (old : Object) × (st.old ≡ some old)
        × (w.committed st.type_name st.id ≡ some (some old)))

pub record IsSound (w : World) (st : Staged) : Type 0 where
  pub known : (t : Descriptor) × (GoMap.get st.type_name w.types ≡ some t)
  pub remembers : Remembers w st
  pub hidden :
      (old new : Object)
      → st.quiet ≡ true
      → st.old ≡ some old
      → st.new ≡ some new
      → SamePublic w st.type_name old new

abbrev pub AllSound : World → List Staged → Type 0
AllSound w [] = Unit
AllSound w (st ∷ sts) = IsSound w st × AllSound w sts

pub assign-AllSound :
    (w : World) (st : Staged) (sts : List Staged)
    → IsSound w st
    → AllSound w sts
    → AllSound w (assign st sts)
unfolding assign
assign-AllSound w st [] h hs = (h, tt)
assign-AllSound w st (x ∷ xs) h (hx, hs) = elim (Bool-cases (same_key st.type_name st.id x)) [
  | inl replaced ↦ rw replaced (h, hs)
  | inr other ↦ rw other (hx, assign-AllSound w st xs h hs)
]

pub find-IsSound :
    (w : World) (type_name id : Bytes) (sts : List Staged) (st : Staged)
    → AllSound w sts
    → find type_name id sts ≡ some st
    → IsSound w st × (st.type_name ≡ type_name) × (st.id ≡ id)
unfolding find
find-IsSound w type_name id [] st hs h = absurd (ground arith)
find-IsSound w type_name id (x ∷ xs) st (hx, hs) h = elim (Bool-cases (same_key type_name id x)) [
  | inl same ↦
      subst (λ y. IsSound w y × (y.type_name ≡ type_name) × (y.id ≡ id)) (one x st (rw same at h))
        (hx, (same_key_iff type_name id x same).0, (same_key_iff type_name id x same).1)
  | inr other ↦ find-IsSound w type_name id xs st hs (rw other at h)
]
  where
    one : (a b : Staged) → some a ≡ some b → a ≡ b
    one a b e = cc

-- The names that PutInternal lets through.
all_internal-seen :
    (c : Codec) (w : World) (props : List (Bytes × Property)) (names : List Bytes) (name : Bytes)
    → all_internal c w props names ≡ true
    → seen name names ≡ true
    → (p : Property) × (GoMap.get name props ≡ some p) × (p.internal ≡ true)
unfolding all_internal seen
all_internal-seen c w props [] name h s = absurd (ground arith)
all_internal-seen c w props (x ∷ xs) name h s = elim (Option-cases (GoMap.get x props)) [
  | inl missing ↦
      absurd (clash (sym (ap (λ o. internal_step c w o (all_internal c w props xs)) missing) ∙ h))
  | inr (p, found) ↦
      let (i, rest) =
        both p.internal (all_internal c w props xs)
          (sym (ap (λ o. internal_step c w o (all_internal c w props xs)) found) ∙ h) in
      elim (Bool-cases (beq x name)) [
        | inl same ↦ (p, subst (λ n. GoMap.get n props ≡ some p) ((beq_iff x name).0 same) found, i)
        | inr other ↦ all_internal-seen c w props xs name rest (rw other at s)
      ]
]
  where
    clash : false ≡ true → ⊥
    clash e = ground arith

    both : (a b : Bool) → (a && b) ≡ true → (a ≡ true) × (b ≡ true)
    both true b e = (refl, e)
    both false b e = absurd (ground arith)

-- Two versions that differ in internal properties only agree on the others.
pub all_internal-SamePublic :
    (c : Codec) (w : World) (type_name : Bytes) (t : Descriptor) (old new : Object)
    → Distinct new
    → GoMap.get type_name w.types ≡ some t
    → all_internal c w t.properties (diff_props old new) ≡ true
    → SamePublic w type_name old new
all_internal-SamePublic c w type_name t old new d ht h name public =
    elim (Bool-cases (seen name (diff_props old new))) [
      | inl differs ↦
          let (p, hp, i) = all_internal-seen c w t.properties (diff_props old new) name h differs in
          absurd (clash (sym i ∙ public t p ht hp))
      | inr same ↦ same_values _ _ (sym (diff_props_lem name old new d) ∙ same)
    ]
  where
    clash : true ≡ false → ⊥
    clash e = ground arith

    same_values : (a b : Option Bytes) → not (same? a b) ≡ false → a ≡ b
    same_values none none e = refl
    same_values none (some y) e = absurd (ground arith)
    same_values (some x) none e = absurd (ground arith)
    same_values (some x) (some y) e = ap some ((beq_iff x y).0 (holds (beq x y) e))
      where
        holds : (b : Bool) → not b ≡ false → b ≡ true
        holds true e = refl
        holds false e = absurd (ground arith)
