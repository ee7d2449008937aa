-- ===== src/ObjectDb/Schema/Values.antt =====
-- The order of index values, and the difference of two records.
use naust_jmap.Prelude.{
  ℕ, ◌≤◌, ◌<◌, ◌≡◌, refl, sym, subst, ap, ◌∙◌, inl, inr, if◌then◌else◌, Bool, true, false, not,
  ◌&&◌, ◌||◌, Bool-cases, Option-cases, List, [], ◌∷◌, ◌++◌, Option, none, some, Bytes, beq,
  beq_iff, blt, arith,
}
use naust_jmap.Prelude.GoMap
use naust_jmap.Prelude.GoMap.{Distinct}
use naust_jmap.Backend.{encode_int64, two64}
use naust_jmap.Backend.Counter.{lt_int64, encode_order}
use naust_jmap.ObjectDb.Schema.{
  Kind, kind_string, kind_bool, kind_int, kind_unsigned_int, kind_date, kind_id, kind_object,
  kind_array, Property, Object, Codec, bare_value, index_value, sort_int, changed_names,
  removed_names, diff_props,
}
use naust_jmap.ObjectDb.Changes.{seen}

bool_order :
    (x y : Bool)
    → blt ((if x then 1 else 0) ∷ []) ((if y then 1 else 0) ∷ [])
      ≡ lt_int64 (if x then 1 else 0) (if y then 1 else 0)
unfolding blt
bool_order true true = refl
bool_order true false = refl
bool_order false true = refl
bool_order false false = refl

-- The index value of an integer key of a kind.
sort_bytes : Kind → ℕ → Bytes
sort_bytes kind_bool n = n ∷ []
sort_bytes _ n = encode_int64 n

sort_bytes-order :
    (k : Kind) (m n : ℕ)
    → m < two64
    → n < two64
    → (k ≡ kind_bool → (m ≤ 1) × (n ≤ 1))
    → blt (sort_bytes k m) (sort_bytes k n) ≡ lt_int64 m n
unfolding sort_bytes blt
sort_bytes-order kind_bool m n hm hn b = ground (arith, b refl)
sort_bytes-order kind_string m n hm hn b = encode_order m n hm hn
sort_bytes-order kind_int m n hm hn b = encode_order m n hm hn
sort_bytes-order kind_unsigned_int m n hm hn b = encode_order m n hm hn
sort_bytes-order kind_date m n hm hn b = encode_order m n hm hn
sort_bytes-order kind_id m n hm hn b = encode_order m n hm hn
sort_bytes-order kind_object m n hm hn b = encode_order m n hm hn
sort_bytes-order kind_array m n hm hn b = encode_order m n hm hn

module _ (c : Codec) where
  sort_int-kind :
      (p : Property) (k : Kind) (raw : Bytes) (n : ℕ)
      → p.kind ≡ k
      → sort_int c p raw ≡ some n
      → (bare_value c k raw ≡ some (sort_bytes k n))
        × (p.nullable ≡ false)
        × (k ≡ kind_bool → n ≤ 1)
  unfolding sort_int bare_value sort_bytes
  sort_int-kind p kind_bool raw n e h = ground arith
  sort_int-kind p kind_string raw n e h = ground arith
  sort_int-kind p kind_int raw n e h = ground arith
  sort_int-kind p kind_unsigned_int raw n e h = ground arith
  sort_int-kind p kind_date raw n e h = ground arith
  sort_int-kind p kind_id raw n e h = ground arith
  sort_int-kind p kind_object raw n e h = ground arith
  sort_int-kind p kind_array raw n e h = ground arith

  index_value-sort_bytes :
      (p : Property) (a : Bytes) (m : ℕ) (u : Bytes)
      → sort_int c p a ≡ some m
      → index_value c p a ≡ some u
      → u ≡ sort_bytes p.kind m
  unfolding index_value
  index_value-sort_bytes p a m u h e =
      let (bare, plain, _) = sort_int-kind p p.kind a m refl h in inner (sym e ∙ (rw plain bare))
    where
      inner : some u ≡ some (sort_bytes p.kind m) → u ≡ sort_bytes p.kind m
      inner q = cc

  -- The integer that SortInt gives for a value orders values of the property as their index
  -- values do: where both values have one (each an int64), the bytes of SortKey compare as the
  -- signed integers do.
  pub sort_int-index_value :
      (p : Property) (a b : Bytes) (m n : ℕ) (u v : Bytes)
      → sort_int c p a ≡ some m
      → sort_int c p b ≡ some n
      → m < two64
      → n < two64
      → index_value c p a ≡ some u
      → index_value c p b ≡ some v
      → blt u v ≡ lt_int64 m n
  sort_int-index_value p a b m n u v ha hb hm hn eu ev =
      rw (index_value-sort_bytes p a m u ha eu, index_value-sort_bytes p b n v hb ev)
        (sort_bytes-order p.kind m n hm hn (λ k.
          ((sort_int-kind p p.kind a m refl ha).2 k, (sort_int-kind p p.kind b n refl hb).2 k)))

-- Whether two optional raw values are the same.
abbrev pub same? : Option Bytes → Option Bytes → Bool
same? none none = true
same? (some a) (some b) = beq a b
same? _ _ = false

abbrev present : Option Bytes → Bool
present none = false
present (some v) = true

seen-append :
    (name : Bytes) (xs ys : List Bytes) → seen name (xs ++ ys) ≡ (seen name xs || seen name ys)
unfolding seen
seen-append name [] ys = refl
seen-append name (x ∷ xs) ys = ground (arith, seen-append name xs ys)

changed_step :
    (name k raw : Bytes) (old obj : Object)
    → seen name (changed_names old ((k, raw) ∷ obj)) ≡ (
        beq k name && not (same? (GoMap.get k old) (some raw)) || seen name (changed_names old obj))
unfolding seen changed_names
changed_step name k raw old obj = elim (Option-cases (GoMap.get k old)) [
  | inl absent ↦ ground arith
  | inr (o, found) ↦ elim (Bool-cases (beq o raw)) [
    | inl same ↦ rw (found, same) (ground arith)
    | inr other ↦ rw (found, other) (ground arith)
  ]
]

abbrev changed : Option Bytes → Option Bytes → Bool
changed o none = false
changed o (some v) = not (same? o (some v))

or_false : (b : Bool) → (b || false) ≡ b
or_false true = refl
or_false false = refl

changed-cons :
    (name k raw : Bytes) (old obj : Object)
    → GoMap.get k obj ≡ none
    → (beq k name && changed (GoMap.get k old) (some raw)
        || changed (GoMap.get name old) (GoMap.get name obj))
      ≡ changed (GoMap.get name old) (if beq k name then some raw else GoMap.get name obj)
changed-cons name k raw old obj fresh = elim (Bool-cases (beq k name)) [
  | inl same ↦ rw same (
      subst
        (λ x.
          (changed (GoMap.get k old) (some raw) || changed (GoMap.get x old) (GoMap.get x obj))
          ≡ changed (GoMap.get x old) (some raw))
        ((beq_iff k name).0 same)
        (ap (λ o. changed (GoMap.get k old) (some raw) || changed (GoMap.get k old) o) fresh
          ∙ or_false (changed (GoMap.get k old) (some raw))))
  | inr other ↦ rw other refl
]

seen-changed_names :
    (name : Bytes) (old obj : Object)
    → Distinct obj
    → seen name (changed_names old obj) ≡ changed (GoMap.get name old) (GoMap.get name obj)
seen-changed_names name old [] d = unfold seen changed_names GoMap.get in refl
seen-changed_names name old ((k, raw) ∷ obj) (fresh, d) =
    changed_step name k raw old obj
    ∙ ap (λ b. beq k name && changed (GoMap.get k old) (some raw) || b)
        (seen-changed_names name old obj d)
    ∙ changed-cons name k raw old obj fresh
    ∙ (unfold GoMap.get in refl)

removed_step :
    (name k raw : Bytes) (old obj : Object)
    → seen name (removed_names ((k, raw) ∷ old) obj)
      ≡ (beq k name && not (present (GoMap.get k obj)) || seen name (removed_names old obj))
unfolding seen removed_names
removed_step name k raw old obj = elim (Option-cases (GoMap.get k obj)) [
  | inl absent ↦ rw absent (ground arith)
  | inr (o, found) ↦ rw found (ground arith)
]

abbrev removed : Object → Object → Bytes → Bool
removed old obj name = present (GoMap.get name old) && not (present (GoMap.get name obj))

removed-cons :
    (name k raw : Bytes) (old obj : Object)
    → (beq k name && not (present (GoMap.get k obj)) || removed old obj name)
      ≡ removed ((k, raw) ∷ old) obj name
unfolding GoMap.get
removed-cons name k raw old obj = elim (Bool-cases (beq k name)) [
  | inl same ↦ rw (same, (beq_iff k name).0 same) (absorb (present (GoMap.get name old)) _)
  | inr other ↦ rw other refl
]
  where
    absorb : (p q : Bool) → (q || p && q) ≡ q
    absorb true true = refl
    absorb true false = refl
    absorb false true = refl
    absorb false false = refl

seen-removed_names :
    (name : Bytes) (old obj : Object) → seen name (removed_names old obj) ≡ removed old obj name
seen-removed_names name [] obj = unfold seen removed_names GoMap.get in refl
seen-removed_names name ((k, raw) ∷ old) obj =
    removed_step name k raw old obj
    ∙ ap (λ b. beq k name && not (present (GoMap.get k obj)) || b) (seen-removed_names name old obj)
    ∙ removed-cons name k raw old obj

-- For a record whose names are distinct: diffProps lists a name exactly where the raw values of the
-- two versions differ, a missing one counting as a value of its own.
pub diff_props_lem :
    (name : Bytes) (old obj : Object)
    → Distinct obj
    → seen name (diff_props old obj) ≡ not (same? (GoMap.get name old) (GoMap.get name obj))
unfolding diff_props
diff_props_lem name old obj d =
    seen-append name (changed_names old obj) (removed_names old obj)
    ∙ ap (λ b. b || seen name (removed_names old obj)) (seen-changed_names name old obj d)
    ∙ ap (λ b. changed (GoMap.get name old) (GoMap.get name obj) || b)
        (seen-removed_names name old obj)
    ∙ either (GoMap.get name old) (GoMap.get name obj)
  where
    either : (a b : Option Bytes) → (changed a b || present a && not (present b)) ≡ not (same? a b)
    either none none = refl
    either none (some y) = refl
    either (some x) none = refl
    either (some x) (some y) = or_false _
