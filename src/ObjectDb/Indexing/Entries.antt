-- ===== src/ObjectDb/Indexing/Entries.antt =====
-- The property indexes of core/objectdb/objectdb.go after the operations of indexOps.
use naust_jmap.Prelude.{
  ◌≡◌, ◌≢◌, refl, sym, ◌∙◌, inl, inr, if◌then◌else◌, Bool, true, false, ◌&&◌, Bool-cases, and_left,
  and_right, both_ways, List, [], ◌∷◌, Option, none, some, Bytes, beq, beq_iff, beq_refl, arith,
}
use mathlib.Core.Path.{ap₂}
use naust_jmap.ObjectDb.Keys.{idx_key, tag_seg}
use naust_jmap.ObjectDb.Keys.Names.{index, key_of, key_of_injective}
use naust_jmap.ObjectDb.Schema.{Property, Descriptor, Object, Codec, order_segs, ◌>>=◌}
use naust_jmap.ObjectDb.Indexing.References.{name-ne}
use naust_jmap.ObjectDb.Indexing.{value_of, fields_of, indexed_value}

unfoldable pub beqs : List Bytes → List Bytes → Bool
beqs [] [] = true
beqs (x ∷ xs) (y ∷ ys) = beq x y && beqs xs ys
beqs _ _ = false

pub beqs→eq : (xs ys : List Bytes) → beqs xs ys ≡ true → xs ≡ ys
unfolding beqs
beqs→eq [] [] h = refl
beqs→eq [] (y ∷ ys) h = absurd (ground arith)
beqs→eq (x ∷ xs) [] h = absurd (ground arith)
beqs→eq (x ∷ xs) (y ∷ ys) h = elim (Bool-cases (beq x y)) [
  | inl same ↦ cc ((beq_iff x y).0 same, beqs→eq xs ys (rw same at h))
  | inr other ↦ absurd (clash (rw other at h))
]
  where
    clash : false ≡ true → ⊥
    clash e = ground arith

pub beqs_refl : (xs : List Bytes) → beqs xs xs ≡ true
unfolding beqs
beqs_refl [] = refl
beqs_refl (x ∷ xs) = rw (beq_refl x) (beqs_refl xs)

module _ (acct : Bytes) (usable : acct ≢ tag_seg) (t id : Bytes) where
  pub idx-other :
      (p q v w : Bytes) (o r : List Bytes)
      → beq p q ≡ false
      → beq (idx_key acct t p v o id) (idx_key acct t q w r id) ≡ false
  idx-other p q v w o r h =
      unfold key_of in
      name-ne (index acct t p v o id) (index acct t q w r id) usable usable (differ h)
    where
      clash : false ≡ true → ⊥
      clash e = ground arith

      same_prop : index acct t p v o id ≡ index acct t q w r id → p ≡ q
      same_prop e = ground arith

      differ : beq p q ≡ false → index acct t p v o id ≢ index acct t q w r id
      differ h e = clash (sym h ∙ (beq_iff p q).1 (same_prop e))

  pub beq-idx :
      (p v w : Bytes) (o r : List Bytes)
      → beq (idx_key acct t p v o id) (idx_key acct t p w r id) ≡ (beq v w && beqs o r)
  beq-idx p v w o r = both_ways _ _ (λ h. equal (named ((beq_iff _ _).0 h))) same_key
    where
      named :
          idx_key acct t p v o id ≡ idx_key acct t p w r id
          → index acct t p v o id ≡ index acct t p w r id
      named e =
          key_of_injective (index acct t p v o id) (index acct t p w r id) usable usable
            (unfold key_of in e)

      values : index acct t p v o id ≡ index acct t p w r id → (v ≡ w) × (o ≡ r)
      values e = (ground arith, ground arith)

      equal : index acct t p v o id ≡ index acct t p w r id → (beq v w && beqs o r) ≡ true
      equal e = rw ((values e).0, (values e).1, beq_refl w) (beqs_refl r)

      same_key :
          (beq v w && beqs o r) ≡ true
          → beq (idx_key acct t p v o id) (idx_key acct t p w r id) ≡ true
      same_key h = (beq_iff _ _).1 (
          ap₂ (λ x y. idx_key acct t p x y id) ((beq_iff v w).0 (and_left (beq v w) (beqs o r) h))
            (beqs→eq o r (and_right (beq v w) (beqs o r) h)))

-- What the key of an entry holds.
abbrev pub shown : Bool → Option Bytes
shown b = if b then some [] else none

pub hidden : (b : Bool) → (if b then none else shown b) ≡ none
hidden true = refl
hidden false = refl

pub replaced : (a b : Bool) → (if b then some [] else (if a then none else shown a)) ≡ shown b
replaced a true = refl
replaced true false = refl
replaced false false = refl

-- The entry that a record has in the index of a property: its value and the order segments.
module _ (c : Codec) (t : Descriptor) where
  -- The entry of a record whose indexed value is given.
  unfoldable pub entry_at :
      Property → Option Object → Option Bytes → Option (Option (Bytes × List Bytes))
  entry_at p obj none = some none
  entry_at p obj (some v) = do
    order ← order_segs c t.properties p.order_by (fields_of obj)
    some (some (v, order))

  unfoldable pub entry_of : Bytes → Property → Option Object → Option (Option (Bytes × List Bytes))
  entry_of prop p obj = do v ← indexed_value c p (value_of obj prop); entry_at p obj v

abbrev pub is_entry : Option (Bytes × List Bytes) → Bytes → List Bytes → Bool
is_entry none v o = false
is_entry (some (w, r)) v o = beq w v && beqs r o

-- The order segments of a record do not change: OrderBy names immutable properties.
abbrev pub SameOrder : Option (Bytes × List Bytes) → Option (Bytes × List Bytes) → Type 0
SameOrder (some (v, o)) (some (w, r)) = o ≡ r
SameOrder e e' = Unit
