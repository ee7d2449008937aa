-- ===== src/ObjectDb/Schema.antt =====
-- core/descriptor/descriptor.go, and from core/objectdb: Object, indexValue (keys.go), checkKinds,
-- diffProps and orderSegs (objectdb.go). A raw JSON value is its bytes. The readers of JSON values
-- and the encoder of records are the interface Codec.
pub mod Values
mod Tests
use naust_jmap.Prelude.{
  ℕ, ◌+◌, ◌-◌, ◌^◌, ◌≡◌, ◌==◌, ltb, leb, if◌then◌else◌, Bool, true, false, not, ◌&&◌, ◌||◌, List,
  [], ◌∷◌, ◌++◌, Option, none, some, Bytes, beq, length,
}
use naust_jmap.Prelude.GoMap
use naust_jmap.Backend.{encode_int64, flip_sign}

infixl 5 ◌>>=◌
-- An early return of the error.
abbrev pub ◌>>=◌ {ℓ κ} : {A : Type ℓ} {B : Type κ} → Option A → (A → Option B) → Option B
none >>= rest = none
some a >>= rest = rest a

pub data Kind : Type 0 where
  kind_string kind_bool kind_int kind_unsigned_int kind_date kind_id kind_object kind_array : Kind

-- Property, without its default.
pub record Property : Type 0 where
  pub kind : Kind
  pub immutable : Bool
  pub server_set : Bool
  pub indexed : Bool
  pub order_by : List Bytes
  pub set_indexed : Bool
  pub blob_ref : Bool
  pub nullable : Bool
  pub internal : Bool

-- Type.
pub record Descriptor : Type 0 where
  pub name : Bytes
  pub properties : List (Bytes × Property)
  pub internal : Bool

abbrev pub Object : Type 0
Object = List (Bytes × Bytes)

-- The functions of core/internal/jsonscan and core/jmap on a raw value (none is their refusal),
-- the date readers, whose result is a number of microseconds, and encodeObject.
pub record Codec : Type 0 where
  pub string_of : Bytes → Option Bytes
  pub folded_string : Bytes → Option Bytes
  pub bool_of : Bytes → Option Bool
  pub int_of : Bytes → Option ℕ
  pub date_micros : Bytes → Option ℕ
  pub keys_of : Bytes → Option (List Bytes)
  pub strings_of : Bytes → Option (List Bytes)
  pub valid_date : Bytes → Bool
  pub valid_object : Bytes → Bool
  pub valid_array : Bytes → Bool
  pub encode_object : Object → Option Bytes

-- The spaces that bytes.TrimSpace takes off a JSON text.
abbrev pub is_space : ℕ → Bool
is_space b = (b == 32) || (leb 9 b && leb b 13)

unfoldable pub trim_left : Bytes → Bytes
trim_left [] = []
trim_left (b ∷ bs) = let rest = trim_left bs in if is_space b then rest else b ∷ bs

unfoldable pub trim_right : Bytes → Bytes
trim_right [] = []
trim_right (b ∷ bs) = elim (trim_right bs) [
  | [] ↦ if is_space b then [] else b ∷ []
  | c ∷ cs ↦ b ∷ c ∷ cs
]

abbrev pub null_text : Bytes
null_text = b'n' ∷ b'u' ∷ b'l' ∷ b'l' ∷ []

-- isNull
unfoldable pub is_null : Bytes → Bool
is_null raw = beq (trim_right (trim_left raw)) null_text

module _ (c : Codec) where
  open c use {string_of, folded_string, bool_of, int_of, date_micros}

  -- indexValue of a property that is not Nullable.
  unfoldable pub bare_value : Kind → Bytes → Option Bytes
  bare_value kind_string raw = folded_string raw
  bare_value kind_bool raw = do b ← bool_of raw; some ((if b then 1 else 0) ∷ [])
  bare_value kind_int raw = do n ← int_of raw; some (encode_int64 n)
  bare_value kind_unsigned_int raw = do n ← int_of raw; some (encode_int64 n)
  bare_value kind_date raw = do n ← date_micros raw; some (encode_int64 n)
  bare_value kind_id raw = string_of raw
  bare_value kind_object raw = none
  bare_value kind_array raw = none

  unfoldable pub index_value : Property → Bytes → Option Bytes
  index_value p raw =
      if p.nullable
      then (if is_null raw then some (0 ∷ []) else do v ← bare_value p.kind raw; some (1 ∷ v))
      else bare_value p.kind raw

  -- SortInt; SortKey is index_value.
  unfoldable pub sort_int : Property → Bytes → Option ℕ
  sort_int p raw = if p.nullable then none else elim p.kind [
    | kind_bool ↦ (do b ← bool_of raw; some (if b then 1 else 0))
    | kind_int ↦ int_of raw
    | kind_unsigned_int ↦ int_of raw
    | kind_date ↦ date_micros raw
    | _ ↦ none
  ]

  -- orderSegs: the loop over OrderBy.
  unfoldable pub order_segs : List (Bytes × Property) → List Bytes → Object → Option (List Bytes)
  order_segs props [] obj = some []
  order_segs props (ob ∷ obs) obj = do
    v ← elim (GoMap.get ob obj) [
      | none ↦ some []
      | some raw ↦ elim (GoMap.get ob props) [ none ↦ none | some q ↦ index_value q raw ]
    ]
    vs ← order_segs props obs obj
    some (v ∷ vs)

-- jmap.Id.Valid
abbrev pub id_byte : ℕ → Bool
id_byte b =
    (leb b'A' b && leb b b'Z')
    || (leb b'a' b && leb b b'z')
    || (leb b'0' b && leb b b'9')
    || (b == b'-')
    || (b == b'_')

unfoldable pub all_id_bytes : Bytes → Bool
all_id_bytes [] = true
all_id_bytes (b ∷ bs) = id_byte b && all_id_bytes bs

unfoldable pub valid_id : Bytes → Bool
valid_id id = leb 1 (length id) && leb (length id) 255 && all_id_bytes id

-- jmap.ValidInt and ValidUnsignedInt, on the 64-bit pattern: flip_sign turns the signed order into
-- that of the numbers.
abbrev pub max_int : ℕ
max_int = 2 ^ 53 - 1

unfoldable pub valid_int : ℕ → Bool
valid_int v = leb (2 ^ 63 - max_int) (flip_sign v) && leb (flip_sign v) (2 ^ 63 + max_int)

unfoldable pub valid_unsigned_int : ℕ → Bool
valid_unsigned_int v = leb (2 ^ 63) (flip_sign v) && leb (flip_sign v) (2 ^ 63 + max_int)

abbrev pub passes {ℓ} : {A : Type ℓ} → Option A → (A → Bool) → Bool
passes none test = false
passes (some a) test = test a

-- A raw value where bytes.Equal reads it: an absent one has no bytes.
abbrev pub raw_of : Option Bytes → Bytes
raw_of none = []
raw_of (some raw) = raw

module _ (c : Codec) where
  open c use {string_of, bool_of, int_of, valid_date, valid_object, valid_array}

  -- CheckValue of a value that is not null.
  unfoldable pub check_kind : Kind → Bytes → Bool
  check_kind kind_string raw = passes (string_of raw) (λ s. true)
  check_kind kind_bool raw = passes (bool_of raw) (λ b. true)
  check_kind kind_int raw = passes (int_of raw) valid_int
  check_kind kind_unsigned_int raw = passes (int_of raw) valid_unsigned_int
  check_kind kind_date raw = passes (string_of raw) valid_date
  check_kind kind_id raw = passes (string_of raw) valid_id
  check_kind kind_object raw = valid_object raw
  check_kind kind_array raw = valid_array raw

  unfoldable pub check_value : Property → Bytes → Bool
  check_value p raw = if is_null raw then p.nullable else check_kind p.kind raw

  abbrev pub same_as_prior : Option Object → Bytes → Bytes → Bool
  same_as_prior none name raw = false
  same_as_prior (some prior) name raw = beq raw (raw_of (GoMap.get name prior))

  -- checkKinds; false is its error.
  unfoldable pub check_kinds : List (Bytes × Property) → Object → Option Object → Bool
  check_kinds props [] prior = true
  check_kinds props ((name, raw) ∷ obj) prior =
      let rest = check_kinds props obj prior in
      if beq name (b'i' ∷ b'd' ∷ []) then rest else elim (GoMap.get name props) [
        | none ↦ false
        | some p ↦ (same_as_prior prior name raw || check_value p raw) && rest
      ]

-- diffProps: the loop over the new record, and the one over the old.
unfoldable pub changed_names : Object → Object → List Bytes
changed_names old [] = []
changed_names old ((name, raw) ∷ obj) =
    let rest = changed_names old obj in
    elim (GoMap.get name old) [
      | none ↦ name ∷ rest
      | some o ↦ if beq o raw then rest else name ∷ rest
    ]

unfoldable pub removed_names : Object → Object → List Bytes
removed_names [] obj = []
removed_names ((name, raw) ∷ old) obj =
    let rest = removed_names old obj in
    elim (GoMap.get name obj) [ none ↦ name ∷ rest | some o ↦ rest ]

unfoldable pub diff_props : Object → Object → List Bytes
diff_props old obj = changed_names old obj ++ removed_names old obj
