-- ===== src/ObjectDb/Keys/Names.antt =====
-- Keys of different kinds, or with different parts, differ.
use naust_jmap.Prelude.{
  ℕ, ◌<◌, ◌≡◌, ◌≢◌, refl, sym, ap, ◌∙◌, false, Bool-cases, inl, inr, List, [], ◌∷◌, ◌++◌, Option,
  none, some, Bytes, ◌==◌, beq, beq_refl, beq_iff, if◌then◌else◌,
}
use mathlib.Core.List.{reverse, reverse-append, reverse-reverse}
use naust_jmap.Backend.{encode_int64, decode_int64, two64}
use naust_jmap.Backend.Counter.{decode-encode}
use naust_jmap.KeyEnc.{key}
use naust_jmap.KeyEnc.Order.{key_injective}
use naust_jmap.ObjectDb.Keys.{
  tag_seg, obj_key, idx_key, log_key, log_floor_key, seq_key, type_state_key, tag_key, upload_key,
  ref_key, pending_key,
}

-- The kinds of key, with their parts.
pub data Name : Type 0 where
  object : Bytes → Bytes → Bytes → Name
  index : Bytes → Bytes → Bytes → Bytes → List Bytes → Bytes → Name
  entry : Bytes → ℕ → Name
  floor : Bytes → Name
  counter : Bytes → Name
  type_state : Bytes → Bytes → Name
  tagged : Bytes → Bytes → Name
  upload : Bytes → Bytes → Name
  ref : Bytes → Bytes → Bytes → Bytes → Name
  pending : Bytes → Bytes → Name

unfoldable pub key_of : Name → Bytes
key_of (object acct type_name id) = obj_key acct type_name id
key_of (index acct type_name prop value order id) = idx_key acct type_name prop value order id
key_of (entry acct sequence) = log_key acct sequence
key_of (floor acct) = log_floor_key acct
key_of (counter acct) = seq_key acct
key_of (type_state acct type_name) = type_state_key acct type_name
key_of (tagged tag acct) = tag_key tag acct
key_of (upload acct blob_id) = upload_key acct blob_id
key_of (ref acct blob_id type_name id) = ref_key acct blob_id type_name id
key_of (pending acct blob_id) = pending_key acct blob_id

-- The account is not the reserved segment, and the sequence number is an int64.
abbrev pub IsUsable : Name → Type 0
IsUsable (object acct type_name id) = acct ≢ tag_seg
IsUsable (index acct type_name prop value order id) = acct ≢ tag_seg
IsUsable (entry acct sequence) = (acct ≢ tag_seg) × (sequence < two64)
IsUsable (floor acct) = acct ≢ tag_seg
IsUsable (counter acct) = acct ≢ tag_seg
IsUsable (type_state acct type_name) = acct ≢ tag_seg
IsUsable (tagged tag acct) = Unit
IsUsable (upload acct blob_id) = acct ≢ tag_seg
IsUsable (ref acct blob_id type_name id) = acct ≢ tag_seg
IsUsable (pending acct blob_id) = acct ≢ tag_seg

unfoldable pub segs_of : Name → List Bytes
segs_of (object acct type_name id) = acct ∷ (b'o' ∷ []) ∷ type_name ∷ id ∷ []
segs_of (index acct type_name prop value order id) =
    acct ∷ (b'x' ∷ []) ∷ type_name ∷ prop ∷ value ∷ (order ++ id ∷ [])
segs_of (entry acct sequence) = acct ∷ (b'g' ∷ []) ∷ encode_int64 sequence ∷ []
segs_of (floor acct) = acct ∷ (b'f' ∷ []) ∷ []
segs_of (counter acct) = acct ∷ (b'q' ∷ []) ∷ []
segs_of (type_state acct type_name) = acct ∷ (b's' ∷ []) ∷ type_name ∷ []
segs_of (tagged tag acct) = tag_seg ∷ tag ∷ acct ∷ []
segs_of (upload acct blob_id) = acct ∷ (b'u' ∷ []) ∷ blob_id ∷ []
segs_of (ref acct blob_id type_name id) = acct ∷ (b'r' ∷ []) ∷ blob_id ∷ type_name ∷ id ∷ []
segs_of (pending acct blob_id) = acct ∷ (b'p' ∷ []) ∷ blob_id ∷ []

pub key_of-segs_of : (n : Name) → key_of n ≡ key (segs_of n)
unfolding key_of segs_of obj_key idx_key log_key log_floor_key seq_key type_state_key tag_key
    upload_key ref_key pending_key
key_of-segs_of (object acct type_name id) = refl
key_of-segs_of (index acct type_name prop value order id) = refl
key_of-segs_of (entry acct sequence) = refl
key_of-segs_of (floor acct) = refl
key_of-segs_of (counter acct) = refl
key_of-segs_of (type_state acct type_name) = refl
key_of-segs_of (tagged tag acct) = refl
key_of-segs_of (upload acct blob_id) = refl
key_of-segs_of (ref acct blob_id type_name id) = refl
key_of-segs_of (pending acct blob_id) = refl

-- Reading a name back from its segments. The last segment of an index key is its id.
read_index : Bytes → Bytes → Bytes → Bytes → List Bytes → Option Name
read_index acct type_name prop value [] = none
read_index acct type_name prop value (id ∷ back) =
    some (index acct type_name prop value (reverse back) id)

read_two : (Bytes → Bytes → Name) → List Bytes → Option Name
read_two make (a ∷ b ∷ []) = some (make a b)
read_two make segs = none

read_three : (Bytes → Bytes → Bytes → Name) → List Bytes → Option Name
read_three make (a ∷ b ∷ c ∷ []) = some (make a b c)
read_three make segs = none

read_one : (Bytes → Option Name) → List Bytes → Option Name
read_one make (a ∷ []) = make a
read_one make segs = none

read_none : Name → List Bytes → Option Name
read_none made [] = some made
read_none made segs = none

read_entry : Bytes → Bytes → Option Name
read_entry acct e = elim (decode_int64 e) [ none ↦ none | some n ↦ some (entry acct n) ]

read_indexed : Bytes → List Bytes → Option Name
read_indexed acct (type_name ∷ prop ∷ value ∷ rest) =
    read_index acct type_name prop value (reverse rest)
read_indexed acct segs = none

read_parts : Bytes → ℕ → List Bytes → Option Name
read_parts acct kind rest =
    if kind == b'o'
    then read_two (object acct) rest
    else if kind == b'x'
    then read_indexed acct rest
    else if kind == b'g'
    then read_one (read_entry acct) rest
    else if kind == b'f'
    then read_none (floor acct) rest
    else if kind == b'q'
    then read_none (counter acct) rest
    else if kind == b's'
    then read_one (λ t. some (type_state acct t)) rest
    else if kind == b'u'
    then read_one (λ b. some (upload acct b)) rest
    else if kind == b'r'
    then read_three (ref acct) rest
    else if kind == b'p'
    then read_one (λ b. some (pending acct b)) rest
    else none

read_tag : List Bytes → Option Name
read_tag (tag ∷ acct ∷ []) = some (tagged tag acct)
read_tag segs = none

read_kind : Bytes → List Bytes → Option Name
read_kind acct ((kind ∷ []) ∷ rest) = read_parts acct kind rest
read_kind acct segs = none

read_name : List Bytes → Option Name
read_name [] = none
read_name (acct ∷ rest) = if beq acct tag_seg then read_tag rest else read_kind acct rest

pub beq-ne : (x y : Bytes) → x ≢ y → beq x y ≡ false
beq-ne x y h = elim (Bool-cases (beq x y)) [ inl e ↦ absurd (h ((beq_iff x y).0 e)) | inr e ↦ e ]

read_account :
    (acct : Bytes) (rest : List Bytes)
    → acct ≢ tag_seg
    → read_name (acct ∷ rest) ≡ read_kind acct rest
unfolding read_name
read_account acct rest h = rw (beq-ne acct tag_seg h) refl

read-segs_of : (n : Name) → IsUsable n → read_name (segs_of n) ≡ some n
unfolding segs_of read_kind read_parts read_index read_tag read_one read_two read_three read_none
    read_entry read_indexed
read-segs_of (object acct type_name id) h = read_account acct _ h
read-segs_of (index acct type_name prop value order id) h =
    read_account acct _ h
    ∙ ap (read_index acct type_name prop value) (reverse-append order (id ∷ []))
    ∙ ap (λ o. some (index acct type_name prop value o id)) (reverse-reverse order)
read-segs_of (entry acct sequence) (h, small) =
    read_account acct _ h
    ∙ ap (λ o. elim o [ none ↦ none | some n ↦ some (entry acct n) ]) (decode-encode sequence small)
read-segs_of (floor acct) h = read_account acct _ h
read-segs_of (counter acct) h = read_account acct _ h
read-segs_of (type_state acct type_name) h = read_account acct _ h
read-segs_of (tagged tag acct) h = unfold read_name in rw (beq_refl tag_seg) refl
read-segs_of (upload acct blob_id) h = read_account acct _ h
read-segs_of (ref acct blob_id type_name id) h = read_account acct _ h
read-segs_of (pending acct blob_id) h = read_account acct _ h

some_injective : {m n : Name} → some m ≡ some n → m ≡ n
some_injective e = cc

-- Two names with the same key are the same name: keys of different kinds, and keys of one kind with
-- different parts, never collide. (No account is the reserved first segment of the account tags,
-- and the sequence numbers are int64.)
pub key_of_injective : (m n : Name) → IsUsable m → IsUsable n → key_of m ≡ key_of n → m ≡ n
key_of_injective m n hm hn e = some_injective (
    sym (read-segs_of m hm)
    ∙ ap read_name
        (key_injective (segs_of m) (segs_of n) (sym (key_of-segs_of m) ∙ e ∙ key_of-segs_of n))
    ∙ read-segs_of n hn)
