-- ===== src/ObjectDb/Keys.antt =====
-- core/objectdb/keys.go: the keys of an account's records, indexes, log and counters; and
-- seqFromLogKey of core/objectdb/changes.go.
pub mod Sequence
pub mod Names
pub mod LogRange
mod Tests
use naust_jmap.Prelude.{
  ℕ, zero, suc, ◌-◌, ◌==◌, if◌then◌else◌, Bool, true, false, ◌&&◌, List, [], ◌∷◌, ◌++◌, Option,
  none, some, Bytes, length, take, drop, get_elem?,
}
use naust_jmap.Backend.{encode_int64, decode_int64}
use naust_jmap.KeyEnc.{key}

abbrev pub tag_seg : Bytes
tag_seg = b'!' ∷ b't' ∷ b'a' ∷ b'g' ∷ []

unfoldable pub obj_key : Bytes → Bytes → Bytes → Bytes
obj_key acct type_name id = key (acct ∷ (b'o' ∷ []) ∷ type_name ∷ id ∷ [])

unfoldable pub idx_key : Bytes → Bytes → Bytes → Bytes → List Bytes → Bytes → Bytes
idx_key acct type_name prop value order id =
    let segs = acct ∷ (b'x' ∷ []) ∷ type_name ∷ prop ∷ value ∷ [] in
    key ((segs ++ order) ++ id ∷ [])

unfoldable pub log_key : Bytes → ℕ → Bytes
log_key acct sequence = key (acct ∷ (b'g' ∷ []) ∷ encode_int64 sequence ∷ [])

unfoldable pub log_floor_key : Bytes → Bytes
log_floor_key acct = key (acct ∷ (b'f' ∷ []) ∷ [])

unfoldable pub seq_key : Bytes → Bytes
seq_key acct = key (acct ∷ (b'q' ∷ []) ∷ [])

unfoldable pub type_state_key : Bytes → Bytes → Bytes
type_state_key acct type_name = key (acct ∷ (b's' ∷ []) ∷ type_name ∷ [])

unfoldable pub tag_key : Bytes → Bytes → Bytes
tag_key tag acct = key (tag_seg ∷ tag ∷ acct ∷ [])

unfoldable pub upload_key : Bytes → Bytes → Bytes
upload_key acct blob_id = key (acct ∷ (b'u' ∷ []) ∷ blob_id ∷ [])

unfoldable pub ref_key : Bytes → Bytes → Bytes → Bytes → Bytes
ref_key acct blob_id type_name id = key (acct ∷ (b'r' ∷ []) ∷ blob_id ∷ type_name ∷ id ∷ [])

unfoldable pub pending_key : Bytes → Bytes → Bytes
pending_key acct blob_id = key (acct ∷ (b'p' ∷ []) ∷ blob_id ∷ [])

-- body[i] == 0x00 && body[i+1] == b
abbrev pub escape_at : Bytes → ℕ → ℕ → Bool
escape_at body i b = elim (get_elem? body i) [
  | none ↦ false
  | some x ↦ elim (get_elem? body (suc i)) [ none ↦ false | some y ↦ (x == 0) && (y == b) ]
]

-- The first loop of seqFromLogKey, over the indices below n, the highest first.
unfoldable pub seg_start : Bytes → ℕ → ℕ
seg_start body zero = 0
seg_start body (suc i) =
    let before = seg_start body i in if escape_at body i 0x01 then suc (suc i) else before

-- The second loop, over the bytes of body[segStart:].
unfoldable pub unescape : Bytes → Bytes
unescape [] = []
unescape (b ∷ []) = b ∷ []
unescape (b ∷ c ∷ bs) =
    let skipped = unescape bs in
    let next = unescape (c ∷ bs) in if (b == 0) && (c == 0xff) then 0x00 ∷ skipped else b ∷ next

-- An error of DecodeInt64 gives 0.
unfoldable pub seq_from_log_key : Bytes → ℕ
seq_from_log_key k =
    let body = take (length k - 2) k in
    let raw = unescape (drop (seg_start body (length body - 1)) body) in
    elim (decode_int64 raw) [ none ↦ 0 | some n ↦ n ]
