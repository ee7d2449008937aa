-- ===== src/Backend.antt =====
-- core/providers/backend/backend.go: batches and counter values. An int64 is its 64-bit pattern,
-- a number below 2 ^ 64, so `uint64(v)` is the identity. A nil byte slice is `none`.
pub mod Counter
use naust_jmap.Prelude.{
  ℕ, zero, suc, ◌+◌, ◌*◌, ◌/◌, ◌%◌, ◌^◌, ◌<◌, ◌==◌, if◌then◌else◌, List, [], ◌∷◌, ◌++◌, Option,
  none, some, Bytes, length,
}

pub data Error : Type 0 where
  not_found assert_failed no_space bad_counter : Error

-- The constructors are the kinds OpSet, OpDelete, OpAdd and OpAssert with the fields they use.
pub data Op : Type 0 where
  set_op : Bytes → Option Bytes → Op
  delete_op : Bytes → Op
  add_op : Bytes → ℕ → Op
  assert_op : Bytes → Option Bytes → Op

pub record Batch : Type 0 where
  pub ops : List Op

unfoldable pub set : Batch → Bytes → Option Bytes → Batch
set b key value = record b { ops = b.ops ++ set_op key value ∷ [] }

unfoldable pub delete : Batch → Bytes → Batch
delete b key = record b { ops = b.ops ++ delete_op key ∷ [] }

unfoldable pub add : Batch → Bytes → ℕ → Batch
add b key delta = record b { ops = b.ops ++ add_op key delta ∷ [] }

unfoldable pub assert : Batch → Bytes → Option Bytes → Batch
assert b key expect = record b { ops = b.ops ++ assert_op key expect ∷ [] }

abbrev pub two64 : ℕ
two64 = 2 ^ 64

-- v ^ (1 << 63): flipping the top bit of a 64-bit word adds 2 ^ 63 to it, modulo 2 ^ 64.
abbrev pub flip_sign : ℕ → ℕ
flip_sign v = (v + 2 ^ 63) % two64

-- binary.BigEndian.PutUint64: the low n bytes of v, the highest first.
unfoldable pub put_uint : ℕ → ℕ → Bytes
put_uint zero v = []
put_uint (suc n) v = put_uint n (v / 256) ++ (v % 256) ∷ []

-- binary.BigEndian.Uint64
unfoldable pub get_uint : ℕ → Bytes → ℕ
get_uint acc [] = acc
get_uint acc (b ∷ bs) = get_uint (acc * 256 + b) bs

unfoldable pub encode_int64 : ℕ → Bytes
encode_int64 v = put_uint 8 (flip_sign v)

unfoldable pub decode_int64 : Bytes → Option ℕ
decode_int64 value = if length value == 8 then some (flip_sign (get_uint 0 value)) else none

-- The sum of two int64 values, wrapping.
abbrev pub add_int64 : ℕ → ℕ → ℕ
add_int64 a b = (a + b) % two64
