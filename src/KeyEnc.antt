-- ===== src/KeyEnc.antt =====
-- core/internal/keyenc/keyenc.go: the order-preserving key encoding that objectdb and the blob
-- stores share. A byte slice is a list of numbers; `nil` from PrefixSuccessor is `none`.
pub mod Layout
mod Tests
pub mod Order
pub mod Range
use naust_jmap.Prelude.{
  ℕ, zero, ◌+◌, Bool, ◌==◌, if◌then◌else◌, ltb, List, [], ◌∷◌, ◌++◌, Option, none, some, Bytes,
  length,
}
use mathlib.Core.List.{reverse}

-- What the loop of Segment appends for one byte.
unfoldable pub segment_byte : Bytes → ℕ → Bytes
segment_byte dst b = if b == 0 then dst ++ 0x00 ∷ 0xff ∷ [] else dst ++ b ∷ []

unfoldable pub segment_loop : Bytes → Bytes → Bytes
segment_loop dst [] = dst
segment_loop dst (b ∷ seg) = segment_loop (segment_byte dst b) seg

unfoldable pub segment : Bytes → Bytes → Bytes
segment dst seg = segment_loop dst seg ++ 0x00 ∷ 0x01 ∷ []

-- bytes.Count(s, zeroByte)
unfoldable pub count_zeros : Bytes → ℕ
count_zeros [] = 0
count_zeros (b ∷ s) = (if b == 0 then 1 else 0) + count_zeros s

-- The first loop of Key: the size of the one allocation.
unfoldable pub key_size : ℕ → List Bytes → ℕ
key_size size [] = size
key_size size (s ∷ segs) = key_size (size + (length s + 2 + count_zeros s)) segs

-- The second loop of Key.
unfoldable pub key_loop : Bytes → List Bytes → Bytes
key_loop out [] = out
key_loop out (s ∷ segs) = key_loop (segment out s) segs

unfoldable pub key : List Bytes → Bytes
key segs = key_loop [] segs

-- The loop of PrefixSuccessor, from the last byte down: the bytes of `out[:i+1]`, last first.
unfoldable pub successor_loop : Bytes → Option Bytes
successor_loop [] = none
successor_loop (b ∷ rest) =
    let next = successor_loop rest in if ltb b 0xff then some (reverse ((b + 1) ∷ rest)) else next

unfoldable pub prefix_successor : Bytes → Option Bytes
prefix_successor prefix = successor_loop (reverse prefix)

unfoldable pub prefix_range : List Bytes → Bytes × Option Bytes
prefix_range segs = let start = key segs in (start, prefix_successor start)
