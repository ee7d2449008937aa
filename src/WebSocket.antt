-- ===== src/WebSocket.antt =====
-- capabilities/websocket/internal/frame/frame.go: the server side of the RFC 6455 framing.
pub mod Words
pub mod Mask
pub mod Wire
pub mod Utf8
pub mod Reader
mod Tests
use naust_jmap.Prelude.{
  ℕ, zero, suc, ◌+◌, ◌*◌, ◌/◌, ◌%◌, ◌^◌, ◌==◌, if◌then◌else◌, ltb, leb, Bool, true, false, not,
  ◌&&◌, ◌||◌, List, [], ◌∷◌, ◌++◌, Option, none, some, Bytes, length, get_elem?, take, drop,
}
use naust_jmap.Backend.{put_uint}

-- a ^ b on words of n bits.
unfoldable pub xor_bits : ℕ → ℕ → ℕ → ℕ
xor_bits zero a b = 0
xor_bits (suc n) a b = (a + b) % 2 + 2 * xor_bits n (a / 2) (b / 2)

-- binary.LittleEndian: a word's bytes, the lowest first.
unfoldable pub get_le : Bytes → ℕ
get_le [] = 0
get_le (b ∷ bs) = b + 256 * get_le bs

unfoldable pub put_le : ℕ → ℕ → Bytes
put_le zero v = []
put_le (suc n) v = (v % 256) ∷ put_le n (v / 256)

abbrev pub byte_at : Bytes → ℕ → ℕ
byte_at bs i = elim (get_elem? bs i) [ none ↦ 0 | some b ↦ b ]

-- The key from the offset's phase on.
unfoldable pub rotated : Bytes → ℕ → Bytes
rotated key offset =
    byte_at key (offset % 4)
    ∷ byte_at key ((offset + 1) % 4)
    ∷ byte_at key ((offset + 2) % 4)
    ∷ byte_at key ((offset + 3) % 4)
    ∷ []

-- The last loop of mask.
unfoldable pub mask_tail : Bytes → ℕ → Bytes → Bytes
mask_tail k i [] = []
mask_tail k i (b ∷ p) = xor_bits 8 b (byte_at k (i % 4)) ∷ mask_tail k (suc i) p

-- The loop over words of eight bytes, and then the tail.
unfoldable pub mask_words : Bytes → Bytes → Bytes
mask_words k (b0 ∷ b1 ∷ b2 ∷ b3 ∷ b4 ∷ b5 ∷ b6 ∷ b7 ∷ p) =
    let k64 = get_le k + 2 ^ 32 * get_le k in
    put_le 8 (xor_bits 64 (get_le (b0 ∷ b1 ∷ b2 ∷ b3 ∷ b4 ∷ b5 ∷ b6 ∷ b7 ∷ [])) k64)
    ++ mask_words k p
mask_words k p = mask_tail k 0 p

unfoldable pub mask : Bytes → Bytes → ℕ → Bytes
mask p key offset = mask_words (rotated key offset) p

-- hdr[:n] of WriteMessage.
unfoldable pub header : ℕ → ℕ → Bytes
header op n =
    if leb n 125
    then (0x80 + op) ∷ n ∷ []
    else if leb n 0xffff
    then (0x80 + op) ∷ 126 ∷ put_uint 2 n
    else (0x80 + op) ∷ 127 ∷ put_uint 8 n

-- op&0x8 != 0, of an opcode below 16.
abbrev pub is_control : ℕ → Bool
is_control op = leb 8 op

-- WriteMessage: the bytes that go out; `none` is an error before any write.
unfoldable pub write_message : ℕ → Bytes → Option Bytes
write_message op payload =
    if ltb 0x0f op
    then none
    else if is_control op && ltb 125 (length payload)
    then none
    else some (header op (length payload) ++ payload)

-- validReceivedCloseCode
unfoldable pub valid_received_close_code : ℕ → Bool
valid_received_close_code code =
    if leb 1000 code && leb code 1003
    then true
    else if leb 1007 code && leb code 1014
    then true
    else leb 3000 code && leb code 4999
