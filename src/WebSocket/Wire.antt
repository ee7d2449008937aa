-- ===== src/WebSocket/Wire.antt =====
-- What WriteMessage puts on the wire, read by the rules of RFC 6455, section 5.2.
use naust_jmap.Prelude.{
  ℕ, ◌+◌, ◌/◌, ◌%◌, ◌^◌, ◌≤◌, ◌<◌, ◌==◌, ◌≡◌, refl, sym, ap, ◌∙◌, ltb, leb, if◌then◌else◌, Bool,
  true, false, Bool-cases, inl, inr, [], ◌∷◌, ◌++◌, Option, none, some, Bytes, length,
  length-append, take, drop, take-append, drop-append, arith,
}
use mathlib.Core.List.{append_assoc}
use naust_jmap.Backend.{put_uint, get_uint}
use naust_jmap.Backend.Counter.{length-put_uint, get_uint-put_uint}
use naust_jmap.WebSocket.{header, write_message}

-- A frame as the RFC describes it.
pub record Frame : Type 0 where
  pub fin : Bool
  pub reserved : ℕ
  pub opcode : ℕ
  pub masked : Bool
  pub payload : Bytes

-- The length that stands in n octets, which must be the fewest, and what follows it.
extended : ℕ → ℕ → Bytes → Option (ℕ × Bytes)
extended n least rest =
    let size = get_uint 0 (take n rest) in
    if ltb (length rest) n then none else if ltb size least then none else some (size, drop n rest)

unfoldable pub payload_length : ℕ → Bytes → Option (ℕ × Bytes)
unfolding extended
payload_length short rest =
    if short == 126
    then extended 2 126 rest
    else if short == 127
    then extended 8 0x10000 rest
    else some (short, rest)

frame_of : ℕ → ℕ → ℕ → Bytes → Option (Frame × Bytes)
frame_of first second size rest =
    if ltb (length rest) size
    then none
    else some (
      record {
        fin = leb 0x80 first;
        reserved = first / 16 % 8;
        opcode = first % 16;
        masked = leb 0x80 second;
        payload = take size rest;
      },
      drop size rest,
    )

-- An unmasked frame at the head of a stream, and the rest of the stream.
unfoldable pub read_frame : Bytes → Option (Frame × Bytes)
unfolding frame_of
read_frame [] = none
read_frame (first ∷ []) = none
read_frame (first ∷ second ∷ rest) = elim (payload_length (second % 128) rest) [
  | none ↦ none
  | some (size, rest') ↦ frame_of first second size rest'
]

take_own : (k : ℕ) (xs ys : Bytes) → length xs ≡ k → take k (xs ++ ys) ≡ xs
take_own k xs ys l = ap (λ n. take n (xs ++ ys)) (sym l) ∙ take-append xs ys

drop_own : (k : ℕ) (xs ys : Bytes) → length xs ≡ k → drop k (xs ++ ys) ≡ ys
drop_own k xs ys l = ap (λ n. drop n (xs ++ ys)) (sym l) ∙ drop-append xs ys

ltb-ge : (a b : ℕ) → b ≤ a → ltb a b ≡ false
ltb-ge a b h = ground arith

extended-put_uint :
    (k least n : ℕ) (rest : Bytes)
    → n < 256 ^ k
    → least ≤ n
    → extended k least (put_uint k n ++ rest) ≡ some (n, rest)
unfolding extended
extended-put_uint k least n rest small le =
    rw
      (
        take_own k (put_uint k n) rest (length-put_uint k n),
        drop_own k (put_uint k n) rest (length-put_uint k n),
        get_uint-put_uint k n small,
        ltb-ge (length (put_uint k n ++ rest)) k
            (omega (arith, length-append (put_uint k n) rest, length-put_uint k n)),
        ltb-ge n least le,
      )
      refl

frame_of-append :
    (op second : ℕ) (payload rest : Bytes)
    → op < 16
    → second < 128
    → frame_of (0x80 + op) second (length payload) (payload ++ rest)
      ≡ some (
        record { fin = true; reserved = 0; opcode = op; masked = false; payload = payload },
        rest,
      )
unfolding frame_of
frame_of-append op second payload rest ho hs =
    rw
      (
        ltb-ge (length (payload ++ rest)) (length payload)
            (omega (arith, length-append payload rest)),
        take-append payload rest,
        drop-append payload rest,
        final,
        unreserved,
        low,
        unmasked,
      )
      refl
  where
    final : leb 0x80 (0x80 + op) ≡ true
    final = ground arith

    unreserved : (0x80 + op) / 16 % 8 ≡ 0
    unreserved = omega arith

    low : (0x80 + op) % 16 ≡ op
    low = omega arith

    unmasked : leb 0x80 second ≡ false
    unmasked = ground arith

payload_length-short :
    (n : ℕ) (rest : Bytes) → n ≤ 125 → payload_length (n % 128) rest ≡ some (n, rest)
unfolding payload_length
payload_length-short n rest h =
    ap (λ m. payload_length m rest) whole ∙ rw (ne 126 (omega arith), ne 127 (omega arith)) refl
  where
    whole : n % 128 ≡ n
    whole = omega arith

    ne : (m : ℕ) → n < m → (n == m) ≡ false
    ne m k = ground arith

read_frame-header :
    (op n : ℕ) (rest : Bytes)
    → n < 2 ^ 63
    → (second : ℕ) × (second < 128)
      × (read_frame (header op n ++ rest) ≡ frame_of (0x80 + op) second n rest)
unfolding read_frame header payload_length
read_frame-header op n rest small = elim (Bool-cases (leb n 125)) [
  | inl short ↦
      (n, ground arith, rw short (ap (sized n) (payload_length-short n rest (ground arith))))
  | inr long ↦ elim (Bool-cases (leb n 0xffff)) [
    | inl mid ↦ (
      126,
      omega arith,
      rw (long, mid)
          (ap (sized 126) (extended-put_uint 2 126 n rest (ground arith) (ground arith))),
    )
    | inr big ↦ (
      127,
      omega arith,
      rw (long, big)
          (ap (sized 127) (extended-put_uint 8 0x10000 n rest (omega arith) (ground arith))),
    )
  ]
]
  where
    sized : ℕ → Option (ℕ × Bytes) → Option (Frame × Bytes)
    sized second o = elim o [
      | none ↦ none
      | some (size, rest') ↦ frame_of (0x80 + op) second size rest'
    ]

written :
    (op : ℕ) (payload out : Bytes)
    → write_message op payload ≡ some out
    → (op < 16) × (header op (length payload) ++ payload ≡ out)
unfolding write_message
written op payload out w = ground arith

-- A message that WriteMessage writes, of an opcode and a payload of less than 2 ^ 63 bytes, is one
-- whole frame on the wire: final, with no reserved bit, unmasked, with its length in the fewest
-- octets; what follows it on the stream is left.
pub read_frame-write_message :
    (op : ℕ) (payload out rest : Bytes)
    → length payload < 2 ^ 63
    → write_message op payload ≡ some out
    → read_frame (out ++ rest)
      ≡ some (
        record { fin = true; reserved = 0; opcode = op; masked = false; payload = payload },
        rest,
      )
read_frame-write_message op payload out rest small w =
    let (ho, made) = written op payload out w in
    let (second, hs, reads) = read_frame-header op (length payload) (payload ++ rest) small in
    ap (λ o. read_frame (o ++ rest)) (sym made)
    ∙ ap read_frame (append_assoc (header op (length payload)) payload rest)
    ∙ reads
    ∙ frame_of-append op second payload rest ho hs
