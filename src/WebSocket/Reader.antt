-- ===== src/WebSocket/Reader.antt =====
-- The Reader of capabilities/websocket/internal/frame/frame.go. The stream is the list of the bytes
-- that it still yields; after them a read fails. The reasons of a ProtocolError are left out.
pub mod Chunks
pub mod Payload
pub mod Sound
pub mod Messages
pub mod Ends
mod Tests
use naust_jmap.Prelude.{
  ℕ, zero, suc, ◌+◌, ◌-◌, ◌*◌, ◌/◌, ◌%◌, ◌^◌, ◌==◌, min, if◌then◌else◌, ltb, leb, Bool, true, false,
  not, ◌&&◌, ◌||◌, List, [], ◌∷◌, ◌++◌, Option, none, some, Bytes, length, take, drop,
}
use naust_jmap.Backend.{get_uint}
use naust_jmap.WebSocket.{mask, byte_at, valid_received_close_code}
use naust_jmap.WebSocket.Utf8.{valid, rune_start, full_rune}

pub record Message : Type 0 where
  pub opcode : ℕ
  pub payload : Bytes

-- The error of the stream, or a ProtocolError with its close code.
pub data Failure : Type 0 where
  stream : Failure
  protocol : ℕ → Failure

pub record Reader : Type 0 where
  pub input : Bytes
  pub max_message : ℕ
  pub max_fragments : ℕ
  pub partial : Option Bytes
  pub partial_op : ℕ
  pub frags : ℕ
  pub utf_ok : ℕ
  pub dirty : Bool

abbrev pub close_protocol_error : ℕ
close_protocol_error = 1002

abbrev pub close_invalid_payload : ℕ
close_invalid_payload = 1007

abbrev pub close_too_big : ℕ
close_too_big = 1009

abbrev pub alloc_chunk : ℕ
alloc_chunk = 32768

-- A nil slice has no bytes.
abbrev pub held : Option Bytes → Bytes
held none = []
held (some p) = p

-- io.ReadFull of n bytes, in the methods full and midFull.
unfoldable pub full : ℕ → Reader → Option Bytes × Reader
full n rd =
    if leb n (length rd.input)
    then (some (take n rd.input), record rd { input = drop n rd.input })
    else (none, record rd { input = []; dirty = rd.dirty || ltb 0 (length rd.input) })

unfoldable pub mid_full : ℕ → Reader → Option Bytes × Reader
mid_full n rd =
    let (bytes, rd') = full n rd in
    elim bytes [ none ↦ (none, record rd' { dirty = true }) | some bs ↦ (some bs, rd') ]

-- The loop of validateChunk, for the offsets from i on; `fuel` offsets are left.
unfoldable pub cut_loop : ℕ → ℕ → ℕ → Bytes → ℕ
cut_loop zero i utf_ok p = length p
cut_loop (suc fuel) i utf_ok p =
    let at = length p - i in
    let next = cut_loop fuel (suc i) utf_ok p in
    if leb (utf_ok + i) (length p)
    then (if rune_start (byte_at p at)
        then (if full_rune (drop at p) then length p else at)
        else next)
    else length p

-- i < utf8.UTFMax
unfoldable pub cut : ℕ → Bytes → ℕ
cut utf_ok p = cut_loop 3 1 utf_ok p

unfoldable pub validate_chunk : Reader → Option Failure × Reader
validate_chunk rd =
    let p = held rd.partial in
    let to = cut rd.utf_ok p in
    if valid (drop rd.utf_ok (take to p))
    then (none, record rd { utf_ok = to })
    else (some (protocol close_invalid_payload), rd)

-- A chunk that arrived, unmasked onto the reassembly buffer and validated.
unfoldable pub take_chunk : Bytes → Bytes → ℕ → Reader → Option Failure × Reader
take_chunk chunk key done rd =
    let rd' : Reader = record rd { partial = some (held rd.partial ++ mask chunk key done) } in
    if rd.partial_op == 1 then validate_chunk rd' else (none, rd')

-- What is in the buffer when the stream fails within a chunk: the bytes that came, and zeros.
unfoldable pub zeros : ℕ → Bytes
zeros zero = []
zeros (suc n) = 0 ∷ zeros n

-- appendPayload; `fuel` bounds the number of chunks.
unfoldable pub append_payload : ℕ → ℕ → ℕ → Bytes → Reader → Option Failure × Reader
append_payload zero done size key rd = (none, rd)
append_payload (suc fuel) done size key rd =
    let n = min (size - done) alloc_chunk in
    let (bytes, rd') = mid_full n rd in
    if ltb done size
    then elim bytes [
      | none ↦ (
        some stream,
        record rd' { partial = some (held rd.partial ++ rd.input ++ zeros (n - length rd.input)) },
      )
      | some chunk ↦
          let (f, rd'') = take_chunk chunk key done rd' in
          elim f [ some e ↦ (some e, rd'') | none ↦ append_payload fuel (done + n) size key rd'' ]
    ]
    else (none, rd)

-- validateClose
unfoldable pub validate_close : Bytes → Option Failure
validate_close [] = none
validate_close (b ∷ []) = some (protocol close_protocol_error)
validate_close (b0 ∷ b1 ∷ reason) =
    if not (valid_received_close_code (get_uint 0 (b0 ∷ b1 ∷ [])))
    then some (protocol close_protocol_error)
    else if not (valid reason)
    then some (protocol close_invalid_payload)
    else none

-- What one turn of the loop of Next comes to.
pub data Turn : Type 0 where
  returns : Message → Turn
  fails : Failure → Turn
  continues : Turn

-- The end of a control frame, with its payload unmasked.
unfoldable pub control_message : ℕ → Bytes → Reader → Turn × Reader
control_message op payload rd =
    let refused = if op == 8 then validate_close payload else none in
    elim refused [
      | some e ↦ (fails e, rd)
      | none ↦ (returns (record { opcode = op; payload = payload }), rd)
    ]

-- A control frame, from its mask key on.
unfoldable pub read_control : ℕ → ℕ → Reader → Turn × Reader
read_control op size rd =
    let (key, rd1) = mid_full 4 rd in
    let (bytes, rd2) = mid_full size rd1 in
    elim key [
      | none ↦ (fails stream, rd1)
      | some k ↦ elim bytes [
        | none ↦ (fails stream, rd2)
        | some masked ↦ control_message op (mask masked k 0) rd2
      ]
    ]

-- The end of a message: the reassembly state is reset before the text is judged.
unfoldable pub finish_message : Reader → Turn × Reader
finish_message rd =
    let msg : Message = record { opcode = rd.partial_op; payload = held rd.partial } in
    let rd' : Reader = record rd { partial = none; partial_op = 0; frags = 0; utf_ok = 0 } in
    if msg.opcode == 1 && not (valid (drop rd.utf_ok msg.payload))
    then (fails (protocol close_invalid_payload), rd')
    else (returns msg, rd')

-- A first fragment starts a message.
unfoldable pub started : ℕ → Reader → Reader
started op rd = if op == 0 then rd else record rd { partial_op = op; partial = some []; utf_ok = 0 }

-- The end of a data frame, with what appendPayload returned.
unfoldable pub end_of_frame : Bool → Option Failure → Reader → Turn × Reader
end_of_frame fin (some e) rd = (fails e, rd)
end_of_frame fin none rd = if fin then finish_message rd else (continues, rd)

-- A data frame, from its mask key on.
unfoldable pub read_data : Bool → ℕ → ℕ → Reader → Turn × Reader
read_data fin op size rd =
    let (key, rd1) = mid_full 4 rd in
    elim key [
      | none ↦ (fails stream, rd1)
      | some k ↦
          let (f, rd2) = append_payload (suc size) 0 size k (started op rd1) in
          end_of_frame fin f rd2
    ]

abbrev pub is_nil : Option Bytes → Bool
is_nil none = true
is_nil (some p) = false

-- The checks of a control frame, and of a data frame.
unfoldable pub control_frame : Bool → ℕ → ℕ → Reader → Turn × Reader
control_frame fin op size rd =
    if not fin
    then (fails (protocol close_protocol_error), rd)
    else if ltb 125 size
    then (fails (protocol close_protocol_error), rd)
    else if op == 8 || op == 9 || op == 10
    then read_control op size rd
    else (fails (protocol close_protocol_error), rd)

-- The switch over the data opcodes: is the frame out of place?
unfoldable pub misplaced : ℕ → Option Bytes → Bool
misplaced op partial =
    if op == 0 then is_nil partial else if op == 1 || op == 2 then not (is_nil partial) else true

unfoldable pub data_frame : Bool → ℕ → ℕ → Reader → Turn × Reader
data_frame fin op size rd =
    let counted : Reader = record rd { frags = suc rd.frags } in
    if misplaced op rd.partial
    then (fails (protocol close_protocol_error), rd)
    else if ltb rd.max_message (size + length (held rd.partial))
    then (fails (protocol close_too_big), rd)
    else if ltb rd.max_fragments (suc rd.frags)
    then (fails (protocol close_too_big), counted)
    else read_data fin op size counted

unfoldable pub sized_frame : Bool → ℕ → ℕ → Reader → Turn × Reader
sized_frame fin op size rd =
    if leb 8 op then control_frame fin op size rd else data_frame fin op size rd

-- The switch over the length, with the extended lengths.
unfoldable pub length_frame : Bool → ℕ → ℕ → Reader → Turn × Reader
length_frame fin op short rd =
    let (two, rd2) = mid_full 2 rd in
    let (eight, rd8) = mid_full 8 rd in
    if short == 126
    then elim two [
      | none ↦ (fails stream, rd2)
      | some ext ↦
          let size = get_uint 0 ext in
          if leb size 125
          then (fails (protocol close_protocol_error), rd2)
          else sized_frame fin op size rd2
    ]
    else if short == 127
    then elim eight [
      | none ↦ (fails stream, rd8)
      | some ext ↦
          let size = get_uint 0 ext in
          if leb (2 ^ 63) size
          then (fails (protocol close_protocol_error), rd8)
          else if leb size 0xffff
          then (fails (protocol close_protocol_error), rd8)
          else sized_frame fin op size rd8
    ]
    else sized_frame fin op short rd

-- One turn of the loop of Next. The callback OnFrameHeader is left out.
unfoldable pub turn : Reader → Turn × Reader
turn rd =
    let (hdr, rd1) = full 2 rd in
    elim hdr [
      | none ↦ (fails stream, rd1)
      | some bs ↦
          let first = byte_at bs 0 in
          let second = byte_at bs 1 in
          if not (first / 16 % 8 == 0)
          then (fails (protocol close_protocol_error), rd1)
          else if not (leb 0x80 second)
          then (fails (protocol close_protocol_error), rd1)
          else length_frame (leb 0x80 first) (first % 16) (second % 128) rd1
    ]

-- Next; `none` is out of fuel, which bounds the number of frames.
unfoldable pub next : ℕ → Reader → Option (Turn × Reader)
next zero rd = none
next (suc fuel) rd =
    let (t, rd') = turn rd in
    let rest = next fuel rd' in
    elim t [ returns m ↦ some (returns m, rd') | fails e ↦ some (fails e, rd') | continues ↦ rest ]
