-- ===== src/WebSocket/Reader/Tests.antt =====
-- A run of the reader on one text frame.
use naust_jmap.Prelude.{◌≡◌, refl, inl, false, [], ◌∷◌, none, some, arith}
use naust_jmap.Backend.{get_uint}
use naust_jmap.WebSocket.{mask, mask_words, mask_tail, rotated, xor_bits}
use naust_jmap.WebSocket.Utf8.{valid, valid_in, lead, rune_start, full_rune, full_in}
use naust_jmap.WebSocket.Reader.{
  Message, Reader, Turn, returns, full, mid_full, cut_loop, cut, validate_chunk, take_chunk,
  append_payload, finish_message, started, end_of_frame, read_data, misplaced, data_frame,
  sized_frame, length_frame, turn, next,
}
use naust_jmap.WebSocket.Reader.Chunks.{IsSound}
use naust_jmap.WebSocket.Reader.Sound.{IsProper}
use naust_jmap.WebSocket.Reader.Messages.{next-IsProper}
use naust_jmap.WebSocket.Reader.Ends.{next-ends}

-- The text Hi, masked with the key 1 2 3 4.
abbrev fresh : Reader
fresh = record {
  input = 129 ∷ 130 ∷ 1 ∷ 2 ∷ 3 ∷ 4 ∷ 73 ∷ 107 ∷ [];
  max_message = 16;
  max_fragments = 4;
  partial = none;
  partial_op = 0;
  frags = 0;
  utf_ok = 0;
  dirty = false;
}

abbrev spent : Reader
spent = record fresh { input = [] }

abbrev hi : Message
hi = record { opcode = 1; payload = 72 ∷ 105 ∷ [] }

fresh-IsSound : IsSound 16 fresh
fresh-IsSound = record { limit = refl; fits = omega arith; judged = inl refl }

next-fresh : next 1 fresh ≡ some (returns hi, spent)
unfolding next turn full length_frame mid_full sized_frame data_frame misplaced read_data started
    append_payload take_chunk validate_chunk cut cut_loop end_of_frame finish_message mask
    mask_words mask_tail rotated xor_bits valid valid_in lead rune_start full_rune full_in get_uint
next-fresh = refl

next-IsProper_example : IsProper 16 hi × IsSound 16 spent
next-IsProper_example = next-IsProper 1 16 fresh spent hi fresh-IsSound next-fresh

next-ends_example : (r : Turn × Reader) × (next 9 fresh ≡ some r)
next-ends_example = next-ends 9 fresh (omega arith)
