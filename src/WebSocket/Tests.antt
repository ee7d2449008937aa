-- ===== src/WebSocket/Tests.antt =====
-- Runs of the masking transform and of the writer.
use naust_jmap.Prelude.{◌≡◌, refl, true, false, [], ◌∷◌, ◌++◌, some, Bytes, AllBytes, arith}
use naust_jmap.WebSocket.{mask, header, write_message}
use naust_jmap.WebSocket.Mask.{transformed, mask-transformed}
use naust_jmap.WebSocket.Wire.{read_frame, read_frame-write_message}

abbrev key : Bytes
key = 55 ∷ 250 ∷ 33 ∷ 61 ∷ []

abbrev hello : Bytes
hello = 72 ∷ 101 ∷ 108 ∷ 108 ∷ 111 ∷ 72 ∷ 101 ∷ 108 ∷ 108 ∷ []

key-AllBytes : AllBytes key
key-AllBytes = (omega arith, (omega arith, (omega arith, (omega arith, tt))))

hello-AllBytes : AllBytes hello
hello-AllBytes = (
  omega arith,
  (
    omega arith,
    (
      omega arith,
      (omega arith, (omega arith, (omega arith, (omega arith, (omega arith, (omega arith, tt)))))),
    ),
  ),
)

mask-transformed_example : mask hello key 2 ≡ transformed key 2 hello
mask-transformed_example = mask-transformed key 2 hello key-AllBytes hello-AllBytes

hello-written : write_message 1 hello ≡ some (129 ∷ 9 ∷ hello)
unfolding write_message header
hello-written = refl

read_frame-write_message_example :
    read_frame ((129 ∷ 9 ∷ hello) ++ 7 ∷ [])
    ≡ some
        (record { fin = true; reserved = 0; opcode = 1; masked = false; payload = hello }, 7 ∷ [])
read_frame-write_message_example =
    read_frame-write_message 1 hello (129 ∷ 9 ∷ hello) (7 ∷ []) (omega arith) hello-written
