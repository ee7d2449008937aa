-- ===== src/WebSocket/Reader/Ends.antt =====
-- Every turn of the loop of Next that goes on has consumed the header of a frame, so Next ends.
use naust_jmap.Prelude.{
  ℕ, zero, suc, ◌+◌, ◌-◌, ◌/◌, ◌%◌, ◌^◌, ◌≤◌, ◌<◌, ◌==◌, min, ◌≡◌, refl, ap, if◌then◌else◌, ltb,
  leb, Bool, true, false, not, ◌&&◌, ◌||◌, Bool-cases, Option-cases, inl, inr, Option, none, some,
  Bytes, length, length-drop, drop, arith,
}
use naust_jmap.Backend.{get_uint}
use naust_jmap.WebSocket.{mask, byte_at}
use naust_jmap.WebSocket.Utf8.{valid}
use naust_jmap.WebSocket.Reader.{
  Reader, Failure, stream, protocol, Turn, returns, fails, continues, held, full, mid_full,
  validate_chunk, take_chunk, append_payload, alloc_chunk, validate_close, control_message,
  read_control, finish_message, started, end_of_frame, read_data, misplaced, control_frame,
  data_frame, sized_frame, length_frame, turn, next,
}
use naust_jmap.WebSocket.Reader.Payload.{append_payload-over, append_payload-step}

input-mid_full : (n : ℕ) (rd : Reader) → length (mid_full n rd).1.input ≤ length rd.input
unfolding mid_full full
input-mid_full n rd = ground (arith, length-drop n rd.input)

input-take_chunk :
    (chunk key : Bytes) (done : ℕ) (rd : Reader) → (take_chunk chunk key done rd).1.input ≡ rd.input
unfolding take_chunk validate_chunk
input-take_chunk chunk key done rd = ground arith

append_payload-failed :
    (fuel done size : ℕ) (key : Bytes) (rd : Reader)
    → ltb done size ≡ true
    → (mid_full (min (size - done) alloc_chunk) rd).0 ≡ none
    → (append_payload (suc fuel) done size key rd).1.input
      ≡ (mid_full (min (size - done) alloc_chunk) rd).1.input
unfolding append_payload
append_payload-failed fuel done size key rd more cut_off = rw (more, cut_off) refl

append_payload-refused :
    (fuel done size : ℕ) (key : Bytes) (rd : Reader) (chunk : Bytes) (f : Failure)
    → ltb done size ≡ true
    → (mid_full (min (size - done) alloc_chunk) rd).0 ≡ some chunk
    → (take_chunk chunk key done (mid_full (min (size - done) alloc_chunk) rd).1).0 ≡ some f
    → (append_payload (suc fuel) done size key rd).1
      ≡ (take_chunk chunk key done (mid_full (min (size - done) alloc_chunk) rd).1).1
unfolding append_payload
append_payload-refused fuel done size key rd chunk f more got bad = rw (more, got, bad) refl

input-append_payload :
    (fuel done size : ℕ) (key : Bytes) (rd : Reader)
    → length (append_payload fuel done size key rd).1.input ≤ length rd.input
input-append_payload zero done size key rd = unfold append_payload in omega arith
input-append_payload (suc fuel) done size key rd =
    let n = min (size - done) alloc_chunk in
    let rd1 = (mid_full n rd).1 in
    let less = input-mid_full n rd in
    elim (Bool-cases (ltb done size)) [
      | inr over ↦ rw (append_payload-over fuel done size key rd over) (omega arith)
      | inl more ↦ elim (Option-cases (mid_full n rd).0) [
        | inl cut_off ↦
            omega
              (arith, ap length (append_payload-failed fuel done size key rd more cut_off), less)
        | inr (chunk, got) ↦
            let same = ap length (input-take_chunk chunk key done rd1) in
            elim (Option-cases (take_chunk chunk key done rd1).0) [
              | inr (f, bad) ↦ omega (
                arith,
                ap (λ (r : Reader). length r.input)
                    (append_payload-refused fuel done size key rd chunk f more got bad),
                same,
                less,
              )
              | inl good ↦ omega (
                arith,
                ap (λ (r : Option Failure × Reader). length r.1.input)
                    (append_payload-step fuel done size key rd chunk more got good),
                input-append_payload fuel (done + n) size key (take_chunk chunk key done rd1).1,
                same,
                less,
              )
            ]
      ]
    ]

-- A turn that goes on leaves less than `k` bytes of the stream.
abbrev Leaves : ℕ → Turn × Reader → Type 0
Leaves k (returns msg, rd) = Unit
Leaves k (fails e, rd) = Unit
Leaves k (continues, rd) = length rd.input < k

choose :
    (k : ℕ) (b : Bool) (x y : Turn × Reader)
    → Leaves k x
    → Leaves k y
    → Leaves k (if b then x else y)
choose k true x y hx hy = hx
choose k false x y hx hy = hy

control_message-Leaves :
    (k op : ℕ) (payload : Bytes) (rd : Reader) → Leaves k (control_message op payload rd)
unfolding control_message
control_message-Leaves k op payload rd =
    of_refused (if op == 8 then validate_close payload else none)
  where
    of_refused :
        (refused : Option Failure)
        → Leaves k (elim refused as (λ x. Turn × Reader) [
          | some e ↦ (fails e, rd)
          | none ↦ (returns (record { opcode = op; payload = payload }), rd)
        ])
    of_refused none = tt
    of_refused (some e) = tt

finish_message-Leaves : (k : ℕ) (rd : Reader) → Leaves k (finish_message rd)
unfolding finish_message
finish_message-Leaves k rd =
    choose k (rd.partial_op == 1 && not (valid (drop rd.utf_ok (held rd.partial)))) _ _ tt tt

started-input : (op : ℕ) (rd : Reader) → (started op rd).input ≡ rd.input
unfolding started
started-input op rd = ground arith

end_of_frame-Leaves :
    (k : ℕ) (fin : Bool) (f : Option Failure) (rd : Reader)
    → length rd.input < k
    → Leaves k (end_of_frame fin f rd)
unfolding end_of_frame
end_of_frame-Leaves k fin (some e) rd h = tt
end_of_frame-Leaves k fin none rd h =
    choose k fin (finish_message rd) _ (finish_message-Leaves k rd) h

read_control-Leaves : (k op size : ℕ) (rd : Reader) → Leaves k (read_control op size rd)
unfolding read_control
read_control-Leaves k op size rd = of_key (mid_full 4 rd).0 (mid_full size (mid_full 4 rd).1).0
  where
    of_key :
        (key bytes : Option Bytes)
        → Leaves k (elim key as (λ x. Turn × Reader) [
          | none ↦ (fails stream, (mid_full 4 rd).1)
          | some m ↦ elim bytes as (λ x. Turn × Reader) [
            | none ↦ (fails stream, (mid_full size (mid_full 4 rd).1).1)
            | some masked ↦ control_message op (mask masked m 0) (mid_full size (mid_full 4 rd).1).1
          ]
        ])
    of_key none bytes = tt
    of_key (some m) none = tt
    of_key (some m) (some masked) = control_message-Leaves k op (mask masked m 0) _

read_data-Leaves :
    (k : ℕ) (fin : Bool) (op size : ℕ) (rd : Reader)
    → length rd.input < k
    → Leaves k (read_data fin op size rd)
unfolding read_data
read_data-Leaves k fin op size rd h = of_key (mid_full 4 rd).0
  where
    rd1 : Reader
    rd1 = (mid_full 4 rd).1

    of_key :
        (key : Option Bytes)
        → Leaves k (elim key as (λ x. Turn × Reader) [
          | none ↦ (fails stream, rd1)
          | some m ↦
              let r = append_payload (suc size) 0 size m (started op rd1) in
              end_of_frame fin r.0 r.1
        ])
    of_key none = tt
    of_key (some m) = end_of_frame-Leaves k fin _ _ (
        omega (
          arith,
          input-append_payload (suc size) 0 size m (started op rd1),
          ap length (started-input op rd1),
          input-mid_full 4 rd,
          h,
        ))

control_frame-Leaves :
    (k : ℕ) (fin : Bool) (op size : ℕ) (rd : Reader) → Leaves k (control_frame fin op size rd)
unfolding control_frame
control_frame-Leaves k fin op size rd = choose k (not fin) _ _ tt (
    choose k (ltb 125 size) _ _ tt
      (choose k (op == 8 || op == 9 || op == 10) _ _ (read_control-Leaves k op size rd) tt))

sized_frame-Leaves :
    (k : ℕ) (fin : Bool) (op size : ℕ) (rd : Reader)
    → length rd.input < k
    → Leaves k (sized_frame fin op size rd)
unfolding sized_frame data_frame
sized_frame-Leaves k fin op size rd h =
    choose k (leb 8 op) _ _ (control_frame-Leaves k fin op size rd) (
      choose k (misplaced op rd.partial) _ _ tt (
        choose k (ltb rd.max_message (size + length (held rd.partial))) _ _ tt (
          choose k (ltb rd.max_fragments (suc rd.frags)) _ _ tt
            (read_data-Leaves k fin op size (record rd { frags = suc rd.frags }) h))))

length_frame-Leaves :
    (k : ℕ) (fin : Bool) (op short : ℕ) (rd : Reader)
    → length rd.input < k
    → Leaves k (length_frame fin op short rd)
unfolding length_frame
length_frame-Leaves k fin op short rd h = choose k (short == 126) _ _ (of_two (mid_full 2 rd).0) (
    choose k (short == 127) _ _ (of_eight (mid_full 8 rd).0)
      (sized_frame-Leaves k fin op short rd h))
  where
    next_frame : (n size : ℕ) → Leaves k (sized_frame fin op size (mid_full n rd).1)
    next_frame n size =
        sized_frame-Leaves k fin op size (mid_full n rd).1 (omega (arith, input-mid_full n rd, h))

    of_two :
        (ext : Option Bytes)
        → Leaves k (elim ext as (λ x. Turn × Reader) [
          | none ↦ (fails stream, (mid_full 2 rd).1)
          | some e ↦
              if leb (get_uint 0 e) 125
              then (fails (protocol 1002), (mid_full 2 rd).1)
              else sized_frame fin op (get_uint 0 e) (mid_full 2 rd).1
        ])
    of_two none = tt
    of_two (some e) = choose k (leb (get_uint 0 e) 125) _ _ tt (next_frame 2 (get_uint 0 e))

    of_eight :
        (ext : Option Bytes)
        → Leaves k (elim ext as (λ x. Turn × Reader) [
          | none ↦ (fails stream, (mid_full 8 rd).1)
          | some e ↦
              if leb (2 ^ 63) (get_uint 0 e)
              then (fails (protocol 1002), (mid_full 8 rd).1)
              else if leb (get_uint 0 e) 0xffff
              then (fails (protocol 1002), (mid_full 8 rd).1)
              else sized_frame fin op (get_uint 0 e) (mid_full 8 rd).1
        ])
    of_eight none = tt
    of_eight (some e) =
        choose k (leb (2 ^ 63) (get_uint 0 e)) _ _ tt
          (choose k (leb (get_uint 0 e) 0xffff) _ _ tt (next_frame 8 (get_uint 0 e)))

input-header :
    (rd : Reader) (bs : Bytes)
    → (full 2 rd).0 ≡ some bs
    → length (full 2 rd).1.input + 2 ≤ length rd.input
unfolding full
input-header rd bs e = ground (arith, length-drop 2 rd.input)

turn-Leaves : (k : ℕ) (rd : Reader) → length rd.input ≤ suc k → Leaves k (turn rd)
unfolding turn
turn-Leaves k rd h = of_header (full 2 rd).0 (λ bs e. input-header rd bs e)
  where
    of_header :
        (hdr : Option Bytes)
        → ((bs : Bytes) → hdr ≡ some bs → length (full 2 rd).1.input + 2 ≤ length rd.input)
        → Leaves k (elim hdr as (λ x. Turn × Reader) [
          | none ↦ (fails stream, (full 2 rd).1)
          | some bs ↦
              if not (byte_at bs 0 / 16 % 8 == 0)
              then (fails (protocol 1002), (full 2 rd).1)
              else if not (leb 0x80 (byte_at bs 1))
              then (fails (protocol 1002), (full 2 rd).1)
              else length_frame
                  (leb 0x80 (byte_at bs 0))
                  (byte_at bs 0 % 16)
                  (byte_at bs 1 % 128)
                  (full 2 rd).1
        ])
    of_header none shrinks = tt
    of_header (some bs) shrinks = choose k (not (byte_at bs 0 / 16 % 8 == 0)) _ _ tt (
        choose k (not (leb 0x80 (byte_at bs 1))) _ _ tt
          (length_frame-Leaves k _ _ _ (full 2 rd).1 (omega (arith, shrinks bs refl, h))))

-- Next ends, with a message or with an error, when it has one round of fuel more than the stream
-- still yields bytes.
pub next-ends :
    (fuel : ℕ) (rd : Reader)
    → length rd.input < fuel
    → (r : Turn × Reader) × (next fuel rd ≡ some r)
unfolding next
next-ends zero rd h = absurd (omega (arith, h))
next-ends (suc fuel) rd h =
    after (turn rd) (turn-Leaves fuel rd (omega (arith, h))) (next-ends fuel)
  where
    after :
        (r : Turn × Reader)
        → Leaves fuel r
        → ((q : Reader) → length q.input < fuel → (r' : Turn × Reader) × (next fuel q ≡ some r'))
        → (r' : Turn × Reader) × ((elim r.0 as (λ x. Option (Turn × Reader)) [
          | returns m ↦ some (returns m, r.1)
          | fails e ↦ some (fails e, r.1)
          | continues ↦ next fuel r.1
        ])
            ≡ some r')
    after (returns m, q) l ih = ((returns m, q), refl)
    after (fails e, q) l ih = ((fails e, q), refl)
    after (continues, q) l ih = ih q l
