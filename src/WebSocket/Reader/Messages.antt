-- ===== src/WebSocket/Reader/Messages.antt =====
-- The loop of Next: the messages that it returns, and that it ends.
use naust_jmap.Prelude.{
  ℕ, zero, suc, ◌/◌, ◌%◌, ◌^◌, ◌==◌, ◌≡◌, subst, if◌then◌else◌, leb, Bool, true, false, not,
  Bool-cases, inl, inr, Option, none, some, Bytes,
}
use naust_jmap.Backend.{get_uint}
use naust_jmap.WebSocket.{byte_at}
use naust_jmap.WebSocket.Reader.{
  Message, Reader, stream, protocol, Turn, returns, fails, continues, full, mid_full, sized_frame,
  length_frame, turn, next,
}
use naust_jmap.WebSocket.Reader.Chunks.{IsSound}
use naust_jmap.WebSocket.Reader.Payload.{full-keeps, mid_full-keeps, IsSound-same}
use naust_jmap.WebSocket.Reader.Sound.{IsProper, Turned, control_frame-Turned, data_frame-Turned}

sized_frame-Turned :
    (m : ℕ) (fin : Bool) (op size : ℕ) (rd : Reader)
    → IsSound m rd
    → Turned m (sized_frame fin op size rd)
unfolding sized_frame
sized_frame-Turned m fin op size rd s = elim (Bool-cases (leb 8 op)) [
  | inl control ↦ rw control (control_frame-Turned m fin op size rd s control)
  | inr other ↦ rw other (data_frame-Turned m fin op size rd s)
]

-- The extended length is read, judged, and the frame follows.
guarded :
    (m : ℕ) (bad : Bool) (code : ℕ) (r : Turn × Reader) (rd : Reader)
    → Turned m r
    → Turned m (if bad then (fails (protocol code), rd) else r)
guarded m true code r rd t = tt
guarded m false code r rd t = t

length_frame-Turned :
    (m : ℕ) (fin : Bool) (op short : ℕ) (rd : Reader)
    → IsSound m rd
    → Turned m (length_frame fin op short rd)
unfolding length_frame
length_frame-Turned m fin op short rd s = elim (Bool-cases (short == 126)) [
  | inl two ↦ rw two (of_two (mid_full 2 rd).0)
  | inr longer ↦ elim (Bool-cases (short == 127)) [
    | inl eight ↦ rw (longer, eight) (of_eight (mid_full 8 rd).0)
    | inr own ↦ rw (longer, own) (sized_frame-Turned m fin op _ rd s)
  ]
]
  where
    s2 : (n : ℕ) → IsSound m (mid_full n rd).1
    s2 n = IsSound-same m rd (mid_full n rd).1 s (mid_full-keeps n rd)

    of_two :
        (ext : Option Bytes)
        → Turned m (elim ext as (λ x. Turn × Reader) [
          | none ↦ (fails stream, (mid_full 2 rd).1)
          | some e ↦
              if leb (get_uint 0 e) 125
              then (fails (protocol 1002), (mid_full 2 rd).1)
              else sized_frame fin op (get_uint 0 e) (mid_full 2 rd).1
        ])
    of_two none = tt
    of_two (some e) =
        guarded m (leb (get_uint 0 e) 125) 1002 _ (mid_full 2 rd).1
          (sized_frame-Turned m fin op (get_uint 0 e) _ (s2 2))

    of_eight :
        (ext : Option Bytes)
        → Turned m (elim ext as (λ x. Turn × Reader) [
          | none ↦ (fails stream, (mid_full 8 rd).1)
          | some e ↦
              if leb (2 ^ 63) (get_uint 0 e)
              then (fails (protocol 1002), (mid_full 8 rd).1)
              else if leb (get_uint 0 e) 0xffff
              then (fails (protocol 1002), (mid_full 8 rd).1)
              else sized_frame fin op (get_uint 0 e) (mid_full 8 rd).1
        ])
    of_eight none = tt
    of_eight (some e) = guarded m (leb (2 ^ 63) (get_uint 0 e)) 1002 _ (mid_full 8 rd).1 (
        guarded m (leb (get_uint 0 e) 0xffff) 1002 _ (mid_full 8 rd).1
          (sized_frame-Turned m fin op (get_uint 0 e) _ (s2 8)))

turn-Turned : (m : ℕ) (rd : Reader) → IsSound m rd → Turned m (turn rd)
unfolding turn
turn-Turned m rd s = of_header (full 2 rd).0
  where
    of_header :
        (hdr : Option Bytes)
        → Turned m (elim hdr as (λ x. Turn × Reader) [
          | none ↦ (fails stream, (full 2 rd).1)
          | some bs ↦
              if not (byte_at bs 0 / 16 % 8 == 0)
              then (fails (protocol 1002), (full 2 rd).1)
              else if not (leb 0x80 (byte_at bs 1))
              then (fails (protocol 1002), (full 2 rd).1)
              else length_frame
                  (leb 0x80 (byte_at bs 0))
                  (byte_at bs 0 % 16)
                  (byte_at bs 1 % 128)
                  (full 2 rd).1
        ])
    of_header none = tt
    of_header (some bs) = guarded m (not (byte_at bs 0 / 16 % 8 == 0)) 1002 _ (full 2 rd).1 (
        guarded m (not (leb 0x80 (byte_at bs 1))) 1002 _ (full 2 rd).1 (
          length_frame-Turned m _ _ _ (full 2 rd).1
            (IsSound-same m rd (full 2 rd).1 s (full-keeps 2 rd))))

some_eq : {x y : Turn × Reader} → some x ≡ some y → x ≡ y
some_eq e = cc

-- From a sound reader of messages of at most `m` bytes: a message that Next returns is a control
-- message of at most 125 bytes, or a message of at most `m` bytes that is valid UTF-8 if it is a
-- text; and the reader is sound again.
pub next-IsProper :
    (fuel m : ℕ) (rd rd' : Reader) (msg : Message)
    → IsSound m rd
    → next fuel rd ≡ some (returns msg, rd')
    → IsProper m msg × IsSound m rd'
unfolding next
next-IsProper zero m rd rd' msg s e = cc
next-IsProper (suc fuel) m rd rd' msg s e =
    after (turn rd) (turn-Turned m rd s) e (next-IsProper fuel m (turn rd).1 rd' msg)
  where
    after :
        (r : Turn × Reader)
        → Turned m r
        → (elim r.0 as (λ x. Option (Turn × Reader)) [
          | returns m' ↦ some (returns m', r.1)
          | fails f ↦ some (fails f, r.1)
          | continues ↦ next fuel r.1
        ])
          ≡ some (returns msg, rd')
        → (IsSound m r.1 → next fuel r.1 ≡ some (returns msg, rd') → IsProper m msg × IsSound m rd')
        → IsProper m msg × IsSound m rd'
    after (returns m', q) (proper, sound) e ih =
        subst (λ (x : Turn × Reader). Turned m x) (some_eq e) (proper, sound)
    after (fails f, q) t e ih = absurd (cc e)
    after (continues, q) t e ih = ih t e
