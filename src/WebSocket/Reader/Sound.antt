-- ===== src/WebSocket/Reader/Sound.antt =====
-- What a message that the Reader returns is, and what the Reader keeps.
use naust_jmap.Prelude.{
  ℕ, suc, ◌+◌, ◌≤◌, ◌==◌, ◌≡◌, refl, sym, ap, subst, ◌∙◌, if◌then◌else◌, ltb, leb, Bool, true,
  false, ◌||◌, Bool-cases, Option-cases, ◌⊎◌, inl, inr, Option, none, some, Bytes, length, take,
  drop, take-append-drop, arith,
}
use naust_jmap.WebSocket.{mask}
use naust_jmap.WebSocket.Utf8.{valid, valid_in, valid-append}
use naust_jmap.WebSocket.Reader.{
  Message, Reader, Failure, stream, Turn, returns, fails, continues, held, mid_full, append_payload,
  validate_close, read_control, control_message, started, end_of_frame, finish_message, read_data,
  control_frame, misplaced, data_frame,
}
use naust_jmap.WebSocket.Reader.Chunks.{IsSound, IsJudged, length-mask}
use naust_jmap.WebSocket.Reader.Payload.{
  mid_full-keeps, length-mid_full, IsSound-same, append_payload-IsSound,
}

-- A control message of at most 125 bytes, or a data message within the limit, valid if it is text.
abbrev pub IsProper : ℕ → Message → Type 0
IsProper m msg =
    ((leb 8 msg.opcode ≡ true) × (length msg.payload ≤ 125))
    ⊎ ((length msg.payload ≤ m) × (((msg.opcode == 1) ≡ false) ⊎ (valid msg.payload ≡ true)))

-- What a turn leaves, unless it fails.
abbrev pub Turned : ℕ → Turn × Reader → Type 0
Turned m (returns msg, rd) = IsProper m msg × IsSound m rd
Turned m (fails e, rd) = Unit
Turned m (continues, rd) = IsSound m rd

reset-IsSound :
    (m : ℕ) (rd : Reader)
    → IsSound m rd
    → IsSound m (record rd { partial = none; partial_op = 0; frags = 0; utf_ok = 0 })
reset-IsSound m rd s = record { limit = s.limit; fits = omega arith; judged = inl refl }

finish_message-Turned : (m : ℕ) (rd : Reader) → IsSound m rd → Turned m (finish_message rd)
unfolding finish_message
finish_message-Turned m rd s = elim (Bool-cases (rd.partial_op == 1)) [
  | inr other ↦ rw other (inr (s.fits, inl other), reset-IsSound m rd s)
  | inl text ↦ elim (Bool-cases (valid (drop rd.utf_ok (held rd.partial)))) [
    | inr bad ↦ rw (text, bad) tt
    | inl good ↦
        rw (text, good)
          (inr (s.fits, inr (whole good (of_text text s.judged))), reset-IsSound m rd s)
  ]
]
  where
    of_text : {J : Type 0} {b : Bool} → b ≡ true → (b ≡ false) ⊎ J → J
    of_text t (inl f) = absurd (cc (t, f))
    of_text t (inr j) = j

    whole :
        valid (drop rd.utf_ok (held rd.partial)) ≡ true
        → IsJudged rd.utf_ok (held rd.partial)
        → valid (held rd.partial) ≡ true
    whole good (le, ok) =
        ap valid (sym (take-append-drop rd.utf_ok (held rd.partial)))
        ∙ valid-append (take rd.utf_ok (held rd.partial)) (drop rd.utf_ok (held rd.partial)) ok good

control_message-Turned :
    (m op : ℕ) (payload : Bytes) (rd : Reader)
    → leb 8 op ≡ true
    → length payload ≤ 125
    → IsSound m rd
    → Turned m (control_message op payload rd)
unfolding control_message
control_message-Turned m op payload rd control le s =
    judge (if op == 8 then validate_close payload else none)
  where
    judge :
        (refused : Option Failure)
        → Turned m (elim refused as (λ x. Turn × Reader) [
          | some e ↦ (fails e, rd)
          | none ↦ (returns (record { opcode = op; payload = payload }), rd)
        ])
    judge none = (inl (control, le), s)
    judge (some e) = tt

read_control-failed1 :
    (op size : ℕ) (rd : Reader)
    → (mid_full 4 rd).0 ≡ none
    → read_control op size rd ≡ (fails stream, (mid_full 4 rd).1)
unfolding read_control
read_control-failed1 op size rd cut_off = rw (cut_off, read_control) refl

read_control-read :
    (op size : ℕ) (rd : Reader) (key : Bytes)
    → (mid_full 4 rd).0 ≡ some key
    → read_control op size rd ≡ (elim (mid_full size (mid_full 4 rd).1).0 [
      | none ↦ (fails stream, (mid_full size (mid_full 4 rd).1).1)
      | some masked ↦ control_message op (mask masked key 0) (mid_full size (mid_full 4 rd).1).1
    ])
unfolding read_control
read_control-read op size rd key got = rw (got, read_control) refl

read_control-Turned :
    (m op size : ℕ) (rd : Reader)
    → IsSound m rd
    → leb 8 op ≡ true
    → size ≤ 125
    → Turned m (read_control op size rd)
read_control-Turned m op size rd s control small =
    let rd1 = (mid_full 4 rd).1 in
    let s1 = IsSound-same m rd rd1 s (mid_full-keeps 4 rd) in
    let s2 = IsSound-same m rd1 (mid_full size rd1).1 s1 (mid_full-keeps size rd1) in
    elim (Option-cases (mid_full 4 rd).0) [
      | inl cut_off ↦ subst (Turned m) (sym (read_control-failed1 op size rd cut_off)) tt
      | inr (key, got) ↦
          subst (Turned m) (sym (read_control-read op size rd key got))
            (elim (Option-cases (mid_full size rd1).0) [
              | inl cut_off ↦ rw cut_off tt
              | inr (masked, read) ↦ rw read (
                  control_message-Turned m op (mask masked key 0) (mid_full size rd1).1 control
                    (omega (
                      arith,
                      length-mask masked key 0,
                      length-mid_full size rd1 masked read,
                      small,
                    ))
                    s2)
            ])
    ]

started-IsSound :
    (m op : ℕ) (rd : Reader)
    → IsSound m rd
    → IsSound m (started op rd) × (length (held (started op rd).partial) ≤ length (held rd.partial))
unfolding started valid valid_in
started-IsSound m op rd s = elim (Bool-cases (op == 0)) [
  | inl more ↦ rw more (s, omega arith)
  | inr first ↦ rw first (
    record { limit = s.limit; fits = omega arith; judged = inr (omega arith, refl) },
    omega arith,
  )
]

end_of_frame-Turned :
    (m : ℕ) (fin : Bool) (f : Option Failure) (rd : Reader)
    → (f ≡ none → IsSound m rd)
    → Turned m (end_of_frame fin f rd)
unfolding end_of_frame
end_of_frame-Turned m fin (some e) rd s = tt
end_of_frame-Turned m true none rd s = finish_message-Turned m rd (s refl)
end_of_frame-Turned m false none rd s = s refl

read_data-failed :
    (fin : Bool) (op size : ℕ) (rd : Reader)
    → (mid_full 4 rd).0 ≡ none
    → read_data fin op size rd ≡ (fails stream, (mid_full 4 rd).1)
unfolding read_data
read_data-failed fin op size rd cut_off = rw (cut_off, read_data) refl

read_data-read :
    (fin : Bool) (op size : ℕ) (rd : Reader) (key : Bytes)
    → (mid_full 4 rd).0 ≡ some key
    → let r = append_payload (suc size) 0 size key (started op (mid_full 4 rd).1) in
      read_data fin op size rd ≡ end_of_frame fin r.0 r.1
unfolding read_data
read_data-read fin op size rd key got = rw (got, read_data) refl

read_data-Turned :
    (m : ℕ) (fin : Bool) (op size : ℕ) (rd : Reader)
    → IsSound m rd
    → size + length (held rd.partial) ≤ m
    → Turned m (read_data fin op size rd)
read_data-Turned m fin op size rd s room =
    let rd1 = (mid_full 4 rd).1 in
    let same = mid_full-keeps 4 rd in
    let s1 = IsSound-same m rd rd1 s same in
    let (s2, less) = started-IsSound m op rd1 s1 in
    elim (Option-cases (mid_full 4 rd).0) [
      | inl cut_off ↦ subst (Turned m) (sym (read_data-failed fin op size rd cut_off)) tt
      | inr (key, got) ↦
          let r = append_payload (suc size) 0 size key (started op rd1) in
          subst (Turned m) (sym (read_data-read fin op size rd key got)) (
            end_of_frame-Turned m fin r.0 r.1 (λ good.
              (append_payload-IsSound m (suc size) 0 size key (started op rd1) s2 (omega arith)
                (omega (arith, less, ap (λ p. length (held p)) same.1, room)) good).0))
    ]

pub control_frame-Turned :
    (m : ℕ) (fin : Bool) (op size : ℕ) (rd : Reader)
    → IsSound m rd
    → leb 8 op ≡ true
    → Turned m (control_frame fin op size rd)
unfolding control_frame
control_frame-Turned m false op size rd s c = tt
control_frame-Turned m true op size rd s c = elim (Bool-cases (ltb 125 size)) [
  | inl long ↦ rw long tt
  | inr short ↦ elim (Bool-cases (op == 8 || op == 9 || op == 10)) [
    | inl known ↦ rw (short, known) (read_control-Turned m op size rd s c (ground arith))
    | inr reserved ↦ rw (short, reserved) tt
  ]
]

pub data_frame-Turned :
    (m : ℕ) (fin : Bool) (op size : ℕ) (rd : Reader)
    → IsSound m rd
    → Turned m (data_frame fin op size rd)
unfolding data_frame
data_frame-Turned m fin op size rd s = elim (Bool-cases (misplaced op rd.partial)) [
  | inl bad ↦ rw bad tt
  | inr placed ↦ elim (Bool-cases (ltb rd.max_message (size + length (held rd.partial)))) [
    | inl big ↦ rw (placed, big) tt
    | inr fits ↦ elim (Bool-cases (ltb rd.max_fragments (suc rd.frags))) [
      | inl many ↦ rw (placed, fits, many) tt
      | inr few ↦
          rw (placed, fits, few)
            (read_data-Turned m fin op size (record rd { frags = suc rd.frags })
              (record { limit = s.limit; fits = s.fits; judged = s.judged }) (within s.limit fits))
    ]
  ]
]
  where
    within : {a b : ℕ} → a ≡ m → ltb a b ≡ false → b ≤ m
    within e h = ground arith
