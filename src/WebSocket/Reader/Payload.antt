-- ===== src/WebSocket/Reader/Payload.antt =====
-- The payload of a data frame: appendPayload puts the whole of it on the buffer, or fails.
use naust_jmap.Prelude.{
  ℕ, zero, suc, ◌+◌, ◌-◌, ◌≤◌, ◌<◌, min, ◌≡◌, refl, sym, ap, ◌∙◌, ltb, true, false, Bool-cases,
  Option-cases, inl, inr, none, some, Bytes, length, length-take, arith,
}
use naust_jmap.WebSocket.Reader.{
  Reader, held, full, mid_full, take_chunk, append_payload, alloc_chunk,
}
use naust_jmap.WebSocket.Reader.Chunks.{IsSound, take_chunk-IsSound}

pub full-keeps :
    (n : ℕ) (rd : Reader)
    → ((full n rd).1.max_message ≡ rd.max_message)
      × ((full n rd).1.partial ≡ rd.partial)
      × ((full n rd).1.partial_op ≡ rd.partial_op)
      × ((full n rd).1.utf_ok ≡ rd.utf_ok)
unfolding full
full-keeps n rd = ground arith

pub mid_full-keeps :
    (n : ℕ) (rd : Reader)
    → ((mid_full n rd).1.max_message ≡ rd.max_message)
      × ((mid_full n rd).1.partial ≡ rd.partial)
      × ((mid_full n rd).1.partial_op ≡ rd.partial_op)
      × ((mid_full n rd).1.utf_ok ≡ rd.utf_ok)
unfolding mid_full full
mid_full-keeps n rd = ground arith

pub length-mid_full :
    (n : ℕ) (rd : Reader) (bs : Bytes) → (mid_full n rd).0 ≡ some bs → length bs ≡ n
unfolding mid_full full
length-mid_full n rd bs h = ground (arith, length-take n rd.input)

pub IsSound-same :
    (m : ℕ) (rd rd' : Reader)
    → IsSound m rd
    → (rd'.max_message ≡ rd.max_message)
      × (rd'.partial ≡ rd.partial)
      × (rd'.partial_op ≡ rd.partial_op)
      × (rd'.utf_ok ≡ rd.utf_ok)
    → IsSound m rd'
IsSound-same m rd rd' s (a, b, c, d) = record {
  limit = a ∙ s.limit;
  fits = rw b s.fits;
  judged = rw (b, c, d) s.judged;
}

min_within : (x c : ℕ) → 0 < x → 0 < c → (min x c ≤ x) × (0 < min x c)
min_within x c h k = (omega arith, omega arith)

left : (done size : ℕ) → ltb done size ≡ true → 0 < size - done
left done size h = ground arith

pub append_payload-over :
    (fuel done size : ℕ) (key : Bytes) (rd : Reader)
    → ltb done size ≡ false
    → append_payload (suc fuel) done size key rd ≡ (none, rd)
unfolding append_payload
append_payload-over fuel done size key rd over = rw over refl

append_payload-chunk :
    (fuel done size : ℕ) (key : Bytes) (rd : Reader)
    → ltb done size ≡ true
    → (append_payload (suc fuel) done size key rd).0 ≡ none
    → (chunk : Bytes) × ((mid_full (min (size - done) alloc_chunk) rd).0 ≡ some chunk)
      × ((take_chunk chunk key done (mid_full (min (size - done) alloc_chunk) rd).1).0 ≡ none)
unfolding append_payload
append_payload-chunk fuel done size key rd more e =
    elim (Option-cases (mid_full (min (size - done) alloc_chunk) rd).0) [
      | inl cut_off ↦ absurd (cc (rw (more, cut_off) at e))
      | inr (chunk, got) ↦
          elim (Option-cases
            (take_chunk chunk key done (mid_full (min (size - done) alloc_chunk) rd).1).0) [
              | inl good ↦ (chunk, got, good)
              | inr (f, bad) ↦ absurd (cc (rw (more, got, bad) at e))
            ]
    ]

pub append_payload-step :
    (fuel done size : ℕ) (key : Bytes) (rd : Reader) (chunk : Bytes)
    → ltb done size ≡ true
    → (mid_full (min (size - done) alloc_chunk) rd).0 ≡ some chunk
    → (take_chunk chunk key done (mid_full (min (size - done) alloc_chunk) rd).1).0 ≡ none
    → append_payload (suc fuel) done size key rd
      ≡ append_payload fuel
          (done + min (size - done) alloc_chunk)
          size
          key
          (take_chunk chunk key done (mid_full (min (size - done) alloc_chunk) rd).1).1
unfolding append_payload
append_payload-step fuel done size key rd chunk more got good = rw (more, got, good) refl

pub append_payload-IsSound :
    (m fuel done size : ℕ) (key : Bytes) (rd : Reader)
    → IsSound m rd
    → size - done < fuel
    → length (held rd.partial) + (size - done) ≤ m
    → (append_payload fuel done size key rd).0 ≡ none
    → IsSound m (append_payload fuel done size key rd).1
      × (length (held (append_payload fuel done size key rd).1.partial)
          ≡ length (held rd.partial) + (size - done))
append_payload-IsSound m zero done size key rd s enough room e = absurd (omega (arith, enough))
append_payload-IsSound m (suc fuel) done size key rd s enough room e =
    elim (Bool-cases (ltb done size)) [
      | inr over ↦ rw (append_payload-over fuel done size key rd over) (s, ground arith)
      | inl more ↦
          let n = min (size - done) alloc_chunk in
          let rd1 = (mid_full n rd).1 in
          let (chunk, got, taken) = append_payload-chunk fuel done size key rd more e in
          let rd2 = (take_chunk chunk key done rd1).1 in
          let step = append_payload-step fuel done size key rd chunk more got taken in
          let same = mid_full-keeps n rd in
          let long = length-mid_full n rd chunk got in
          let (small, some_bytes) =
            min_within (size - done) alloc_chunk (left done size more) (omega arith) in
          let held1 = ap (λ p. length (held p)) same.1 in
          let (s2, size2) =
            take_chunk-IsSound m chunk key done rd1 (IsSound-same m rd rd1 s same)
              (omega (arith, held1, long, small, room)) taken in
          let (s3, size3) =
            append_payload-IsSound m fuel (done + n) size key rd2 s2
              (omega (arith, enough, some_bytes, small))
              (omega (arith, size2, held1, long, small, room)) (ap (λ r. r.0) (sym step) ∙ e) in
          rw step (s3, omega (arith, size3, size2, held1, long, small))
    ]
