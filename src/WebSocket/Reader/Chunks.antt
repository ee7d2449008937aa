-- ===== src/WebSocket/Reader/Chunks.antt =====
-- The reassembly buffer, chunk by chunk: its size, and how much of a text is known to be valid.
use naust_jmap.Prelude.{
  ℕ, zero, suc, ◌+◌, ◌≤◌, ◌==◌, ◌≡◌, refl, sym, ap, ◌∙◌, Bool, true, false, Bool-cases, ◌⊎◌, inl,
  inr, [], ◌∷◌, ◌++◌, none, some, Bytes, length, length-append, take, drop, take-append-drop, arith,
}
use naust_jmap.WebSocket.{mask, mask_words, mask_tail, put_le, rotated}
use naust_jmap.WebSocket.Utf8.{valid, valid-append}
use naust_jmap.WebSocket.Reader.{Reader, held, cut_loop, cut, validate_chunk, take_chunk}

length-put_le : (n v : ℕ) → length (put_le n v) ≡ n
unfolding put_le
length-put_le zero v = refl
length-put_le (suc n) v = ap suc (length-put_le n _)

length-mask_tail : (k : Bytes) (i : ℕ) (p : Bytes) → length (mask_tail k i p) ≡ length p
unfolding mask_tail
length-mask_tail k i [] = refl
length-mask_tail k i (b ∷ p) = ap suc (length-mask_tail k (suc i) p)

length-mask_words : (k p : Bytes) → length (mask_words k p) ≡ length p
unfolding mask_words
length-mask_words k (b0 ∷ b1 ∷ b2 ∷ b3 ∷ b4 ∷ b5 ∷ b6 ∷ b7 ∷ p) =
    length-append (put_le 8 _) (mask_words k p)
    ∙ omega (arith, length-put_le 8 _, length-mask_words k p)
length-mask_words k [] = length-mask_tail k 0 []
length-mask_words k (a ∷ []) = length-mask_tail k 0 (a ∷ [])
length-mask_words k (a ∷ b ∷ []) = length-mask_tail k 0 (a ∷ b ∷ [])
length-mask_words k (a ∷ b ∷ c ∷ []) = length-mask_tail k 0 (a ∷ b ∷ c ∷ [])
length-mask_words k (a ∷ b ∷ c ∷ d ∷ []) = length-mask_tail k 0 (a ∷ b ∷ c ∷ d ∷ [])
length-mask_words k (a ∷ b ∷ c ∷ d ∷ e ∷ []) = length-mask_tail k 0 (a ∷ b ∷ c ∷ d ∷ e ∷ [])
length-mask_words k (a ∷ b ∷ c ∷ d ∷ e ∷ f ∷ []) = length-mask_tail k 0 (a ∷ b ∷ c ∷ d ∷ e ∷ f ∷ [])
length-mask_words k (a ∷ b ∷ c ∷ d ∷ e ∷ f ∷ g ∷ []) =
    length-mask_tail k 0 (a ∷ b ∷ c ∷ d ∷ e ∷ f ∷ g ∷ [])

pub length-mask : (p k : Bytes) (offset : ℕ) → length (mask p k offset) ≡ length p
unfolding mask
length-mask p k offset = length-mask_words (rotated k offset) p

-- A text is known to be valid up to `to`.
abbrev pub IsJudged : ℕ → Bytes → Type 0
IsJudged to p = (to ≤ length p) × (valid (take to p) ≡ true)

-- The reader of messages of at most `m` bytes: the buffer is within the limit, and of a text the
-- first `utf_ok` bytes are valid.
pub record IsSound (m : ℕ) (rd : Reader) : Type 0 where
  pub limit : rd.max_message ≡ m
  pub fits : length (held rd.partial) ≤ m
  pub judged : ((rd.partial_op == 1) ≡ false) ⊎ IsJudged rd.utf_ok (held rd.partial)

cut_loop-within :
    (fuel i utf_ok : ℕ) (p : Bytes)
    → utf_ok ≤ length p
    → (utf_ok ≤ cut_loop fuel i utf_ok p) × (cut_loop fuel i utf_ok p ≤ length p)
unfolding cut_loop
cut_loop-within zero i utf_ok p h = (h, omega arith)
cut_loop-within (suc fuel) i utf_ok p h = ground (arith, cut_loop-within fuel (suc i) utf_ok p h)

take-take : (a b : ℕ) (p : Bytes) → a ≤ b → take a (take b p) ≡ take a p
take-take zero b p h = refl
take-take (suc a) zero p h = absurd (omega (arith, h))
take-take (suc a) (suc b) [] h = refl
take-take (suc a) (suc b) (x ∷ p) h = ap (◌∷◌ x) (take-take a b p (omega (arith, h)))

take-shorter : (a : ℕ) (p q : Bytes) → a ≤ length p → take a (p ++ q) ≡ take a p
take-shorter zero p q h = refl
take-shorter (suc a) [] q h = absurd (omega (arith, h))
take-shorter (suc a) (x ∷ p) q h = ap (◌∷◌ x) (take-shorter a p q (omega (arith, h)))

-- What is valid up to a place, and from there on to a later one, is valid up to the later one.
valid-take :
    (a b : ℕ) (p : Bytes)
    → a ≤ b
    → valid (take a p) ≡ true
    → valid (drop a (take b p)) ≡ true
    → valid (take b p) ≡ true
valid-take a b p le h k =
    ap valid (sym (take-append-drop a (take b p)))
    ∙ valid-append (take a (take b p)) (drop a (take b p)) (ap valid (take-take a b p le) ∙ h) k

validate_chunk-IsSound :
    (m : ℕ) (rd : Reader)
    → IsSound m rd
    → IsJudged rd.utf_ok (held rd.partial)
    → (validate_chunk rd).0 ≡ none
    → IsSound m (validate_chunk rd).1 × ((validate_chunk rd).1.partial ≡ rd.partial)
unfolding validate_chunk cut
validate_chunk-IsSound m rd s (le, ok) e =
    let to = cut_loop 3 1 rd.utf_ok (held rd.partial) in
    let (low, high) = cut_loop-within 3 1 rd.utf_ok (held rd.partial) le in
    elim (Bool-cases (valid (drop rd.utf_ok (take to (held rd.partial))))) [
      | inl good ↦ rw good (
        record {
          limit = s.limit;
          fits = s.fits;
          judged = inr (high, valid-take rd.utf_ok to (held rd.partial) low ok good);
        },
        refl,
      )
      | inr bad ↦ absurd (ground arith)
    ]

-- The reader after a chunk was put on the buffer.
abbrev grown : Bytes → Reader → Reader
grown chunk rd = record rd { partial = some (held rd.partial ++ chunk) }

grown-IsSound :
    (m : ℕ) (chunk : Bytes) (rd : Reader)
    → IsSound m rd
    → length (held rd.partial) + length chunk ≤ m
    → IsSound m (grown chunk rd)
grown-IsSound m chunk rd s room = record {
  limit = s.limit;
  fits = omega (arith, length-append (held rd.partial) chunk, room);
  judged = elim s.judged [
    | inl other ↦ inl other
    | inr (le, ok) ↦ inr (
      omega (arith, length-append (held rd.partial) chunk, le),
      ap valid (take-shorter rd.utf_ok (held rd.partial) chunk le) ∙ ok,
    )
  ];
}

pub take_chunk-IsSound :
    (m : ℕ) (chunk key : Bytes) (done : ℕ) (rd : Reader)
    → IsSound m rd
    → length (held rd.partial) + length chunk ≤ m
    → (take_chunk chunk key done rd).0 ≡ none
    → IsSound m (take_chunk chunk key done rd).1
      × (length (held (take_chunk chunk key done rd).1.partial)
          ≡ length (held rd.partial) + length chunk)
unfolding take_chunk
take_chunk-IsSound m chunk key done rd s room e =
    let g =
      grown-IsSound m (mask chunk key done) rd s
        (omega (arith, length-mask chunk key done, room)) in
    let size = length-append (held rd.partial) (mask chunk key done) in
    elim (Bool-cases (rd.partial_op == 1)) [
      | inr other ↦ rw other (g, omega (arith, size, length-mask chunk key done))
      | inl text ↦
          let (v, same) =
            validate_chunk-IsSound m (grown (mask chunk key done) rd) g (of_text text g.judged)
              (rw text at e) in
          rw text
            (v, ap (λ p. length (held p)) same ∙ omega (arith, size, length-mask chunk key done))
    ]
  where
    of_text : {J : Type 0} {b : Bool} → b ≡ true → (b ≡ false) ⊎ J → J
    of_text t (inl f) = absurd (cc (t, f))
    of_text t (inr j) = j
