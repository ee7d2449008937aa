-- ===== src/ObjectDb/Keys/Sequence.antt =====
-- The sequence number that is read back from a log key.
use naust_jmap.Prelude.{
  ℕ, zero, suc, ◌+◌, ◌-◌, ◌<◌, ◌==◌, ◌≡◌, refl, sym, ap, ◌∙◌, if◌then◌else◌, false, Bool-cases, inl,
  inr, [], ◌∷◌, ◌++◌, none, some, Bytes, length, length-append, take, drop, take-append,
  get_elem?-append, arith,
}
use mathlib.Core.List.{append_assoc}
use naust_jmap.Backend.{encode_int64, decode_int64, two64}
use naust_jmap.Backend.Counter.{decode-encode}
use naust_jmap.KeyEnc.Layout.{enc, key-enc_nil}
use naust_jmap.ObjectDb.Keys.{escape_at, seg_start, unescape, seq_from_log_key, log_key}

-- The escaped bytes of a segment, without its terminator.
esc : Bytes → Bytes
esc [] = []
esc (b ∷ s) = if b == 0 then 0 ∷ 0xff ∷ esc s else b ∷ esc s

enc-esc : (s rest : Bytes) → enc s rest ≡ esc s ++ 0 ∷ 1 ∷ rest
unfolding esc
enc-esc [] rest = refl
enc-esc (b ∷ s) rest = ground (arith, enc-esc s rest)

escape_at-append :
    (pre ys : Bytes) (i b : ℕ) → escape_at (pre ++ ys) (length pre + i) b ≡ escape_at ys i b
escape_at-append pre ys i b =
    ground (arith, get_elem?-append pre ys i, get_elem?-append pre ys (suc i))

escape_at-esc : (s : Bytes) (i : ℕ) → escape_at (esc s) i 1 ≡ false
unfolding esc
escape_at-esc [] i = refl
escape_at-esc (b ∷ s) zero = ground (arith)
escape_at-esc (b ∷ s) (suc zero) = ground (arith, escape_at-esc s zero)
escape_at-esc (b ∷ s) (suc (suc i)) = ground (arith, escape_at-esc s (suc i), escape_at-esc s i)

seg_start-esc :
    (pre s : Bytes) (k i : ℕ)
    → i ≡ length pre + k
    → seg_start (pre ++ 0 ∷ 1 ∷ esc s) (suc i) ≡ suc (suc (length pre))
unfolding seg_start
seg_start-esc pre s zero i e = ground (arith, escape_at-append pre (0 ∷ 1 ∷ esc s) 0 1)
seg_start-esc pre s (suc k) i e =
    rw (e ∙ next_index, escape_before) (seg_start-esc pre s k (length pre + k) refl)
  where
    none_here : (j : ℕ) → escape_at (1 ∷ esc s) j 1 ≡ false
    none_here zero = ground arith
    none_here (suc j) = escape_at-esc s j

    next_index : length pre + suc k ≡ suc (length pre + k)
    next_index = omega arith

    escape_before : escape_at (pre ++ 0 ∷ 1 ∷ esc s) (suc (length pre + k)) 1 ≡ false
    escape_before =
        ap (λ n. escape_at (pre ++ 0 ∷ 1 ∷ esc s) n 1) (omega arith)
        ∙ escape_at-append pre (0 ∷ 1 ∷ esc s) (suc k) 1
        ∙ none_here k

unescape-cons : (b : ℕ) (xs : Bytes) → (b == 0) ≡ false → unescape (b ∷ xs) ≡ b ∷ unescape xs
unfolding unescape
unescape-cons b [] h = refl
unescape-cons b (c ∷ xs) h = rw h refl

unescape-esc : (s : Bytes) → unescape (esc s) ≡ s
unfolding unescape esc
unescape-esc [] = refl
unescape-esc (b ∷ s) = elim (Bool-cases (b == 0)) [
  | inl z ↦ rw z (ground (arith, unescape-esc s))
  | inr nz ↦ rw nz (unescape-cons b (esc s) nz ∙ ap (◌∷◌ b) (unescape-esc s))
]

drop-second : (pre cs : Bytes) (a b : ℕ) → drop (suc (suc (length pre))) (pre ++ a ∷ b ∷ cs) ≡ cs
drop-second [] cs a b = refl
drop-second (x ∷ pre) cs a b = drop-second pre cs a b

take_body : (xs : Bytes) (a b : ℕ) → take (length (xs ++ a ∷ b ∷ []) - 2) (xs ++ a ∷ b ∷ []) ≡ xs
take_body xs a b =
    ap (λ n. take n (xs ++ a ∷ b ∷ [])) (omega (arith, length-append xs (a ∷ b ∷ [])))
    ∙ take-append xs (a ∷ b ∷ [])

-- The number of a final segment's bytes.
number : Bytes → ℕ
number raw = elim (decode_int64 raw) [ none ↦ 0 | some n ↦ n ]

seq_from_body : (pre e : Bytes) → seq_from_log_key ((pre ++ 0 ∷ 1 ∷ esc e) ++ 0 ∷ 1 ∷ []) ≡ number e
unfolding seq_from_log_key number
seq_from_body pre e =
    ap (λ b. number (unescape (drop (seg_start b (length b - 1)) b))) (take_body body 0 1)
    ∙ ap (λ n. number (unescape (drop n body))) start
    ∙ ap (λ d. number (unescape d)) (drop-second pre (esc e) 0 1)
    ∙ ap number (unescape-esc e)
  where
    body : Bytes
    body = pre ++ 0 ∷ 1 ∷ esc e

    start : seg_start body (length body - 1) ≡ suc (suc (length pre))
    start =
        ap (seg_start body) (omega (arith, length-append pre (0 ∷ 1 ∷ esc e)))
        ∙ seg_start-esc pre e (length (esc e)) (length pre + length (esc e)) refl

log_key-esc :
    (acct : Bytes) (sequence : ℕ)
    → log_key acct sequence
      ≡ (((esc acct ++ 0 ∷ 1 ∷ b'g' ∷ []) ++ 0 ∷ 1 ∷ esc (encode_int64 sequence)) ++ 0 ∷ 1 ∷ [])
unfolding log_key
log_key-esc acct sequence =
    key-enc_nil (acct ∷ (b'g' ∷ []) ∷ encode_int64 sequence ∷ [])
    ∙ enc-esc acct _
    ∙ ap (λ e. esc acct ++ 0 ∷ 1 ∷ b'g' ∷ 0 ∷ 1 ∷ e) (enc-esc (encode_int64 sequence) [])
    ∙ sym (
        append_assoc (esc acct ++ 0 ∷ 1 ∷ b'g' ∷ []) (0 ∷ 1 ∷ esc (encode_int64 sequence))
          (0 ∷ 1 ∷ [])
        ∙ append_assoc (esc acct) (0 ∷ 1 ∷ b'g' ∷ []) _)

-- For an int64 and any account id: the sequence number of a log key is the one that it was made of.
pub seq_from_log_key-log_key :
    (acct : Bytes) (sequence : ℕ)
    → sequence < two64
    → seq_from_log_key (log_key acct sequence) ≡ sequence
unfolding number
seq_from_log_key-log_key acct sequence h =
    ap seq_from_log_key (log_key-esc acct sequence)
    ∙ seq_from_body (esc acct ++ 0 ∷ 1 ∷ b'g' ∷ []) (encode_int64 sequence)
    ∙ ap (λ o. elim o [ none ↦ 0 | some n ↦ n ]) (decode-encode sequence h)
