-- ===== src/KeyEnc/Layout.antt =====
-- The encoding of a segment list in one piece, and its size.
use naust_jmap.Prelude.{
  ℕ, ◌+◌, ◌≡◌, refl, ap, sym, ◌∙◌, Bool-cases, inl, inr, ◌==◌, if◌then◌else◌, List, [], ◌∷◌, ◌++◌,
  Bytes, length, length-append, arith,
}
use mathlib.Core.List.{append_assoc, append-nil}
use naust_jmap.KeyEnc.{segment_byte, segment_loop, segment, count_zeros, key_size, key_loop, key}

-- The encoding of a byte string followed by `rest`.
abbrev pub enc : Bytes → Bytes → Bytes
enc [] rest = 0 ∷ 1 ∷ rest
enc (b ∷ s) rest = if b == 0 then 0 ∷ 0xff ∷ enc s rest else b ∷ enc s rest

abbrev pub enc_all : List Bytes → Bytes → Bytes
enc_all [] rest = rest
enc_all (s ∷ segs) rest = enc s (enc_all segs rest)

segment_loop-enc : (dst s rest : Bytes) → segment_loop dst s ++ 0 ∷ 1 ∷ rest ≡ dst ++ enc s rest
unfolding segment_loop segment_byte
segment_loop-enc dst [] rest = refl
segment_loop-enc dst (b ∷ s) rest = elim (Bool-cases (b == 0)) [
  | inl e ↦ rw e (segment_loop-enc (dst ++ 0 ∷ 0xff ∷ []) s rest ∙ append_assoc dst _ _)
  | inr e ↦ rw e (segment_loop-enc (dst ++ b ∷ []) s rest ∙ append_assoc dst _ _)
]

segment-enc : (dst s rest : Bytes) → segment dst s ++ rest ≡ dst ++ enc s rest
unfolding segment
segment-enc dst s rest = append_assoc (segment_loop dst s) _ rest ∙ segment_loop-enc dst s rest

key_loop-enc :
    (segs : List Bytes) (out rest : Bytes) → key_loop out segs ++ rest ≡ out ++ enc_all segs rest
unfolding key_loop
key_loop-enc [] out rest = refl
key_loop-enc (s ∷ segs) out rest =
    key_loop-enc segs (segment out s) rest ∙ segment-enc out s (enc_all segs rest)

pub key-enc : (segs : List Bytes) (rest : Bytes) → key segs ++ rest ≡ enc_all segs rest
unfolding key
key-enc segs rest = key_loop-enc segs [] rest

pub key-enc_nil : (segs : List Bytes) → key segs ≡ enc_all segs []
key-enc_nil segs = sym (append-nil (key segs)) ∙ key-enc segs []

length-enc : (s rest : Bytes) → length (enc s rest) ≡ length s + 2 + count_zeros s + length rest
unfolding count_zeros
length-enc [] rest = omega arith
length-enc (b ∷ s) rest = ground (arith, length-enc s rest)

key_size-enc : (segs : List Bytes) (n : ℕ) → key_size n segs ≡ n + length (enc_all segs [])
unfolding key_size
key_size-enc [] n = omega arith
key_size-enc (s ∷ segs) n =
    omega (
      arith,
      length-enc s (enc_all segs []),
      key_size-enc segs (n + (length s + 2 + count_zeros s)),
    )

-- The size that Key allocates before it writes is the length of the key that it returns: the
-- buffer is never grown and never left partly unused.
pub key_size-length : (segs : List Bytes) → key_size 0 segs ≡ length (key segs)
key_size-length segs =
    omega (arith, key_size-enc segs 0, ap length (key-enc segs []), length-append (key segs) [])
