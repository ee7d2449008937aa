-- ===== src/WebSocket/Mask.antt =====
-- The masking transform by words against the transform of RFC 6455, section 5.3, byte by byte.
use naust_jmap.Prelude.{
  ℕ, zero, suc, ◌+◌, ◌*◌, ◌%◌, ◌^◌, ◌<◌, ◌≡◌, refl, sym, ap, ◌∙◌, [], ◌∷◌, ◌++◌, ◌⊎◌, inl, inr,
  Bytes, AllBytes, length, arith,
}
use naust_jmap.WebSocket.{xor_bits, get_le, put_le, byte_at, rotated, mask_tail, mask_words, mask}
use naust_jmap.WebSocket.Words.{
  bits, zip_xor, word_bits, put_le-xor, lift_byte, xor_bits-lt, xor_bits-twice,
}

-- Octet i of the payload, counted from the offset, is transformed with octet i mod 4 of the key.
unfoldable pub transformed : Bytes → ℕ → Bytes → Bytes
transformed key i [] = []
transformed key i (b ∷ p) = xor_bits 8 b (byte_at key (i % 4)) ∷ transformed key (suc i) p

byte_at-rotated :
    (key : Bytes) (offset i : ℕ)
    → byte_at (rotated key offset) (i % 4) ≡ byte_at key ((offset + i) % 4)
unfolding rotated
byte_at-rotated key offset i = elim (phase i) [
  | inl p ↦ rw p (ap (byte_at key) (here p))
  | inr (inl p) ↦ rw p (ap (byte_at key) (at 1 p))
  | inr (inr (inl p)) ↦ rw p (ap (byte_at key) (at 2 p))
  | inr (inr (inr p)) ↦ rw p (ap (byte_at key) (at 3 p))
]
  where
    phase : (i : ℕ) → (i % 4 ≡ 0) ⊎ (i % 4 ≡ 1) ⊎ (i % 4 ≡ 2) ⊎ (i % 4 ≡ 3)
    phase i = ground arith

    here : i % 4 ≡ 0 → offset % 4 ≡ (offset + i) % 4
    here p = omega arith

    at : (s : ℕ) → i % 4 ≡ s → (offset + s) % 4 ≡ (offset + i) % 4
    at s p = omega arith

mask_tail-transformed :
    (key : Bytes) (offset i : ℕ) (p : Bytes)
    → mask_tail (rotated key offset) i p ≡ transformed key (offset + i) p
unfolding mask_tail transformed
mask_tail-transformed key offset i [] = refl
mask_tail-transformed key offset i (b ∷ p) =
    ap (λ k. xor_bits 8 b k ∷ mask_tail (rotated key offset) (suc i) p)
      (byte_at-rotated key offset i)
    ∙ ap (◌∷◌ (xor_bits 8 b (byte_at key ((offset + i) % 4))))
        (mask_tail-transformed key offset (suc i) p ∙ ap (λ n. transformed key n p) (omega arith))

-- The key from the offset's phase on, twice: the bytes of the word k64.
twice : Bytes → ℕ → Bytes
twice key offset = rotated key offset ++ rotated key offset

get_le-twice :
    (key : Bytes) (offset : ℕ)
    → get_le (rotated key offset) + 2 ^ 32 * get_le (rotated key offset) ≡ get_le (twice key offset)
unfolding twice rotated get_le
get_le-twice key offset = omega arith

byte_at-lt : (key : Bytes) (i : ℕ) → AllBytes key → byte_at key i < 256
byte_at-lt [] i h = omega arith
byte_at-lt (b ∷ key) zero (hb, h) = hb
byte_at-lt (b ∷ key) (suc i) (hb, h) = byte_at-lt key i h

twice-AllBytes : (key : Bytes) (offset : ℕ) → AllBytes key → AllBytes (twice key offset)
unfolding twice rotated
twice-AllBytes key offset h =
    let k0 = byte_at-lt key (offset % 4) h in
    let k1 = byte_at-lt key ((offset + 1) % 4) h in
    let k2 = byte_at-lt key ((offset + 2) % 4) h in
    let k3 = byte_at-lt key ((offset + 3) % 4) h in
    (k0, (k1, (k2, (k3, (k0, (k1, (k2, (k3, tt))))))))

word-zip_xor :
    (key word : Bytes) (offset : ℕ)
    → length word ≡ 8
    → AllBytes word
    → AllBytes key
    → put_le 8 (xor_bits 64 (get_le word) (get_le (twice key offset)))
      ≡ zip_xor word (twice key offset)
unfolding word_bits bits twice rotated
word-zip_xor key word offset l hw hk =
    ap (λ n. put_le n (xor_bits (word_bits n) (get_le word) (get_le (twice key offset)))) (sym l)
    ∙ put_le-xor word (twice key offset) l hw (twice-AllBytes key offset hk)

transformed-period :
    (key : Bytes) (i : ℕ) (p : Bytes) → transformed key (i + 8) p ≡ transformed key i p
unfolding transformed
transformed-period key i [] = refl
transformed-period key i (b ∷ p) =
    ap (λ n. xor_bits 8 b (byte_at key n) ∷ transformed key (suc (i + 8)) p) (omega arith)
    ∙ ap (λ n. xor_bits 8 b (byte_at key (i % 4)) ∷ transformed key n p) (omega arith)
    ∙ ap (◌∷◌ (xor_bits 8 b (byte_at key (i % 4)))) (transformed-period key (suc i) p)

cons_at :
    (key : Bytes) (b m n : ℕ) (xs ys : Bytes)
    → m ≡ n
    → xs ≡ ys
    → xor_bits 8 b (byte_at key m) ∷ xs ≡ xor_bits 8 b (byte_at key n) ∷ ys
cons_at key b m n xs ys e f = rw (e, f) refl

zip_xor-transformed :
    (key : Bytes) (offset b0 b1 b2 b3 b4 b5 b6 b7 : ℕ) (p : Bytes)
    → zip_xor (b0 ∷ b1 ∷ b2 ∷ b3 ∷ b4 ∷ b5 ∷ b6 ∷ b7 ∷ []) (twice key offset)
        ++ transformed key offset p
      ≡ transformed key offset (b0 ∷ b1 ∷ b2 ∷ b3 ∷ b4 ∷ b5 ∷ b6 ∷ b7 ∷ p)
unfolding zip_xor twice rotated transformed
zip_xor-transformed key offset b0 b1 b2 b3 b4 b5 b6 b7 p = cons_at key b0 _ _ _ _ refl (
    cons_at key b1 _ _ _ _ (omega arith) (
      cons_at key b2 _ _ _ _ (omega arith) (
        cons_at key b3 _ _ _ _ (omega arith) (
          cons_at key b4 _ _ _ _ (omega arith) (
            cons_at key b5 _ _ _ _ (omega arith) (
              cons_at key b6 _ _ _ _ (omega arith) (
                cons_at key b7 _ _ _ _ (omega arith) (
                  sym (transformed-period key offset p)
                  ∙ ap (λ n. transformed key n p) (omega arith)))))))))

tail_eq :
    (key : Bytes) (offset : ℕ) (p : Bytes)
    → mask_tail (rotated key offset) 0 p ≡ transformed key offset p
tail_eq key offset p =
    mask_tail-transformed key offset 0 p ∙ ap (λ n. transformed key n p) (omega arith)

mask_words-transformed :
    (key : Bytes) (offset : ℕ) (p : Bytes)
    → AllBytes key
    → AllBytes p
    → mask_words (rotated key offset) p ≡ transformed key offset p
unfolding mask_words
mask_words-transformed key offset (b0 ∷ b1 ∷ b2 ∷ b3 ∷ b4 ∷ b5 ∷ b6 ∷ b7 ∷ p) hk
      (h0, (h1, (h2, (h3, (h4, (h5, (h6, (h7, hp)))))))) =
    let word = b0 ∷ b1 ∷ b2 ∷ b3 ∷ b4 ∷ b5 ∷ b6 ∷ b7 ∷ [] in
    ap (λ k64. put_le 8 (xor_bits 64 (get_le word) k64) ++ mask_words (rotated key offset) p)
      (get_le-twice key offset)
    ∙ ap (λ w. w ++ mask_words (rotated key offset) p)
        (word-zip_xor key word offset refl (h0, (h1, (h2, (h3, (h4, (h5, (h6, (h7, tt)))))))) hk)
    ∙ ap (λ t. zip_xor word (twice key offset) ++ t) (mask_words-transformed key offset p hk hp)
    ∙ zip_xor-transformed key offset b0 b1 b2 b3 b4 b5 b6 b7 p
mask_words-transformed key offset [] hk hp = tail_eq key offset []
mask_words-transformed key offset (a ∷ []) hk hp = tail_eq key offset (a ∷ [])
mask_words-transformed key offset (a ∷ b ∷ []) hk hp = tail_eq key offset (a ∷ b ∷ [])
mask_words-transformed key offset (a ∷ b ∷ c ∷ []) hk hp = tail_eq key offset (a ∷ b ∷ c ∷ [])
mask_words-transformed key offset (a ∷ b ∷ c ∷ d ∷ []) hk hp =
    tail_eq key offset (a ∷ b ∷ c ∷ d ∷ [])
mask_words-transformed key offset (a ∷ b ∷ c ∷ d ∷ e ∷ []) hk hp =
    tail_eq key offset (a ∷ b ∷ c ∷ d ∷ e ∷ [])
mask_words-transformed key offset (a ∷ b ∷ c ∷ d ∷ e ∷ f ∷ []) hk hp =
    tail_eq key offset (a ∷ b ∷ c ∷ d ∷ e ∷ f ∷ [])
mask_words-transformed key offset (a ∷ b ∷ c ∷ d ∷ e ∷ f ∷ g ∷ []) hk hp =
    tail_eq key offset (a ∷ b ∷ c ∷ d ∷ e ∷ f ∷ g ∷ [])

-- For a key and a payload of bytes: the transform by words of 64 bits, from any offset of the
-- frame's payload, is that of RFC 6455, section 5.3, byte by byte.
pub mask-transformed :
    (key : Bytes) (offset : ℕ) (p : Bytes)
    → AllBytes key
    → AllBytes p
    → mask p key offset ≡ transformed key offset p
unfolding mask
mask-transformed key offset p hk hp = mask_words-transformed key offset p hk hp

transformed-append :
    (key : Bytes) (i : ℕ) (p q : Bytes)
    → transformed key i (p ++ q) ≡ transformed key i p ++ transformed key (i + length p) q
unfolding transformed
transformed-append key i [] q = ap (λ n. transformed key n q) (omega arith)
transformed-append key i (b ∷ p) q = ap (◌∷◌ (xor_bits 8 b (byte_at key (i % 4)))) (
    transformed-append key (suc i) p q
    ∙ ap (λ n. transformed key (suc i) p ++ transformed key n q) (omega arith))

AllBytes-append : (p q : Bytes) → AllBytes p → AllBytes q → AllBytes (p ++ q)
AllBytes-append [] q hp hq = hq
AllBytes-append (b ∷ p) q (hb, hp) hq = (hb, AllBytes-append p q hp hq)

transformed-twice :
    (key : Bytes) (i : ℕ) (p : Bytes) → AllBytes p → transformed key i (transformed key i p) ≡ p
unfolding transformed
transformed-twice key i [] hp = refl
transformed-twice key i (b ∷ p) (hb, hp) =
    rw
      (
        xor_bits-twice 8 b (byte_at key (i % 4)) (omega (arith, lift_byte 1)),
        transformed-twice key (suc i) p hp,
      )
      refl

transformed-AllBytes : (key : Bytes) (i : ℕ) (p : Bytes) → AllBytes (transformed key i p)
unfolding transformed
transformed-AllBytes key i [] = tt
transformed-AllBytes key i (b ∷ p) = (
  omega (arith, xor_bits-lt 8 b (byte_at key (i % 4)), lift_byte 1),
  transformed-AllBytes key (suc i) p,
)

-- For a key and a payload of bytes: the transform is its own inverse.
pub mask_involution :
    (key : Bytes) (offset : ℕ) (p : Bytes)
    → AllBytes key
    → AllBytes p
    → mask (mask p key offset) key offset ≡ p
mask_involution key offset p hk hp =
    ap (λ x. mask x key offset) (mask-transformed key offset p hk hp)
    ∙ mask-transformed key offset (transformed key offset p) hk (transformed-AllBytes key offset p)
    ∙ transformed-twice key offset p hp
