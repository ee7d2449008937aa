-- ===== src/WebSocket/Words.antt =====
-- Exclusive or on words of several bytes, byte by byte.
use naust_jmap.Prelude.{
  ℕ, zero, suc, ◌+◌, ◌*◌, ◌/◌, ◌%◌, ◌<◌, ◌≡◌, refl, sym, ap, ◌∙◌, [], ◌∷◌, Bytes, AllBytes, length,
  arith,
}
use naust_jmap.WebSocket.{xor_bits, get_le, put_le}

unfoldable pub lift : ℕ → ℕ → ℕ
lift zero x = x
lift (suc n) x = 2 * lift n x

unfoldable pub bits : ℕ → ℕ → ℕ
bits zero m = m
bits (suc n) m = suc (bits n m)

xor_bits-step :
    (m a b u v : ℕ)
    → xor_bits (suc m) (a + 2 * u) (b + 2 * v)
      ≡ (a + b) % 2 + 2 * xor_bits m (a / 2 + u) (b / 2 + v)
unfolding xor_bits
xor_bits-step m a b u v =
    ap (λ r. (a + 2 * u + (b + 2 * v)) % 2 + 2 * xor_bits m r ((b + 2 * v) / 2)) (half a u)
    ∙ ap (λ r. (a + 2 * u + (b + 2 * v)) % 2 + 2 * xor_bits m (a / 2 + u) r) (half b v)
    ∙ ap (λ r. r + 2 * xor_bits m (a / 2 + u) (b / 2 + v)) (omega arith)
  where
    half : (x y : ℕ) → (x + 2 * y) / 2 ≡ x / 2 + y
    half x y = omega arith

xor_bits-lift :
    (n m a b x y : ℕ)
    → a < lift n 1
    → b < lift n 1
    → xor_bits (bits n m) (a + lift n x) (b + lift n y) ≡ xor_bits n a b + lift n (xor_bits m x y)
unfolding lift bits
xor_bits-lift zero m a b x y ha hb =
    ap (λ r. xor_bits m r (b + y)) (nothing a x ha)
    ∙ ap (xor_bits m x) (nothing b y hb)
    ∙ (unfold xor_bits in omega arith)
  where
    nothing : (c z : ℕ) → c < 1 → c + z ≡ z
    nothing c z h = omega arith
xor_bits-lift (suc n) m a b x y ha hb =
    xor_bits-step (bits n m) a b (lift n x) (lift n y)
    ∙ ap (λ r. (a + b) % 2 + 2 * r)
        (xor_bits-lift n m (a / 2) (b / 2) x y (omega arith) (omega arith))
    ∙ (unfold xor_bits in omega arith)

pub xor_bits-lt : (n a b : ℕ) → xor_bits n a b < lift n 1
unfolding xor_bits lift
xor_bits-lt zero a b = omega arith
xor_bits-lt (suc n) a b = omega (arith, xor_bits-lt n (a / 2) (b / 2))

unfoldable pub zip_xor : Bytes → Bytes → Bytes
zip_xor (b ∷ bs) (k ∷ ks) = xor_bits 8 b k ∷ zip_xor bs ks
zip_xor bs ks = []

unfoldable pub word_bits : ℕ → ℕ
unfolding bits
word_bits zero = 0
word_bits (suc n) = bits 8 (word_bits n)

pub lift_byte : (x : ℕ) → lift 8 x ≡ 256 * x
unfolding lift
lift_byte x = omega arith

xor_bits-byte :
    (m b k x y : ℕ)
    → b < 256
    → k < 256
    → xor_bits (bits 8 m) (b + 256 * x) (k + 256 * y) ≡ xor_bits 8 b k + 256 * xor_bits m x y
xor_bits-byte m b k x y hb hk =
    ap (λ r. xor_bits (bits 8 m) (b + r) (k + 256 * y)) (sym (lift_byte x))
    ∙ ap (λ r. xor_bits (bits 8 m) (b + lift 8 x) (k + r)) (sym (lift_byte y))
    ∙ xor_bits-lift 8 m b k x y (omega (arith, lift_byte 1)) (omega (arith, lift_byte 1))
    ∙ ap (λ r. xor_bits 8 b k + r) (lift_byte (xor_bits m x y))

put_le-cons : (n c r v : ℕ) → c < 256 → v ≡ c + 256 * r → put_le (suc n) v ≡ c ∷ put_le n r
unfolding put_le
put_le-cons n c r v small e =
    ap (λ x. x ∷ put_le n (v / 256)) (low v c r small e)
    ∙ ap (λ x. c ∷ put_le n x) (high v c r small e)
  where
    low : (v c r : ℕ) → c < 256 → v ≡ c + 256 * r → v % 256 ≡ c
    low v c r small e = omega arith

    high : (v c r : ℕ) → c < 256 → v ≡ c + 256 * r → v / 256 ≡ r
    high v c r small e = omega arith

pub put_le-xor :
    (bs ks : Bytes)
    → length bs ≡ length ks
    → AllBytes bs
    → AllBytes ks
    → put_le (length bs) (xor_bits (word_bits (length bs)) (get_le bs) (get_le ks)) ≡ zip_xor bs ks
unfolding get_le zip_xor word_bits
put_le-xor [] [] l hb hk = unfold put_le in refl
put_le-xor [] (k ∷ ks) l hb hk = ground arith
put_le-xor (b ∷ bs) [] l hb hk = ground arith
put_le-xor (b ∷ bs) (k ∷ ks) l (hb, hbs) (hk, hks) =
    put_le-cons (length bs) (xor_bits 8 b k)
      (xor_bits (word_bits (length bs)) (get_le bs) (get_le ks)) _
      (omega (arith, xor_bits-lt 8 b k, lift_byte 1))
      (xor_bits-byte (word_bits (length bs)) b k (get_le bs) (get_le ks) hb hk)
    ∙ ap (◌∷◌ (xor_bits 8 b k)) (put_le-xor bs ks (omega (arith, l)) hbs hks)

xor_bits-suc : (n a b : ℕ) → xor_bits (suc n) a b ≡ (a + b) % 2 + 2 * xor_bits n (a / 2) (b / 2)
unfolding xor_bits
xor_bits-suc n a b = refl

pub xor_bits-twice : (n a b : ℕ) → a < lift n 1 → xor_bits n (xor_bits n a b) b ≡ a
unfolding lift
xor_bits-twice zero a b h = unfold xor_bits in omega arith
xor_bits-twice (suc n) a b h =
    xor_bits-suc n (xor_bits (suc n) a b) b
    ∙ ap (λ c. (c + b) % 2 + 2 * xor_bits n (c / 2) (b / 2)) (xor_bits-suc n a b)
    ∙ ap (λ r. ((a + b) % 2 + 2 * x + b) % 2 + 2 * xor_bits n r (b / 2))
        (half ((a + b) % 2) x (omega arith))
    ∙ ap (λ r. ((a + b) % 2 + 2 * x + b) % 2 + 2 * r)
        (xor_bits-twice n (a / 2) (b / 2) (omega arith))
    ∙ omega arith
  where
    x : ℕ
    x = xor_bits n (a / 2) (b / 2)

    half : (r y : ℕ) → r < 2 → (r + 2 * y) / 2 ≡ y
    half r y h = omega arith
