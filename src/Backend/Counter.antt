-- ===== src/Backend/Counter.antt =====
-- Counter values survive the encoding, and their byte order is the numeric order.
use naust_jmap.Prelude.{
  ℕ, zero, suc, ◌+◌, ◌*◌, ◌/◌, ◌%◌, ◌^◌, ◌<◌, ◌==◌, ◌≡◌, refl, if◌then◌else◌, ltb, Bool, true,
  false, ◌&&◌, ◌||◌, [], ◌∷◌, ◌++◌, some, Bytes, beq, blt, length, length-append, arith,
}
use naust_jmap.Backend.{put_uint, get_uint, encode_int64, decode_int64, flip_sign, two64}

pub length-put_uint : (n v : ℕ) → length (put_uint n v) ≡ n
unfolding put_uint
length-put_uint zero v = refl
length-put_uint (suc n) v =
    omega
      (arith, length-append (put_uint n (v / 256)) ((v % 256) ∷ []), length-put_uint n (v / 256))

get_uint-append :
    (acc : ℕ) (xs ys : Bytes) → get_uint acc (xs ++ ys) ≡ get_uint (get_uint acc xs) ys
unfolding get_uint
get_uint-append acc [] ys = refl
get_uint-append acc (x ∷ xs) ys = get_uint-append (acc * 256 + x) xs ys

pub get_uint-put_uint : (n v : ℕ) → v < 256 ^ n → get_uint 0 (put_uint n v) ≡ v
unfolding put_uint get_uint
get_uint-put_uint zero v h = omega arith
get_uint-put_uint (suc n) v h =
    rw get_uint-append (omega (arith, get_uint-put_uint n (v / 256) (div_lt n v h)))
  where
    div_lt : (n v : ℕ) → v < 256 ^ suc n → v / 256 < 256 ^ n
    div_lt n v h = omega arith

-- DecodeInt64 reverses EncodeInt64 on every int64.
pub decode-encode : (v : ℕ) → v < two64 → decode_int64 (encode_int64 v) ≡ some v
unfolding decode_int64 encode_int64
decode-encode v h =
    ground (arith, length-put_uint 8 (flip_sign v), get_uint-put_uint 8 (flip_sign v))

blt-snoc :
    (xs ys : Bytes) (a b : ℕ)
    → length xs ≡ length ys
    → blt (xs ++ a ∷ []) (ys ++ b ∷ []) ≡ (blt xs ys || (beq xs ys && ltb a b))
unfolding blt beq
blt-snoc [] [] a b h = ground arith
blt-snoc [] (y ∷ ys) a b h = absurd (omega arith)
blt-snoc (x ∷ xs) [] a b h = absurd (omega arith)
blt-snoc (x ∷ xs) (y ∷ ys) a b h = ground (arith, blt-snoc xs ys a b)

beq-snoc :
    (xs ys : Bytes) (a b : ℕ)
    → length xs ≡ length ys
    → beq (xs ++ a ∷ []) (ys ++ b ∷ []) ≡ (beq xs ys && a == b)
unfolding beq
beq-snoc [] [] a b h = ground arith
beq-snoc [] (y ∷ ys) a b h = absurd (omega arith)
beq-snoc (x ∷ xs) [] a b h = absurd (omega arith)
beq-snoc (x ∷ xs) (y ∷ ys) a b h = ground (arith, beq-snoc xs ys a b)

beq-put_uint :
    (n v w : ℕ) → v < 256 ^ n → w < 256 ^ n → beq (put_uint n v) (put_uint n w) ≡ (v == w)
unfolding put_uint
beq-put_uint zero v w hv hw = unfold beq in ground arith
beq-put_uint (suc n) v w hv hw = ground (
  arith,
  length-put_uint n (v / 256),
  length-put_uint n (w / 256),
  beq-snoc (put_uint n (v / 256)) (put_uint n (w / 256)) (v % 256) (w % 256),
  beq-put_uint n (v / 256) (w / 256) (omega arith) (omega arith),
)

blt-put_uint : (n v w : ℕ) → v < 256 ^ n → w < 256 ^ n → blt (put_uint n v) (put_uint n w) ≡ ltb v w
unfolding put_uint
blt-put_uint zero v w hv hw = unfold blt in ground arith
blt-put_uint (suc n) v w hv hw = ground (
  arith,
  length-put_uint n (v / 256),
  length-put_uint n (w / 256),
  blt-snoc (put_uint n (v / 256)) (put_uint n (w / 256)) (v % 256) (w % 256),
  beq-put_uint n (v / 256) (w / 256) (omega arith) (omega arith),
  blt-put_uint n (v / 256) (w / 256) (omega arith) (omega arith),
)

-- The order of signed 64-bit numbers on their patterns: a pattern from 2 ^ 63 on is negative.
abbrev pub lt_int64 : ℕ → ℕ → Bool
lt_int64 v w =
    if ltb v (2 ^ 63)
    then (if ltb w (2 ^ 63) then ltb v w else false)
    else if ltb w (2 ^ 63)
    then true
    else ltb v w

-- The byte order of encoded counters is the order of the signed numbers.
pub encode_order :
    (v w : ℕ) → v < two64 → w < two64 → blt (encode_int64 v) (encode_int64 w) ≡ lt_int64 v w
unfolding encode_int64
encode_order v w hv hw =
    rw (blt-put_uint 8 (flip_sign v) (flip_sign w) (omega arith) (omega arith)) (ground arith)
