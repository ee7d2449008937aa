-- ===== src/WebSocket/Utf8.antt =====
-- What frame.go uses of Go's unicode/utf8: Valid, RuneStart and FullRune, as an automaton over the
-- bytes. Its state is the number of continuation bytes to come and the range of the next one.
use naust_jmap.Prelude.{
  ℕ, zero, suc, ◌==◌, if◌then◌else◌, ltb, leb, Bool, true, false, not, ◌&&◌, ◌≡◌, refl, sym, ap,
  ◌∙◌, Option-cases, inl, inr, Option, none, some, [], ◌∷◌, ◌++◌, Bytes, arith,
}

-- The continuation bytes after a leading byte, and the range of the first; 4 for none.
pub record Lead : Type 0 where
  pub count : ℕ
  pub low : ℕ
  pub high : ℕ

unfoldable pub lead : ℕ → Option Lead
lead b =
    if ltb b 0x80
    then some (record { count = 0; low = 0x80; high = 0xbf })
    else if ltb b 0xc2
    then none
    else if ltb b 0xe0
    then some (record { count = 1; low = 0x80; high = 0xbf })
    else if b == 0xe0
    then some (record { count = 2; low = 0xa0; high = 0xbf })
    else if b == 0xed
    then some (record { count = 2; low = 0x80; high = 0x9f })
    else if ltb b 0xf0
    then some (record { count = 2; low = 0x80; high = 0xbf })
    else if b == 0xf0
    then some (record { count = 3; low = 0x90; high = 0xbf })
    else if ltb b 0xf4
    then some (record { count = 3; low = 0x80; high = 0xbf })
    else if b == 0xf4
    then some (record { count = 3; low = 0x80; high = 0x8f })
    else none

unfoldable pub valid_in : ℕ → ℕ → ℕ → Bytes → Bool
valid_in zero low high [] = true
valid_in (suc n) low high [] = false
valid_in zero low high (b ∷ bs) = elim (lead b) [
  | none ↦ false
  | some l ↦ valid_in l.count l.low l.high bs
]
valid_in (suc n) low high (b ∷ bs) =
    let rest = valid_in n 0x80 0xbf bs in leb low b && leb b high && rest

unfoldable pub valid : Bytes → Bool
valid p = valid_in 0 0x80 0xbf p

-- RuneStart: not a continuation byte.
unfoldable pub rune_start : ℕ → Bool
rune_start b = not (leb 0x80 b && ltb b 0xc0)

unfoldable pub full_in : ℕ → ℕ → ℕ → Bytes → Bool
full_in zero low high bs = true
full_in (suc n) low high [] = false
full_in (suc n) low high (b ∷ bs) =
    let rest = full_in n 0x80 0xbf bs in if leb low b && leb b high then rest else true

-- FullRune: the bytes begin with a whole encoding, or with one that is invalid.
unfoldable pub full_rune : Bytes → Bool
full_rune [] = false
full_rune (b ∷ bs) = elim (lead b) [ none ↦ true | some l ↦ full_in l.count l.low l.high bs ]

valid_in-zero : (low high : ℕ) (p : Bytes) → valid_in 0 low high p ≡ valid_in 0 0x80 0xbf p
unfolding valid_in
valid_in-zero low high [] = refl
valid_in-zero low high (b ∷ p) = refl

valid_in-lead :
    (low high b : ℕ) (p : Bytes) (l : Lead)
    → lead b ≡ some l
    → valid_in 0 low high (b ∷ p) ≡ valid_in l.count l.low l.high p
unfolding valid_in
valid_in-lead low high b p l e =
    ap (λ o. elim o [ none ↦ false | some l ↦ valid_in l.count l.low l.high p ]) e

valid_in-bad : (low high b : ℕ) (p : Bytes) → lead b ≡ none → valid_in 0 low high (b ∷ p) ≡ false
unfolding valid_in
valid_in-bad low high b p e =
    ap (λ o. elim o [ none ↦ false | some l ↦ valid_in l.count l.low l.high p ]) e

valid_in-cons :
    (n low high b : ℕ) (p : Bytes)
    → valid_in (suc n) low high (b ∷ p) ≡ (leb low b && leb b high && valid_in n 0x80 0xbf p)
unfolding valid_in
valid_in-cons n low high b p = refl

valid_in-nil : (n low high : ℕ) → valid_in (suc n) low high [] ≡ false
unfolding valid_in
valid_in-nil n low high = refl

pass : (x y r s t : Bool) → (x && y && r) ≡ true → (r ≡ true → s ≡ t) → (x && y && s) ≡ t
pass true true r s t h k = k h
pass true false r s t h k = absurd (ground arith)
pass false y r s t h k = absurd (ground arith)

valid_in-append :
    (n low high : ℕ) (p q : Bytes)
    → valid_in n low high p ≡ true
    → valid_in n low high (p ++ q) ≡ valid_in 0 0x80 0xbf q
valid_in-append zero low high [] q h = valid_in-zero low high q
valid_in-append (suc n) low high [] q h = absurd (cc (h, valid_in-nil n low high))
valid_in-append zero low high (b ∷ p) q h = elim (Option-cases (lead b)) [
  | inl bad ↦ absurd (cc (h, valid_in-bad low high b p bad))
  | inr (l, e) ↦
      valid_in-lead low high b (p ++ q) l e
      ∙ valid_in-append l.count l.low l.high p q (sym (valid_in-lead low high b p l e) ∙ h)
]
valid_in-append (suc n) low high (b ∷ p) q h =
    valid_in-cons n low high b (p ++ q)
    ∙ pass (leb low b) (leb b high) (valid_in n 0x80 0xbf p) _ _
        (sym (valid_in-cons n low high b p) ∙ h) (λ r. valid_in-append n 0x80 0xbf p q r)

-- Valid text followed by valid text is valid.
pub valid-append : (p q : Bytes) → valid p ≡ true → valid q ≡ true → valid (p ++ q) ≡ true
unfolding valid
valid-append p q hp hq = valid_in-append 0 0x80 0xbf p q hp ∙ hq
