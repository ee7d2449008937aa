-- ===== src/Memory/Scans/Ordered.antt =====
-- Filters of a list that ascends in some order of its elements.
use naust_jmap.Prelude.{
  ℕ, zero, suc, ◌≤◌, ◌≡◌, refl, if◌then◌else◌, Bool, true, false, ◌&&◌, ◌⊎◌, inl, inr, List, [],
  ◌∷◌, ◌++◌, length, take, drop, arith,
}
use mathlib.Core.List.{reverse, reverse-cons, append-nil}

abbrev pub keep {ℓ} : {A : Type ℓ} → (A → Bool) → List A → List A
keep p [] = []
keep p (x ∷ xs) = let rest = keep p xs in if p x then x ∷ rest else rest

pub keep-append {ℓ} :
    {A : Type ℓ} (p : A → Bool) (xs ys : List A) → keep p (xs ++ ys) ≡ keep p xs ++ keep p ys
keep-append p [] ys = refl
keep-append p (x ∷ xs) ys = ground (arith, keep-append p xs ys)

pub keep-reverse {ℓ} :
    {A : Type ℓ} (p : A → Bool) (xs : List A) → keep p (reverse xs) ≡ reverse (keep p xs)
keep-reverse p [] = refl
keep-reverse p (x ∷ xs) =
    rw (reverse-cons x xs, keep-append p (reverse xs) (x ∷ []), keep-reverse p xs)
      (ground (arith, reverse-cons x (keep p xs), append-nil (reverse (keep p xs))))

pub keep-keep {ℓ} :
    {A : Type ℓ} (p q : A → Bool) (xs : List A) → keep p (keep q xs) ≡ keep (λ x. q x && p x) xs
keep-keep p q [] = refl
keep-keep p q (x ∷ xs) = ground (arith, keep-keep p q xs)

pub keep_ext {ℓ} :
    {A : Type ℓ} (p q : A → Bool) (xs : List A) → ((x : A) → p x ≡ q x) → keep p xs ≡ keep q xs
keep_ext p q [] h = refl
keep_ext p q (x ∷ xs) h = ground (arith, h x, keep_ext p q xs h)

module _ {ℓ} {A : Type ℓ} (lt : A → A → Bool) where
  abbrev pub Before : A → List A → Type 0
  Before k [] = Unit
  Before k (x ∷ xs) = (lt k x ≡ true) × Before k xs

  abbrev pub Ascends : List A → Type 0
  Ascends [] = Unit
  Ascends (x ∷ xs) = Before x xs × Ascends xs

module _ {ℓ} {A : Type ℓ} (lt : A → A → Bool)
    (trans : (x y z : A) → lt x y ≡ true → lt y z ≡ true → lt x z ≡ true)
    (irrefl : (x : A) → lt x x ≡ false) where
  -- Elements ahead of `k` all pass a test that goes up with the order from `k`.
  pub keep_all :
      (p : A → Bool) (k : A) (xs : List A)
      → ((x : A) → lt k x ≡ true → p x ≡ true)
      → Before lt k xs
      → keep p xs ≡ xs
  keep_all p k [] up b = refl
  keep_all p k (x ∷ xs) up (hx, b) = rw (up x hx, keep_all p k xs up b)

  pub keep_none :
      (p : A → Bool) (k : A) (xs : List A)
      → ((x : A) → lt k x ≡ true → p x ≡ false)
      → Before lt k xs
      → keep p xs ≡ []
  keep_none p k [] down b = refl
  keep_none p k (x ∷ xs) down (hx, b) = rw (down x hx) (keep_none p k xs down b)

  pub Before-keep : (p : A → Bool) (k : A) (xs : List A) → Before lt k xs → Before lt k (keep p xs)
  Before-keep p k [] b = tt
  Before-keep p k (x ∷ xs) (hx, b) = ground (arith, Before-keep p k xs b)

  pub keep-Ascends : (p : A → Bool) (xs : List A) → Ascends lt xs → Ascends lt (keep p xs)
  keep-Ascends p [] h = tt
  keep-Ascends p (x ∷ xs) (b, h) = ground (arith, Before-keep p x xs b, keep-Ascends p xs h)

  abbrev pub last_of : A → List A → A
  last_of x [] = x
  last_of x (y ∷ ys) = last_of y ys

  Before-last :
      (n : ℕ) (x : A) (xs : List A)
      → Before lt x xs
      → Ascends lt xs
      → (lt x (last_of x (take n xs)) ≡ true) ⊎ (take n xs ≡ [])
  Before-last zero x xs b h = inr refl
  Before-last (suc n) x [] b h = inr refl
  Before-last (suc n) x (y ∷ ys) (hy, b) (c, h) = elim (Before-last n y ys c h) [
    | inl l ↦ inl (trans x y _ hy l)
    | inr e ↦ inl (rw e hy)
  ]

  -- Behind the first `suc n` elements stand those that come after the last of these.
  pub keep_after :
      (n : ℕ) (x : A) (xs : List A)
      → Ascends lt (x ∷ xs)
      → n ≤ length xs
      → keep (lt (last_of x (take n xs))) (x ∷ xs) ≡ drop n xs
  keep_after zero x xs (b, h) le = rw (irrefl x) (keep_all (lt x) x xs (λ y e. e) b)
  keep_after (suc n) x [] (b, h) le = absurd (omega arith)
  keep_after (suc n) x (y ∷ ys) ((hy, b), h) le = ground (
    arith,
    keep_after n y ys h (omega arith),
    Before-last (suc n) x (y ∷ ys) (hy, b) h,
    trans x (last_of y (take n ys)) x,
    irrefl x,
  )
