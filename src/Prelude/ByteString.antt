-- ===== src/Prelude/ByteString.antt =====
-- Go's byte slices and strings as lists of bytes: `bytes.Equal`, the order of `bytes.Compare`
-- (which is that of `<` on strings) and `bytes.HasPrefix`.
use Prim.Native.Nat.{ℕ, ◌<◌}
use mathlib.Core.Path.{◌≡◌, refl}
use mathlib.Core.Logic.{◌↔◌}
use mathlib.Core.Bool.{Bool, true, false, ◌&&◌, ◌||◌}
use mathlib.Core.List.{List, [], ◌∷◌, ◌++◌}
use native.Mathlib.Omega.{arith}
use naust_jmap.Prelude.Tests.{ltb, ◌==◌}

abbrev pub Bytes : Type 0
Bytes = List ℕ

unfoldable pub beq : Bytes → Bytes → Bool
beq [] [] = true
beq [] (y ∷ ys) = false
beq (x ∷ xs) [] = false
beq (x ∷ xs) (y ∷ ys) = x == y && beq xs ys

unfoldable pub blt : Bytes → Bytes → Bool
blt [] [] = false
blt [] (y ∷ ys) = true
blt (x ∷ xs) [] = false
blt (x ∷ xs) (y ∷ ys) = ltb x y || (x == y && blt xs ys)

unfoldable pub has_prefix : Bytes → Bytes → Bool
has_prefix [] k = true
has_prefix (x ∷ xs) [] = false
has_prefix (x ∷ xs) (y ∷ ys) = x == y && has_prefix xs ys

abbrev pub AllBytes : Bytes → Type 0
AllBytes [] = Unit
AllBytes (b ∷ bs) = (b < 256) × AllBytes bs

pub beq→eq : (xs ys : Bytes) → beq xs ys ≡ true → xs ≡ ys
unfolding beq
beq→eq [] [] h = refl
beq→eq [] (y ∷ ys) h = cc
beq→eq (x ∷ xs) [] h = cc
beq→eq (x ∷ xs) (y ∷ ys) h = ground (arith, beq→eq xs ys)

pub beq_refl : (xs : Bytes) → beq xs xs ≡ true
unfolding beq
beq_refl [] = refl
beq_refl (x ∷ xs) = ground (arith, beq_refl xs)

pub beq_iff : (xs ys : Bytes) → (beq xs ys ≡ true) ↔ (xs ≡ ys)
beq_iff xs ys = (beq→eq xs ys, λ e. rw e (beq_refl ys))

pub blt_irrefl : (xs : Bytes) → blt xs xs ≡ false
unfolding blt
blt_irrefl [] = refl
blt_irrefl (x ∷ xs) = ground (arith, blt_irrefl xs)

pub blt_trans : (xs ys zs : Bytes) → blt xs ys ≡ true → blt ys zs ≡ true → blt xs zs ≡ true
unfolding blt
blt_trans [] [] zs h k = cc
blt_trans [] (y ∷ ys) [] h k = cc
blt_trans [] (y ∷ ys) (z ∷ zs) h k = refl
blt_trans (x ∷ xs) [] zs h k = cc
blt_trans (x ∷ xs) (y ∷ ys) [] h k = cc
blt_trans (x ∷ xs) (y ∷ ys) (z ∷ zs) h k = ground (arith, blt_trans xs ys zs)

pub blt_total : (xs ys : Bytes) → blt xs ys ≡ false → blt ys xs ≡ false → xs ≡ ys
unfolding blt
blt_total [] [] h k = refl
blt_total [] (y ∷ ys) h k = cc
blt_total (x ∷ xs) [] h k = cc
blt_total (x ∷ xs) (y ∷ ys) h k = ground (arith, blt_total xs ys)

pub blt_asymm : (xs ys : Bytes) → blt xs ys ≡ true → blt ys xs ≡ false
unfolding blt
blt_asymm [] [] h = cc
blt_asymm [] (y ∷ ys) h = refl
blt_asymm (x ∷ xs) [] h = cc
blt_asymm (x ∷ xs) (y ∷ ys) h = ground (arith, blt_asymm xs ys)

pub blt-append_left : (xs ys zs : Bytes) → blt (xs ++ ys) (xs ++ zs) ≡ blt ys zs
unfolding blt
blt-append_left [] ys zs = refl
blt-append_left (x ∷ xs) ys zs = ground (arith, blt-append_left xs ys zs)
