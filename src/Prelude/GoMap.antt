-- ===== src/Prelude/GoMap.antt =====
-- A Go map with string (or byte string) keys, as an association list that holds each key once.
-- The program's results do not depend on the order in which Go ranges over a map; here it is the
-- order of insertion.
use mathlib.Core.Path.{◌≡◌, refl}
use mathlib.Core.List.{List, [], ◌∷◌}
use mathlib.Core.Option.{Option, none, some}
use native.Mathlib.Omega.{arith}
use naust_jmap.Prelude.Tests.{if◌then◌else◌}
use naust_jmap.Prelude.ByteString.{Bytes, beq, beq_iff}

module _ {ℓ} {V : Type ℓ} where
  unfoldable pub get : Bytes → List (Bytes × V) → Option V
  get k [] = none
  get k ((j, v) ∷ m) = if beq j k then some v else get k m

  unfoldable pub put : Bytes → V → List (Bytes × V) → List (Bytes × V)
  put k v [] = (k, v) ∷ []
  put k v ((j, w) ∷ m) = if beq j k then (j, v) ∷ m else (j, w) ∷ put k v m

  unfoldable pub delete : Bytes → List (Bytes × V) → List (Bytes × V)
  delete k [] = []
  delete k ((j, v) ∷ m) = let rest = delete k m in if beq j k then rest else (j, v) ∷ rest

  -- Each key stands once.
  abbrev pub Distinct : List (Bytes × V) → Type ℓ
  Distinct [] = Unit
  Distinct ((k, v) ∷ m) = (get k m ≡ none) × Distinct m

module _ {ℓ} {V : Type ℓ} where
  pub get-put :
      (k j : Bytes) (v : V) (m : List (Bytes × V))
      → get j (put k v m) ≡ (if beq k j then some v else get j m)
  unfolding get put
  get-put k j v [] = refl
  get-put k j v ((i, w) ∷ m) =
      ground (arith, beq_iff k j, beq_iff i k, beq_iff i j, get-put k j v m)

  pub get-delete :
      (k j : Bytes) (m : List (Bytes × V))
      → get j (delete k m) ≡ (if beq k j then none else get j m)
  unfolding get delete
  get-delete k j [] = ground arith
  get-delete k j ((i, w) ∷ m) =
      ground (arith, beq_iff k j, beq_iff i k, beq_iff i j, get-delete k j m)

  pub delete_absent : (k : Bytes) (m : List (Bytes × V)) → get k m ≡ none → delete k m ≡ m
  unfolding get delete
  delete_absent k [] h = refl
  delete_absent k ((i, w) ∷ m) h = ground (arith, delete_absent k m)

  pub put-Distinct : (k : Bytes) (v : V) (m : List (Bytes × V)) → Distinct m → Distinct (put k v m)
  unfolding put
  put-Distinct k v [] h = (unfold get in refl, tt)
  put-Distinct k v ((i, w) ∷ m) (hi, hm) =
      ground (arith, beq_iff k i, beq_iff i k, get-put k i v m, put-Distinct k v m hm)

  pub delete-Distinct : (k : Bytes) (m : List (Bytes × V)) → Distinct m → Distinct (delete k m)
  unfolding delete
  delete-Distinct k [] h = tt
  delete-Distinct k ((i, w) ∷ m) (hi, hm) = ground (arith, get-delete k i m, delete-Distinct k m hm)
