-- ===== src/Memory/Keys.antt =====
-- The sorted key slice of the in-memory backend.
use naust_jmap.Prelude.{
  ◌≡◌, refl, if◌then◌else◌, Bool, true, false, not, ◌&&◌, ◌||◌, List, [], ◌∷◌, Bytes, beq, blt,
  beq_iff, blt_irrefl, blt_trans, blt_total, arith,
}
use naust_jmap.Memory.{search_strings, insert_key, remove_key}

abbrev pub mem_key : Bytes → List Bytes → Bool
mem_key j [] = false
mem_key j (x ∷ xs) = beq x j || mem_key j xs

abbrev pub Above : Bytes → List Bytes → Type 0
Above k [] = Unit
Above k (x ∷ xs) = (blt k x ≡ true) × Above k xs

-- Strictly ascending.
abbrev pub IsSorted : List Bytes → Type 0
IsSorted [] = Unit
IsSorted (x ∷ xs) = Above x xs × IsSorted xs

insert_key-cons :
    (x : Bytes) (xs : List Bytes) (k : Bytes)
    → insert_key (x ∷ xs) k ≡ (if blt x k then x ∷ insert_key xs k else k ∷ x ∷ xs)
unfolding insert_key search_strings
insert_key-cons x xs k = ground arith

remove_key-cons :
    (x : Bytes) (xs : List Bytes) (k : Bytes)
    → remove_key (x ∷ xs) k
      ≡ (if blt x k then x ∷ remove_key xs k else if beq x k then xs else x ∷ xs)
unfolding remove_key search_strings
remove_key-cons x xs k = ground arith

Above-lt : (j k : Bytes) (xs : List Bytes) → blt j k ≡ true → Above k xs → Above j xs
Above-lt j k [] h a = tt
Above-lt j k (x ∷ xs) h (hx, a) = (blt_trans j k x h hx, Above-lt j k xs h a)

pub Above-mem : (k : Bytes) (xs : List Bytes) → Above k xs → mem_key k xs ≡ false
Above-mem k [] a = refl
Above-mem k (x ∷ xs) (hx, a) = ground (arith, Above-mem k xs a, beq_iff x k, blt_irrefl k)

Above-insert :
    (j k : Bytes) (xs : List Bytes) → blt j k ≡ true → Above j xs → Above j (insert_key xs k)
Above-insert j k [] h a = unfold insert_key search_strings in (h, tt)
Above-insert j k (x ∷ xs) h (hx, a) = rw insert_key-cons (ground (arith, Above-insert j k xs h a))

pub insert_key-IsSorted :
    (xs : List Bytes) (k : Bytes) → mem_key k xs ≡ false → IsSorted xs → IsSorted (insert_key xs k)
insert_key-IsSorted [] k m s = unfold insert_key search_strings in (tt, tt)
insert_key-IsSorted (x ∷ xs) k m (a, s) = rw insert_key-cons (
    ground (
      arith,
      Above-insert x k xs,
      insert_key-IsSorted xs k,
      Above-lt k x xs,
      blt_total x k,
      beq_iff x k,
    ))

Above-remove : (j k : Bytes) (xs : List Bytes) → Above j xs → Above j (remove_key xs k)
Above-remove j k [] a = unfold remove_key search_strings in tt
Above-remove j k (x ∷ xs) (hx, a) = rw remove_key-cons (ground (arith, Above-remove j k xs a))

pub remove_key-IsSorted : (xs : List Bytes) (k : Bytes) → IsSorted xs → IsSorted (remove_key xs k)
remove_key-IsSorted [] k s = unfold remove_key search_strings in tt
remove_key-IsSorted (x ∷ xs) k (a, s) =
    rw remove_key-cons (ground (arith, Above-remove x k xs a, remove_key-IsSorted xs k s))

pub mem-insert_key :
    (j : Bytes) (xs : List Bytes) (k : Bytes)
    → mem_key j (insert_key xs k) ≡ (beq k j || mem_key j xs)
mem-insert_key j [] k = unfold insert_key search_strings in refl
mem-insert_key j (x ∷ xs) k = rw insert_key-cons (ground (arith, mem-insert_key j xs k))

pub mem-remove_key :
    (j : Bytes) (xs : List Bytes) (k : Bytes)
    → IsSorted xs
    → mem_key j (remove_key xs k) ≡ (mem_key j xs && not (beq k j))
mem-remove_key j [] k s = unfold remove_key search_strings in refl
mem-remove_key j (x ∷ xs) k (a, s) = rw remove_key-cons (
    ground (
      arith,
      mem-remove_key j xs k s,
      beq_iff x k,
      beq_iff x j,
      beq_iff k j,
      Above-mem x xs a,
      blt_irrefl k,
      blt_total x k,
      Above-lt k x xs,
      Above-mem k xs,
    ))
