-- ===== src/Memory/Scans/Whole.antt =====
-- Scan against the map.
use naust_jmap.Prelude.{
  ℕ, suc, ◌*◌, ◌≤◌, ◌<◌, ◌≡◌, refl, sym, ap, subst, ◌∙◌, if◌then◌else◌, Bool, true, false, not,
  ◌&&◌, Bool-cases, inl, inr, List, [], ◌∷◌, ◌++◌, Option, none, some, Bytes, blt, beq, beq_iff,
  blt_trans, blt_irrefl, blt_total, blt_asymm, length, length-append, take, drop, map, arith,
}
use mathlib.Core.List.{reverse, reverse-cons}
use naust_jmap.Memory.{Store, search_strings, key_at}
use naust_jmap.Memory.Keys.{IsSorted, Above}
use naust_jmap.Memory.Batches.{IsValid}
use naust_jmap.Memory.Scan.{
  Entry, entry, visit, scan, chunk, at_end, first_index, last_index, forward_chunk, reverse_chunk,
}
use naust_jmap.Memory.Scans.Ordered.{
  keep, keep-keep, keep_ext, keep_all, keep_none, keep-reverse, keep-Ascends, Before, Ascends,
}
use naust_jmap.Memory.Scans.Chunks.{ahead, remaining, Closed, walk-keep, scan_loop-remaining}

Before-Above : (k : Bytes) (xs : List Bytes) → Above k xs → Before blt k xs
Before-Above k [] a = tt
Before-Above k (x ∷ xs) (hx, a) = (hx, Before-Above k xs a)

Ascends-IsSorted : (xs : List Bytes) → IsSorted xs → Ascends blt xs
Ascends-IsSorted [] s = tt
Ascends-IsSorted (x ∷ xs) (a, s) = (Before-Above x xs a, Ascends-IsSorted xs s)

not_before :
    (start x y : Bytes) → blt x y ≡ true → not (blt x start) ≡ true → not (blt y start) ≡ true
not_before start x y h k = ground (arith, blt_trans x y start)

drop-search :
    (keys : List Bytes) (k : Bytes)
    → Ascends blt keys
    → drop (search_strings keys k) keys ≡ keep (λ x. not (blt x k)) keys
unfolding search_strings
drop-search [] k a = refl
drop-search (x ∷ xs) k (b, a) = elim (Bool-cases (blt x k)) [
  | inl below ↦ rw below (drop-search xs k a)
  | inr here ↦ rw here (
      ap (◌∷◌ x) (
        sym (
          keep_all blt blt_trans blt_irrefl (λ y. not (blt y k)) x xs
            (λ y h. not_before k x y h (ap not here)) b)))
]

take-search :
    (keys : List Bytes) (k : Bytes)
    → Ascends blt keys
    → take (search_strings keys k) keys ≡ keep (λ x. blt x k) keys
unfolding search_strings
take-search [] k a = refl
take-search (x ∷ xs) k (b, a) = elim (Bool-cases (blt x k)) [
  | inl below ↦ rw below (ap (◌∷◌ x) (take-search xs k a))
  | inr here ↦ rw here (
      sym (
        keep_none blt blt_trans blt_irrefl (λ y. blt y k) x xs
          (λ y h. ground (arith, blt_trans x y k)) b))
]

after_cursor : (x c : Bytes) → blt x c ≡ false → beq x c ≡ false → blt c x ≡ true
after_cursor x c h k = ground (arith, blt_total x c, beq_iff x c)

drop-behind :
    (ks : List Bytes) (c : Bytes)
    → Ascends blt ks
    → drop
        (if key_at ks (search_strings ks c) c
          then suc (search_strings ks c)
          else search_strings ks c)
        ks
      ≡ keep (blt c) ks
unfolding search_strings
drop-behind [] c h = refl
drop-behind (x ∷ xs) c (b, h) = elim (Bool-cases (blt x c)) [
  | inl below ↦ rw below (ground (arith, drop-behind xs c h, blt_asymm x c below))
  | inr here ↦ elim (Bool-cases (beq x c)) [
    | inl found ↦
        rw (here, found, subst (λ z. blt z x ≡ false) ((beq_iff x c).0 found) (blt_irrefl x))
          (sym (
            keep_all blt blt_trans blt_irrefl (blt c) x xs
              (λ y e. subst (λ z. blt z y ≡ true) ((beq_iff x c).0 found) e) b))
    | inr missing ↦
        rw (here, missing, after_cursor x c here missing)
          (ap (◌∷◌ x) (
            sym (
              keep_all blt blt_trans blt_irrefl (blt c) x xs
                (λ y e. blt_trans c x y (after_cursor x c here missing) e) b)))
  ]
]

drop-first_index :
    (keys : List Bytes) (start : Bytes) (c : Option Bytes)
    → Ascends blt keys
    → drop (first_index keys start c) keys
      ≡ keep (ahead blt blt_trans blt_irrefl (λ k. not (blt k start)) c) keys
unfolding first_index
drop-first_index keys start none a = drop-search keys start a
drop-first_index keys start (some c) a = drop-behind keys c a

at_end-Closed : (end : Option Bytes) → Closed blt blt_trans blt_irrefl (at_end end)
at_end-Closed none = λ x y h k. k
at_end-Closed (some e) = λ x y h k. not_before e x y h k

forward_chunk-reads :
    (s : Store) (start : Bytes) (end c : Option Bytes)
    → Ascends blt s.keys
    → forward_chunk start end s c
      ≡ map (entry s.entries) (
          take chunk
            (remaining blt blt_trans blt_irrefl (λ k. not (blt k start)) (at_end end) s.keys c))
unfolding forward_chunk
forward_chunk-reads s start end c a = rw (drop-first_index s.keys start c a) (
    walk-keep blt blt_trans blt_irrefl chunk (at_end end) s.entries (keep p s.keys)
      (at_end-Closed end) (keep-Ascends blt blt_trans blt_irrefl p s.keys a)
    ∙ ap (λ ks. map (entry s.entries) (take chunk ks))
        (keep-keep (λ k. not (at_end end k)) p s.keys))
  where
    p : Bytes → Bool
    p = ahead blt blt_trans blt_irrefl (λ k. not (blt k start)) c

-- The keys of [start, end) in ascending order.
unfoldable pub range_keys : Bytes → Option Bytes → List Bytes → List Bytes
range_keys start end keys = keep (λ k. not (blt k start) && not (at_end end k)) keys

module _ {ℓ} {A : Type ℓ} (fn : Entry → A → A × Bool) where
  scan_forward :
      (fuel : ℕ) (s : Store) (start : Bytes) (end : Option Bytes) (a : A)
      → IsValid s
      → length (range_keys start end s.keys) < chunk * fuel
      → scan fn fuel (λ i. s) start end false a
        ≡ some (visit fn (map (entry s.entries) (range_keys start end s.keys)) a).0
  unfolding scan range_keys
  scan_forward fuel s start end a v h =
      scan_loop-remaining blt blt_trans blt_irrefl (λ k. not (blt k start)) (at_end end) s.keys
        s.entries (not_before start) (Ascends-IsSorted s.keys v.shaped.sorted) fn
        (λ i c. forward_chunk start end s c)
        (λ i c. forward_chunk-reads s start end c (Ascends-IsSorted s.keys v.shaped.sorted)) fuel 0
        none a h

-- The converse order, in which a reverse scan goes.
abbrev bgt : Bytes → Bytes → Bool
bgt x y = blt y x

bgt_trans : (x y z : Bytes) → bgt x y ≡ true → bgt y z ≡ true → bgt x z ≡ true
bgt_trans x y z h k = blt_trans z y x k h

Before-snoc_last :
    (k : Bytes) (xs : List Bytes) (x : Bytes)
    → Before bgt k xs
    → blt x k ≡ true
    → Before bgt k (xs ++ x ∷ [])
Before-snoc_last k [] x b h = (h, tt)
Before-snoc_last k (y ∷ ys) x (hy, b) h = (hy, Before-snoc_last k ys x b h)

Ascends-snoc :
    (xs : List Bytes) (x : Bytes) → Ascends bgt xs → Before blt x xs → Ascends bgt (xs ++ x ∷ [])
Ascends-snoc [] x a b = (tt, tt)
Ascends-snoc (y ∷ ys) x (hy, a) (hb, b) = (Before-snoc_last y ys x hy hb, Ascends-snoc ys x a b)

Before-snoc :
    (k : Bytes) (xs : List Bytes) (x : Bytes)
    → Before blt k xs
    → blt k x ≡ true
    → Before blt k (xs ++ x ∷ [])
Before-snoc k [] x b h = (h, tt)
Before-snoc k (y ∷ ys) x (hy, b) h = (hy, Before-snoc k ys x b h)

Before-reverse : (k : Bytes) (xs : List Bytes) → Before blt k xs → Before blt k (reverse xs)
Before-reverse k [] b = tt
Before-reverse k (x ∷ xs) (hx, b) =
    rw (reverse-cons x xs) (Before-snoc k (reverse xs) x (Before-reverse k xs b) hx)

Ascends-reverse : (xs : List Bytes) → Ascends blt xs → Ascends bgt (reverse xs)
Ascends-reverse [] a = tt
Ascends-reverse (x ∷ xs) (b, a) =
    rw (reverse-cons x xs)
      (Ascends-snoc (reverse xs) x (Ascends-reverse xs a) (Before-reverse x xs b))

-- end == nil || k < string(end)
abbrev under : Option Bytes → Bytes → Bool
under end k = not (at_end end k)

keep-true : (xs : List Bytes) → keep (λ x. true) xs ≡ xs
keep-true [] = refl
keep-true (x ∷ xs) = ap (◌∷◌ x) (keep-true xs)

take-length : (xs : List Bytes) → take (length xs) xs ≡ xs
take-length [] = refl
take-length (x ∷ xs) = ap (◌∷◌ x) (take-length xs)

take-last_index :
    (keys : List Bytes) (end c : Option Bytes)
    → Ascends blt keys
    → reverse (take (last_index keys end c) keys)
      ≡ keep (ahead bgt bgt_trans blt_irrefl (under end) c) (reverse keys)
unfolding last_index
take-last_index keys none none a = ap reverse (take-length keys) ∙ sym (keep-true (reverse keys))
take-last_index keys (some e) none a =
    ap reverse (take-search keys e a)
    ∙ sym (keep-reverse (λ k. blt k e) keys)
    ∙ keep_ext (λ k. blt k e) (under (some e)) (reverse keys) (λ k. ground arith)
take-last_index keys end (some c) a =
    ap reverse (take-search keys c a) ∙ sym (keep-reverse (λ k. blt k c) keys)

reverse_chunk-reads :
    (s : Store) (start : Bytes) (end c : Option Bytes)
    → Ascends blt s.keys
    → reverse_chunk start end s c
      ≡ map (entry s.entries) (
          take chunk
            (remaining bgt bgt_trans blt_irrefl (under end) (λ k. blt k start) (reverse s.keys) c))
unfolding reverse_chunk
reverse_chunk-reads s start end c a = rw (take-last_index s.keys end c a) (
    walk-keep bgt bgt_trans blt_irrefl chunk (λ k. blt k start) s.entries (keep p (reverse s.keys))
      (λ x y h k. blt_trans y x start h k)
      (keep-Ascends bgt bgt_trans blt_irrefl p (reverse s.keys) (Ascends-reverse s.keys a))
    ∙ ap (λ ks. map (entry s.entries) (take chunk ks))
        (keep-keep (λ k. not (blt k start)) p (reverse s.keys)))
  where
    p : Bytes → Bool
    p = ahead bgt bgt_trans blt_irrefl (under end) c

under-Closed :
    (end : Option Bytes) (x y : Bytes) → bgt x y ≡ true → under end x ≡ true → under end y ≡ true
under-Closed none x y h k = refl
under-Closed (some e) x y h k = ground (arith, blt_trans y x e)

reverse_range :
    (start : Bytes) (end : Option Bytes) (keys : List Bytes)
    → keep (λ k. under end k && not (blt k start)) (reverse keys)
      ≡ reverse (range_keys start end keys)
unfolding range_keys
reverse_range start end keys =
    keep_ext _ (λ k. not (blt k start) && not (at_end end k)) (reverse keys) (λ k. ground arith)
    ∙ keep-reverse (λ k. not (blt k start) && not (at_end end k)) keys

length-keep : (p : Bytes → Bool) (xs : List Bytes) → length (keep p xs) ≤ length xs
length-keep p [] = omega arith
length-keep p (x ∷ xs) = ground (arith, length-keep p xs)

length-reverse : (xs : List Bytes) → length (reverse xs) ≡ length xs
length-reverse [] = refl
length-reverse (x ∷ xs) =
    rw reverse-cons (omega (arith, length-append (reverse xs) (x ∷ []), length-reverse xs))

-- The entries with a key in [start, end), each with the value of the map, in the scan's order.
abbrev pub range_entries : Store → Bytes → Option Bytes → Bool → List Entry
range_entries s start end true = map (entry s.entries) (reverse (range_keys start end s.keys))
range_entries s start end false = map (entry s.entries) (range_keys start end s.keys)

module _ {ℓ} {A : Type ℓ} (fn : Entry → A → A × Bool) where
  -- On a well-formed store that does not change during the scan, with one round of fuel more than
  -- there are full chunks of keys: Scan ends, and calls `fn` once for each entry whose key lies in
  -- [start, end), in ascending or, for a reverse scan, descending order, until `fn` answers false.
  pub scan_visits :
      (fuel : ℕ) (s : Store) (start : Bytes) (end : Option Bytes) (reversed : Bool) (a : A)
      → IsValid s
      → length s.keys < chunk * fuel
      → scan fn fuel (λ i. s) start end reversed a
        ≡ some (visit fn (range_entries s start end reversed) a).0
  unfolding scan range_keys
  scan_visits fuel s start end false a v h =
      scan_forward fn fuel s start end a v
        (omega (arith, length-keep (λ k. not (blt k start) && not (at_end end k)) s.keys))
  scan_visits fuel s start end true a v h =
      scan_loop-remaining bgt bgt_trans blt_irrefl (under end) (λ k. blt k start) (reverse s.keys)
        s.entries (under-Closed end)
        (Ascends-reverse s.keys (Ascends-IsSorted s.keys v.shaped.sorted)) fn
        (λ i c. reverse_chunk start end s c)
        (λ i c. reverse_chunk-reads s start end c (Ascends-IsSorted s.keys v.shaped.sorted)) fuel 0
        none a
        (omega (
          arith,
          length-keep (λ k. under end k && not (blt k start)) (reverse s.keys),
          length-reverse s.keys,
        ))
      ∙ ap (λ ks. some (visit fn (map (entry s.entries) ks) a).0) (reverse_range start end s.keys)
