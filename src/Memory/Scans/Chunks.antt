-- ===== src/Memory/Scans/Chunks.antt =====
-- The chunks of a scan put together, for keys that ascend in `lt`: the byte order for a forward
-- scan, and its converse for a reverse one.
use naust_jmap.Prelude.{
  ℕ, zero, suc, ◌*◌, ◌≤◌, ◌<◌, ◌≡◌, refl, sym, ap, subst, ◌∙◌, if◌then◌else◌, ltb, Bool, true,
  false, not, ◌&&◌, Bool-cases, ◌⊎◌, inl, inr, List, [], ◌∷◌, ◌++◌, Option, none, some, Bytes,
  length, take, drop, length-take, length-drop, take-append-drop, map, arith,
}
use naust_jmap.Memory.{Data}
use naust_jmap.Memory.Scan.{Entry, entry, walk, visit, last_key, scan_loop, chunk}
use naust_jmap.Memory.Scans.Ordered.{
  keep, keep-keep, keep_ext, keep_none, Ascends, last_of, keep_after, keep-Ascends,
}

abbrev AllTrue : (Bytes → Bool) → List Bytes → Type 0
AllTrue p [] = Unit
AllTrue p (x ∷ xs) = (p x ≡ true) × AllTrue p xs

keep-AllTrue : (p : Bytes → Bool) (xs : List Bytes) → AllTrue p (keep p xs)
keep-AllTrue p [] = tt
keep-AllTrue p (x ∷ xs) = ground (arith, keep-AllTrue p xs)

length-map-entry : (d : Data) (xs : List Bytes) → length (map (entry d) xs) ≡ length xs
length-map-entry d [] = refl
length-map-entry d (x ∷ xs) = ap suc (length-map-entry d xs)

map-append_entry :
    (d : Data) (xs ys : List Bytes)
    → map (entry d) (xs ++ ys) ≡ map (entry d) xs ++ map (entry d) ys
map-append_entry d [] ys = refl
map-append_entry d (x ∷ xs) ys = rw (map-append_entry d xs ys)

module _ (lt : Bytes → Bytes → Bool)
    (trans : (x y z : Bytes) → lt x y ≡ true → lt y z ≡ true → lt x z ≡ true)
    (irrefl : (x : Bytes) → lt x x ≡ false) where
  -- The last key that was visited, or none: which keys are still ahead?
  abbrev pub ahead : (Bytes → Bool) → Option Bytes → Bytes → Bool
  ahead first none k = first k
  ahead first (some c) k = lt c k

  abbrev pub remaining : (Bytes → Bool) → (Bytes → Bool) → List Bytes → Option Bytes → List Bytes
  remaining first stop keys c = keep (λ k. ahead first c k && not (stop k)) keys

  abbrev pub Closed : (Bytes → Bool) → Type 0
  Closed p = (x y : Bytes) → lt x y ≡ true → p x ≡ true → p y ≡ true

  pub walk-keep :
      (room : ℕ) (stop : Bytes → Bool) (d : Data) (ks : List Bytes)
      → Closed stop
      → Ascends lt ks
      → walk room stop d ks ≡ map (entry d) (take room (keep (λ k. not (stop k)) ks))
  unfolding walk
  walk-keep zero stop d ks up a = refl
  walk-keep (suc room) stop d [] up a = refl
  walk-keep (suc room) stop d (k ∷ ks) up (b, a) = elim (Bool-cases (stop k)) [
    | inl stops ↦
        rw stops (
          rw
            (keep_none lt trans irrefl (λ x. not (stop x)) k ks (λ x h. ap not (up k x h stops)) b))
    | inr goes ↦ rw goes (ap (◌∷◌ (entry d k)) (walk-keep room stop d ks up a))
  ]

  last_of-AllTrue :
      (p : Bytes → Bool) (n : ℕ) (x : Bytes) (xs : List Bytes)
      → AllTrue p (x ∷ xs)
      → p (last_of lt trans irrefl x (take n xs)) ≡ true
  last_of-AllTrue p zero x xs (h, hs) = h
  last_of-AllTrue p (suc n) x [] (h, hs) = h
  last_of-AllTrue p (suc n) x (y ∷ ys) (h, hs) = last_of-AllTrue p n y ys hs

  last_key-map :
      (d : Data) (x : Bytes) (xs : List Bytes)
      → last_key (map (entry d) (x ∷ xs)) ≡ some (last_of lt trans irrefl x xs)
  last_key-map d x [] = refl
  last_key-map d x (y ∷ ys) = last_key-map d y ys

  ahead-Closed : (first : Bytes → Bool) (c : Option Bytes) → Closed first → Closed (ahead first c)
  ahead-Closed first none up = up
  ahead-Closed first (some c) up = λ x y h k. trans c x y k h

  -- From the last key of a full chunk on, what remains is what remained, less the chunk.
  remaining_step :
      (first stop : Bytes → Bool) (keys : List Bytes) (c : Option Bytes) (n : ℕ) (x : Bytes)
      (xs : List Bytes)
      → Closed first
      → Ascends lt keys
      → remaining first stop keys c ≡ x ∷ xs
      → n ≤ length xs
      → remaining first stop keys (some (last_of lt trans irrefl x (take n xs))) ≡ drop n xs
  remaining_step first stop keys c n x xs up a e le =
      keep_ext _ _ keys same
      ∙ sym (keep-keep (lt l) (λ k. ahead first c k && not (stop k)) keys)
      ∙ ap (keep (lt l)) e
      ∙ keep_after lt trans irrefl n x xs
          (subst (Ascends lt) e
            (keep-Ascends lt trans irrefl (λ k. ahead first c k && not (stop k)) keys a))
          le
    where
      l : Bytes
      l = last_of lt trans irrefl x (take n xs)

      l_ahead : (ahead first c l && not (stop l)) ≡ true
      l_ahead =
          last_of-AllTrue (λ k. ahead first c k && not (stop k)) n x xs
            (subst (AllTrue (λ k. ahead first c k && not (stop k))) e
              (keep-AllTrue (λ k. ahead first c k && not (stop k)) keys))

      same : (k : Bytes) → (lt l k && not (stop k)) ≡ ((ahead first c k && not (stop k)) && lt l k)
      same k = ground (arith, l_ahead, ahead-Closed first c up l k)

visit-append {ℓ} :
    {A : Type ℓ} (fn : Entry → A → A × Bool) (xs ys : List Entry) (a : A)
    → visit fn (xs ++ ys) a
      ≡ (if (visit fn xs a).1 then visit fn ys (visit fn xs a).0 else visit fn xs a)
unfolding visit
visit-append fn [] ys a = refl
visit-append fn (x ∷ xs) ys a = elim (Bool-cases (fn x a).1) [
  | inl more ↦ rw more (visit-append fn xs ys (fn x a).0)
  | inr stop ↦ rw stop
]

take_all : (n : ℕ) (xs : List Bytes) → length xs ≤ n → take n xs ≡ xs
take_all zero [] h = refl
take_all zero (x ∷ xs) h = absurd (omega arith)
take_all (suc n) [] h = refl
take_all (suc n) (x ∷ xs) h = ap (◌∷◌ x) (take_all n xs (omega arith))

List-cases {ℓ} : {A : Type ℓ} (xs : List A) → (xs ≡ []) ⊎ ((x : A) × (ys : List A) × (xs ≡ x ∷ ys))
List-cases [] = inl refl
List-cases (x ∷ xs) = inr (x, xs, refl)

module _ {ℓ} {A : Type ℓ} (fn : Entry → A → A × Bool) where
  -- One round, with what it read and the rest of the loop.
  loop_short :
      (fuel i : ℕ) (read : ℕ → Option Bytes → List Entry) (c : Option Bytes) (a : A)
      (buf : List Entry)
      → read i c ≡ buf
      → length buf < chunk
      → scan_loop fn (suc fuel) read i c a ≡ some (visit fn buf a).0
  unfolding scan_loop
  loop_short fuel i read c a buf e h = rw e (ground arith)

  loop_full :
      (fuel i : ℕ) (read : ℕ → Option Bytes → List Entry) (c : Option Bytes) (a : A)
      (buf : List Entry)
      → read i c ≡ buf
      → chunk ≤ length buf
      → scan_loop fn (suc fuel) read i c a ≡ (
          if (visit fn buf a).1
          then scan_loop fn fuel read (suc i) (last_key buf) (visit fn buf a).0
          else some (visit fn buf a).0)
  unfolding scan_loop
  loop_full fuel i read c a buf e h = rw e (ground arith)

  join_chunk :
      (d : Data) (x : Bytes) (zs ys ws : List Bytes) (a : A) (next : Option A)
      → ys ++ ws ≡ zs
      → next ≡ some (visit fn (map (entry d) ws) (visit fn (map (entry d) (x ∷ ys)) a).0).0
      → (if (visit fn (map (entry d) (x ∷ ys)) a).1
          then next
          else some (visit fn (map (entry d) (x ∷ ys)) a).0)
        ≡ some (visit fn (map (entry d) (x ∷ zs)) a).0
  join_chunk d x zs ys ws a next z f =
      rw
        (
          ← z,
          map-append_entry d (x ∷ ys) ws,
          visit-append fn (map (entry d) (x ∷ ys)) (map (entry d) ws) a,
        )
        (elim (Bool-cases (visit fn (map (entry d) (x ∷ ys)) a).1) [
          | inl more ↦ rw more f
          | inr stops ↦ rw stops
        ])

fewer :
    (n fuel : ℕ) (x : Bytes) (xs : List Bytes)
    → n ≤ length xs
    → length (x ∷ xs) < suc n * suc fuel
    → length (drop n xs) < suc n * fuel
fewer n fuel x xs h k = grind (arith, length-drop n xs)

full_chunk :
    (d : Data) (n : ℕ) (x : Bytes) (xs : List Bytes)
    → n ≤ length xs
    → suc n ≤ length (map (entry d) (x ∷ take n xs))
full_chunk d n x xs h = rw length-map-entry (omega (arith, length-take n xs))

module _ (lt : Bytes → Bytes → Bool)
    (trans : (x y z : Bytes) → lt x y ≡ true → lt y z ≡ true → lt x z ≡ true)
    (irrefl : (x : Bytes) → lt x x ≡ false) (first stop : Bytes → Bool) (keys : List Bytes)
    (d : Data) (up : Closed lt trans irrefl first) (asc : Ascends lt keys) where
  abbrev pub rest_of : Option Bytes → List Bytes
  rest_of = remaining lt trans irrefl first stop keys

  module _ {ℓ} {A : Type ℓ} (fn : Entry → A → A × Bool) (read : ℕ → Option Bytes → List Entry)
      (reads : (i : ℕ) (c : Option Bytes) → read i c ≡ map (entry d) (take chunk (rest_of c))) where
    scan_loop-next :
        (fuel i : ℕ) (x : Bytes) (xs : List Bytes) (c : Option Bytes) (a : A)
        → rest_of c ≡ x ∷ xs
        → 63 ≤ length xs
        → scan_loop fn fuel read
            (suc i)
            (some (last_of lt trans irrefl x (take 63 xs)))
            (visit fn (map (entry d) (x ∷ take 63 xs)) a).0
          ≡ some
              (visit fn
                (map (entry d) (rest_of (some (last_of lt trans irrefl x (take 63 xs)))))
                (visit fn (map (entry d) (x ∷ take 63 xs)) a).0).0
        → scan_loop fn fuel read
            (suc i)
            (last_key (map (entry d) (x ∷ take 63 xs)))
            (visit fn (map (entry d) (x ∷ take 63 xs)) a).0
          ≡ some
              (visit fn
                (map (entry d) (drop 63 xs))
                (visit fn (map (entry d) (x ∷ take 63 xs)) a).0).0
    scan_loop-next fuel i x xs c a e le ih =
        rw (last_key-map lt trans irrefl d x (take 63 xs), ih)
          (ap
            (λ ys.
              some (visit fn (map (entry d) ys) (visit fn (map (entry d) (x ∷ take 63 xs)) a).0).0)
            (remaining_step lt trans irrefl first stop keys c 63 x xs up asc e le))

    -- With fuel for a round more than the full chunks, the loop visits all that remains, in order,
    -- until the callback stops it.
    pub scan_loop-remaining :
        (fuel i : ℕ) (c : Option Bytes) (a : A)
        → length (rest_of c) < chunk * fuel
        → scan_loop fn fuel read i c a ≡ some (visit fn (map (entry d) (rest_of c)) a).0
    scan_loop-remaining zero i c a h = absurd (omega arith)
    scan_loop-remaining (suc fuel) i c a h = elim (List-cases (rest_of c)) [
      | inl e ↦ rw e (
          loop_short fn fuel i read c a [] (reads i c ∙ ap (λ xs. map (entry d) (take chunk xs)) e)
            (omega arith))
      | inr (x, xs, e) ↦ rw e (elim (Bool-cases (ltb (length (x ∷ xs)) chunk)) [
        | inl short ↦
            loop_short fn fuel i read c a (map (entry d) (x ∷ xs))
              (reads i c
                ∙ ap (λ ys. map (entry d) (take chunk ys)) e
                ∙ ap (map (entry d)) (take_all chunk (x ∷ xs) (ground arith)))
              (rw length-map-entry (ground arith))
        | inr full ↦
            loop_full fn fuel i read c a (map (entry d) (x ∷ take 63 xs))
              (reads i c ∙ ap (λ ys. map (entry d) (take chunk ys)) e)
              (full_chunk d 63 x xs (ground arith))
            ∙ join_chunk fn d x xs (take 63 xs) (drop 63 xs) a _ (take-append-drop 63 xs) (
                scan_loop-next fuel i x xs c a e (ground arith) (
                  scan_loop-remaining fuel (suc i) (some (last_of lt trans irrefl x (take 63 xs)))
                    (visit fn (map (entry d) (x ∷ take 63 xs)) a).0
                    (rw
                      (remaining_step lt trans irrefl first stop keys c 63 x xs up asc e
                        (ground arith))
                      (fewer 63 fuel x xs (ground arith) (rw e at h)))))
      ])
    ]
