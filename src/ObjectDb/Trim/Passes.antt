-- ===== src/ObjectDb/Trim/Passes.antt =====
-- What the two passes of TrimChanges compute.
use naust_jmap.Prelude.{
  ℕ, zero, suc, ◌+◌, ◌==◌, ◌≤◌, ◌<◌, ◌≡◌, refl, sym, ap, ◌∙◌, ltb, leb, if◌then◌else◌, min, Bool,
  true, false, not, ◌||◌, Bool-cases, leb→le, leb→lt, ==_iff, inl, inr, List, [], ◌∷◌, ◌++◌, some,
  Bytes, length, take, arith,
}
use mathlib.Core.List.{append-nil, append_assoc}
use naust_jmap.Backend
use naust_jmap.Backend.{Batch, Op, delete_op}
use naust_jmap.ObjectDb.Keys.{seq_from_log_key}
use naust_jmap.ObjectDb.Trim.{
  Aged, Count, count_entry, count_entries, max_trim_per_call, Prefix, delete_entry, delete_prefix,
}

-- The entries whose values decode to these commit times.
abbrev pub decoded : List (Bytes × ℕ) → List Aged
decoded [] = []
decoded ((k, a) ∷ es) = (k, some a) ∷ decoded es

-- Committed no later than the cutoff, at a known time.
abbrev pub is_aged : ℕ → ℕ → ℕ → Bool
is_aged retention cutoff a = not ((retention == 0) || (a == 0) || ltb cutoff a)

-- How many entries at the front are aged.
unfoldable pub leading : ℕ → ℕ → List (Bytes × ℕ) → ℕ
leading retention cutoff [] = 0
leading retention cutoff ((k, a) ∷ es) =
    let rest = leading retention cutoff es in if is_aged retention cutoff a then suc rest else 0

pub leading-le-length :
    (retention cutoff : ℕ) (es : List (Bytes × ℕ)) → leading retention cutoff es ≤ length es
unfolding leading
leading-le-length retention cutoff [] = omega arith
leading-le-length retention cutoff ((k, a) ∷ es) =
    ground (arith, leading-le-length retention cutoff es)

-- The counters after pass one.
abbrev pub Counts : Count → ℕ → ℕ → Type 0
Counts c total expired = (c.total ≡ total) × (c.expired ≡ expired) × (c.bad ≡ false)

abbrev pub counts : ℕ → ℕ → Bool → Count
counts t x live = record { total = t; expired = x; prefix_live = live; bad = false }

-- With the cap in play the whole log is counted.
count_live :
    (retention cutoff : ℕ) (es : List (Bytes × ℕ)) (t x : ℕ)
    → Counts (count_entries retention cutoff true (decoded es) (counts t x true)) (t + length es) x
unfolding count_entries count_entry
count_live retention cutoff [] t x = (omega arith, refl, refl)
count_live retention cutoff ((k, a) ∷ es) t x =
    let c = count_live retention cutoff es (t + 1) x in (omega (arith, c.0), c.1, c.2)

pub count_capped :
    (retention cutoff : ℕ) (es : List (Bytes × ℕ)) (t x : ℕ)
    → Counts
        (count_entries retention cutoff true (decoded es) (counts t x false))
        (t + length es)
        (x + leading retention cutoff es)
unfolding count_entries count_entry leading
count_capped retention cutoff [] t x = (omega arith, omega arith, refl)
count_capped retention cutoff ((k, a) ∷ es) t x =
    elim (Bool-cases ((retention == 0) || (a == 0) || ltb cutoff a)) [
      | inl live ↦
          let c = count_live retention cutoff es (t + 1) x in
          rw live (omega (arith, c.0), omega (arith, c.1), c.2)
      | inr aged ↦ elim (Bool-cases (leb max_trim_per_call (x + 1))) [
        | inl full ↦
            let c = count_capped retention cutoff es (t + 1) (x + 1) in
            rw (aged, full) (omega (arith, c.0), omega (arith, c.1), c.2)
        | inr more ↦
            let c = count_capped retention cutoff es (t + 1) (x + 1) in
            rw (aged, more) (omega (arith, c.0), omega (arith, c.1), c.2)
      ]
    ]

-- Without the cap, pass one stops at the first entry that is kept, or when it has enough.
pub count_uncapped :
    (retention cutoff : ℕ) (es : List (Bytes × ℕ)) (t x : ℕ)
    → x < max_trim_per_call
    → (n : ℕ) × Counts
        (count_entries retention cutoff false (decoded es) (counts t x false))
        n
        (min max_trim_per_call (x + leading retention cutoff es))
unfolding count_entries count_entry leading
count_uncapped retention cutoff [] t x h = (t, (refl, omega arith, refl))
count_uncapped retention cutoff ((k, a) ∷ es) t x h =
    elim (Bool-cases ((retention == 0) || (a == 0) || ltb cutoff a)) [
      | inl live ↦ rw live (t + 1, (refl, omega arith, refl))
      | inr aged ↦ elim (Bool-cases (leb max_trim_per_call (x + 1))) [
        | inl full ↦
            rw (aged, full)
              (t + 1, (refl, omega (arith, leb→le max_trim_per_call (x + 1) full), refl))
        | inr more ↦
            let below = leb→lt max_trim_per_call (x + 1) more in
            let (n, c) = count_uncapped retention cutoff es (t + 1) (x + 1) below in
            rw (aged, more) (n, (c.0, omega (arith, c.1), c.2))
      ]
    ]

-- The entries that pass two deletes, as operations.
unfoldable pub deletions : List Aged → List Op
deletions [] = []
deletions ((k, at) ∷ es) = delete_op k ∷ deletions es

-- One past the sequence of the last entry, or `n` where there is none.
unfoldable pub floor_past : ℕ → List Aged → ℕ
floor_past n [] = n
floor_past n ((k, at) ∷ es) = floor_past (seq_from_log_key k + 1) es

abbrev pub prefix_of : List Op → ℕ → ℕ → Prefix
prefix_of ops d f = record { batch = record { ops = ops }; deleted = d; new_floor = f }

pub delete_prefix_lem :
    (n : ℕ) (es : List Aged) (drop d f : ℕ) (ops : List Op)
    → n ≤ length es
    → drop ≡ d + n
    → delete_prefix drop es (prefix_of ops d f)
      ≡ prefix_of (ops ++ deletions (take n es)) drop (floor_past f (take n es))
unfolding delete_prefix delete_entry deletions floor_past Backend.delete
delete_prefix_lem zero [] drop d f ops h e =
    ap (λ n. prefix_of ops n f) (omega (arith, e))
    ∙ ap (λ o. prefix_of o drop f) (sym (append-nil ops))
delete_prefix_lem zero ((k, at) ∷ es) drop d f ops h e = rw ((==_iff d drop).1 (omega (arith, e))) (
    ap (λ n. prefix_of ops n f) (omega (arith, e))
    ∙ ap (λ o. prefix_of o drop f) (sym (append-nil ops)))
delete_prefix_lem (suc n) [] drop d f ops h e = absurd (omega arith)
delete_prefix_lem (suc n) ((k, at) ∷ es) drop d f ops h e = elim (Bool-cases (d == drop)) [
  | inl bad ↦ absurd (omega (arith, (==_iff d drop).0 bad))
  | inr going ↦ rw going (
      delete_prefix_lem n es drop (d + 1) (seq_from_log_key k + 1) (ops ++ delete_op k ∷ [])
        (omega (arith, h)) (omega (arith, e))
      ∙ ap (λ o. prefix_of o drop (floor_past (seq_from_log_key k + 1) (take n es)))
          (append_assoc ops (delete_op k ∷ []) (deletions (take n es))))
]
