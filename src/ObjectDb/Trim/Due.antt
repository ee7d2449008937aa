-- ===== src/ObjectDb/Trim/Due.antt =====
-- Which entries a call of TrimChanges deletes.
use naust_jmap.Prelude.{
  ℕ, zero, suc, ◌+◌, ◌-◌, ◌==◌, ◌≤◌, ◌<◌, ◌≡◌, refl, ◌∙◌, ltb, if◌then◌else◌, min, Bool, true,
  false, ◌&&◌, Bool-cases, ltb→lt, inl, inr, List, [], ◌∷◌, ◌++◌, Option, none, some, Bytes, length,
  take, arith,
}
use naust_jmap.Backend
use naust_jmap.Backend.{Batch, Op, delete_op, set_op, encode_int64}
use naust_jmap.ObjectDb.Keys.{log_floor_key}
use naust_jmap.ObjectDb.Changes.{Result, ok, refuse, ◌>>◌, bad_entry}
use naust_jmap.ObjectDb.Trim.{
  Count, count_entries, max_trim_per_call, Reads, drop_count, drop_batch, trim_log, trim_changes,
  oldest_of, cap_exceeded, unix_milli, start_count,
}
use naust_jmap.ObjectDb.Trim.Passes.{
  decoded, leading, leading-le-length, count_capped, count_uncapped, deletions, floor_past,
  delete_prefix_lem,
}

-- The number of entries that a call is to delete: the aged ones at the front, or all beyond the
-- cap where those are more, but no more than one call deletes.
unfoldable pub due : ℕ → ℕ → ℕ → List (Bytes × ℕ) → ℕ
due retention cutoff max_entries es =
    let aged = leading retention cutoff es in
    let beyond = if max_entries == 0 then 0 else length es - max_entries in
    min max_trim_per_call (if ltb aged beyond then beyond else aged)

pub due-le-length :
    (retention cutoff max_entries : ℕ) (es : List (Bytes × ℕ))
    → due retention cutoff max_entries es ≤ length es
unfolding due
due-le-length retention cutoff max_entries es =
    ground (arith, leading-le-length retention cutoff es)

over_cap_drop :
    (most aged total max_entries span : ℕ)
    → (ltb 0 max_entries && ltb max_entries (span + 1)) ≡ true
    → (if ltb most
          (if ltb (0 + aged) (0 + total - max_entries) then 0 + total - max_entries else 0 + aged)
        then most
        else (if ltb (0 + aged) (0 + total - max_entries)
            then 0 + total - max_entries
            else 0 + aged))
      ≡ min most (
          if ltb aged (if max_entries == 0 then 0 else total - max_entries)
          then (if max_entries == 0 then 0 else total - max_entries)
          else aged)
over_cap_drop most aged total max_entries span h = ground arith

within_cap_drop :
    (most aged total max_entries span : ℕ)
    → (ltb 0 max_entries && ltb max_entries (span + 1)) ≡ false
    → total ≤ span + 1
    → (if ltb most (min most (0 + aged)) then most else min most (0 + aged))
      ≡ min most (
          if ltb aged (if max_entries == 0 then 0 else total - max_entries)
          then (if max_entries == 0 then 0 else total - max_entries)
          else aged)
within_cap_drop most aged total max_entries span h d = ground arith

max_pos : 0 < max_trim_per_call
unfolding max_trim_per_call
max_pos = omega arith

-- What pass one leaves gives the number due.
drop_count-due :
    (retention cutoff max_entries span : ℕ) (es : List (Bytes × ℕ))
    → length es ≤ span + 1
    → (let c =
          count_entries retention cutoff
            (ltb 0 max_entries && ltb max_entries (span + 1))
            (decoded es)
            start_count in
        (drop_count max_entries (ltb 0 max_entries && ltb max_entries (span + 1)) c
          ≡ due retention cutoff max_entries es)
        × (c.bad ≡ false))
unfolding drop_count due
drop_count-due retention cutoff max_entries span es dense =
    elim (Bool-cases (ltb 0 max_entries && ltb max_entries (span + 1))) [
      | inl over ↦
          let c = count_capped retention cutoff es 0 0 in
          rw (over, c.0, c.1)
            (
              over_cap_drop max_trim_per_call (leading retention cutoff es) (length es) max_entries
                  span over,
              c.2,
            )
      | inr under ↦
          let (n, c) = count_uncapped retention cutoff es 0 0 max_pos in
          rw (under, c.1)
            (
              within_cap_drop max_trim_per_call (leading retention cutoff es) (length es)
                  max_entries span under dense,
              c.2,
            )
    ]

-- The reads of a call that meets no error.
abbrev pub clean : ℕ → ℕ → List (Bytes × ℕ) → Reads
clean floor global es = record {
  leased = true;
  floor = some floor;
  global = some global;
  entries = decoded es;
  counted = true;
  collected = true;
}

-- The batch that deletes the first n entries and raises the floor past them.
unfoldable pub trim_batch : Bytes → ℕ → List (Bytes × ℕ) → Batch
trim_batch acct n es = record {
  ops =
      deletions (take n (decoded es))
      ++ set_op (log_floor_key acct) (some (encode_int64 (floor_past 0 (take n (decoded es)))))
        ∷ [];
}

length-decoded : (es : List (Bytes × ℕ)) → length (decoded es) ≡ length es
length-decoded [] = refl
length-decoded ((k, a) ∷ es) = omega (arith, length-decoded es)

drop_batch-clean :
    (floor global : ℕ) (es : List (Bytes × ℕ)) (acct : Bytes) (n : ℕ)
    → n ≤ length es
    → drop_batch (clean floor global es) acct n
      ≡ (if n == 0 then ok none else ok (some (trim_batch acct n es, n)))
unfolding drop_batch trim_batch Backend.set
drop_batch-clean floor global es acct n h = elim (Bool-cases (n == 0)) [
  | inl z ↦ rw z refl
  | inr some_due ↦
      rw
        (
          some_due,
          delete_prefix_lem n (decoded es) n 0 0 [] (omega (arith, length-decoded es))
              (omega arith),
          some_due,
        )
        refl
]

counted_step :
    (r : Reads) (acct : Bytes) (max_entries : ℕ) (over_cap : Bool) (n : ℕ) (c : Count)
    → (drop_count max_entries over_cap c ≡ n) × (c.bad ≡ false)
    → (refuse c.bad bad_entry >> drop_batch r acct (drop_count max_entries over_cap c))
      ≡ drop_batch r acct n
counted_step r acct max_entries over_cap n c (e, b) = rw (e, b) refl

trim_log-clean :
    (floor global : ℕ) (es : List (Bytes × ℕ)) (acct : Bytes)
    (retention cutoff max_entries span : ℕ)
    → length es ≤ span + 1
    → trim_log
        (clean floor global es)
        acct
        retention
        cutoff
        max_entries
        (ltb 0 max_entries && ltb max_entries (span + 1))
      ≡ drop_batch (clean floor global es) acct (due retention cutoff max_entries es)
unfolding trim_log
trim_log-clean floor global es acct retention cutoff max_entries span h =
    counted_step (clean floor global es) acct max_entries _ _
      (count_entries retention cutoff (ltb 0 max_entries && ltb max_entries (span + 1)) (decoded es)
        start_count)
      (drop_count-due retention cutoff max_entries span es h)

leading-zero : (cutoff : ℕ) (es : List (Bytes × ℕ)) → leading 0 cutoff es ≡ 0
unfolding leading
leading-zero cutoff [] = refl
leading-zero cutoff ((k, a) ∷ es) = refl

due-off :
    (retention cutoff max_entries : ℕ) (es : List (Bytes × ℕ))
    → ((retention == 0) && (max_entries == 0)) ≡ true
    → due retention cutoff max_entries es ≡ 0
unfolding due
due-off zero cutoff zero es h = rw (leading-zero cutoff es) (omega arith)
due-off zero cutoff (suc m) es h = absurd (ground arith)
due-off (suc r) cutoff max_entries es h = absurd (ground arith)

none_due :
    (n : ℕ) (some_due : Result (Option (Batch × ℕ)))
    → n ≡ 0
    → ok none ≡ (if n == 0 then ok none else some_due)
none_due n some_due e = rw e refl

-- The log is dense: between the floor and the current sequence there are no fewer numbers than
-- entries. On such a log, whose entries decode, and without errors of the store: TrimChanges
-- deletes the entries at the front that are older than the retention, or all beyond the cap where
-- those are more, up to its limit, and raises the floor past the last of them; where there are
-- none, it writes nothing.
pub trim_changes_lem :
    (floor global : ℕ) (es : List (Bytes × ℕ)) (acct : Bytes) (now retention max_entries : ℕ)
    → length es + oldest_of floor ≤ global + 1
    → (let n = due retention (unix_milli (now - retention)) max_entries es in
        trim_changes (clean floor global es) acct now retention max_entries
        ≡ (if n == 0 then ok none else ok (some (trim_batch acct n es, n))))
unfolding trim_changes cap_exceeded
trim_changes_lem floor global es acct now retention max_entries dense =
    elim (Bool-cases ((retention == 0) && (max_entries == 0))) [
      | inl off ↦
          rw off
            (none_due _ _ (due-off retention (unix_milli (now - retention)) max_entries es off))
      | inr on ↦ elim (Bool-cases (ltb global (oldest_of floor))) [
        | inl empty ↦
            rw (on, empty)
              (none_due _ _ (
                no_entry (due-le-length retention (unix_milli (now - retention)) max_entries es)
                  (ltb→lt global (oldest_of floor) empty)))
        | inr some_left ↦
            rw (on, some_left)
              (trim_log-clean floor global es acct retention (unix_milli (now - retention))
                  max_entries (global - oldest_of floor) (fits some_left)
                ∙ drop_batch-clean floor global es acct
                    (due retention (unix_milli (now - retention)) max_entries es)
                    (due-le-length retention (unix_milli (now - retention)) max_entries es))
      ]
    ]
  where
    no_entry : {n : ℕ} → n ≤ length es → global < oldest_of floor → n ≡ 0
    no_entry h k = omega arith

    fits : ltb global (oldest_of floor) ≡ false → length es ≤ global - oldest_of floor + 1
    fits h = ground arith
