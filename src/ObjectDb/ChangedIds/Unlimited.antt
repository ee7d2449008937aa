-- ===== src/ObjectDb/ChangedIds/Unlimited.antt =====
-- When ChangedSince does answer.
use naust_jmap.Prelude.{
  ℕ, ◌+◌, ◌≤◌, ◌≡◌, refl, ltb, true, false, Bool-cases, inl, inr, List, [], ◌∷◌, Option, none, some,
  Bytes, map, arith,
}
use naust_jmap.Prelude.GoMap
use naust_jmap.ObjectDb.Changes.{
  RecordId, Disp, is_created, is_updated, is_destroyed, Disps, TypeEntry, Entry, Log, Reads, ok,
}
use naust_jmap.ObjectDb.ChangedIds.{
  TypeChanges, type_changes, Held, whole, scan_entries, start_types, changed_since, apply,
  apply_ids, apply_type, apply_named, apply_types,
}

apply-goes_on : (id : RecordId) (next : Disp) (dh : Disps × ℕ) → (apply 0 id next dh).1 ≡ true
unfolding apply
apply-goes_on id next dh = ground arith

apply_ids-goes_on :
    (next : Disp) (ids : List RecordId) (dh : Disps × ℕ) → (apply_ids 0 next ids dh).1 ≡ true
unfolding apply_ids
apply_ids-goes_on next [] dh = refl
apply_ids-goes_on next (id ∷ ids) dh =
    rw (apply-goes_on id next dh) (apply_ids-goes_on next ids (apply 0 id next dh).0)

apply_named-goes_on : (te : Option TypeEntry) (dh : Disps × ℕ) → (apply_named 0 te dh).1 ≡ true
unfolding apply_named apply_type
apply_named-goes_on none dh = refl
apply_named-goes_on (some te) dh =
    rw
      (
        apply_ids-goes_on is_created te.created dh,
        apply_ids-goes_on is_updated te.updated (apply_ids 0 is_created te.created dh).0,
      )
      (apply_ids-goes_on is_destroyed te.destroyed _)

apply_types-goes_on :
    (e : Entry) (types : List (Bytes × Disps)) (held : ℕ) → (apply_types 0 e types held).1 ≡ true
unfolding apply_types
apply_types-goes_on e [] held = refl
apply_types-goes_on e ((n, d) ∷ types) held =
    rw (apply_named-goes_on (GoMap.get n e) (d, held)) (apply_types-goes_on e types _)

-- Every entry decodes.
abbrev pub AllDecode : Log → Type 0
AllDecode [] = Unit
AllDecode ((seq, none) ∷ log) = ⊥
AllDecode ((seq, some e) ∷ log) = AllDecode log

scan_entries-ends :
    (up_to : ℕ) (log : Log) (h : Held)
    → AllDecode log
    → (r : Held) × (scan_entries up_to 0 log h ≡ whole r)
unfolding scan_entries
scan_entries-ends up_to [] h d = (h, refl)
scan_entries-ends up_to ((seq, none) ∷ log) h d = absurd d
scan_entries-ends up_to ((seq, some e) ∷ log) h d = elim (Bool-cases (ltb up_to seq)) [
  | inl late ↦ (h, rw late refl)
  | inr on ↦
      let (r, ends) = scan_entries-ends up_to log (apply_types 0 e h.0 h.1).0 d in
      (r, rw (on, apply_types-goes_on e h.0 h.1) ends)
]

ltb-ge : (a b : ℕ) → b ≤ a → ltb a b ≡ false
ltb-ge a b h = ground arith

-- ChangedSince without limits answers, current to the store's sequence number, whenever the types
-- are known, the state was issued and not trimmed before or after the scan, the store's reads
-- succeed and every entry decodes.
pub changed_since_answers :
    (r : Reads) (names : List Bytes) (since global floor floor_after : ℕ)
    → r.known_type ≡ true
    → r.global ≡ some global
    → since ≤ global
    → r.floor ≡ some floor
    → floor ≤ since + 1
    → r.scanned ≡ true
    → AllDecode r.entries
    → r.floor_after ≡ some floor_after
    → floor_after ≤ since + 1
    → (types : List (Bytes × TypeChanges)) × (changed_since r names (some since) 0 0
        ≡ ok (types, global))
unfolding changed_since
changed_since_answers r names since global floor floor_after known g le f fle scanned decode fa
      fale =
    let (held, ends) = scan_entries-ends global r.entries (start_types names, 0) decode in
    (
      map (λ (t : Bytes × Disps). (t.0, type_changes t.1)) held.0,
      rw
          (
            known,
            g,
            ltb-ge global since le,
            f,
            ltb-ge (since + 1) floor fle,
            scanned,
            ends,
            fa,
            ltb-ge (since + 1) floor_after fale,
          )
          refl,
    )
