-- ===== src/ObjectDb/ChangedIds/Budget.antt =====
-- The budget of ChangedSince.
use naust_jmap.Prelude.{
  ℕ, ◌+◌, ◌≤◌, ◌<◌, ◌≡◌, sym, ap, subst, ◌∙◌, ltb, Bool, true, Bool-cases, Option-cases, inl, inr,
  List, [], ◌∷◌, Option, none, some, Bytes, map, length, arith,
}
use naust_jmap.Prelude.GoMap
use naust_jmap.ObjectDb.Changes.{
  RecordId, Disp, is_created, is_updated, is_destroyed, Disps, TypeEntry, Entry, Log, Reads, ok,
  ids_with,
}
use naust_jmap.ObjectDb.Changes.Page.{length-put, length-ids_with, length-sort_ids}
use naust_jmap.ObjectDb.ChangedIds.{
  TypeChanges, type_changes, Held, whole, scan_entries, start_types, changed_since, apply,
  apply_ids, apply_named, apply_types, merge,
}
use naust_jmap.ObjectDb.ChangedIds.Merged.{apply_ids-cons, apply_ids-head, apply_type-loops}
use naust_jmap.ObjectDb.ChangedIds.Entries.{
  apply_types-cons, scan_on, scan_late, scan_bad, scan_done,
}
use naust_jmap.ObjectDb.ChangedIds.Answers.{finish_whole, changed_since_tail}

length-put_old :
    (id : RecordId) (x y : Disp) (d : Disps)
    → GoMap.get id d ≡ some y
    → length (GoMap.put id x d) ≡ length d
unfolding GoMap.put GoMap.get
length-put_old id x y [] h = cc
length-put_old id x y ((j, z) ∷ d) h = ground (arith, length-put_old id x y d)

-- The step from `dh` to `dh'` counted the ids that it added, and stayed within the budget.
abbrev pub Fits : ℕ → Disps × ℕ → Disps × ℕ → Type 0
Fits m (d, h) (d', h') = (length d' + h ≤ length d + h') × (h' ≤ m)

Fits-then : (m : ℕ) (a b c : Disps × ℕ) → Fits m a b → Fits m b c → Fits m a c
Fits-then m a b c (x, _) (y, z) = (omega (arith, x, y), z)

apply-Fits :
    (m : ℕ) (id : RecordId) (next : Disp) (dh : Disps × ℕ)
    → 0 < m
    → dh.1 ≤ m
    → (apply m id next dh).1 ≡ true
    → Fits m dh (apply m id next dh).0
unfolding apply
apply-Fits m id next (d, h) pos small go = elim (Option-cases (GoMap.get id d)) [
  | inl new ↦ ground (arith, length-put id next d)
  | inr (prev, old) ↦ ground (arith, length-put_old id (merge prev next) prev d old)
]

apply_ids-Fits :
    (m : ℕ) (next : Disp) (ids : List RecordId) (dh : Disps × ℕ)
    → 0 < m
    → dh.1 ≤ m
    → (apply_ids m next ids dh).1 ≡ true
    → Fits m dh (apply_ids m next ids dh).0
apply_ids-Fits m next [] dh pos small go = unfold apply_ids in (omega arith, small)
apply_ids-Fits m next (id ∷ ids) dh pos small go =
    let step = apply_ids-cons m next id ids dh go in
    let first = apply-Fits m id next dh pos small (apply_ids-head m next id ids dh go) in
    subst (λ (r : (Disps × ℕ) × Bool). Fits m dh r.0) (sym step)
      (Fits-then m dh (apply m id next dh).0 _ first (
        apply_ids-Fits m next ids (apply m id next dh).0 pos first.1
          (ap (λ r. r.1) (sym step) ∙ go)))

apply_named-Fits :
    (m : ℕ) (te : Option TypeEntry) (dh : Disps × ℕ)
    → 0 < m
    → dh.1 ≤ m
    → (apply_named m te dh).1 ≡ true
    → Fits m dh (apply_named m te dh).0
unfolding apply_named
apply_named-Fits m none dh pos small go = (omega arith, small)
apply_named-Fits m (some te) dh pos small go =
    let (on1, on2, on3, made) = apply_type-loops m te dh go in
    let one = apply_ids m is_created te.created dh in
    let two = apply_ids m is_updated te.updated one.0 in
    let f1 = apply_ids-Fits m is_created te.created dh pos small on1 in
    let f2 = apply_ids-Fits m is_updated te.updated one.0 pos f1.1 on2 in
    subst (λ (r : (Disps × ℕ) × Bool). Fits m dh r.0) (sym made)
      (Fits-then m dh two.0 _ (Fits-then m dh one.0 two.0 f1 f2)
        (apply_ids-Fits m is_destroyed te.destroyed two.0 pos f2.1 on3))

-- The ids of all requested types.
abbrev pub total : List (Bytes × Disps) → ℕ
total [] = 0
total ((name, d) ∷ types) = length d + total types

-- The count is that of the ids held, and within the budget.
abbrev pub IsCounted : ℕ → Held → Type 0
IsCounted m (types, held) = (total types ≤ held) × (held ≤ m)

apply_types-Fits :
    (m : ℕ) (e : Entry) (types : List (Bytes × Disps)) (held : ℕ)
    → 0 < m
    → held ≤ m
    → (apply_types m e types held).1 ≡ true
    → let r = (apply_types m e types held).0 in (total r.0 + held ≤ total types + r.1) × (r.1 ≤ m)
apply_types-Fits m e [] held pos small go = unfold apply_types in (omega arith, small)
apply_types-Fits m e ((n, d) ∷ types) held pos small go =
    let (on, more, made, counted) = apply_types-cons m e n d types held go in
    let one = apply_named m (GoMap.get n e) (d, held) in
    let (grown, fits) = apply_named-Fits m (GoMap.get n e) (d, held) pos small on in
    let (grown', fits') = apply_types-Fits m e types one.0.1 pos fits more in
    (omega (arith, ap total made, counted, grown, grown'), omega (arith, counted, fits'))

scan_entries-IsCounted :
    (up_to m : ℕ) (log : Log) (h r : Held)
    → 0 < m
    → IsCounted m h
    → scan_entries up_to m log h ≡ whole r
    → IsCounted m r
scan_entries-IsCounted up_to m [] h r pos c w = subst (IsCounted m) (scan_done up_to m h r w) c
scan_entries-IsCounted up_to m ((seq, none) ∷ log) h r pos c w =
    subst (IsCounted m) (scan_late up_to m seq none log h r w (scan_bad up_to m seq log h r w)) c
scan_entries-IsCounted up_to m ((seq, some e) ∷ log) h r pos (c, small) w =
    elim (Bool-cases (ltb up_to seq)) [
      | inl late ↦ subst (IsCounted m) (scan_late up_to m seq (some e) log h r w late) (c, small)
      | inr on ↦
          let (go, rest) = scan_on up_to m seq e log h r w on in
          let (grown, fits) = apply_types-Fits m e h.0 h.1 pos small go in
          scan_entries-IsCounted up_to m log (apply_types m e h.0 h.1).0 r pos
            (omega (arith, grown, c), fits) rest
    ]

total-put :
    (name : Bytes) (types : List (Bytes × Disps)) → total (GoMap.put name [] types) ≤ total types
unfolding GoMap.put
total-put name [] = omega arith
total-put name ((n, d) ∷ types) = ground (arith, total-put name types)

total-start_types : (names : List Bytes) → total (start_types names) ≤ 0
unfolding start_types
total-start_types [] = omega arith
total-start_types (name ∷ names) =
    omega (arith, total-put name (start_types names), total-start_types names)

-- The ids that an answer lists, over all its types.
abbrev pub listed : List (Bytes × TypeChanges) → ℕ
listed [] = 0
listed ((name, tc) ∷ types) =
    length tc.created + length tc.updated + length tc.destroyed + listed types

listed-map :
    (types : List (Bytes × Disps))
    → listed (map (λ (t : Bytes × Disps). (t.0, type_changes t.1)) types) ≤ total types
unfolding type_changes
listed-map [] = omega arith
listed-map ((n, d) ∷ types) = omega (
  arith,
  length-ids_with d,
  length-sort_ids (ids_with is_created d),
  length-sort_ids (ids_with is_updated d),
  length-sort_ids (ids_with is_destroyed d),
  listed-map types,
)

-- An answer of ChangedSince under a positive maxIds lists at most that many ids, over all types.
pub changed_since_budget :
    (r : Reads) (names : List Bytes) (since max_behind max_ids : ℕ)
    (types : List (Bytes × TypeChanges)) (up_to : ℕ)
    → 0 < max_ids
    → changed_since r names (some since) max_behind max_ids ≡ ok (types, up_to)
    → listed types ≤ max_ids
changed_since_budget r names since max_behind max_ids types up_to pos h =
    let (_, fin) = changed_since_tail r names since max_behind max_ids types up_to h in
    let (held, scan, made) = finish_whole _ types fin in
    let (c, small) =
      scan_entries-IsCounted up_to max_ids r.entries (start_types names, 0) held pos
        (total-start_types names, omega arith) scan in
    omega (arith, ap listed made, listed-map held.0, c, small)
