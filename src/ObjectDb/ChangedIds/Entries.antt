-- ===== src/ObjectDb/ChangedIds/Entries.antt =====
-- The scan of ChangedSince: what it leaves for each requested type.
use naust_jmap.Prelude.{
  ℕ, ◌≡◌, refl, sym, ap, subst, ◌∙◌, ltb, if◌then◌else◌, true, false, Bool-cases, inl, inr, List,
  [], ◌∷◌, ◌++◌, Option, none, some, Bytes, beq, beq_iff, arith,
}
use naust_jmap.Prelude.GoMap
use naust_jmap.Prelude.GoMap.{Distinct}
use naust_jmap.ObjectDb.Changes.{RecordId, Disp, Disps, TypeEntry, Entry, Log}
use naust_jmap.ObjectDb.Changes.Coalesce.{entry_events}
use naust_jmap.ObjectDb.Changes.Walked.{touching, events}
use naust_jmap.ObjectDb.ChangedIds.{apply_named, apply_types, Held, whole, scan_entries}
use naust_jmap.ObjectDb.ChangedIds.Merged.{fold_merge, fold_merge-append, apply_type-Typed}

-- What an entry does to an id of the type `name`.
abbrev pub named_events : RecordId → Option TypeEntry → List Disp
named_events j none = []
named_events j (some te) = entry_events j te

-- The dispositions `d'` are those of `d` after the changes `es`.
pub record Follows (d d' : Disps) (es : RecordId → List Disp) : Type 0 where
  pub gets : (j : RecordId) → GoMap.get j d' ≡ fold_merge (GoMap.get j d) (es j)
  pub distinct : Distinct d → Distinct d'

apply_named-Follows :
    (m : ℕ) (te : Option TypeEntry) (dh : Disps × ℕ)
    → (apply_named m te dh).1 ≡ true
    → Follows dh.0 (apply_named m te dh).0.0 (λ j. named_events j te)
unfolding apply_named
apply_named-Follows m none dh go = record { gets = λ j. refl; distinct = λ d. d }
apply_named-Follows m (some te) dh go =
    let t = apply_type-Typed m te dh go in record { gets = t.gets; distinct = t.distinct }

pub apply_types-cons :
    (m : ℕ) (e : Entry) (n : Bytes) (d : Disps) (types : List (Bytes × Disps)) (held : ℕ)
    → (apply_types m e ((n, d) ∷ types) held).1 ≡ true
    → let one = apply_named m (GoMap.get n e) (d, held) in
      let rest = apply_types m e types one.0.1 in
      (one.1 ≡ true)
      × (rest.1 ≡ true)
      × ((apply_types m e ((n, d) ∷ types) held).0.0 ≡ (n, one.0.0) ∷ rest.0.0)
      × ((apply_types m e ((n, d) ∷ types) held).0.1 ≡ rest.0.1)
unfolding apply_types
apply_types-cons m e n d types held go = ground arith

some_eq : {x y : Disps} → some x ≡ some y → x ≡ y
some_eq e = cc

abbrev pub After : Bytes → List (Bytes × Disps) → Disps → (RecordId → List Disp) → Type 0
After name types d es = (d' : Disps) × (GoMap.get name types ≡ some d') × Follows d d' es

apply_types-After :
    (m : ℕ) (e : Entry) (name : Bytes) (types : List (Bytes × Disps)) (held : ℕ) (d : Disps)
    → GoMap.get name types ≡ some d
    → (apply_types m e types held).1 ≡ true
    → After name (apply_types m e types held).0.0 d (λ j. named_events j (GoMap.get name e))
unfolding GoMap.get
apply_types-After m e name [] held d has go = absurd (ground arith)
apply_types-After m e name ((n, dn) ∷ types) held d has go =
    let (on, more, made, _) = apply_types-cons m e n dn types held go in
    let one = apply_named m (GoMap.get n e) (dn, held) in
    elim (Bool-cases (beq n name)) [
      | inl same ↦ (
        one.0.0,
        ap (GoMap.get name) made ∙ rw same refl,
        subst (λ x. Follows x one.0.0 (λ j. named_events j (GoMap.get name e)))
            (some_eq (ap (λ b. if b then some dn else GoMap.get name types) (sym same) ∙ has))
            (subst (λ k. Follows dn one.0.0 (λ j. named_events j (GoMap.get k e)))
              ((beq_iff n name).0 same) (apply_named-Follows m (GoMap.get n e) (dn, held) on)),
      )
      | inr other ↦
          let (d', found, f) =
            apply_types-After m e name types one.0.1 d
              (ap (λ b. if b then some dn else GoMap.get name types) (sym other) ∙ has) more in
          (d', ap (GoMap.get name) made ∙ rw other found, f)
    ]

-- The entries up to a sequence number, before the first that is later.
abbrev pub up_to_seq : ℕ → Log → Log
up_to_seq up_to [] = []
up_to_seq up_to ((seq, v) ∷ log) =
    let rest = up_to_seq up_to log in if ltb up_to seq then [] else (seq, v) ∷ rest

pub scan_on :
    (up_to m seq : ℕ) (e : Entry) (log : Log) (h r : Held)
    → scan_entries up_to m ((seq, some e) ∷ log) h ≡ whole r
    → ltb up_to seq ≡ false
    → ((apply_types m e h.0 h.1).1 ≡ true)
      × (scan_entries up_to m log (apply_types m e h.0 h.1).0 ≡ whole r)
unfolding scan_entries
scan_on up_to m seq e log h r w late = ground arith

Follows-then :
    (d d' d'' : Disps) (xs ys : RecordId → List Disp)
    → Follows d d' xs
    → Follows d' d'' ys
    → Follows d d'' (λ j. xs j ++ ys j)
Follows-then d d' d'' xs ys f g = record {
  gets = λ j.
      g.gets j
      ∙ ap (λ o. fold_merge o (ys j)) (f.gets j)
      ∙ sym (fold_merge-append (GoMap.get j d) (xs j) (ys j));
  distinct = λ k. g.distinct (f.distinct k);
}

named-touching :
    (j : RecordId) (name : Bytes) (seq : ℕ) (e : Entry) (log : Log)
    → named_events j (GoMap.get name e) ++ events j (touching name log)
      ≡ events j (touching name ((seq, some e) ∷ log))
named-touching j name seq e log = at (GoMap.get name e)
  where
    at :
        (o : Option TypeEntry)
        → named_events j o ++ events j (touching name log)
          ≡ events j (elim o as (λ x. List TypeEntry) [
            | none ↦ touching name log
            | some te ↦ te ∷ touching name log
          ])
    at none = refl
    at (some te) = refl

Follows-ext :
    (d d' : Disps) (xs ys : RecordId → List Disp)
    → ((j : RecordId) → xs j ≡ ys j)
    → Follows d d' xs
    → Follows d d' ys
Follows-ext d d' xs ys same f = record {
  gets = λ j. f.gets j ∙ ap (fold_merge (GoMap.get j d)) (same j);
  distinct = f.distinct;
}

whole_eq : (h r : Held) → whole h ≡ whole r → h ≡ r
whole_eq h r e = cc

pub scan_late :
    (up_to m seq : ℕ) (v : Option Entry) (log : Log) (h r : Held)
    → scan_entries up_to m ((seq, v) ∷ log) h ≡ whole r
    → ltb up_to seq ≡ true
    → h ≡ r
unfolding scan_entries
scan_late up_to m seq none log h r w late = whole_eq h r (rw late at w)
scan_late up_to m seq (some e) log h r w late = whole_eq h r (rw late at w)

pub scan_bad :
    (up_to m seq : ℕ) (log : Log) (h r : Held)
    → scan_entries up_to m ((seq, none) ∷ log) h ≡ whole r
    → ltb up_to seq ≡ true
unfolding scan_entries
scan_bad up_to m seq log h r w = ground arith

pub scan_done : (up_to m : ℕ) (h r : Held) → scan_entries up_to m [] h ≡ whole r → h ≡ r
unfolding scan_entries
scan_done up_to m h r w = whole_eq h r w

up_to_seq-late :
    (up_to seq : ℕ) (v : Option Entry) (log : Log)
    → ltb up_to seq ≡ true
    → [] ≡ up_to_seq up_to ((seq, v) ∷ log)
up_to_seq-late up_to seq v log late = rw late refl

up_to_seq-on :
    (up_to seq : ℕ) (v : Option Entry) (log : Log)
    → ltb up_to seq ≡ false
    → (seq, v) ∷ up_to_seq up_to log ≡ up_to_seq up_to ((seq, v) ∷ log)
up_to_seq-on up_to seq v log on = rw on refl

-- The dispositions of the type `name` after the entries `log`.
abbrev pub Ends : Bytes → Held → Disps → Log → Type 0
Ends name r d log = After name r.0 d (λ j. events j (touching name log))

ended :
    (name : Bytes) (h r : Held) (d : Disps) → GoMap.get name h.0 ≡ some d → h ≡ r → Ends name r d []
ended name h r d has same = (
  d,
  ap (λ (x : Held). GoMap.get name x.0) (sym same) ∙ has,
  record { gets = λ j. refl; distinct = λ k. k },
)

-- A scan that ends well leaves for each requested type what the entries up to `up_to` did.
pub scan_entries-Ends :
    (up_to m : ℕ) (name : Bytes) (log : Log) (h r : Held) (d : Disps)
    → GoMap.get name h.0 ≡ some d
    → scan_entries up_to m log h ≡ whole r
    → Ends name r d (up_to_seq up_to log)
scan_entries-Ends up_to m name [] h r d has w = ended name h r d has (scan_done up_to m h r w)
scan_entries-Ends up_to m name ((seq, none) ∷ log) h r d has w =
    let late = scan_bad up_to m seq log h r w in
    subst (Ends name r d) (up_to_seq-late up_to seq none log late)
      (ended name h r d has (scan_late up_to m seq none log h r w late))
scan_entries-Ends up_to m name ((seq, some e) ∷ log) h r d has w =
    elim (Bool-cases (ltb up_to seq)) [
      | inl late ↦
          subst (Ends name r d) (up_to_seq-late up_to seq (some e) log late)
            (ended name h r d has (scan_late up_to m seq (some e) log h r w late))
      | inr on ↦
          let (go, rest) = scan_on up_to m seq e log h r w on in
          let (d1, found, f) = apply_types-After m e name h.0 h.1 d has go in
          let (d2, found2, g) =
            scan_entries-Ends up_to m name log (apply_types m e h.0 h.1).0 r d1 found rest in
          subst (Ends name r d) (up_to_seq-on up_to seq (some e) log on) (
            d2,
            found2,
            Follows-ext d d2 _ (λ j. events j (touching name ((seq, some e) ∷ up_to_seq up_to log)))
                (λ j. named-touching j name seq e (up_to_seq up_to log))
                (Follows-then d d1 d2 (λ j. named_events j (GoMap.get name e))
                  (λ j. events j (touching name (up_to_seq up_to log))) f g),
          )
    ]
