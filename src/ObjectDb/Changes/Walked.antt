-- ===== src/ObjectDb/Changes/Walked.antt =====
-- The scan of Changes: what its callback consumed of the log.
use naust_jmap.Prelude.{
  ℕ, ◌+◌, ltb, ◌≡◌, refl, sym, ap, subst, ◌∙◌, Bool, true, false, ◌&&◌, Bool-cases, Option-cases,
  ◌⊎◌, inl, inr, List, [], ◌∷◌, ◌++◌, Option, none, some, Bytes, length, arith,
}
use naust_jmap.Prelude.GoMap
use naust_jmap.Prelude.GoMap.{Distinct}
use naust_jmap.ObjectDb.Changes.Coalesce.{
  fold_upd, fold_upd-append, entry_events, get-apply_entry, apply_entry-Distinct,
}
use naust_jmap.ObjectDb.Changes.{
  RecordId, Disp, Disps, TypeEntry, Entry, Log, Walk, Error, apply_entry, consume, touch,
  visit_entry, walk,
}

-- The entries of a log that touch the type `name`.
abbrev pub touching : Bytes → Log → List TypeEntry
touching name [] = []
touching name ((seq, none) ∷ log) = touching name log
touching name ((seq, some e) ∷ log) = elim (GoMap.get name e) [
  | none ↦ touching name log
  | some te ↦ te ∷ touching name log
]

-- Everything that these entries did to the id, in order.
abbrev pub events : RecordId → List TypeEntry → List Disp
events j [] = []
events j (te ∷ tes) = entry_events j te ++ events j tes

-- What a walk leaves: it consumed `taken` and left `rest`.
pub record Walked (name : Bytes) (w : Walk) (log : Log) (r : Walk) : Type 0 where
  pub taken : Log
  pub rest : Log
  pub splits : log ≡ taken ++ rest
  pub whole : r.has_more ≡ false → r.scan_err ≡ none → rest ≡ []
  pub disps :
      (j : RecordId)
      → GoMap.get j r.disp ≡ fold_upd (GoMap.get j w.disp) (events j (touching name taken))
  pub distinct : Distinct r.disp

disp-consume :
    (seq : ℕ) (te : TypeEntry) (w : Walk)
    → (consume seq te w).disp ≡ (apply_entry te (w.disp, w.props_known)).0
unfolding consume
disp-consume seq te w = refl

-- One entry: taken, skipped, or refused with the walk as it was but for the flags.
data Visited (name : Bytes) (max seq : ℕ) (v : Option Entry) (w : Walk) : Walk × Bool → Type 0 where
  takes :
      (e : Entry) (te : TypeEntry) {r : Walk × Bool}
      → v ≡ some e
      → GoMap.get name e ≡ some te
      → r ≡ (consume seq te w, true)
      → Visited name max seq v w r
  skips :
      (e : Entry) {r : Walk × Bool}
      → v ≡ some e
      → GoMap.get name e ≡ none
      → r.1 ≡ true
      → r.0.disp ≡ w.disp
      → r.0.has_more ≡ w.has_more
      → Visited name max seq v w r
  stops :
      {r : Walk × Bool}
      → r.1 ≡ false
      → r.0.disp ≡ w.disp
      → ((r.0.has_more ≡ true) ⊎ ((x : Error) × (r.0.scan_err ≡ some x)))
      → Visited name max seq v w r

touch-Visited :
    (name : Bytes) (max seq : ℕ) (e : Entry) (te : TypeEntry) (w : Walk)
    → GoMap.get name e ≡ some te
    → Visited name max seq (some e) w (touch max seq te w)
unfolding touch
touch-Visited name max seq e te w h =
    elim (Bool-cases (
      ltb 0 max
      && ltb max (length w.disp + length te.created + length te.updated + length te.destroyed))) [
        | inl over ↦ elim (Bool-cases (ltb 0 (length w.disp))) [
          | inl some_held ↦ rw (over, some_held) (stops refl refl (inl refl))
          | inr none_held ↦ rw (over, none_held) (stops refl refl (inr (_, refl)))
        ]
        | inr fits ↦ rw fits (takes e te refl h refl)
      ]

visit_entry-Visited :
    (name : Bytes) (max seq : ℕ) (v : Option Entry) (w : Walk)
    → Visited name max seq v w (visit_entry name max seq v w)
unfolding visit_entry
visit_entry-Visited name max seq none w = stops refl refl (inr (_, refl))
visit_entry-Visited name max seq (some e) w = elim (Option-cases (GoMap.get name e)) [
  | inl other ↦ rw (other, visit_entry) (skips e refl other refl (ground arith) (ground arith))
  | inr (te, h) ↦ rw (h, visit_entry) (touch-Visited name max seq e te w h)
]

walk_on :
    (name : Bytes) (max seq : ℕ) (v : Option Entry) (log : Log) (w w' : Walk)
    → visit_entry name max seq v w ≡ (w', true)
    → walk name max ((seq, v) ∷ log) w ≡ walk name max log w'
unfolding walk
walk_on name max seq v log w w' h = rw h

walk_stop :
    (name : Bytes) (max seq : ℕ) (v : Option Entry) (log : Log) (w : Walk)
    → (visit_entry name max seq v w).1 ≡ false
    → walk name max ((seq, v) ∷ log) w ≡ (visit_entry name max seq v w).0
unfolding walk
walk_stop name max seq v log w h = rw h

touching_hit :
    (name : Bytes) (seq : ℕ) (e : Entry) (te : TypeEntry) (log : Log)
    → GoMap.get name e ≡ some te
    → touching name ((seq, some e) ∷ log) ≡ te ∷ touching name log
touching_hit name seq e te log h = ground arith

touching_miss :
    (name : Bytes) (seq : ℕ) (e : Entry) (log : Log)
    → GoMap.get name e ≡ none
    → touching name ((seq, some e) ∷ log) ≡ touching name log
touching_miss name seq e log h = ground arith

disps_hit :
    (name : Bytes) (seq : ℕ) (e : Entry) (te : TypeEntry) (log : Log) (w : Walk) (j : RecordId)
    → GoMap.get name e ≡ some te
    → fold_upd (GoMap.get j (consume seq te w).disp) (events j (touching name log))
      ≡ fold_upd (GoMap.get j w.disp) (events j (touching name ((seq, some e) ∷ log)))
disps_hit name seq e te log w j h =
    ap (λ (d : Disps). fold_upd (GoMap.get j d) (events j (touching name log)))
      (disp-consume seq te w)
    ∙ ap (λ o. fold_upd o (events j (touching name log)))
        (get-apply_entry j te w.disp w.props_known)
    ∙ sym (
        ap (λ ts. fold_upd (GoMap.get j w.disp) (events j ts)) (touching_hit name seq e te log h)
        ∙ fold_upd-append (GoMap.get j w.disp) (entry_events j te) (events j (touching name log)))

disps_miss :
    (name : Bytes) (seq : ℕ) (e : Entry) (log : Log) (d d' : Disps) (j : RecordId)
    → GoMap.get name e ≡ none
    → d' ≡ d
    → fold_upd (GoMap.get j d') (events j (touching name log))
      ≡ fold_upd (GoMap.get j d) (events j (touching name ((seq, some e) ∷ log)))
disps_miss name seq e log d d' j h same =
    ap (λ (x : Disps). fold_upd (GoMap.get j x) (events j (touching name log))) same
    ∙ ap (λ ts. fold_upd (GoMap.get j d) (events j ts)) (sym (touching_miss name seq e log h))

Walked-takes :
    (name : Bytes) (seq : ℕ) (e : Entry) (te : TypeEntry) (log : Log) (w r : Walk)
    → GoMap.get name e ≡ some te
    → Walked name (consume seq te w) log r
    → Walked name w ((seq, some e) ∷ log) r
Walked-takes name seq e te log w r h k = record {
  taken = (seq, some e) ∷ k.taken;
  rest = k.rest;
  splits = ap (◌∷◌ (seq, some e)) k.splits;
  whole = k.whole;
  disps = λ j. k.disps j ∙ disps_hit name seq e te k.taken w j h;
  distinct = k.distinct;
}

Walked-skips :
    (name : Bytes) (seq : ℕ) (e : Entry) (log : Log) (w w' r : Walk)
    → GoMap.get name e ≡ none
    → w'.disp ≡ w.disp
    → Walked name w' log r
    → Walked name w ((seq, some e) ∷ log) r
Walked-skips name seq e log w w' r h same k = record {
  taken = (seq, some e) ∷ k.taken;
  rest = k.rest;
  splits = ap (◌∷◌ (seq, some e)) k.splits;
  whole = k.whole;
  disps = λ j. k.disps j ∙ disps_miss name seq e k.taken w.disp w'.disp j h same;
  distinct = k.distinct;
}

Walked-stops :
    (name : Bytes) (log : Log) (w r : Walk)
    → r.disp ≡ w.disp
    → (r.has_more ≡ true) ⊎ ((x : Error) × (r.scan_err ≡ some x))
    → Distinct w.disp
    → Walked name w log r
Walked-stops name log w r same flag h = record {
  taken = [];
  rest = log;
  splits = refl;
  whole = λ a b. absurd (ground arith);
  disps = λ j. ap (GoMap.get j) same;
  distinct = subst Distinct (sym same) h;
}

pub walk-Walked :
    (name : Bytes) (max : ℕ) (log : Log) (w : Walk)
    → Distinct w.disp
    → Walked name w log (walk name max log w)
walk-Walked name max [] w h = record {
  taken = [];
  rest = [];
  splits = refl;
  whole = λ a b. refl;
  disps = λ j. unfold walk in refl;
  distinct = unfold walk in h;
}
walk-Walked name max ((seq, v) ∷ log) w h =
    step (walk-Walked name max log) (visit_entry name max seq v w) refl
      (visit_entry-Visited name max seq v w)
  where
    step :
        ((w' : Walk) → Distinct w'.disp → Walked name w' log (walk name max log w'))
        → (r : Walk × Bool) → visit_entry name max seq v w ≡ r
        → Visited name max seq v w r
        → Walked name w ((seq, v) ∷ log) (walk name max ((seq, v) ∷ log) w)
    step ih r q (takes e te ve hit go) =
        rw (walk_on name max seq v log w (consume seq te w) (q ∙ go), ve)
          (Walked-takes name seq e te log w _ hit (
            ih (consume seq te w)
              (rw disp-consume (apply_entry-Distinct te w.disp w.props_known h))))
    step ih r q (skips e ve miss go same more) =
        rw (walk_on name max seq v log w r.0 (q ∙ ap (λ b. (r.0, b)) go), ve)
          (Walked-skips name seq e log w r.0 _ miss same (ih r.0 (subst Distinct (sym same) h)))
    step ih r q (stops ends same flag) =
        rw (walk_stop name max seq v log w (ap (λ x. x.1) q ∙ ends), q)
          (Walked-stops name ((seq, v) ∷ log) w r.0 same flag h)
