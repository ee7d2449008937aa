-- ===== src/ObjectDb/Commit/Lines.antt =====
-- The lists of a line of the log entry (buildBatch in core/objectdb/objectdb.go).
use naust_jmap.Prelude.{
  ◌≡◌, refl, ap, ◌∙◌, Bool, true, false, not, ◌&&◌, ◌||◌, List, [], ◌∷◌, ◌++◌, Option, none, some,
  Bytes, beq, arith,
}
use naust_jmap.ObjectDb.Changes.{TypeEntry, seen}
use naust_jmap.ObjectDb.Schema.{Object}
use naust_jmap.ObjectDb.Update.{Staged}
use naust_jmap.ObjectDb.Commit.{cancelled, report_line}

-- The lists of a log entry's line.
pub data Line : Type 0 where
  in_created in_updated in_destroyed : Line

abbrev pub ids_in : Line → TypeEntry → List Bytes
ids_in in_created te = te.created
ids_in in_updated te = te.updated
ids_in in_destroyed te = te.destroyed

-- Whether a staged record belongs in a list: created and kept; neither created nor quiet, and kept;
-- or destroyed and not created.
abbrev pub belongs : Line → Bool → Bool → Bool → Bool
belongs in_created kept created quiet = kept && created
belongs in_updated kept created quiet = kept && (not created && not quiet)
belongs in_destroyed kept created quiet = not kept && not created

abbrev pub is_kept : Option Object → Bool
is_kept none = false
is_kept (some obj) = true

abbrev pub told : Line → Option Staged → Bool
told l none = false
told l (some st) = belongs l (is_kept st.new) st.created st.quiet

seen-append_one :
    (id x : Bytes) (xs : List Bytes) → seen id (xs ++ x ∷ []) ≡ (seen id xs || beq x id)
unfolding seen
seen-append_one id x [] = or_false (beq x id)
  where
    or_false : (b : Bool) → (b || false) ≡ b
    or_false true = refl
    or_false false = refl
seen-append_one id x (y ∷ ys) =
    ap (λ b. beq y id || b) (seen-append_one id x ys) ∙ assoc (beq y id) (seen id ys) (beq x id)
  where
    assoc : (a b c : Bool) → (a || (b || c)) ≡ ((a || b) || c)
    assoc true b c = refl
    assoc false b c = refl

pub unchanged : (b : Bool) → b ≡ (b || false)
unchanged true = refl
unchanged false = refl

pub report_line-ids :
    (l : Line) (new : Option Object) (created quiet : Bool) (x : Bytes)
    (props : Object → List Bytes) (te : TypeEntry) (id : Bytes)
    → (elim new [ none ↦ created | some obj ↦ false ]) ≡ false
    → seen id (ids_in l (report_line new created quiet x props te))
      ≡ (seen id (ids_in l te) || (belongs l (is_kept new) created quiet && beq x id))
report_line-ids l none true quiet x props te id h = absurd (ground arith)
report_line-ids in_created none false quiet x props te id h = unchanged _
report_line-ids in_updated none false quiet x props te id h = unchanged _
report_line-ids in_destroyed none false quiet x props te id h = seen-append_one id x te.destroyed
report_line-ids in_created (some obj) true quiet x props te id h = seen-append_one id x te.created
report_line-ids in_updated (some obj) true quiet x props te id h = unchanged _
report_line-ids in_destroyed (some obj) true quiet x props te id h = unchanged _
report_line-ids in_created (some obj) false true x props te id h = unchanged _
report_line-ids in_updated (some obj) false true x props te id h = unchanged _
report_line-ids in_destroyed (some obj) false true x props te id h = unchanged _
report_line-ids in_created (some obj) false false x props te id h = unchanged _
report_line-ids in_updated (some obj) false false x props te id h = seen-append_one id x te.updated
report_line-ids in_destroyed (some obj) false false x props te id h = unchanged _

pub cancelled-told : (l : Line) (st : Staged) → cancelled st ≡ true → told l (some st) ≡ false
cancelled-told l st h = from l st.new st.created st.quiet h
  where
    from :
        (l : Line) (new : Option Object) (created quiet : Bool)
        → (elim new [ none ↦ created | some obj ↦ false ]) ≡ true
        → belongs l (is_kept new) created quiet ≡ false
    from l (some obj) created quiet h = absurd (ground arith)
    from l none false quiet h = absurd (ground arith)
    from in_created none true quiet h = refl
    from in_updated none true quiet h = refl
    from in_destroyed none true quiet h = refl
