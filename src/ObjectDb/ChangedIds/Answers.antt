-- ===== src/ObjectDb/ChangedIds/Answers.antt =====
-- An answer of ChangedSince as a whole.
use naust_jmap.Prelude.{
  ℕ, ◌≡◌, refl, sym, ap, subst, ◌∙◌, Bool, true, false, not, ◌&&◌, Bool-cases, inl, inr, List, [],
  ◌∷◌, ◌++◌, some, Bytes, beq, map, arith,
}
use mathlib.Core.List.{append-nil}
use naust_jmap.Prelude.GoMap
use naust_jmap.Prelude.GoMap.{Distinct, get-put}
use naust_jmap.ObjectDb.Changes.{
  RecordId, Disp, is_created, is_updated, is_destroyed, Disps, Reads, ChangeSet, changes, ok, seen,
  disp_eq,
}
use naust_jmap.ObjectDb.Changes.Coalesce.{lives, touched_by}
use naust_jmap.ObjectDb.Changes.Members.{seen_list}
use naust_jmap.ObjectDb.Changes.Window.{Reports, changes_net}
use naust_jmap.ObjectDb.Changes.Walked.{touching, events}
use naust_jmap.ObjectDb.ChangedIds.{
  TypeChanges, type_changes, Held, Scanned, whole, over_budget, bad, scan_entries, start_types,
  finish, changed_since,
}
use naust_jmap.ObjectDb.ChangedIds.Merged.{fold_merge-lives, net_merge}
use naust_jmap.ObjectDb.ChangedIds.Entries.{up_to_seq, scan_entries-Ends}

-- What ChangedSince reports of an id that was there before the changes `es` (or not) and is there
-- after them (or not).
pub record Lists (j : RecordId) (before after : Bool) (es : List Disp) (tc : TypeChanges)
    : Type 0 where
  pub as_created : seen j tc.created ≡ (not before && after)
  pub as_updated : seen j tc.updated ≡ (before && after && touched_by es)
  pub as_destroyed : seen j tc.destroyed ≡ (before && not after)

type_changes-Lists :
    (j : RecordId) (before after : Bool) (es : List Disp) (d : Disps)
    → Distinct d
    → GoMap.get j d ≡ net_merge before after (touched_by es)
    → Lists j before after es (type_changes d)
unfolding type_changes disp_eq
type_changes-Lists j before after es d h e = record {
  as_created = seen_list is_created j d h ∙ rw e (ground arith);
  as_updated = seen_list is_updated j d h ∙ rw e (ground arith);
  as_destroyed = seen_list is_destroyed j d h ∙ rw e (ground arith);
}

get-start_types :
    (name : Bytes) (names : List Bytes)
    → seen name names ≡ true
    → GoMap.get name (start_types names) ≡ some []
unfolding start_types seen
get-start_types name [] h = cc
get-start_types name (x ∷ names) h =
    ground (arith, get-put {V = Disps} x name [] (start_types names), get-start_types name names)

get-answers :
    (name : Bytes) (types : List (Bytes × Disps)) (d : Disps)
    → GoMap.get name types ≡ some d
    → GoMap.get name (map (λ (t : Bytes × Disps). (t.0, type_changes t.1)) types)
      ≡ some (type_changes d)
unfolding GoMap.get
get-answers name [] d h = cc
get-answers name ((n, x) ∷ types) d h = elim (Bool-cases (beq n name)) [
  | inl same ↦ rw same (ap some (ap type_changes (some_eq x d (rw same at h))))
  | inr other ↦ rw other (get-answers name types d (rw other at h))
]
  where
    some_eq : (x y : Disps) → some x ≡ some y → x ≡ y
    some_eq x y e = cc

pub finish_whole :
    (s : Scanned) (types : List (Bytes × TypeChanges))
    → finish s ≡ ok types
    → (h : Held) × (s ≡ whole h)
      × (map (λ (t : Bytes × Disps). (t.0, type_changes t.1)) h.0 ≡ types)
finish_whole (whole (ts, n)) types e = ((ts, n), refl, cc)
finish_whole over_budget types e = cc
finish_whole bad types e = cc

pub changed_since_tail :
    (r : Reads) (names : List Bytes) (since max_behind max_ids : ℕ)
    (types : List (Bytes × TypeChanges)) (up_to : ℕ)
    → changed_since r names (some since) max_behind max_ids ≡ ok (types, up_to)
    → (r.global ≡ some up_to)
      × (finish (scan_entries up_to max_ids r.entries (start_types names, 0)) ≡ ok types)
unfolding changed_since
changed_since_tail r names since max_behind max_ids types up_to h = ground arith

-- If ChangedSince answers, up to the sequence number that the store held, take a requested type
-- and an id whose history in the entries up to that number is a record's: created only while
-- absent, updated or destroyed only while present. The answer has the type, and lists the id as
-- created exactly if it came to be, as destroyed exactly if it was there before and is gone, as
-- updated exactly if it is there before and after and something was done to it.
pub changed_since_net :
    (r : Reads) (names : List Bytes) (since max_behind max_ids : ℕ)
    (types : List (Bytes × TypeChanges)) (up_to : ℕ) (name : Bytes) (j : RecordId)
    (before after : Bool)
    → changed_since r names (some since) max_behind max_ids ≡ ok (types, up_to)
    → seen name names ≡ true
    → lives before (events j (touching name (up_to_seq up_to r.entries))) ≡ some after
    → (r.global ≡ some up_to)
      × ((tc : TypeChanges) × (GoMap.get name types ≡ some tc)
          × Lists j before after (events j (touching name (up_to_seq up_to r.entries))) tc)
changed_since_net r names since max_behind max_ids types up_to name j before after h asked life =
    let es = events j (touching name (up_to_seq up_to r.entries)) in
    let (current, fin) = changed_since_tail r names since max_behind max_ids types up_to h in
    let (held, scan, made) = finish_whole _ types fin in
    let (d, found, f) =
      scan_entries-Ends up_to max_ids name r.entries (start_types names, 0) held []
        (get-start_types name names asked) scan in
    (
      current,
      (
        type_changes d,
        ap (GoMap.get name) (sym made) ∙ get-answers name held.0 d found,
        type_changes-Lists j before after es d (f.distinct tt)
            (f.gets j ∙ (unfold GoMap.get in fold_merge-lives es before after life)),
      ),
    )

whole-Reports :
    (r : Reads) (name : Bytes) (since max : ℕ) (cs : ChangeSet) (j : RecordId) (before after : Bool)
    → lives before (events j (touching name r.entries)) ≡ some after
    → changes r name (some since) max ≡ ok cs
    → cs.has_more ≡ false
    → Reports j before after (events j (touching name r.entries)) cs
whole-Reports r name since max cs j before after life k all =
    let a = changes_net r name since max cs j before after life k in
    let taken : a.taken ≡ r.entries = elim a.whole [
      | inl more ↦ absurd (cc (more, all))
      | inr done ↦ sym (append-nil a.taken) ∙ ap (λ l. a.taken ++ l) (sym done) ∙ sym a.splits
    ] in
    let same : a.after ≡ after =
      some_eq (sym a.life ∙ ap (λ l. lives before (events j (touching name l))) taken ∙ life) in
    subst (λ l. Reports j before after (events j (touching name l)) cs) taken
      (subst (λ b. Reports j before b (events j (touching name a.taken)) cs) same a.reports)
  where
    some_eq : {x y : Bool} → some x ≡ some y → x ≡ y
    some_eq e = cc

-- A whole answer of Changes for a type, and an answer of ChangedSince for several types of which
-- it is one, from the same reads and with no entry past the sequence number that was read: of an id
-- with a record's history they report the same, as created, as updated and as destroyed.
pub changed_since_agrees :
    (r : Reads) (names : List Bytes) (since max max_behind max_ids : ℕ)
    (types : List (Bytes × TypeChanges)) (up_to : ℕ) (name : Bytes) (cs : ChangeSet) (j : RecordId)
    (before after : Bool)
    → changed_since r names (some since) max_behind max_ids ≡ ok (types, up_to)
    → changes r name (some since) max ≡ ok cs
    → cs.has_more ≡ false
    → seen name names ≡ true
    → up_to_seq up_to r.entries ≡ r.entries
    → lives before (events j (touching name r.entries)) ≡ some after
    → (tc : TypeChanges) × (GoMap.get name types ≡ some tc)
      × (seen j tc.created ≡ seen j cs.created)
      × (seen j tc.updated ≡ seen j cs.updated)
      × (seen j tc.destroyed ≡ seen j cs.destroyed)
changed_since_agrees r names since max max_behind max_ids types up_to name cs j before after h k all
      asked covered life =
    let here =
      subst (λ l. lives before (events j (touching name l)) ≡ some after) (sym covered) life in
    let (_, (tc, found, mine)) =
      changed_since_net r names since max_behind max_ids types up_to name j before after h asked
        here in
    let mine' = subst (λ l. Lists j before after (events j (touching name l)) tc) covered mine in
    let theirs = whole-Reports r name since max cs j before after life k all in
    (
      tc,
      found,
      mine'.as_created ∙ sym theirs.as_created,
      mine'.as_updated ∙ sym theirs.as_updated,
      mine'.as_destroyed ∙ sym theirs.as_destroyed,
    )
