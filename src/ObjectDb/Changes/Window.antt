-- ===== src/ObjectDb/Changes/Window.antt =====
-- What an answer of Changes reports of an id.
use naust_jmap.Prelude.{
  ℕ, ◌≡◌, refl, sym, ap, subst, ◌∙◌, Bool, true, false, not, ◌&&◌, Bool-cases, Option-cases, ◌⊎◌,
  inl, inr, List, [], ◌∷◌, ◌++◌, Option, none, some, Bytes, arith,
}
use mathlib.Core.List.{append_assoc}
use naust_jmap.Prelude.GoMap
use naust_jmap.Prelude.GoMap.{Distinct}
use naust_jmap.ObjectDb.Changes.Coalesce.{entry_events, lives, net, touched_by, fold_upd-lives}
use naust_jmap.ObjectDb.Changes.Members.{seen_list}
use naust_jmap.ObjectDb.Changes.{
  RecordId, Disp, is_created, is_updated, is_destroyed, is_omitted, TypeEntry, Log, Walk, Reads,
  ChangeSet, ok, walk, start_walk, change_set, new_state, changes, disp_eq, seen,
}
use naust_jmap.ObjectDb.Changes.Walked.{touching, events, walk-Walked}

-- What Changes reports of an id whose record was there before (or not) and is there after (or not)
-- the changes `es`.
pub record Reports (j : RecordId) (before after : Bool) (es : List Disp) (cs : ChangeSet)
    : Type 0 where
  pub as_created : seen j cs.created ≡ (not before && after)
  pub as_updated : seen j cs.updated ≡ (before && after && touched_by es)
  pub as_destroyed : seen j cs.destroyed ≡ (before && not after)

change_set-Reports :
    (j : RecordId) (before after : Bool) (es : List Disp) (since state : ℕ) (w : Walk)
    → Distinct w.disp
    → GoMap.get j w.disp ≡ net before after (touched_by es)
    → Reports j before after es (change_set since w state)
unfolding change_set disp_eq
change_set-Reports j before after es since state w h e = record {
  as_created = seen_list is_created j w.disp h ∙ rw e (ground arith);
  as_updated = seen_list is_updated j w.disp h ∙ rw e (ground arith);
  as_destroyed = seen_list is_destroyed j w.disp h ∙ rw e (ground arith);
}

-- The answer of Changes is made from a walk that met no error.
pub changes_tail :
    (r : Reads) (name : Bytes) (since max : ℕ) (cs : ChangeSet)
    → changes r name (some since) max ≡ ok cs
    → let w = walk name max r.entries (start_walk since) in
      (w.scan_err ≡ none) × (new_state since w r.type_state ≡ ok cs)
unfolding changes
changes_tail r name since max cs h = ground arith

pub tail_state :
    (since : ℕ) (w : Walk) (type_state : Option ℕ) (cs : ChangeSet)
    → new_state since w type_state ≡ ok cs
    → (state : ℕ) × (change_set since w state ≡ cs) × (w.has_more ≡ true → state ≡ w.last_consumed)
unfolding new_state
tail_state since w type_state cs h = elim (Bool-cases w.has_more) [
  | inl more ↦ (w.last_consumed, ground arith, λ _. refl)
  | inr all ↦ elim (Option-cases type_state) [
    | inl bad ↦ absurd (ground arith)
    | inr (state, found) ↦ (state, ground arith, λ e. cc)
  ]
]

lives-append :
    (es fs : List Disp) (before after : Bool)
    → lives before (es ++ fs) ≡ some after
    → (mid : Bool) × (lives before es ≡ some mid)
lives-append [] fs before after h = (before, refl)
lives-append (is_created ∷ es) fs false after h = lives-append es fs true after h
lives-append (is_updated ∷ es) fs true after h = lives-append es fs true after h
lives-append (is_destroyed ∷ es) fs true after h = lives-append es fs false after h
lives-append (is_created ∷ es) fs true after h = cc
lives-append (is_updated ∷ es) fs false after h = cc
lives-append (is_destroyed ∷ es) fs false after h = cc
lives-append (is_omitted ∷ es) fs true after h = cc
lives-append (is_omitted ∷ es) fs false after h = cc

touching-append :
    (name : Bytes) (log more : Log)
    → touching name (log ++ more) ≡ touching name log ++ touching name more
touching-append name [] more = refl
touching-append name ((seq, none) ∷ log) more = touching-append name log more
touching-append name ((seq, some e) ∷ log) more = ground (arith, touching-append name log more)

events-append :
    (j : RecordId) (tes more : List TypeEntry)
    → events j (tes ++ more) ≡ events j tes ++ events j more
events-append j [] more = refl
events-append j (te ∷ tes) more =
    ap (◌++◌ (entry_events j te)) (events-append j tes more)
    ∙ sym (append_assoc (entry_events j te) (events j tes) (events j more))

history_append :
    (j : RecordId) (name : Bytes) (log more : Log)
    → events j (touching name (log ++ more))
      ≡ events j (touching name log) ++ events j (touching name more)
history_append j name log more =
    ap (events j) (touching-append name log more)
    ∙ events-append j (touching name log) (touching name more)

-- What Changes consumed of the log that it read, and how it reports the id `j`, which was there
-- before (or not).
pub record Answered (r : Reads) (name : Bytes) (j : RecordId) (before : Bool) (cs : ChangeSet)
    : Type 0 where
  pub taken : Log
  pub rest : Log
  pub splits : r.entries ≡ taken ++ rest
  pub whole : (cs.has_more ≡ true) ⊎ (rest ≡ [])
  pub after : Bool
  pub life : lives before (events j (touching name taken)) ≡ some after
  pub reports : Reports j before after (events j (touching name taken)) cs

pub changes_net :
    (r : Reads) (name : Bytes) (since max : ℕ) (cs : ChangeSet) (j : RecordId) (before last : Bool)
    → lives before (events j (touching name r.entries)) ≡ some last
    → changes r name (some since) max ≡ ok cs
    → Answered r name j before cs
unfolding change_set GoMap.get
changes_net r name since max cs j before last valid h =
    let w = walk name max r.entries (start_walk since) in
    let (no_err, tail) = changes_tail r name since max cs h in
    let (state, made, _) = tail_state since w r.type_state cs tail in
    let k = walk-Walked name max r.entries (start_walk since) tt in
    let es = events j (touching name k.taken) in
    let (after, life) = lives-append es (events j (touching name k.rest)) before last (
      ap (lives before) (
        sym (history_append j name k.taken k.rest)
        ∙ ap (λ l. events j (touching name l)) (sym k.splits))
      ∙ valid) in
    record {
      taken = k.taken;
      rest = k.rest;
      splits = k.splits;
      whole = elim (Bool-cases cs.has_more) [
        | inl more ↦ inl more
        | inr all ↦ inr (k.whole (ap (λ (x : ChangeSet). x.has_more) made ∙ all) no_err)
      ];
      after = after;
      life = life;
      reports = subst (Reports j before after es) made (
          change_set-Reports j before after es since state w k.distinct
            (k.disps j ∙ fold_upd-lives es before after life));
    }
