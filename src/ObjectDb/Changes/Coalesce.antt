-- ===== src/ObjectDb/Changes/Coalesce.antt =====
-- The dispositions of Changes, one id at a time, against the life of a record.
use naust_jmap.Prelude.{
  ◌≡◌, refl, sym, ap, ◌∙◌, if◌then◌else◌, Bool, true, false, ◌&&◌, ◌||◌, Bool-cases, inl, inr, List,
  [], ◌∷◌, ◌++◌, Option, none, some, beq, beq_iff, arith,
}
use naust_jmap.Prelude.GoMap
use naust_jmap.Prelude.GoMap.{Distinct, get-put, get-delete, put-Distinct, delete-Distinct}
use naust_jmap.ObjectDb.Changes.{
  RecordId, Disp, is_created, is_updated, is_destroyed, is_omitted, Disps, TypeEntry, apply_seen,
  apply_change, apply_all, apply_entry,
}

-- What one change makes of the disposition of its id.
abbrev pub upd : Option Disp → Disp → Option Disp
upd none next = some next
upd (some is_created) is_updated = some is_created
upd (some is_created) is_destroyed = none
upd (some is_destroyed) is_created = some is_updated
upd (some prev) next = some next

get-apply_change :
    (id j : RecordId) (next : Disp) (d : Disps)
    → GoMap.get j (apply_change id next d).0
      ≡ (if beq id j then upd (GoMap.get id d) next else GoMap.get j d)
unfolding apply_change apply_seen
get-apply_change id j next d = ground (
  arith,
  get-put id j next d,
  get-put id j is_destroyed d,
  get-put id j is_updated d,
  get-delete id j d,
  beq_iff id j,
)

apply_change-Distinct :
    (id : RecordId) (next : Disp) (d : Disps) → Distinct d → Distinct (apply_change id next d).0
unfolding apply_change apply_seen
apply_change-Distinct id next d h = ground (
  arith,
  put-Distinct id next d h,
  put-Distinct id is_destroyed d h,
  put-Distinct id is_updated d h,
  delete-Distinct id d h,
)

-- The changes that concern `id`, in the order in which they are applied.
abbrev pub occurrences : RecordId → Disp → List RecordId → List Disp
occurrences j next [] = []
occurrences j next (id ∷ ids) =
    let rest = occurrences j next ids in if beq id j then next ∷ rest else rest

abbrev pub entry_events : RecordId → TypeEntry → List Disp
entry_events j te =
    occurrences j is_created te.created
    ++ (occurrences j is_updated te.updated ++ occurrences j is_destroyed te.destroyed)

abbrev pub fold_upd : Option Disp → List Disp → Option Disp
fold_upd cur [] = cur
fold_upd cur (e ∷ es) = fold_upd (upd cur e) es

pub fold_upd-append :
    (cur : Option Disp) (xs ys : List Disp)
    → fold_upd cur (xs ++ ys) ≡ fold_upd (fold_upd cur xs) ys
fold_upd-append cur [] ys = refl
fold_upd-append cur (x ∷ xs) ys = fold_upd-append (upd cur x) xs ys

get-changed :
    (id j : RecordId) (next : Disp) (d : Disps)
    → beq id j ≡ true
    → GoMap.get j (apply_change id next d).0 ≡ upd (GoMap.get j d) next
get-changed id j next d same =
    get-apply_change id j next d
    ∙ rw same (ap (λ k. upd (GoMap.get k d) next) ((beq_iff id j).0 same))

get-unchanged :
    (id j : RecordId) (next : Disp) (d : Disps)
    → beq id j ≡ false
    → GoMap.get j (apply_change id next d).0 ≡ GoMap.get j d
get-unchanged id j next d other = get-apply_change id j next d ∙ rw other

get-apply_all :
    (j : RecordId) (next : Disp) (ids : List RecordId) (d : Disps) (known : Bool)
    → GoMap.get j (apply_all next ids (d, known)).0
      ≡ fold_upd (GoMap.get j d) (occurrences j next ids)
unfolding apply_all
get-apply_all j next [] d known = refl
get-apply_all j next (id ∷ ids) d known =
    let ih =
      get-apply_all j next ids (apply_change id next d).0 (known && (apply_change id next d).1) in
    elim (Bool-cases (beq id j)) [
      | inl same ↦
          rw same
            (ih ∙ ap (λ o. fold_upd o (occurrences j next ids)) (get-changed id j next d same))
      | inr other ↦
          rw other
            (ih ∙ ap (λ o. fold_upd o (occurrences j next ids)) (get-unchanged id j next d other))
    ]

-- An entry changes the disposition of each id by the changes that it lists for it.
pub get-apply_entry :
    (j : RecordId) (te : TypeEntry) (d : Disps) (known : Bool)
    → GoMap.get j (apply_entry te (d, known)).0 ≡ fold_upd (GoMap.get j d) (entry_events j te)
unfolding apply_entry
get-apply_entry j te d known =
    get-apply_all j is_destroyed te.destroyed second.0 second.1
    ∙ ap (λ o. fold_upd o (occurrences j is_destroyed te.destroyed))
        (get-apply_all j is_updated te.updated first.0 first.1)
    ∙ ap
        (λ o.
          fold_upd (fold_upd o (occurrences j is_updated te.updated))
            (occurrences j is_destroyed te.destroyed))
        (get-apply_all j is_created te.created d known)
    ∙ sym (
        fold_upd-append (GoMap.get j d) (occurrences j is_created te.created) _
        ∙ fold_upd-append _ (occurrences j is_updated te.updated)
            (occurrences j is_destroyed te.destroyed))
  where
    first : Disps × Bool
    first = apply_all is_created te.created (d, known)

    second : Disps × Bool
    second = apply_all is_updated te.updated first

apply_all-Distinct :
    (next : Disp) (ids : List RecordId) (d : Disps) (known : Bool)
    → Distinct d
    → Distinct (apply_all next ids (d, known)).0
unfolding apply_all
apply_all-Distinct next [] d known h = h
apply_all-Distinct next (id ∷ ids) d known h =
    apply_all-Distinct next ids (apply_change id next d).0 _ (apply_change-Distinct id next d h)

pub apply_entry-Distinct :
    (te : TypeEntry) (d : Disps) (known : Bool)
    → Distinct d
    → Distinct (apply_entry te (d, known)).0
unfolding apply_entry
apply_entry-Distinct te d known h = apply_all-Distinct is_destroyed te.destroyed _ _ (
    apply_all-Distinct is_updated te.updated _ _
      (apply_all-Distinct is_created te.created d known h))

-- A record's life over some changes: it is there or not before and after, and each change fits.
abbrev pub lives : Bool → List Disp → Option Bool
lives now [] = some now
lives false (is_created ∷ es) = lives true es
lives true (is_updated ∷ es) = lives true es
lives true (is_destroyed ∷ es) = lives false es
lives now (e ∷ es) = none

-- The disposition of a record that was there before or not, is there now or not, and was changed
-- or not while it was there all along.
abbrev pub net : Bool → Bool → Bool → Option Disp
net false false touched = none
net false true touched = some is_created
net true false touched = some is_destroyed
net true true true = some is_updated
net true true false = none

abbrev pub touched_by : List Disp → Bool
touched_by [] = false
touched_by (e ∷ es) = true

fold_upd-net :
    (es : List Disp) (before now t after : Bool)
    → lives now es ≡ some after
    → fold_upd (net before now t) es ≡ net before after (t || touched_by es)
fold_upd-net [] before now t after h = ground arith
fold_upd-net (is_created ∷ es) before false t after h =
    ground (arith, fold_upd-net es before true true after h)
fold_upd-net (is_updated ∷ es) before true t after h =
    ground (arith, fold_upd-net es before true true after h)
fold_upd-net (is_destroyed ∷ es) before true t after h =
    ground (arith, fold_upd-net es before false true after h)
fold_upd-net (is_created ∷ es) before true t after h = cc
fold_upd-net (is_updated ∷ es) before false t after h = cc
fold_upd-net (is_destroyed ∷ es) before false t after h = cc
fold_upd-net (is_omitted ∷ es) before true t after h = cc
fold_upd-net (is_omitted ∷ es) before false t after h = cc

pub fold_upd-lives :
    (es : List Disp) (before after : Bool)
    → lives before es ≡ some after
    → fold_upd none es ≡ net before after (touched_by es)
fold_upd-lives es false after h = fold_upd-net es false false false after h
fold_upd-lives es true after h = fold_upd-net es true true false after h
