-- ===== src/ObjectDb/Changes/Page.antt =====
-- The size of a page of Changes.
use naust_jmap.Prelude.{
  ℕ, ◌+◌, ◌≤◌, ◌<◌, ◌≡◌, refl, ap, Bool, ◌&&◌, Option-cases, inl, inr, List, [], ◌∷◌, Option, none,
  some, Bytes, length, arith,
}
use naust_jmap.Prelude.GoMap
use naust_jmap.ObjectDb.Changes.{
  RecordId, Disp, is_created, is_updated, is_destroyed, is_omitted, Disps, TypeEntry, Entry, Log,
  Walk, Reads, ChangeSet, ok, apply_seen, apply_change, apply_all, apply_entry, consume, touch,
  visit_entry, walk, start_walk, change_set, changes, ids_with, disp_eq, sort_ids, insert_sorted,
}
use naust_jmap.ObjectDb.Changes.Window.{changes_tail, tail_state}

pub length-put : (id : RecordId) (x : Disp) (d : Disps) → length (GoMap.put id x d) ≤ length d + 1
unfolding GoMap.put
length-put id x [] = omega arith
length-put id x ((j, y) ∷ d) = ground (arith, length-put id x d)

length-delete : (id : RecordId) (d : Disps) → length (GoMap.delete id d) ≤ length d
unfolding GoMap.delete
length-delete id [] = omega arith
length-delete id ((j, y) ∷ d) = ground (arith, length-delete id d)

length-apply_change :
    (id : RecordId) (next : Disp) (d : Disps) → length (apply_change id next d).0 ≤ length d + 1
unfolding apply_change apply_seen
length-apply_change id next d = ground (
  arith,
  length-put id next d,
  length-put id is_destroyed d,
  length-put id is_updated d,
  length-delete id d,
)

length-apply_all :
    (next : Disp) (ids : List RecordId) (d : Disps) (known : Bool)
    → length (apply_all next ids (d, known)).0 ≤ length d + length ids
unfolding apply_all
length-apply_all next [] d known = omega arith
length-apply_all next (id ∷ ids) d known = omega (
  arith,
  length-apply_change id next d,
  length-apply_all next ids (apply_change id next d).0 (known && (apply_change id next d).1),
)

length-consume :
    (seq : ℕ) (te : TypeEntry) (w : Walk)
    → length (consume seq te w).disp
      ≤ length w.disp + length te.created + length te.updated + length te.destroyed
unfolding consume apply_entry
length-consume seq te w = omega (
  arith,
  length-apply_all is_created te.created w.disp w.props_known,
  length-apply_all is_updated te.updated first.0 first.1,
  length-apply_all is_destroyed te.destroyed second.0 second.1,
)
  where
    first : Disps × Bool
    first = apply_all is_created te.created (w.disp, w.props_known)

    second : Disps × Bool
    second = apply_all is_updated te.updated first

visit_entry-le :
    (name : Bytes) (max seq : ℕ) (v : Option Entry) (w : Walk)
    → 0 < max
    → length w.disp ≤ max
    → length (visit_entry name max seq v w).0.disp ≤ max
unfolding visit_entry touch
visit_entry-le name max seq none w pos h = h
visit_entry-le name max seq (some e) w pos h = elim (Option-cases (GoMap.get name e)) [
  | inl other ↦ ground arith
  | inr (te, hit) ↦ ground (arith, length-consume seq te w)
]

walk-le :
    (name : Bytes) (max : ℕ) (log : Log) (w : Walk)
    → 0 < max
    → length w.disp ≤ max
    → length (walk name max log w).disp ≤ max
unfolding walk
walk-le name max [] w pos h = h
walk-le name max ((seq, v) ∷ log) w pos h = ground (
  arith,
  walk-le name max log (visit_entry name max seq v w).0 pos (visit_entry-le name max seq v w pos h),
  visit_entry-le name max seq v w pos h,
)

length-insert_sorted : (a : Bytes) (xs : List Bytes) → length (insert_sorted a xs) ≡ length xs + 1
unfolding insert_sorted
length-insert_sorted a [] = omega arith
length-insert_sorted a (x ∷ xs) = ground (arith, length-insert_sorted a xs)

pub length-sort_ids : (xs : List Bytes) → length (sort_ids xs) ≡ length xs
unfolding sort_ids
length-sort_ids [] = refl
length-sort_ids (x ∷ xs) = omega (arith, length-insert_sorted x (sort_ids xs), length-sort_ids xs)

pub length-ids_with :
    (d : Disps)
    → length (ids_with is_created d)
        + length (ids_with is_updated d)
        + length (ids_with is_destroyed d)
      ≤ length d
unfolding ids_with disp_eq
length-ids_with [] = omega arith
length-ids_with ((id, is_created) ∷ d) = omega (arith, length-ids_with d)
length-ids_with ((id, is_updated) ∷ d) = omega (arith, length-ids_with d)
length-ids_with ((id, is_destroyed) ∷ d) = omega (arith, length-ids_with d)
length-ids_with ((id, is_omitted) ∷ d) = omega (arith, length-ids_with d)

abbrev pub reported : ChangeSet → ℕ
reported cs = length cs.created + length cs.updated + length cs.destroyed

reported-change_set :
    (since state : ℕ) (w : Walk) → reported (change_set since w state) ≤ length w.disp
unfolding change_set
reported-change_set since state w = omega (
  arith,
  length-ids_with w.disp,
  length-sort_ids (ids_with is_created w.disp),
  length-sort_ids (ids_with is_updated w.disp),
  length-sort_ids (ids_with is_destroyed w.disp),
)

-- An answer of Changes under a positive maxChanges lists at most that many ids in all.
pub changes_page_bound :
    (r : Reads) (name : Bytes) (since max : ℕ) (cs : ChangeSet)
    → 0 < max
    → changes r name (some since) max ≡ ok cs
    → reported cs ≤ max
changes_page_bound r name since max cs pos h =
    let w = walk name max r.entries (start_walk since) in
    let (state, made, _) =
      tail_state since w r.type_state cs (changes_tail r name since max cs h).1 in
    omega (
      arith,
      ap reported made,
      reported-change_set since state w,
      walk-le name max r.entries (start_walk since) pos (omega arith),
    )
