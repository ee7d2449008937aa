-- ===== src/Memory/Tests.antt =====
-- Runs of the in-memory backend.
use naust_jmap.Prelude.{
  ℕ, ◌+◌, ◌*◌, ◌≡◌, ◌<◌, ◌↔◌, Bool, true, [], ◌∷◌, none, some, beq, blt, length, arith,
}
use naust_jmap.Prelude.GoMap
use naust_jmap.Backend.{Batch, set_op, assert_op, assert_failed, no_space}
use naust_jmap.Memory.{
  Store, new, get, write_batch, stage, stage_op, check_asserts, assert_holds, charge, old_bytes,
  new_bytes, apply_pending, apply_entry, insert_key, search_strings,
}
use naust_jmap.Memory.Batches.{IsValid, write_batch-IsValid, new-IsValid}
use naust_jmap.Memory.Refinement.{AssertsHold, key_effect, write_batch_effect, assert_failed_iff}
use naust_jmap.Memory.Capacity.{Overfull, no_space_iff}
use naust_jmap.Memory.Scan.{Entry, scan, visit, chunk}
use naust_jmap.Memory.Scans.Whole.{range_entries, scan_visits}

abbrev two_sets : Batch
two_sets = record {
  ops = set_op (98 ∷ []) (some (1 ∷ [])) ∷ set_op (97 ∷ []) (some (2 ∷ 3 ∷ [])) ∷ [];
}

abbrev guarded : Batch
guarded = record {
  ops = assert_op (97 ∷ []) (some (9 ∷ [])) ∷ set_op (97 ∷ []) (some (9 ∷ [])) ∷ [];
}

abbrev filled : Store
filled = (write_batch (new 3) two_sets).1

abbrev count : Entry → ℕ → ℕ × Bool
count e n = (n + 1, true)

write_batch-IsValid_example : IsValid filled
write_batch-IsValid_example = write_batch-IsValid (new 3) two_sets (new-IsValid 3)

write_batch_effect_example :
    get (write_batch (new 3) two_sets).1 (97 ∷ []) ≡ (elim (write_batch (new 3) two_sets).0 [
      | none ↦ key_effect (97 ∷ []) two_sets.ops (get (new 3) (97 ∷ []))
      | some e ↦ get (new 3) (97 ∷ [])
    ])
write_batch_effect_example = write_batch_effect (new 3) two_sets (97 ∷ [])

assert_failed_iff_example :
    ((write_batch filled guarded).0 ≡ some assert_failed) ↔ (¬ AssertsHold (get filled) guarded.ops)
assert_failed_iff_example = assert_failed_iff filled guarded

no_space_iff_example :
    ((write_batch (new 2) two_sets).0 ≡ some no_space)
    ↔ (AssertsHold (get (new 2)) two_sets.ops × Overfull (new 2) (stage [] [] two_sets.ops))
unfolding new
no_space_iff_example = no_space_iff (new 2) two_sets (new-IsValid 2)

length-filled : length filled.keys < chunk * 1
unfolding write_batch new check_asserts assert_holds stage stage_op charge old_bytes new_bytes
    apply_pending apply_entry insert_key search_strings GoMap.get GoMap.put beq blt
length-filled = omega arith

scan_visits_example :
    scan count 1 (λ i. filled) [] none true 0
    ≡ some (visit count (range_entries filled [] none true) 0).0
scan_visits_example =
    scan_visits count 1 filled [] none true 0 write_batch-IsValid_example length-filled
