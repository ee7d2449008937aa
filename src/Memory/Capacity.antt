-- ===== src/Memory/Capacity.antt =====
-- When a batch that passes its asserts is refused for space.
use naust_jmap.Prelude.{
  ◌+◌, ◌-◌, ◌<◌, ◌==◌, ltb, ◌≡◌, ◌↔◌, refl, Bool-cases, Option-cases, ◌⊎◌, inl, inr, [], Option,
  none, some, arith,
}
use naust_jmap.Backend.{Batch, no_space}
use naust_jmap.Memory.Refinement.{AssertsHold, check_asserts_iff}
use naust_jmap.Memory.{
  Store, Pending, get, stage, charge, apply_pending, write_batch, check_asserts, old_bytes,
  new_bytes,
}
use naust_jmap.Memory.Batches.{IsValid, total, total-apply_pending, stage-Distinct}

-- The value bytes that the store would hold with `p` applied are over its capacity.
abbrev pub Overfull : Store → Option Pending → Type 0
Overfull s none = ⊥
Overfull s (some p) = (0 < s.capacity) × (s.capacity < total (apply_pending s p).entries)

charge_cases :
    (s : Store) (p : Pending)
    → IsValid s
    → total (apply_pending s p).entries + old_bytes s.entries p ≡ total s.entries + new_bytes p
    → ((charge s p ≡ none) × Overfull s (some p))
      ⊎ ((r : Store) × (charge s p ≡ some r) × (¬ Overfull s (some p)))
unfolding charge
charge_cases s p v t = elim (Bool-cases (s.capacity == 0)) [
  | inl unlimited ↦ inr (s, rw unlimited, λ o. ground arith)
  | inr limited ↦
      elim (Bool-cases (ltb (s.capacity + old_bytes s.entries p) (s.used + new_bytes p))) [
        | inl over ↦ inl (rw (limited, over), ground (arith, v.charged))
        | inr room ↦ inr (
          record s { used = s.used + new_bytes p - old_bytes s.entries p },
          rw (limited, room),
          λ o. ground (arith, v.charged),
        )
      ]
]

-- On a well-formed store, ErrNoSpace is answered exactly when every assert of the batch holds, its
-- counters decode, there is a capacity, and the value bytes held after the batch would pass it.
pub no_space_iff :
    (s : Store) (b : Batch)
    → IsValid s
    → ((write_batch s b).0 ≡ some no_space)
      ↔ (AssertsHold (get s) b.ops × Overfull s (stage s.entries [] b.ops))
unfolding write_batch get
no_space_iff s b v = elim (Bool-cases (check_asserts s.entries b.ops)) [
  | inr refused ↦ rw refused (λ e. cc, λ h. cc (refused, (check_asserts_iff s.entries b.ops).1 h.0))
  | inl held ↦ elim (Option-cases (stage s.entries [] b.ops)) [
    | inl bad ↦ rw (held, bad) (λ e. cc, λ h. absurd h.1)
    | inr (p, staged) ↦
        rw (held, staged)
          (elim (charge_cases s p v (
            total-apply_pending p s v.shaped.distinct
              (stage-Distinct b.ops s.entries [] tt staged))) [
                | inl (full, o) ↦
                    rw full (λ _. ((check_asserts_iff s.entries b.ops).0 held, o), λ _. refl)
                | inr (r, room, fits) ↦ rw room (λ e. cc, λ h. absurd (fits h.1))
              ])
  ]
]
