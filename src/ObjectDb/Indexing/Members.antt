-- ===== src/ObjectDb/Indexing/Members.antt =====
-- The membership indexes agree with the records: setIndexOps of core/objectdb/setindex.go.
use naust_jmap.Prelude.{
  ◌≡◌, ◌≢◌, refl, sym, ap, ◌∙◌, ◌⊎◌, inl, inr, if◌then◌else◌, Bool, true, false, not, ◌||◌, ◌&&◌,
  Bool-cases, Option-cases, List, [], ◌∷◌, ◌++◌, Option, none, some, Bytes, beq, beq_iff, arith,
}
use mathlib.Core.Path.{ap₂}
use naust_jmap.Prelude.GoMap
use naust_jmap.Prelude.GoMap.{Distinct}
use naust_jmap.Backend.{Op}
use naust_jmap.Memory.Refinement.{key_effect, op_effect}
use naust_jmap.Lease.Fencing.{key_effect-append}
use naust_jmap.ObjectDb.Keys.{idx_key, tag_seg}
use naust_jmap.ObjectDb.Changes.{seen}
use naust_jmap.ObjectDb.Schema.{Property, Descriptor, Object, Codec, raw_of}
use naust_jmap.ObjectDb.Indexing.{
  value_of, set_members, departed, arrived, set_index_prop_ops, set_index_ops,
}
use naust_jmap.ObjectDb.Indexing.Entries.{shown, beqs, beq-idx, idx-other}
use naust_jmap.ObjectDb.Indexing.Swaps.{none_ops, ops_eq, unless}
use naust_jmap.ObjectDb.Indexing.Kept.{each_prop-at, each_prop-some}

module _ (c : Codec) (acct : Bytes) (usable : acct ≢ tag_seg) (t : Descriptor) (id : Bytes) where
  member_key :
      (prop x m : Bytes)
      → beq (idx_key acct t.name prop x [] id) (idx_key acct t.name prop m [] id) ≡ beq x m
  member_key prop x m =
      beq-idx acct usable t.name id prop x m [] [] ∙ (unfold beqs in and_true (beq x m))
    where
      and_true : (b : Bool) → (b && true) ≡ b
      and_true true = refl
      and_true false = refl

  seen-same : (x m : Bytes) (xs : List Bytes) → beq x m ≡ true → seen m xs ≡ seen x xs
  seen-same x m xs h = ap (λ y. seen y xs) (sym ((beq_iff x m).0 h))

  -- The turn of a member that stays, and of one that is written.
  stays :
      (e o n : Bool) (y cur : Option Bytes)
      → (e ≡ true → n ≡ true)
      → (if o && not n then y else cur) ≡ (if (e || o) && not n then y else cur)
  stays true o true y cur h = ground arith
  stays true o false y cur h = absurd (ground (arith, h refl))
  stays false o n y cur h = refl

  goes :
      (e o n : Bool) (y cur : Option Bytes)
      → (e ≡ true → n ≡ false)
      → (if o && not n then y else (if e then y else cur)) ≡ (if (e || o) && not n then y else cur)
  goes true o true y cur h = absurd (ground (arith, h refl))
  goes true o false y cur h = ground arith
  goes false o n y cur h = refl

  departed-effect :
      (prop m : Bytes) (news olds : List Bytes) (cur : Option Bytes)
      → key_effect (idx_key acct t.name prop m [] id) (departed c acct t id prop news olds) cur
        ≡ (if seen m olds && not (seen m news) then none else cur)
  unfolding departed key_effect op_effect seen
  departed-effect prop m news [] cur = refl
  departed-effect prop m news (x ∷ olds) cur = elim (Bool-cases (seen x news)) [
    | inl there ↦ rw there (
        departed-effect prop m news olds cur
        ∙ stays (beq x m) (seen m olds) (seen m news) none cur (λ h. seen-same x m news h ∙ there))
    | inr fresh ↦ rw fresh (
        rw (member_key prop x m, key_effect)
          (departed-effect prop m news olds (if beq x m then none else cur)
            ∙ goes (beq x m) (seen m olds) (seen m news) none cur
                (λ h. seen-same x m news h ∙ fresh)))
  ]

  arrived-effect :
      (prop m : Bytes) (olds news : List Bytes) (cur : Option Bytes)
      → key_effect (idx_key acct t.name prop m [] id) (arrived c acct t id prop olds news) cur
        ≡ (if seen m news && not (seen m olds) then some [] else cur)
  unfolding arrived key_effect op_effect seen
  arrived-effect prop m olds [] cur = refl
  arrived-effect prop m olds (x ∷ news) cur = elim (Bool-cases (seen x olds)) [
    | inl there ↦ rw there (
        arrived-effect prop m olds news cur
        ∙ stays (beq x m) (seen m news) (seen m olds) (some []) cur
            (λ h. seen-same x m olds h ∙ there))
    | inr fresh ↦ rw fresh (
        rw (member_key prop x m, key_effect)
          (arrived-effect prop m olds news (if beq x m then some [] else cur)
            ∙ goes (beq x m) (seen m news) (seen m olds) (some []) cur
                (λ h. seen-same x m olds h ∙ fresh)))
  ]

  swapped :
      (a b : Bool)
      → (if b && not a then some [] else (if a && not b then none else shown a)) ≡ shown b
  swapped true true = refl
  swapped true false = refl
  swapped false true = refl
  swapped false false = refl

  departed-other :
      (q prop m : Bytes) (news olds : List Bytes) (cur : Option Bytes)
      → beq q prop ≡ false
      → key_effect (idx_key acct t.name prop m [] id) (departed c acct t id q news olds) cur ≡ cur
  unfolding departed key_effect op_effect
  departed-other q prop m news [] cur ne = refl
  departed-other q prop m news (x ∷ olds) cur ne = elim (Bool-cases (seen x news)) [
    | inl there ↦ rw there (departed-other q prop m news olds cur ne)
    | inr fresh ↦ rw fresh (
        rw (idx-other acct usable t.name id q prop x m [] [] ne, key_effect)
          (departed-other q prop m news olds cur ne))
  ]

  arrived-other :
      (q prop m : Bytes) (olds news : List Bytes) (cur : Option Bytes)
      → beq q prop ≡ false
      → key_effect (idx_key acct t.name prop m [] id) (arrived c acct t id q olds news) cur ≡ cur
  unfolding arrived key_effect op_effect
  arrived-other q prop m olds [] cur ne = refl
  arrived-other q prop m olds (x ∷ news) cur ne = elim (Bool-cases (seen x olds)) [
    | inl there ↦ rw there (arrived-other q prop m olds news cur ne)
    | inr fresh ↦ rw fresh (
        rw (idx-other acct usable t.name id q prop x m [] [] ne, key_effect)
          (arrived-other q prop m olds news cur ne))
  ]

  -- The operations of a property from its two member lists.
  members_ops :
      (q : Bytes) (p : Property) (old new : Option Object) (ops : List Op)
      → set_index_prop_ops c acct t id q p old new ≡ some ops
      → ((ops ≡ [])
          × ((p.set_indexed ≡ false)
              ⊎ (beq (raw_of (value_of old q)) (raw_of (value_of new q)) ≡ true)))
        ⊎ ((olds : List Bytes) × (news : List Bytes) × (set_members c p (value_of old q)
              ≡ some olds)
            × (set_members c p (value_of new q) ≡ some news)
            × (departed c acct t id q news olds ++ arrived c acct t id q olds news ≡ ops))
  unfolding set_index_prop_ops
  members_ops q p old new ops h = elim (Bool-cases p.set_indexed) [
    | inr plain ↦ inl (sym (ops_eq c acct usable t id [] ops (rw plain at h)), inl plain)
    | inl indexed ↦ elim (Bool-cases (beq (raw_of (value_of old q)) (raw_of (value_of new q)))) [
      | inl same ↦ inl (
        sym (
            ops_eq c acct usable t id [] ops
              (rw same at (sym (unless p.set_indexed _ _ indexed) ∙ h))),
        inr same,
      )
      | inr differ ↦ elim (Option-cases (set_members c p (value_of old q))) [
        | inl bad ↦ absurd (
            none_ops c acct usable t id ops
              (rw (differ, bad) at (sym (unless p.set_indexed _ _ indexed) ∙ h)))
        | inr (olds, ho) ↦ elim (Option-cases (set_members c p (value_of new q))) [
          | inl bad ↦ absurd (
              none_ops c acct usable t id ops
                (rw (differ, ho, bad) at (sym (unless p.set_indexed _ _ indexed) ∙ h)))
          | inr (news, hn) ↦ inr (
            olds,
            news,
            ho,
            hn,
            ops_eq c acct usable t id _ ops
                (rw (differ, ho, hn) at (sym (unless p.set_indexed _ _ indexed) ∙ h)),
          )
        ]
      ]
    ]
  ]

  set_index_prop_ops-other :
      (q : Bytes) (p : Property) (old new : Option Object) (ops : List Op) (prop m : Bytes)
      (cur : Option Bytes)
      → beq q prop ≡ false
      → set_index_prop_ops c acct t id q p old new ≡ some ops
      → key_effect (idx_key acct t.name prop m [] id) ops cur ≡ cur
  set_index_prop_ops-other q p old new ops prop m cur ne h = elim (members_ops q p old new ops h) [
    | inl (none_written, _) ↦ rw none_written (unfold key_effect in refl)
    | inr (olds, news, _, _, e) ↦
        ap (λ o. key_effect (idx_key acct t.name prop m [] id) o cur) (sym e)
        ∙ key_effect-append (idx_key acct t.name prop m [] id) (departed c acct t id q news olds) _
            cur
        ∙ arrived-other q prop m olds news
            (key_effect (idx_key acct t.name prop m [] id) (departed c acct t id q news olds) cur)
            ne
        ∙ departed-other q prop m news olds cur ne
  ]

  same_raw : (a b : Option Bytes) → a ≢ some [] → b ≢ some [] → raw_of a ≡ raw_of b → a ≡ b
  same_raw none none ha hb e = refl
  same_raw none (some y) ha hb e = absurd (hb (ap some (sym e)))
  same_raw (some x) none ha hb e = absurd (ha (ap some e))
  same_raw (some x) (some y) ha hb e = ap some e

  members_eq : (x y : List Bytes) → some x ≡ some y → x ≡ y
  members_eq x y h = cc

  set_index_prop_ops-shown :
      (prop m : Bytes) (p : Property) (old new : Option Object) (olds news : List Bytes)
      (xs : List Op)
      → p.set_indexed ≡ true
      → value_of old prop ≢ some []
      → value_of new prop ≢ some []
      → set_members c p (value_of old prop) ≡ some olds
      → set_members c p (value_of new prop) ≡ some news
      → set_index_prop_ops c acct t id prop p old new ≡ some xs
      → key_effect (idx_key acct t.name prop m [] id) xs (shown (seen m olds)) ≡ shown (seen m news)
  set_index_prop_ops-shown prop m p old new olds news xs i va vb ho hn hx =
      elim (members_ops prop p old new xs hx) [
        | inl (none_written, inl plain) ↦ absurd (clash (sym i ∙ plain))
        | inl (none_written, inr same) ↦ rw none_written (
            unfold key_effect in
            ap (λ ms. shown (seen m ms))
              (members_eq olds news
                (sym ho ∙ ap (set_members c p) (same_raw _ _ va vb ((beq_iff _ _).0 same)) ∙ hn)))
        | inr (xo, xn, eo, en, e) ↦
            ap (λ o. key_effect (idx_key acct t.name prop m [] id) o (shown (seen m olds))) (sym e)
            ∙ key_effect-append (idx_key acct t.name prop m [] id) (departed c acct t id prop xn xo)
                _ (shown (seen m olds))
            ∙ arrived-effect prop m xo xn _
            ∙ ap (λ y. if seen m xn && not (seen m xo) then some [] else y)
                (departed-effect prop m xn xo (shown (seen m olds)))
            ∙ ap₂
                (λ a b.
                  if seen m b && not (seen m a)
                  then some []
                  else (if seen m a && not (seen m b) then none else shown (seen m olds)))
                (members_eq xo olds (sym eo ∙ ho)) (members_eq xn news (sym en ∙ hn))
            ∙ swapped (seen m olds) (seen m news)
      ]
    where
      clash : true ≡ false → ⊥
      clash e = ground arith

  -- In a descriptor without double names, for a property that is indexed by its members, and record
  -- versions of which the raw value is not empty: if the index holds the record under exactly the
  -- members of its old version, then after the operations of setIndexOps it holds it under exactly
  -- those of the new one. Either version may be absent.
  pub set_index_ops_lem :
      (prop m : Bytes) (p : Property) (old new : Option Object) (olds news : List Bytes)
      (ops : List Op)
      → Distinct t.properties
      → GoMap.get prop t.properties ≡ some p
      → p.set_indexed ≡ true
      → value_of old prop ≢ some []
      → value_of new prop ≢ some []
      → set_members c p (value_of old prop) ≡ some olds
      → set_members c p (value_of new prop) ≡ some news
      → set_index_ops c acct t id old new ≡ some ops
      → key_effect (idx_key acct t.name prop m [] id) ops (shown (seen m olds))
        ≡ shown (seen m news)
  unfolding set_index_ops
  set_index_ops_lem prop m p old new olds news ops d found i va vb ho hn h =
      let (xs, hx) =
        each_prop-some c acct usable t id (λ q r. set_index_prop_ops c acct t id q r old new)
          t.properties prop p ops found h in
      each_prop-at c acct usable t id (λ q r. set_index_prop_ops c acct t id q r old new)
        t.properties prop (idx_key acct t.name prop m [] id) p xs ops (shown (seen m olds))
        (λ q r ys cur ne hy. set_index_prop_ops-other q r old new ys prop m cur ne hy) d found hx h
      ∙ set_index_prop_ops-shown prop m p old new olds news xs i va vb ho hn hx
