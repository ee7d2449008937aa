-- ===== src/ObjectDb/Blobs/Turns.antt =====
-- The candidates of a sweep, one after another.
use naust_jmap.Prelude.{
  ℕ, ◌≡◌, ◌≢◌, refl, subst, ap, ◌∙◌, ◌⊎◌, inl, inr, if◌then◌else◌, Bool, true, false, ◌&&◌,
  Bool-cases, Option-cases, List, [], ◌∷◌, ◌++◌, Option, none, some, Bytes, beq, beq_iff, arith,
}
use naust_jmap.Backend.{Op}
use naust_jmap.Memory.Refinement.{key_effect}
use naust_jmap.Lease.Fencing.{key_effect-append}
use naust_jmap.ObjectDb.Keys.{ref_key, pending_key, upload_key, tag_seg}
use naust_jmap.ObjectDb.Changes.{seen}
use naust_jmap.ObjectDb.Indexing.References.{View}
use naust_jmap.ObjectDb.Blobs.{Format, BlobStore, sweep_candidate, sweep_candidates}
use naust_jmap.ObjectDb.Blobs.Effects.{
  Fate, Cleared, IsDoomed, ref-Fate, upload-Fate, pending-Fate, IsDoomed-Fate, sweep_candidate-Fate,
}

module _ (f : Format) (store : BlobStore) (keys : List Bytes) (m : View) (acct : Bytes)
    (usable : acct ≢ tag_seg) (now grace : ℕ) where
  pub data Turns : List Bytes → List Op → List Bytes → Type 0 where
    finished : Turns [] [] []
    turn :
        {bs : List Bytes} {more : List Op} {deleted : List Bytes} (b : Bytes) (ops : List Op)
        (del : Bool)
        → Fate f store keys m acct usable now grace b ops del
        → Turns bs more deleted
        → Turns (b ∷ bs) (ops ++ more) (if del then b ∷ deleted else deleted)

  result_eq : (x y : List Op × List Bytes) → some x ≡ some y → x ≡ y
  result_eq x y e = cc

  no_result : (x : List Op × List Bytes) → none ≡ some x → ⊥
  no_result x e = absurd (ground arith)

  pub sweep_candidates-Turns :
      (bs : List Bytes) (result : List Op × List Bytes)
      → sweep_candidates f store keys m acct now grace bs ≡ some result
      → Turns bs result.0 result.1
  unfolding sweep_candidates
  sweep_candidates-Turns [] result e =
      subst (λ p. Turns [] p.0 p.1) (result_eq ([], []) result e) finished
  sweep_candidates-Turns (b ∷ bs) result e =
      elim (Option-cases (sweep_candidate f store keys m acct now grace b)) [
        | inl bad ↦ absurd (no_result result (rw bad at e))
        | inr (here, h) ↦ elim (Option-cases (sweep_candidates f store keys m acct now grace bs)) [
          | inl bad ↦ absurd (no_result result (rw (h, bad) at e))
          | inr (rest, r) ↦
              subst (λ p. Turns (b ∷ bs) p.0 p.1)
                (result_eq (here.0 ++ rest.0, if here.1 then b ∷ rest.1 else rest.1) result
                  (rw (h, r) at e))
                (turn b here.0 here.1
                  (sweep_candidate-Fate f store keys m acct usable now grace b here.0 here.1 h)
                  (sweep_candidates-Turns bs rest r))
        ]
      ]

  pub ref-Turns :
      {bs : List Bytes} {ops : List Op} {deleted : List Bytes} (c t i : Bytes) (cur : Option Bytes)
      → Turns bs ops deleted
      → key_effect (ref_key acct c t i) ops cur ≡ cur
  ref-Turns c t i cur finished = (unfold key_effect in refl)
  ref-Turns c t i cur (turn {more} b ops del h rest) =
      key_effect-append (ref_key acct c t i) ops more cur
      ∙ ref-Turns c t i (key_effect (ref_key acct c t i) ops cur) rest
      ∙ ref-Fate f store keys m acct usable now grace b c t i cur h

  both :
      (b : Bytes) (deleted : List Bytes) (c : Bytes) (del : Bool) (cur : Option Bytes)
      → (if seen c deleted then none else (if del && beq b c then none else cur))
        ≡ (if seen c (if del then b ∷ deleted else deleted) then none else cur)
  unfolding seen
  both b deleted c true cur = ground arith
  both b deleted c false cur = refl

  pub upload-Turns :
      {bs : List Bytes} {ops : List Op} {deleted : List Bytes} (c : Bytes) (cur : Option Bytes)
      → Turns bs ops deleted
      → key_effect (upload_key acct c) ops cur ≡ (if seen c deleted then none else cur)
  upload-Turns c cur finished = (unfold key_effect seen in refl)
  upload-Turns c cur (turn {more} {deleted} b ops del h rest) =
      key_effect-append (upload_key acct c) ops more cur
      ∙ upload-Turns c (key_effect (upload_key acct c) ops cur) rest
      ∙ ap (λ o. if seen c deleted then none else o)
          (upload-Fate f store keys m acct usable now grace b c cur h)
      ∙ both b deleted c del cur

  still_cleared :
      (b : Bytes) (deleted : List Bytes) (c : Bytes) (del : Bool)
      → (seen c deleted ≡ true) ⊎ ((del && beq b c) ≡ true)
      → seen c (if del then b ∷ deleted else deleted) ≡ true
  unfolding seen
  still_cleared b deleted c true h = ground arith
  still_cleared b deleted c false h = ground arith

  Cleared-map :
      (c : Bytes) (x y : Bool)
      → (x ≡ true → y ≡ true)
      → Cleared f store keys m acct usable now grace c x
      → Cleared f store keys m acct usable now grace c y
  Cleared-map c x y g (inl h) = inl h
  Cleared-map c x y g (inr (inl h)) = inr (inl h)
  Cleared-map c x y g (inr (inr h)) = inr (inr (g h))

  pub pending-Turns :
      {bs : List Bytes} {ops : List Op} {deleted : List Bytes} (c : Bytes) (cur : Option Bytes)
      → Turns bs ops deleted
      → (key_effect (pending_key acct c) ops cur ≡ cur)
        ⊎ Cleared f store keys m acct usable now grace c (seen c deleted)
  pending-Turns c cur finished = inl (unfold key_effect in refl)
  pending-Turns c cur (turn {more} {deleted} b ops del h rest) =
      elim (pending-Fate f store keys m acct usable now grace b c cur h) [
        | inr cleared ↦ inr (Cleared-map c _ _ (λ x. still_cleared b deleted c del (inr x)) cleared)
        | inl same ↦ elim (pending-Turns c (key_effect (pending_key acct c) ops cur) rest) [
          | inl later ↦ inl (key_effect-append (pending_key acct c) ops more cur ∙ later ∙ same)
          | inr cleared ↦
              inr (Cleared-map c _ _ (λ x. still_cleared b deleted c del (inl x)) cleared)
        ]
      ]

  pub IsDoomed-Turns :
      {bs : List Bytes} {ops : List Op} {deleted : List Bytes} (c : Bytes)
      → Turns bs ops deleted
      → seen c deleted ≡ true
      → IsDoomed f store keys m acct usable now grace c
  IsDoomed-Turns c finished e = absurd (unfold seen in (ground arith))
  IsDoomed-Turns c (turn {deleted} b ops false h rest) e = IsDoomed-Turns c rest e
  IsDoomed-Turns c (turn {deleted} b ops true h rest) e = elim (Bool-cases (beq b c)) [
    | inl same ↦
        subst (λ x. IsDoomed f store keys m acct usable now grace x) ((beq_iff b c).0 same)
          (IsDoomed-Fate f store keys m acct usable now grace b h refl)
    | inr other ↦ IsDoomed-Turns c rest (later e other)
  ]
    where
      later : seen c (b ∷ deleted) ≡ true → beq b c ≡ false → seen c deleted ≡ true
      later e o = unfold seen in ground arith
