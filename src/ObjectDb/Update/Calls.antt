-- ===== src/ObjectDb/Update/Calls.antt =====
-- The calls that stage an Update (core/objectdb/objectdb.go), and what a call that succeeds has found.
use naust_jmap.Prelude.{
  ◌≡◌, refl, ap, ◌∙◌, inl, inr, Bool, true, false, Option-cases, List, [], ◌∷◌, Option, none, some,
  Bytes, arith,
}
use naust_jmap.ObjectDb.Schema.{Object, Codec}
use naust_jmap.ObjectDb.Update.{
  Error, Result, err, ok, ◌>>=◌, ◌>>◌, check, Update, World, found_object, type_of, get_committed,
  create, put, put_internal, destroy, bump_state, set_account_tag, clear_account_tag, store_failed,
}

pub data Call : Type 0 where
  call_create : Bytes → Object → Bytes → Bytes → Call
  call_put call_put_internal : Bytes → Bytes → Object → Call
  call_destroy : Bytes → Bytes → Call
  call_bump call_set_tag call_clear_tag : Bytes → Call

-- A bind and a check that succeed.
pub bind-ok {ℓ κ} :
    {T : Type ℓ} {U : Type κ} (r : Result T) (rest : T → Result U) (u : U)
    → (r >>= rest) ≡ ok u
    → (t : T) × (r ≡ ok t) × (rest t ≡ ok u)
bind-ok (err e) rest u h = absurd (ground arith)
bind-ok (ok t) rest u h = (t, refl, h)

pub check-ok {κ} :
    {U : Type κ} (b : Bool) (e : Error) (rest : Result U) (u : U)
    → (check b e >> rest) ≡ ok u
    → (b ≡ true) × (rest ≡ ok u)
check-ok true e rest u h = (refl, h)
check-ok false e rest u h = absurd (ground arith)

pub found-ok : (o : Option Object) (obj : Object) → found_object o ≡ ok obj → o ≡ some obj
found-ok none obj h = absurd (ground arith)
found-ok (some x) obj h = cc

module _ (c : Codec) (w : World) where
  unfoldable pub perform : Update → Call → Result Update
  perform u (call_create type_name obj id id_json) = create c w u type_name obj id id_json
  perform u (call_put type_name id obj) = put c w u type_name id obj
  perform u (call_put_internal type_name id obj) = put_internal c w u type_name id obj
  perform u (call_destroy type_name id) = destroy c w u type_name id
  perform u (call_bump type_name) = bump_state c w u type_name
  perform u (call_set_tag tag) = set_account_tag u tag
  perform u (call_clear_tag tag) = clear_account_tag u tag

  unfoldable pub run : Update → List Call → Result Update
  run u [] = ok u
  run u (call ∷ calls) = do v ← perform u call; run v calls

  pub committed-ok :
      (type_name id : Bytes) (obj : Object)
      → get_committed c w type_name id ≡ ok obj
      → w.committed type_name id ≡ some (some obj)
  unfolding get_committed
  committed-ok type_name id obj h =
      let (t, ht, h1) = bind-ok (type_of c w type_name) _ obj h in
      elim (Option-cases (w.committed type_name id)) [
        | inl bad ↦ absurd (failed (rw bad at h1))
        | inr (found, hf) ↦ hf ∙ ap some (found-ok found obj (rw hf at h1))
      ]
    where
      failed : ◌≡◌ {A = Result Object} (err store_failed) (ok obj) → ⊥
      failed e = absurd (ground arith)
