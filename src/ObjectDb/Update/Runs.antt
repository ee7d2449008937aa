-- ===== src/ObjectDb/Update/Runs.antt =====
-- The invariant of an Update under the calls that stage it (core/objectdb/objectdb.go).
use naust_jmap.Prelude.{
  ◌≡◌, refl, sym, subst, ap, ◌∙◌, inl, inr, true, false, Option-cases, List, [], ◌∷◌, Option, none,
  some, Bytes, arith,
}
use naust_jmap.Prelude.GoMap
use naust_jmap.Prelude.GoMap.{Distinct}
use naust_jmap.ObjectDb.Schema.{Descriptor, Object, Codec, diff_props}
use naust_jmap.ObjectDb.Update.{
  err, ok, Staged, Update, World, find, found_object, stage, type_of, get_committed, get, create,
  put, put_again, put_first, put_internal, internal_entry, all_internal, destroy, bump_state,
  set_account_tag, clear_account_tag, carries, id_mismatch, invalid_value, changes_visible,
  carries_id, empty_tag, registry_tag, unknown_type,
}
use naust_jmap.ObjectDb.Update.Staging.{Unique, assign-Unique}
use naust_jmap.ObjectDb.Update.Calls.{
  Call, call_create, call_put, call_put_internal, call_destroy, call_bump, call_set_tag,
  call_clear_tag, bind-ok, check-ok, found-ok, committed-ok, perform, run,
}
use naust_jmap.ObjectDb.Update.Sound.{
  SamePublic, IsSound, AllSound, assign-AllSound, find-IsSound, all_internal-SamePublic,
}

-- What holds of an Update while it is staged.
pub record IsStaged (w : World) (u : Update) : Type 0 where
  pub unique : Unique u.staged
  pub sound : AllSound w u.staged

stage-IsStaged :
    (w : World) (u : Update) (st : Staged) → IsStaged w u → IsSound w st → IsStaged w (stage u st)
stage-IsStaged w u st h sound = record {
  unique = assign-Unique st u.staged h.unique;
  sound = assign-AllSound w st u.staged sound h.sound;
}

same_update : (a b : Update) → ok a ≡ ok b → a ≡ b
same_update a b e = cc

loud : {X : Type 0} → false ≡ true → X
loud e = absurd (ground arith)

module _ (c : Codec) (w : World) where
  type-ok :
      (type_name : Bytes) (t : Descriptor)
      → type_of c w type_name ≡ ok t
      → GoMap.get type_name w.types ≡ some t
  unfolding type_of
  type-ok type_name t h = from (GoMap.get type_name w.types) h
    where
      from :
          (o : Option Descriptor)
          → (elim o [ none ↦ err unknown_type | some x ↦ ok x ]) ≡ ok t
          → o ≡ some t
      from none e = absurd (ground arith)
      from (some x) e = cc

  put_again-IsStaged :
      (u v : Update) (t : Descriptor) (obj : Object) (st : Staged)
      → IsStaged w u
      → IsSound w st
      → put_again c w u t obj st ≡ ok v
      → IsStaged w v
  unfolding put_again
  put_again-IsStaged u v t obj st h sound e =
      let (prior, hp, e1) = bind-ok (found_object st.new) _ v e in
      let (_, e2) = check-ok _ invalid_value _ v e1 in
      subst (IsStaged w) (same_update _ v e2) (
        stage-IsStaged w u _ h (record {
          known = sound.known;
          remembers = elim sound.remembers [ inl (a, b, q) ↦ inl (a, b, refl) | inr r ↦ inr r ];
          hidden = λ o n q. loud q;
        }))

  put_first-IsStaged :
      (u v : Update) (t : Descriptor) (type_name id : Bytes) (obj : Object)
      → IsStaged w u
      → GoMap.get type_name w.types ≡ some t
      → put_first c w u t type_name id obj ≡ ok v
      → IsStaged w v
  unfolding put_first
  put_first-IsStaged u v t type_name id obj h ht e =
      let (old, ho, e1) = bind-ok (get_committed c w type_name id) _ v e in
      let (_, e2) = check-ok _ invalid_value _ v e1 in
      subst (IsStaged w) (same_update _ v e2) (
        stage-IsStaged w u _ h (record {
          known = (t, ht);
          remembers = inr (refl, old, refl, committed-ok c w type_name id old ho);
          hidden = λ o n q. loud q;
        }))

  put-IsStaged :
      (u v : Update) (type_name id : Bytes) (obj : Object)
      → IsStaged w u
      → put c w u type_name id obj ≡ ok v
      → IsStaged w v
  unfolding put
  put-IsStaged u v type_name id obj h e =
      let (t, ht, e1) = bind-ok (type_of c w type_name) _ v e in
      let (_, e2) = check-ok (carries c w obj id) id_mismatch _ v e1 in
      elim (Option-cases (find type_name id u.staged)) [
        | inl fresh ↦
            put_first-IsStaged u v t type_name id obj h (type-ok type_name t ht) (rw fresh at e2)
        | inr (st, found) ↦
            put_again-IsStaged u v t obj st h
              (find-IsSound w type_name id u.staged st h.sound found).0 (rw found at e2)
      ]

  create-IsStaged :
      (u v : Update) (type_name : Bytes) (obj : Object) (id id_json : Bytes)
      → IsStaged w u
      → create c w u type_name obj id id_json ≡ ok v
      → IsStaged w v
  unfolding create
  create-IsStaged u v type_name obj id id_json h e =
      let (t, ht, e1) = bind-ok (type_of c w type_name) _ v e in
      let (_, e2) = check-ok _ carries_id _ v e1 in
      let (_, e3) = check-ok _ invalid_value _ v e2 in
      subst (IsStaged w) (same_update _ v e3) (
        stage-IsStaged w u _ h (record {
          known = (t, type-ok type_name t ht);
          remembers = inl (refl, refl, refl);
          hidden = λ o n q. loud q;
        }))

  destroy-IsStaged :
      (u v : Update) (type_name id : Bytes)
      → IsStaged w u
      → destroy c w u type_name id ≡ ok v
      → IsStaged w v
  unfolding destroy
  destroy-IsStaged u v type_name id h e =
      let (t, ht, e1) = bind-ok (type_of c w type_name) _ v e in
      elim (Option-cases (find type_name id u.staged)) [
        | inl fresh ↦
            let (old, ho, e2) = bind-ok (get_committed c w type_name id) _ v (rw fresh at e1) in
            subst (IsStaged w) (same_update _ v e2) (
              stage-IsStaged w u _ h (record {
                known = (t, type-ok type_name t ht);
                remembers = inr (refl, old, refl, committed-ok c w type_name id old ho);
                hidden = λ o n q. loud q;
              }))
        | inr (st, found) ↦
            let (prior, hp, e2) = bind-ok (found_object st.new) _ v (rw found at e1) in
            subst (IsStaged w) (same_update _ v e2) (
              stage-IsStaged w u _ h (record {
                known = (find-IsSound w type_name id u.staged st h.sound found).0.known;
                remembers = (find-IsSound w type_name id u.staged st h.sound found).0.remembers;
                hidden = λ o n q a b. gone n b;
              }))
      ]
    where
      gone : {X : Type 0} (n : Object) → none ≡ some n → X
      gone n e = absurd (ground arith)

  -- The entry that PutInternal leaves, whether or not the record was staged.
  internal_entry-IsSound :
      (u : Update) (t : Descriptor) (type_name id : Bytes) (prior obj : Object)
      → IsStaged w u
      → Distinct obj
      → GoMap.get type_name w.types ≡ some t
      → get c w u type_name id ≡ ok prior
      → all_internal c w t.properties (diff_props prior obj) ≡ true
      → IsSound w (internal_entry c w type_name id prior obj (find type_name id u.staged))
  unfolding get
  internal_entry-IsSound u t type_name id prior obj h d ht hp i =
      by_entry (find type_name id u.staged) refl hp
    where
      agree : (x : Bytes) → x ≡ type_name → SamePublic w x prior obj
      agree x e =
          subst (λ y. SamePublic w y prior obj) (sym e)
            (all_internal-SamePublic c w type_name t prior obj d ht i)

      one : (a b : Object) → some a ≡ some b → a ≡ b
      one a b e = cc

      by_entry :
          (o : Option Staged)
          → find type_name id u.staged ≡ o
          → (elim o [ some st ↦ found_object st.new | none ↦ get_committed c w type_name id ])
            ≡ ok prior
          → IsSound w (internal_entry c w type_name id prior obj o)
      by_entry none fresh e = record {
        known = (t, ht);
        remembers = inr (refl, prior, refl, committed-ok c w type_name id prior e);
        hidden = λ o n q a b name public.
            ap (GoMap.get name) (sym (one prior o a))
            ∙ agree type_name refl name public
            ∙ ap (GoMap.get name) (one obj n b);
      }
      by_entry (some st) found e =
          let (sound, name_eq, id_eq) = find-IsSound w type_name id u.staged st h.sound found in
          record {
            known = sound.known;
            remembers = sound.remembers;
            hidden = λ o n q a b name public.
                sound.hidden o prior q a (found-ok st.new prior e) name public
                ∙ agree st.type_name name_eq name public
                ∙ ap (GoMap.get name) (one obj n b);
          }

  put_internal-IsStaged :
      (u v : Update) (type_name id : Bytes) (obj : Object)
      → IsStaged w u
      → Distinct obj
      → put_internal c w u type_name id obj ≡ ok v
      → IsStaged w v
  unfolding put_internal
  put_internal-IsStaged u v type_name id obj h d e =
      let (t, ht, e1) = bind-ok (type_of c w type_name) _ v e in
      let (_, e2) = check-ok (carries c w obj id) id_mismatch _ v e1 in
      let (prior, hp, e3) = bind-ok (get c w u type_name id) _ v e2 in
      let (_, e4) = check-ok _ invalid_value _ v e3 in
      let (i, e5) =
        check-ok (all_internal c w t.properties (diff_props prior obj)) changes_visible _ v e4 in
      subst (IsStaged w) (same_update _ v e5) (
        stage-IsStaged w u _ h
          (internal_entry-IsSound u t type_name id prior obj h d (type-ok type_name t ht) hp i))

  bump_state-IsStaged :
      (u v : Update) (type_name : Bytes)
      → IsStaged w u
      → bump_state c w u type_name ≡ ok v
      → IsStaged w v
  unfolding bump_state
  bump_state-IsStaged u v type_name h e =
      let (t, ht, e1) = bind-ok (type_of c w type_name) _ v e in
      subst (IsStaged w) (same_update _ v e1) (record { unique = h.unique; sound = h.sound })

  set_account_tag-IsStaged :
      (u v : Update) (tag : Bytes) → IsStaged w u → set_account_tag u tag ≡ ok v → IsStaged w v
  unfolding set_account_tag
  set_account_tag-IsStaged u v tag h e =
      let (_, e1) = check-ok _ empty_tag _ v e in
      subst (IsStaged w) (same_update _ v e1) (record { unique = h.unique; sound = h.sound })

  clear_account_tag-IsStaged :
      (u v : Update) (tag : Bytes) → IsStaged w u → clear_account_tag u tag ≡ ok v → IsStaged w v
  unfolding clear_account_tag
  clear_account_tag-IsStaged u v tag h e =
      let (_, e1) = check-ok _ empty_tag _ v e in
      let (_, e2) = check-ok _ registry_tag _ v e1 in
      subst (IsStaged w) (same_update _ v e2) (record { unique = h.unique; sound = h.sound })

  -- The object of a call names no property twice.
  abbrev pub HasDistinct : Call → Type 0
  HasDistinct (call_put_internal type_name id obj) = Distinct obj
  HasDistinct call = Unit

  abbrev pub AllDistinct : List Call → Type 0
  AllDistinct [] = Unit
  AllDistinct (call ∷ calls) = HasDistinct call × AllDistinct calls

  perform-IsStaged :
      (u v : Update) (call : Call)
      → IsStaged w u
      → HasDistinct call
      → perform c w u call ≡ ok v
      → IsStaged w v
  unfolding perform
  perform-IsStaged u v (call_create type_name obj id id_json) h d e =
      create-IsStaged u v type_name obj id id_json h e
  perform-IsStaged u v (call_put type_name id obj) h d e = put-IsStaged u v type_name id obj h e
  perform-IsStaged u v (call_put_internal type_name id obj) h d e =
      put_internal-IsStaged u v type_name id obj h d e
  perform-IsStaged u v (call_destroy type_name id) h d e = destroy-IsStaged u v type_name id h e
  perform-IsStaged u v (call_bump type_name) h d e = bump_state-IsStaged u v type_name h e
  perform-IsStaged u v (call_set_tag tag) h d e = set_account_tag-IsStaged u v tag h e
  perform-IsStaged u v (call_clear_tag tag) h d e = clear_account_tag-IsStaged u v tag h e

  pub run-IsStaged :
      (u v : Update) (calls : List Call)
      → IsStaged w u
      → AllDistinct calls
      → run c w u calls ≡ ok v
      → IsStaged w v
  unfolding run
  run-IsStaged u v [] h d e = subst (IsStaged w) (same_update u v e) h
  run-IsStaged u v (call ∷ calls) h (dx, d) e =
      let (x, hx, e1) = bind-ok (perform c w u call) _ v e in
      run-IsStaged x v calls (perform-IsStaged u x call h dx hx) d e1
