-- ===== src/Notify/Tests.antt =====
-- A subscription to one account, and a reader that parks before a publication.
use naust_jmap.Prelude.{◌<◌, ◌≡◌, ◌⊎◌, refl, true, [], ◌∷◌, some, Bytes, beq}
use naust_jmap.Prelude.GoMap
use naust_jmap.Notify.{
  TypeState, watches, listed, add, notify, signal, check, merge_types, merge_pending,
}
use naust_jmap.Notify.Wakeups.{
  System, Steps, next, here, calls, checks, adds, start, parked, no_lost_wakeup, go_on, checking,
}
use naust_jmap.Notify.Delivery.{published, waited, run, receive, latest, newest, deliveries}

abbrev mine : Bytes
mine = 1 ∷ []

abbrev email : Bytes
email = 69 ∷ []

abbrev five : TypeState
five = (email, 5 ∷ []) ∷ []

abbrev six : TypeState
six = (email, 6 ∷ []) ∷ []

abbrev calling : System
calling = record (start (some (mine ∷ []))) { reader = checking }

abbrev waiting : System
waiting = record calling { reader = parked }

abbrev told : System
told = record waiting { sub = record waiting.sub { pending = (mine, five) ∷ [] }; owing = 1 }

told-Steps : Steps (start (some (mine ∷ []))) told
unfolding check add watches listed merge_pending merge_types GoMap.put GoMap.get beq go_on
told-Steps = next (next (next here (calls refl)) (checks refl)) (adds mine five)

no_lost_wakeup_example : (told.sub.wake ≡ true) ⊎ (0 < told.owing)
no_lost_wakeup_example = no_lost_wakeup (some (mine ∷ [])) told-Steps refl refl

deliveries_example :
    (let es = published mine five ∷ waited ∷ published mine six ∷ [] in
      let (s, cs) = run es (start (some (mine ∷ []))).sub [] in
      latest mine email (s.pending ∷ cs)
      ≡ newest (some (mine ∷ [])) mine email es (latest mine email ([] ∷ [])))
deliveries_example =
    deliveries mine email (published mine five ∷ waited ∷ published mine six ∷ [])
      (start (some (mine ∷ []))).sub [] refl (unfold GoMap.get in ((refl, tt), ((refl, tt), tt)))

merged :
    (run
      (published mine five ∷ published (2 ∷ []) five ∷ published mine six ∷ waited ∷ [])
      (start (some (mine ∷ []))).sub
      []).1
    ≡ ((mine, six) ∷ []) ∷ []
unfolding run notify add check signal watches listed merge_pending merge_types receive GoMap.put
    GoMap.get beq
merged = refl
