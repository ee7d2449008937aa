-- ===== src/Notify/Delivery.antt =====
-- What a subscription of core/providers/notify/inprocess.go receives.
use naust_jmap.Prelude.{
  ◌==◌, ◌≡◌, refl, subst, ap, ◌∙◌, inl, inr, if◌then◌else◌, true, false, ◌&&◌, Bool-cases, List, [],
  ◌∷◌, Option, none, some, Bytes, beq, beq_iff, length, arith,
}
use naust_jmap.Prelude.GoMap
use naust_jmap.Prelude.GoMap.{Distinct, get-put}
use naust_jmap.Notify.{
  TypeState, Changes, Sub, watches, add, notify, signal, check, Outcome, got, merge_types,
  merge_pending, types_of,
}

-- The state that a set of changes gives to a type of an account.
unfoldable pub state_of : Bytes → Bytes → Changes → Option Bytes
state_of account name changes = GoMap.get name (types_of (GoMap.get account changes))

-- The later state, where there is one.
abbrev pub or_else : Option Bytes → Option Bytes → Option Bytes
or_else none old = old
or_else (some v) old = some v

get-merge_types :
    (name : Bytes) (types ts : TypeState)
    → Distinct types
    → GoMap.get name (merge_types ts types) ≡ or_else (GoMap.get name types) (GoMap.get name ts)
unfolding merge_types GoMap.get
get-merge_types name [] ts d = refl
get-merge_types name ((n, state) ∷ types) ts (fresh, d) =
    get-merge_types name types (GoMap.put n state ts) d ∙ rw (get-put n name state ts) either
  where
    either :
        or_else (GoMap.get name types) (if beq n name then some state else GoMap.get name ts)
        ≡ or_else (if beq n name then some state else GoMap.get name types) (GoMap.get name ts)
    either = elim (Bool-cases (beq n name)) [
      | inl same ↦
          rw (same, subst (λ k. GoMap.get k types ≡ none) ((beq_iff n name).0 same) fresh) refl
      | inr other ↦ rw other refl
    ]

state_of-merge_pending :
    (account a name : Bytes) (types : TypeState) (pending : Changes)
    → Distinct types
    → state_of a name (merge_pending account types pending)
      ≡ or_else (if beq account a then GoMap.get name types else none) (state_of a name pending)
unfolding merge_pending state_of
state_of-merge_pending account a name types pending d =
    ap (λ o. GoMap.get name (types_of o))
      (get-put account a (merge_types (types_of (GoMap.get account pending)) types) pending)
    ∙ either
  where
    either :
        GoMap.get name (
          types_of (
            if beq account a
            then some (merge_types (types_of (GoMap.get account pending)) types)
            else GoMap.get a pending))
        ≡ or_else
            (if beq account a then GoMap.get name types else none)
            (GoMap.get name (types_of (GoMap.get a pending)))
    either = elim (Bool-cases (beq account a)) [
      | inl same ↦
          rw (same, ← (beq_iff account a).0 same)
            (get-merge_types name types (types_of (GoMap.get account pending)) d)
      | inr other ↦ rw other refl
    ]

-- A call of Publish, or one of Wait that finds something or is cancelled.
pub data Event : Type 0 where
  published : Bytes → TypeState → Event
  waited : Event

-- The types of one commit are a map.
abbrev pub AreMaps : List Event → Type 0
AreMaps [] = Unit
AreMaps (published account types ∷ es) = Distinct types × AreMaps es
AreMaps (waited ∷ es) = AreMaps es

-- What the reader has received, the newest first.
unfoldable pub receive : Option Outcome → List Changes → List Changes
receive (some (got changes)) cs = changes ∷ cs
receive o cs = cs

unfoldable pub run : List Event → Sub → List Changes → Sub × List Changes
run [] s cs = (s, cs)
run (published account types ∷ es) s cs = run es (notify account types s) cs
run (waited ∷ es) s cs = let (o, s') = check s in run es s' (receive o cs)

-- The newest state of a type of an account in what was received, and what is pending before it.
unfoldable pub latest : Bytes → Bytes → List Changes → Option Bytes
latest account name [] = none
latest account name (c ∷ cs) = or_else (state_of account name c) (latest account name cs)

-- The newest state that was published, or `old` where there is none.
unfoldable pub newest :
    Option (List Bytes) → Bytes → Bytes → List Event → Option Bytes → Option Bytes
newest accounts account name [] old = old
newest accounts account name (published a types ∷ es) old =
    newest accounts account name es
      (or_else (if watches accounts a && beq a account then GoMap.get name types else none) old)
newest accounts account name (waited ∷ es) old = newest accounts account name es old

or_else_assoc : (x y z : Option Bytes) → or_else (or_else x y) z ≡ or_else x (or_else y z)
or_else_assoc none y z = refl
or_else_assoc (some v) y z = refl

notify-open :
    (account : Bytes) (types : TypeState) (s : Sub)
    → s.closed ≡ false
    → notify account types s ≡ (
        if watches s.accounts account
        then record s { pending = merge_pending account types s.pending; wake = true }
        else s)
unfolding notify add signal
notify-open account types s h = ground arith

latest-notify :
    (account name a : Bytes) (types : TypeState) (s : Sub) (cs : List Changes)
    → s.closed ≡ false
    → Distinct types
    → latest account name ((notify a types s).pending ∷ cs)
      ≡ or_else
          (if watches s.accounts a && beq a account then GoMap.get name types else none)
          (latest account name (s.pending ∷ cs))
unfolding latest
latest-notify account name a types s cs h d = rw (notify-open a types s h) either
  where
    opened : Sub
    opened = record s { pending = merge_pending a types s.pending; wake = true }

    either :
        or_else
          (state_of account name (if watches s.accounts a then opened else s).pending)
          (latest account name cs)
        ≡ or_else
            (if watches s.accounts a && beq a account then GoMap.get name types else none)
            (or_else (state_of account name s.pending) (latest account name cs))
    either = elim (Bool-cases (watches s.accounts a)) [
      | inl yes_watched ↦
          rw (yes_watched, state_of-merge_pending a account name types s.pending d)
            (or_else_assoc (if beq a account then GoMap.get name types else none)
              (state_of account name s.pending) (latest account name cs))
      | inr unwatched ↦ rw unwatched refl
    ]

latest-check :
    (account name : Bytes) (s : Sub) (cs : List Changes)
    → s.closed ≡ false
    → latest account name ((check s).1.pending ∷ receive (check s).0 cs)
      ≡ latest account name (s.pending ∷ cs)
unfolding latest check receive
latest-check account name s cs h = elim (Bool-cases (length s.pending == 0)) [
  | inl empty ↦ rw (h, empty) refl
  | inr some_left ↦ rw (h, some_left) (unfold state_of GoMap.get in refl)
]

fields-notify :
    (a : Bytes) (types : TypeState) (s : Sub)
    → ((notify a types s).closed ≡ s.closed) × ((notify a types s).accounts ≡ s.accounts)
unfolding notify add signal
fields-notify a types s = ground arith

fields-check : (s : Sub) → ((check s).1.closed ≡ s.closed) × ((check s).1.accounts ≡ s.accounts)
unfolding check
fields-check s = ground arith

-- From a subscription that is open, over any sequence of publications and waits: for each type of
-- each account, the newest state among what the reader has received and what is still pending for
-- it is the newest that was published to it, if any was, and else the one from before. So merging
-- loses no last state, and an account that is not subscribed to never shows.
pub deliveries :
    (account name : Bytes) (es : List Event) (s : Sub) (cs : List Changes)
    → s.closed ≡ false
    → AreMaps es
    → (let (s', cs') = run es s cs in latest account name (s'.pending ∷ cs'))
      ≡ newest s.accounts account name es (latest account name (s.pending ∷ cs))
unfolding run newest
deliveries account name [] s cs h m = refl
deliveries account name (published a types ∷ es) s cs h (d, m) =
    let (c, w) = fields-notify a types s in
    deliveries account name es (notify a types s) cs (c ∙ h) m
    ∙ ap (λ x. newest x account name es (latest account name ((notify a types s).pending ∷ cs))) w
    ∙ ap (newest s.accounts account name es) (latest-notify account name a types s cs h d)
deliveries account name (waited ∷ es) s cs h m =
    let (c, w) = fields-check s in
    deliveries account name es (check s).1 (receive (check s).0 cs) (c ∙ h) m
    ∙ ap
        (λ x.
          newest x account name es
            (latest account name ((check s).1.pending ∷ receive (check s).0 cs)))
        w
    ∙ ap (newest s.accounts account name es) (latest-check account name s cs h)
