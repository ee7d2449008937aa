-- ===== src/Notify.antt =====
-- core/providers/notify: notify.go and inprocess.go. Each of the functions below is what one call
-- does while it holds the subscription's mutex; the steps of Wakeups put them together with the
-- signals on the channel `wake`, whose one slot is a Boolean.
pub mod Delivery
pub mod Wakeups
mod Tests
use naust_jmap.Prelude.{
  ◌==◌, if◌then◌else◌, Bool, true, false, ◌||◌, List, [], ◌∷◌, ◌++◌, Option, none, some, Bytes, beq,
  length, map,
}
use naust_jmap.Prelude.GoMap

-- jmap.TypeState: the new state of each type that changed.
abbrev pub TypeState : Type 0
TypeState = List (Bytes × Bytes)

abbrev pub Changes : Type 0
Changes = List (Bytes × TypeState)

-- inProcessSub; a nil map of accounts is `none`.
pub record Sub : Type 0 where
  pub accounts : Option (List Bytes)
  pub closed : Bool
  pub pending : Changes
  pub wake : Bool

-- Subscribe and SubscribeAll: a new subscription is added to those of the notifier.
unfoldable pub subscribe : List Bytes → List Sub → List Sub
subscribe accounts subs =
    record { accounts = some accounts; closed = false; pending = []; wake = false } ∷ subs

unfoldable pub subscribe_all : List Sub → List Sub
subscribe_all subs = record { accounts = none; closed = false; pending = []; wake = false } ∷ subs

unfoldable pub listed : Bytes → List Bytes → Bool
listed a [] = false
listed a (x ∷ xs) = beq x a || listed a xs

unfoldable pub watches : Option (List Bytes) → Bytes → Bool
watches none account = true
watches (some accounts) account = listed account accounts

-- The loop over the types of one commit.
unfoldable pub merge_types : TypeState → TypeState → TypeState
merge_types ts [] = ts
merge_types ts ((name, state) ∷ types) = merge_types (GoMap.put name state ts) types

abbrev pub types_of : Option TypeState → TypeState
types_of none = []
types_of (some ts) = ts

unfoldable pub merge_pending : Bytes → TypeState → Changes → Changes
merge_pending account types pending =
    GoMap.put account (merge_types (types_of (GoMap.get account pending)) types) pending

-- add up to its signal; the Boolean is whether it goes on to the signal.
unfoldable pub add : Bytes → TypeState → Sub → Sub × Bool
add account types s =
    if watches s.accounts account
    then (if s.closed
        then (s, false)
        else (record s { pending = merge_pending account types s.pending }, true))
    else (s, false)

-- s.wake <- struct{}{}, or nothing where the slot is taken.
unfoldable pub signal : Sub → Sub
signal s = record s { wake = true }

-- add with no other call in between.
unfoldable pub notify : Bytes → TypeState → Sub → Sub
notify account types s = let (s', more) = add account types s in if more then signal s' else s'

-- Publish
unfoldable pub publish : Bytes → TypeState → List Sub → List Sub
publish account [] subs = subs
publish account (t ∷ types) subs = map (notify account (t ∷ types)) subs

-- Close up to its signal.
unfoldable pub close : Sub → Sub
close s = record s { closed = true }

pub data Outcome : Type 0 where
  err_closed cancelled : Outcome
  got : Changes → Outcome

-- One round of Wait under the mutex: an answer, or `none` where it goes on to the select.
unfoldable pub check : Sub → Option Outcome × Sub
check s =
    if s.closed
    then (some err_closed, s)
    else if length s.pending == 0
    then (none, s)
    else (some (got s.pending), record s { pending = [] })
