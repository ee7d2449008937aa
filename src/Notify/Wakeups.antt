-- ===== src/Notify/Wakeups.antt =====
-- No signal of core/providers/notify/inprocess.go is lost: one subscription, its one reader, and any
-- number of calls of add and of Close, each of which signals after it has left the mutex.
use naust_jmap.Prelude.{
  ℕ, suc, ◌<◌, ◌==◌, ◌≡◌, ◌⊎◌, refl, sym, subst, ◌∙◌, inl, inr, if◌then◌else◌, Bool, true, false,
  not, ◌||◌, Bool-cases, List, [], Option, none, some, Bytes, length, arith,
}
use naust_jmap.Notify.{
  TypeState, Sub, add, signal, close, check, Outcome, got, err_closed, cancelled,
}

-- Where the reader is: outside Wait, before the mutex, in the select, or back with an answer.
pub data Reader : Type 0 where
  outside checking parked : Reader
  answered : Outcome → Reader

-- `owing` counts the calls that are still to signal.
pub record System : Type 0 where
  pub sub : Sub
  pub owing : ℕ
  pub reader : Reader

unfoldable pub go_on : Option Outcome → Reader
go_on none = parked
go_on (some o) = answered o

abbrev pub after_add : System → Sub × Bool → System
after_add s (sub, more) = record s { sub = sub; owing = if more then suc s.owing else s.owing }

abbrev pub after_check : System → Option Outcome × Sub → System
after_check s (o, sub) = record s { sub = sub; reader = go_on o }

-- The reader takes the signal.
abbrev pub after_wake : System → System
after_wake s =
    let sub : Sub = record s.sub { wake = false } in record s { sub = sub; reader = checking }

pub data Step (s : System) : System → Type 0 where
  adds : (account : Bytes) (types : TypeState) → Step s (after_add s (add account types s.sub))
  closes : Step s (record s { sub = close s.sub; owing = suc s.owing })
  signals : (n : ℕ) → s.owing ≡ suc n → Step s (record s { sub = signal s.sub; owing = n })
  calls : s.reader ≡ outside → Step s (record s { reader = checking })
  checks : s.reader ≡ checking → Step s (after_check s (check s.sub))
  wakes : s.reader ≡ parked → s.sub.wake ≡ true → Step s (after_wake s)
  cancels : s.reader ≡ parked → Step s (record s { reader = answered cancelled })
  leaves : (o : Outcome) → s.reader ≡ answered o → Step s (record s { reader = outside })

pub data Steps (s : System) : System → Type 0 where
  here : Steps s s
  next : {t u : System} → Steps s t → Step t u → Steps s u

abbrev pub start : Option (List Bytes) → System
start accounts = record {
  sub = record { accounts = accounts; closed = false; pending = []; wake = false };
  owing = 0;
  reader = outside;
}

-- Wait has something to answer.
abbrev pub due : Sub → Bool
due s = s.closed || not (length s.pending == 0)

-- A reader in the select that has something to answer is signalled, or a signal is to come.
abbrev pub IsAwaited : System → Type 0
IsAwaited s = s.reader ≡ parked → due s.sub ≡ true → (s.sub.wake ≡ true) ⊎ (0 < s.owing)

add_quiet :
    (account : Bytes) (types : TypeState) (s : Sub)
    → (add account types s).1 ≡ false
    → (add account types s).0 ≡ s
unfolding add
add_quiet account types s h = ground arith

wake-add : (account : Bytes) (types : TypeState) (s : Sub) → (add account types s).0.wake ≡ s.wake
unfolding add
wake-add account types s = ground arith

check_parks : (s : Sub) → go_on (check s).0 ≡ parked → due (check s).1 ≡ false
unfolding check go_on
check_parks s h = ground arith

Step-IsAwaited : {s t : System} → Step s t → IsAwaited s → IsAwaited t
Step-IsAwaited {s} (adds account types) h p d = elim (Bool-cases (add account types s.sub).1) [
  | inl more ↦ rw more (inr (omega arith))
  | inr quiet ↦
      rw (add_quiet account types s.sub quiet, quiet)
        (h p (subst (λ u. due u ≡ true) (add_quiet account types s.sub quiet) d))
]
Step-IsAwaited closes h p d = inr (omega arith)
Step-IsAwaited (signals n e) h p d = inl (unfold signal in refl)
Step-IsAwaited (calls e) h p d = absurd (ground arith)
Step-IsAwaited {s} (checks e) h p d = absurd (clash (sym (check_parks s.sub p) ∙ d))
  where
    clash : false ≡ true → ⊥
    clash c = ground arith
Step-IsAwaited (wakes e w) h p d = absurd (ground arith)
Step-IsAwaited (cancels e) h p d = absurd (ground arith)
Step-IsAwaited (leaves o e) h p d = absurd (ground arith)

Steps-IsAwaited : {s t : System} → Steps s t → IsAwaited s → IsAwaited t
Steps-IsAwaited here h = h
Steps-IsAwaited (next path step) h = Step-IsAwaited step (Steps-IsAwaited path h)

start-IsAwaited : (accounts : Option (List Bytes)) → IsAwaited (start accounts)
start-IsAwaited accounts p d = absurd (ground arith)

-- In every reachable state in which the reader waits in the select while changes are pending or
-- the subscription is closed: its signal stands in the channel, or a call that made it so has yet
-- to send it.
pub no_lost_wakeup :
    (accounts : Option (List Bytes)) {s : System}
    → Steps (start accounts) s
    → s.reader ≡ parked
    → due s.sub ≡ true
    → (s.sub.wake ≡ true) ⊎ (0 < s.owing)
no_lost_wakeup accounts path = Steps-IsAwaited path (start-IsAwaited accounts)

-- What Wait answers when it looks at the subscription.
abbrev pub answer : Sub → Outcome
answer s = if s.closed then err_closed else got s.pending
