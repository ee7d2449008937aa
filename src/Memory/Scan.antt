-- ===== src/Memory/Scan.antt =====
-- The method Scan of core/providers/backend/memory/memory.go. Between two chunks other calls may
-- run, so every chunk reads the store of its own round.
use naust_jmap.Prelude.{
  ℕ, zero, suc, if◌then◌else◌, ltb, Bool, true, false, not, List, [], ◌∷◌, Option, none, some,
  Bytes, blt, length, take, drop,
}
use mathlib.Core.List.{reverse}
use naust_jmap.Prelude.GoMap
use naust_jmap.Memory.{Store, Data, search_strings, key_at, bytes_of}

abbrev pub Entry : Type 0
Entry = Bytes × Bytes

abbrev pub chunk : ℕ
chunk = 64

-- The copy of one entry into `buf`.
abbrev pub entry : Data → Bytes → Entry
entry d k = (k, bytes_of (GoMap.get k d))

-- A walk over the keys still ahead: at most `room` entries, up to the first key that stops it.
unfoldable pub walk : ℕ → (Bytes → Bool) → Data → List Bytes → List Entry
walk zero stop d ks = []
walk (suc room) stop d [] = []
walk (suc room) stop d (k ∷ ks) =
    let rest = walk room stop d ks in if stop k then [] else entry d k ∷ rest

-- end != nil && k >= string(end)
abbrev pub at_end : Option Bytes → Bytes → Bool
at_end none k = false
at_end (some e) k = not (blt k e)

-- `cursor`, with `started`: the last key yielded, or none.
unfoldable pub first_index : List Bytes → Bytes → Option Bytes → ℕ
first_index keys start none = search_strings keys start
first_index keys start (some cursor) =
    let lo = search_strings keys cursor in if key_at keys lo cursor then suc lo else lo

unfoldable pub forward_chunk : Bytes → Option Bytes → Store → Option Bytes → List Entry
forward_chunk start end s cursor =
    walk chunk (at_end end) s.entries (drop (first_index s.keys start cursor) s.keys)

unfoldable pub last_index : List Bytes → Option Bytes → Option Bytes → ℕ
last_index keys end (some cursor) = search_strings keys cursor
last_index keys (some e) none = search_strings keys e
last_index keys none none = length keys

-- The loop goes from the index `hi - 1` down.
unfoldable pub reverse_chunk : Bytes → Option Bytes → Store → Option Bytes → List Entry
reverse_chunk start end s cursor =
    walk chunk (λ k. blt k start) s.entries (reverse (take (last_index s.keys end cursor) s.keys))

-- The callback, with the state that it closes over; false stops the scan.
module _ {ℓ} {A : Type ℓ} (fn : Entry → A → A × Bool) where
  unfoldable pub visit : List Entry → A → A × Bool
  visit [] a = (a, true)
  visit (e ∷ es) a =
      let (a', more) = fn e a in let rest = visit es a' in if more then rest else (a', false)

abbrev pub last_key : List Entry → Option Bytes
last_key [] = none
last_key ((k, v) ∷ []) = some k
last_key (e ∷ e' ∷ es) = last_key (e' ∷ es)

module _ {ℓ} {A : Type ℓ} (fn : Entry → A → A × Bool) where
  -- The outer loop; `none` is out of fuel. `read i cursor` is the chunk that round i reads.
  unfoldable pub scan_loop : ℕ → (ℕ → Option Bytes → List Entry) → ℕ → Option Bytes → A → Option A
  scan_loop zero read i cursor a = none
  scan_loop (suc fuel) read i cursor a =
      let buf = read i cursor in
      let (a', more) = visit fn buf a in
      let next = scan_loop fuel read (suc i) (last_key buf) a' in
      if not more then some a' else if ltb (length buf) chunk then some a' else next

  -- Scan, where `at i` is the store in round i.
  unfoldable pub scan : ℕ → (ℕ → Store) → Bytes → Option Bytes → Bool → A → Option A
  scan fuel at start end true a = scan_loop fuel (λ i c. reverse_chunk start end (at i) c) 0 none a
  scan fuel at start end false a = scan_loop fuel (λ i c. forward_chunk start end (at i) c) 0 none a
