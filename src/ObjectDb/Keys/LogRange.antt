-- ===== src/ObjectDb/Keys/LogRange.antt =====
-- The range of the store that Changes, ChangedSince and TrimChanges scan for an account's log.
use naust_jmap.Prelude.{
  ℕ, ◌+◌, ◌<◌, ◌≡◌, ◌≢◌, refl, sym, ap, ◌∙◌, Bool, true, false, not, ◌&&◌, Bool-cases, inl, inr,
  List, [], ◌∷◌, Option, Bytes, AllBytes, beq, blt, blt_trans, blt_irrefl, beq_refl, beq_iff, arith,
}
use naust_jmap.Backend.{encode_int64, two64}
use naust_jmap.Backend.Counter.{lt_int64, encode_order}
use naust_jmap.KeyEnc.{key, prefix_range}
use naust_jmap.KeyEnc.Order.{segs_lt, key_order}
use naust_jmap.KeyEnc.Range.{in_range, below_end, segs_prefix, AllSegs, prefix_range_covers}
use naust_jmap.ObjectDb.Keys.{log_key, tag_seg}
use naust_jmap.ObjectDb.Keys.Names.{
  Name, object, index, entry, floor, counter, type_state, tagged, upload, ref, pending, segs_of,
  key_of, key_of-segs_of, IsUsable, beq-ne,
}

-- The bounds of the scans: start := logKey(acct, since+1), and the end of the range of log keys.
abbrev pub log_range : Bytes → ℕ → Bytes × Option Bytes
log_range acct since = (log_key acct (since + 1), (prefix_range (acct ∷ (b'g' ∷ []) ∷ [])).1)

-- A log entry of the account that is later than `since`.
unfoldable pub is_later : Bytes → ℕ → Name → Bool
is_later acct since (entry a sequence) = beq acct a && not (lt_int64 sequence (since + 1))
is_later acct since _ = false

narrow :
    (below p l : Bool) (q : Bool)
    → (not p && below) ≡ q
    → (p ≡ true → l ≡ true)
    → (not l && below) ≡ (q && not l)
narrow true true l q h k = ground arith
narrow true false l q h k = ground arith
narrow false p l q h k = ground arith

from_start :
    (ss ts : List Bytes)
    → AllSegs ss
    → AllSegs ts
    → (not (blt (key ts) (key ss)) && below_end (key ts) (prefix_range ss).1) ≡ segs_prefix ss ts
unfolding prefix_range
from_start ss ts hs ht = prefix_range_covers ss ts hs ht

segs_range :
    (acct : Bytes) (since : ℕ) (ts : List Bytes)
    → AllBytes acct
    → AllSegs ts
    → in_range (log_range acct since) (key ts) ≡ (
        segs_prefix (acct ∷ (b'g' ∷ []) ∷ []) ts
        && not (segs_lt ts (acct ∷ (b'g' ∷ []) ∷ encode_int64 (since + 1) ∷ [])))
unfolding log_key
segs_range acct since ts ha ht =
    narrow _ (blt (key ts) (key short)) (blt (key ts) (key long)) _
      (from_start short ts (ha, ((omega arith, tt), tt)) ht)
      (λ h. blt_trans (key ts) (key short) (key long) h short_long)
    ∙ ap (λ b. segs_prefix short ts && not b) (key_order ts long)
  where
    short : List Bytes
    short = acct ∷ (b'g' ∷ []) ∷ []

    long : List Bytes
    long = acct ∷ (b'g' ∷ []) ∷ encode_int64 (since + 1) ∷ []

    short_long : blt (key short) (key long) ≡ true
    short_long =
        key_order short long
        ∙ (unfold segs_lt in
            rw (blt_irrefl acct, beq_refl acct)
              (ground (arith, beq_refl (b'g' ∷ []), blt_irrefl (b'g' ∷ []))))

entry_range :
    (acct a : Bytes) (since sequence : ℕ)
    → since + 1 < two64
    → sequence < two64
    → (segs_prefix (acct ∷ (b'g' ∷ []) ∷ []) (a ∷ (b'g' ∷ []) ∷ encode_int64 sequence ∷ [])
        && not (
            segs_lt
              (a ∷ (b'g' ∷ []) ∷ encode_int64 sequence ∷ [])
              (acct ∷ (b'g' ∷ []) ∷ encode_int64 (since + 1) ∷ [])))
      ≡ (beq acct a && not (lt_int64 sequence (since + 1)))
unfolding segs_prefix segs_lt
entry_range acct a since sequence hs hq = elim (Bool-cases (beq acct a)) [
  | inr other ↦ rw other refl
  | inl same ↦
      rw
        (
          same,
          sym ((beq_iff acct a).0 same),
          blt_irrefl acct,
          beq_refl acct,
          encode_order sequence (since + 1) hq hs,
        )
        (ground (arith, beq_refl (b'g' ∷ []), blt_irrefl (b'g' ∷ [])))
]

by_kind :
    (acct : Bytes) (since : ℕ)
    → acct ≢ tag_seg
    → since + 1 < two64
    → (n : Name) → IsUsable n
    → (segs_prefix (acct ∷ (b'g' ∷ []) ∷ []) (segs_of n)
        && not (segs_lt (segs_of n) (acct ∷ (b'g' ∷ []) ∷ encode_int64 (since + 1) ∷ [])))
      ≡ is_later acct since n
unfolding segs_of is_later segs_prefix beq
by_kind acct since ha hs (entry a sequence) (_, hq) = entry_range acct a since sequence hs hq
by_kind acct since ha hs (object a t i) h = ground arith
by_kind acct since ha hs (index a t p v o i) h = ground arith
by_kind acct since ha hs (floor a) h = ground arith
by_kind acct since ha hs (counter a) h = ground arith
by_kind acct since ha hs (type_state a t) h = ground arith
by_kind acct since ha hs (tagged t a) h = rw (beq-ne acct tag_seg ha) refl
by_kind acct since ha hs (upload a b) h = ground arith
by_kind acct since ha hs (ref a b t i) h = ground arith
by_kind acct since ha hs (pending a b) h = ground arith

-- Among the keys of the object database whose parts are bytes: the scan of an account's log from
-- `since + 1` visits exactly the log entries of the account that are later than `since`.
pub log_range_covers :
    (acct : Bytes) (since : ℕ) (n : Name)
    → AllBytes acct
    → acct ≢ tag_seg
    → since + 1 < two64
    → AllSegs (segs_of n)
    → IsUsable n
    → in_range (log_range acct since) (key_of n) ≡ is_later acct since n
log_range_covers acct since n ha hacct hs hn u =
    ap (in_range (log_range acct since)) (key_of-segs_of n)
    ∙ segs_range acct since (segs_of n) ha hn
    ∙ by_kind acct since hacct hs n u
