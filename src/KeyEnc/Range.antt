-- ===== src/KeyEnc/Range.antt =====
-- What a scan between the bounds of PrefixRange covers.
use naust_jmap.Prelude.{
  ℕ, ◌+◌, ◌≡◌, refl, ap, ◌∙◌, Bool, true, false, not, ◌&&◌, if◌then◌else◌, ltb, List, [], ◌∷◌, ◌++◌,
  Option, none, some, Bytes, AllBytes, beq, blt, has_prefix, arith,
}
use mathlib.Core.List.{reverse, reverse-cons, reverse-append}
use naust_jmap.KeyEnc.{key, successor_loop, prefix_successor, prefix_range}
use naust_jmap.KeyEnc.Layout.{enc, enc_all, key-enc_nil}

blt-nil : (k : Bytes) → blt k [] ≡ false
unfolding blt
blt-nil [] = refl
blt-nil (c ∷ k) = refl

-- Backend.Scan visits the keys from `start` on, and below `end` unless that is nil.
abbrev pub below_end : Bytes → Option Bytes → Bool
below_end k none = true
below_end k (some e) = blt k e

abbrev pub in_range : Bytes × Option Bytes → Bytes → Bool
in_range (start, end) k = not (blt k start) && below_end k end

-- The successor, computed from the front.
extend : ℕ → Option Bytes → Option Bytes
extend b none = if ltb b 0xff then some ((b + 1) ∷ []) else none
extend b (some q) = some (b ∷ q)

successor : Bytes → Option Bytes
unfolding extend
successor [] = none
successor (b ∷ p) = extend b (successor p)

successor-range :
    (p k : Bytes) → AllBytes p → AllBytes k → in_range (p, successor p) k ≡ has_prefix p k
unfolding successor blt has_prefix
successor-range [] [] hp hk = refl
successor-range [] (c ∷ k) hp hk = refl
successor-range (b ∷ p) [] hp hk = refl
successor-range (b ∷ p) (c ∷ k) (hb, hp) (hc, hk) =
    ground (arith, successor-range p k hp hk, blt-nil k)

successor_loop-snoc :
    (r : Bytes) (b : ℕ) → successor_loop (r ++ b ∷ []) ≡ extend b (successor_loop r)
unfolding successor_loop extend
successor_loop-snoc [] b = ground arith
successor_loop-snoc (c ∷ r) b =
    ground (arith, successor_loop-snoc r b, reverse-append ((c + 1) ∷ r) (b ∷ []))

prefix_successor-eq : (p : Bytes) → prefix_successor p ≡ successor p
unfolding prefix_successor successor
prefix_successor-eq [] = unfold successor_loop in refl
prefix_successor-eq (b ∷ p) =
    rw reverse-cons (successor_loop-snoc (reverse p) b ∙ ap (extend b) (prefix_successor-eq p))

-- Among byte strings, a scan between a prefix and its PrefixSuccessor visits exactly the keys that
-- start with the prefix; with no successor (all 0xFF) the scan has no upper bound.
pub prefix_successor_range :
    (p k : Bytes) → AllBytes p → AllBytes k → in_range (p, prefix_successor p) k ≡ has_prefix p k
prefix_successor_range p k hp hk = rw prefix_successor-eq (successor-range p k hp hk)

-- The list `ts` begins with the segments `ss`.
unfoldable pub segs_prefix : List Bytes → List Bytes → Bool
segs_prefix [] ts = true
segs_prefix (s ∷ ss) [] = false
segs_prefix (s ∷ ss) (t ∷ ts) = beq s t && segs_prefix ss ts

has_prefix-enc : (s t x y : Bytes) → has_prefix (enc s x) (enc t y) ≡ (beq s t && has_prefix x y)
unfolding has_prefix beq
has_prefix-enc [] [] x y = ground arith
has_prefix-enc [] (b ∷ t) x y = ground arith
has_prefix-enc (a ∷ s) [] x y = ground arith
has_prefix-enc (a ∷ s) (b ∷ t) x y = ground (arith, has_prefix-enc s t x y)

has_prefix-enc_nil : (s x : Bytes) → has_prefix (enc s x) [] ≡ false
unfolding has_prefix
has_prefix-enc_nil [] x = refl
has_prefix-enc_nil (a ∷ s) x = ground arith

has_prefix-enc_all :
    (ss ts : List Bytes) → has_prefix (enc_all ss []) (enc_all ts []) ≡ segs_prefix ss ts
unfolding segs_prefix
has_prefix-enc_all [] ts = unfold has_prefix in refl
has_prefix-enc_all (s ∷ ss) [] = has_prefix-enc_nil s (enc_all ss [])
has_prefix-enc_all (s ∷ ss) (t ∷ ts) =
    rw has_prefix-enc (ap (λ b. beq s t && b) (has_prefix-enc_all ss ts))

abbrev pub AllSegs : List Bytes → Type 0
AllSegs [] = Unit
AllSegs (s ∷ segs) = AllBytes s × AllSegs segs

AllBytes-enc : (s x : Bytes) → AllBytes s → AllBytes x → AllBytes (enc s x)
AllBytes-enc [] x hs hx = (omega arith, (omega arith, hx))
AllBytes-enc (b ∷ s) x (hb, hs) hx = ground (arith, AllBytes-enc s x hs hx)

AllBytes-enc_all : (segs : List Bytes) → AllSegs segs → AllBytes (enc_all segs [])
AllBytes-enc_all [] h = tt
AllBytes-enc_all (s ∷ segs) (hs, h) = AllBytes-enc s (enc_all segs []) hs (AllBytes-enc_all segs h)

-- For segments of bytes: a scan over PrefixRange of `ss` visits the key of `ts` exactly when the
-- list `ts` begins with the segments `ss`, compared whole.
pub prefix_range_covers :
    (ss ts : List Bytes)
    → AllSegs ss
    → AllSegs ts
    → in_range (prefix_range ss) (key ts) ≡ segs_prefix ss ts
unfolding prefix_range
prefix_range_covers ss ts hs ht =
    rw (key-enc_nil ss, key-enc_nil ts)
      (prefix_successor_range (enc_all ss []) (enc_all ts []) (AllBytes-enc_all ss hs)
          (AllBytes-enc_all ts ht)
        ∙ has_prefix-enc_all ss ts)
