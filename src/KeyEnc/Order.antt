-- ===== src/KeyEnc/Order.antt =====
-- Keys compare as lists of segments do.
use naust_jmap.Prelude.{
  ◌≡◌, refl, sym, ap, ◌∙◌, Bool, true, false, ◌&&◌, ◌||◌, List, [], ◌∷◌, Bytes, beq, blt, beq_iff,
  arith, blt_irrefl, blt_total,
}
use naust_jmap.KeyEnc.{key}
use naust_jmap.KeyEnc.Layout.{enc, enc_all, key-enc_nil}

-- The order of segment lists: segment by segment, a shorter list before its extensions.
unfoldable pub segs_lt : List Bytes → List Bytes → Bool
segs_lt [] [] = false
segs_lt [] (t ∷ ts) = true
segs_lt (s ∷ ss) [] = false
segs_lt (s ∷ ss) (t ∷ ts) = blt s t || (beq s t && segs_lt ss ts)

blt-enc : (s t x y : Bytes) → blt (enc s x) (enc t y) ≡ (blt s t || (beq s t && blt x y))
unfolding blt beq
blt-enc [] [] x y = ground arith
blt-enc [] (b ∷ t) x y = ground arith
blt-enc (a ∷ s) [] x y = ground arith
blt-enc (a ∷ s) (b ∷ t) x y = ground (arith, blt-enc s t x y)

blt-enc_all : (ss ts : List Bytes) → blt (enc_all ss []) (enc_all ts []) ≡ segs_lt ss ts
unfolding segs_lt
blt-enc_all [] [] = unfold blt in refl
blt-enc_all [] (t ∷ ts) = enc_pos t
  where
    enc_pos : (t : Bytes) → blt [] (enc t (enc_all ts [])) ≡ true
    enc_pos [] = unfold blt in refl
    enc_pos (b ∷ t) = unfold blt in ground arith
blt-enc_all (s ∷ ss) [] = enc_pos s
  where
    enc_pos : (s : Bytes) → blt (enc s (enc_all ss [])) [] ≡ false
    enc_pos [] = unfold blt in refl
    enc_pos (b ∷ s) = unfold blt in ground arith
blt-enc_all (s ∷ ss) (t ∷ ts) = rw blt-enc (ap (λ b. blt s t || (beq s t && b)) (blt-enc_all ss ts))

-- One key sorts before another, in the byte order of the backend, exactly when its segment list
-- comes first: segment by segment in byte order, and a list of segments before its extensions.
pub key_order : (ss ts : List Bytes) → blt (key ss) (key ts) ≡ segs_lt ss ts
key_order ss ts = rw (key-enc_nil ss, key-enc_nil ts) (blt-enc_all ss ts)

segs_lt_total : (ss ts : List Bytes) → segs_lt ss ts ≡ false → segs_lt ts ss ≡ false → ss ≡ ts
unfolding segs_lt
segs_lt_total [] [] h k = refl
segs_lt_total [] (t ∷ ts) h k = cc
segs_lt_total (s ∷ ss) [] h k = cc
segs_lt_total (s ∷ ss) (t ∷ ts) h k =
    ground (arith, blt_total s t, beq_iff s t, beq_iff t s, segs_lt_total ss ts)

-- Two lists of segments with the same key are the same list: no content of a segment can forge a
-- separator or run into the segment behind it.
pub key_injective : (ss ts : List Bytes) → key ss ≡ key ts → ss ≡ ts
key_injective ss ts e =
    segs_lt_total ss ts (sym (key_order ss ts) ∙ rw e (blt_irrefl (key ts)))
      (sym (key_order ts ss) ∙ rw e (blt_irrefl (key ts)))
