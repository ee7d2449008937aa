-- ===== src/KeyEnc/Tests.antt =====
-- Runs of the key encoding on concrete segments.
use naust_jmap.Prelude.{◌≡◌, refl, true, List, [], ◌∷◌, Bytes, beq, blt, arith}
use naust_jmap.KeyEnc.{segment_byte, segment_loop, segment, key_loop, key, prefix_range}
use naust_jmap.KeyEnc.Order.{segs_lt, key_order}
use naust_jmap.KeyEnc.Range.{in_range, segs_prefix, prefix_range_covers}

abbrev account : Bytes
account = 65 ∷ []

abbrev zeros : List Bytes
zeros = account ∷ (0 ∷ 0 ∷ []) ∷ []

abbrev longer : List Bytes
longer = account ∷ (0 ∷ 0 ∷ []) ∷ [] ∷ []

key-zeros : key zeros ≡ 65 ∷ 0 ∷ 1 ∷ 0 ∷ 255 ∷ 0 ∷ 255 ∷ 0 ∷ 1 ∷ []
unfolding key key_loop segment segment_loop segment_byte
key-zeros = refl

key_order_example : blt (key zeros) (key longer) ≡ true
unfolding segs_lt blt beq
key_order_example = key_order zeros longer

prefix_range_covers_example : in_range (prefix_range (account ∷ [])) (key zeros) ≡ true
unfolding segs_prefix beq
prefix_range_covers_example =
    prefix_range_covers (account ∷ []) zeros ((omega arith, tt), tt)
      ((omega arith, tt), ((omega arith, (omega arith, tt)), tt))
