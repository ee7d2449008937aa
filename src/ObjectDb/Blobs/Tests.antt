-- ===== src/ObjectDb/Blobs/Tests.antt =====
-- A sweep that finds one blob, uploaded long before.
use naust_jmap.Prelude.{
  ℕ, zero, suc, ◌+◌, ◌*◌, ◌≡◌, ◌≢◌, refl, sym, ap, ◌∙◌, inl, inr, if◌then◌else◌, true, false,
  Bool-cases, List, [], ◌∷◌, none, some, Bytes, beq, arith,
}
use naust_jmap.Backend.{Op, set_op, delete_op}
use naust_jmap.KeyEnc.{key, key_loop, segment, segment_loop, segment_byte}
use naust_jmap.ObjectDb.Keys.{upload_key, pending_key, tag_seg}
use naust_jmap.ObjectDb.Changes.{seen}
use naust_jmap.ObjectDb.Indexing.References.{View, HasHints, apply, pending-upload}
use naust_jmap.ObjectDb.Blobs.{
  Format, BlobStore, Swept, blob_upload, record_upload, with_upload, second,
}
use naust_jmap.ObjectDb.Blobs.Touched.{beq-upload, beq-pending}
use naust_jmap.ObjectDb.Blobs.Hints.{record_upload-HasHints}

abbrev account : Bytes
account = 7 ∷ []

abbrev photo : Bytes
photo = 9 ∷ []

-- The upload time, and each name with its bytes shifted by one and a zero at its end.
abbrev put_name : Bytes → Bytes → Bytes
put_name [] rest = 0 ∷ rest
put_name (b ∷ bs) rest = suc b ∷ put_name bs rest

abbrev put_names : List Bytes → Bytes
put_names [] = []
put_names (n ∷ ns) = put_name n (put_names ns)

abbrev add_byte : ℕ → List Bytes → List Bytes
add_byte b [] = (b ∷ []) ∷ []
add_byte b (n ∷ ns) = (b ∷ n) ∷ ns

abbrev get_names : Bytes → List Bytes
get_names [] = []
get_names (zero ∷ bs) = [] ∷ get_names bs
get_names (suc b ∷ bs) = add_byte b (get_names bs)

get_name-put_name : (n rest : Bytes) → get_names (put_name n rest) ≡ n ∷ get_names rest
get_name-put_name [] rest = refl
get_name-put_name (b ∷ bs) rest = ap (add_byte b) (get_name-put_name bs rest)

get_names-put_names : (ns : List Bytes) → get_names (put_names ns) ≡ ns
get_names-put_names [] = refl
get_names-put_names (n ∷ ns) =
    get_name-put_name n (put_names ns) ∙ ap (◌∷◌ n) (get_names-put_names ns)

abbrev plain : Format
plain = record {
  encode = λ r. r.uploaded_at ∷ put_names r.uploaders;
  decode = λ raw. elim raw [
    | [] ↦ none
    | t ∷ bs ↦ some (record { uploaded_at = t; uploaders = get_names bs })
  ];
  decode-encode = λ r.
      ap (λ ns. some (record { uploaded_at = r.uploaded_at; uploaders = ns }))
        (get_names-put_names r.uploaders);
}

abbrev contents : BlobStore
contents = record {
  fenced = false;
  append_delete = λ b. none;
  delete = λ b. true;
  append_delete-spares = λ b ops n cur e. absurd (ground arith);
}

-- The photo was uploaded at the start of time, and is a candidate.
abbrev keys : List Bytes
keys = pending_key account photo ∷ upload_key account photo ∷ []

abbrev held : View
held k =
    if beq (pending_key account photo) k
    then some []
    else if beq (upload_key account photo) k
    then some (0 ∷ [])
    else none

account-ne : account ≢ tag_seg
account-ne h = cc

abbrev hour : ℕ
hour = 3600 * second

abbrev gone : Swept
gone = record {
  ops = delete_op (upload_key account photo) ∷ delete_op (pending_key account photo) ∷ [];
  deleted = photo ∷ [];
  more = false;
}

held-HasHints : HasHints account held
held-HasHints b bytes free up =
    elim (Bool-cases (beq (pending_key account photo) (pending_key account b))) [
      | inl p ↦ rw p (λ e. ground arith)
      | inr np ↦ absurd (
          up (
            rw
              (
                pending-upload account account-ne photo b,
                beq-upload account account-ne photo b,
                sym (beq-pending account account-ne photo b) ∙ np,
              )
              refl))
    ]

abbrev uploaded : List Op
uploaded =
    set_op (upload_key account photo)
      (some (plain.encode (record { uploaded_at = hour; uploaders = (5 ∷ []) ∷ [] })))
    ∷ set_op (pending_key account photo) none
    ∷ []

upload_photo : record_upload plain held account photo (5 ∷ []) (hour + 3) ≡ some uploaded
unfolding record_upload blob_upload with_upload upload_key pending_key key key_loop segment
    segment_loop segment_byte beq seen
upload_photo = refl

record_upload-HasHints_example : HasHints account (apply uploaded held)
record_upload-HasHints_example =
    record_upload-HasHints account account-ne plain held photo (5 ∷ []) (hour + 3) uploaded
      upload_photo held-HasHints
