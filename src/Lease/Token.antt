-- ===== src/Lease/Token.antt =====
-- core/providers/lease/storelease.go: the claim tokens. How time.RFC3339Nano and base 36 write a
-- number is an interface: what the code relies on are its laws. Times are nanoseconds.
use naust_jmap.Prelude.{
  ℕ, suc, ◌<◌, ◌≡◌, refl, sym, ap, ◌∙◌, ◌==◌, if◌then◌else◌, Bool-cases, inl, inr, [], ◌∷◌, ◌++◌,
  Option, none, some, Bytes, length, take, drop, take-append, drop-append, arith,
}
use mathlib.Core.Option

-- bytes.IndexByte; `none` is -1.
unfoldable pub index_byte : Bytes → ℕ → Option ℕ
index_byte [] c = none
index_byte (b ∷ bs) c =
    let rest = Option.map suc (index_byte bs c) in if b == c then some 0 else rest

-- The first nanosecond of the year 10000, which RFC 3339 cannot write.
abbrev pub year_10000 : ℕ
year_10000 = 253402300800000000000

pub record Format : Type 0 where
  -- exp.UTC().Format(time.RFC3339Nano) and time.Parse(time.RFC3339Nano, s)
  pub time_text : ℕ → Bytes
  pub parse_time : Bytes → Option ℕ
  -- strconv.FormatUint(n, 36)
  pub uint_text : ℕ → Bytes
  pub parse-time : (t : ℕ) → t < year_10000 → parse_time (time_text t) ≡ some t
  pub time_bar : (t : ℕ) → index_byte (time_text t) b'|' ≡ none
  pub uint_injective : (m n : ℕ) → uint_text m ≡ uint_text n → m ≡ n

module _ (f : Format) where
  -- mintToken, with the value that seq.Add(1) returns.
  unfoldable pub mint_token : Bytes → ℕ → ℕ → Bytes
  mint_token nonce seq exp = f.time_text exp ++ b'|' ∷ (nonce ++ b'-' ∷ f.uint_text seq)

  -- parseClaimExpiry; a nil claim has no bytes.
  unfoldable pub parse_claim_expiry : Option Bytes → Option ℕ
  parse_claim_expiry none = none
  parse_claim_expiry (some claim) = elim (index_byte claim b'|') [
    | none ↦ none
    | some i ↦ f.parse_time (take i claim)
  ]

map-none : (o : Option ℕ) → Option.map suc o ≡ none → o ≡ none
map-none none h = refl
map-none (some i) h = cc

index_byte-append :
    (xs ys : Bytes) (c : ℕ)
    → index_byte xs c ≡ none
    → index_byte (xs ++ c ∷ ys) c ≡ some (length xs)
unfolding index_byte
index_byte-append [] ys c h = ground arith
index_byte-append (x ∷ xs) ys c h = elim (Bool-cases (x == c)) [
  | inl hit ↦ ground arith
  | inr miss ↦
      rw miss (
        ap (Option.map suc) (index_byte-append xs ys c (map-none (index_byte xs c) (rw miss at h))))
]

drop-append_cons : (xs ys : Bytes) (c : ℕ) → drop (suc (length xs)) (xs ++ c ∷ ys) ≡ ys
drop-append_cons [] ys c = refl
drop-append_cons (x ∷ xs) ys c = drop-append_cons xs ys c

append_split :
    (xs ys vs ws : Bytes) → length xs ≡ length ys → xs ++ vs ≡ ys ++ ws → (xs ≡ ys) × (vs ≡ ws)
append_split xs ys vs ws l e = (
  sym (take-append xs vs) ∙ rw (l, e) (take-append ys ws),
  sym (drop-append xs vs) ∙ rw (l, e) (drop-append ys ws),
)

after_bar : Bytes → Bytes
after_bar xs = elim (index_byte xs b'|') [ none ↦ [] | some i ↦ drop (suc i) xs ]

after_bar-append : (xs ys : Bytes) → index_byte xs b'|' ≡ none → after_bar (xs ++ b'|' ∷ ys) ≡ ys
unfolding after_bar
after_bar-append xs ys h =
    rw (index_byte-append xs ys b'|' h, after_bar) (drop-append_cons xs ys b'|')

module _ (f : Format) where
  -- A deadline before the year 10000 that a token was minted with is the one that is read back.
  pub parse-mint :
      (nonce : Bytes) (seq exp : ℕ)
      → exp < year_10000
      → parse_claim_expiry f (some (mint_token f nonce seq exp)) ≡ some exp
  unfolding mint_token parse_claim_expiry
  parse-mint nonce seq exp before =
      rw
        (
          index_byte-append (f.time_text exp) (nonce ++ b'-' ∷ f.uint_text seq) b'|'
              (f.time_bar exp),
          parse_claim_expiry,
        )
        (rw take-append (f.parse-time exp before))

  -- Two equal tokens with nonces of one length have the same nonce and the same count: tokens of
  -- two processes, or of two mints of one process, differ.
  pub mint_injective :
      (n n' : Bytes) (s s' e e' : ℕ)
      → length n ≡ length n'
      → mint_token f n s e ≡ mint_token f n' s' e'
      → (n ≡ n') × (s ≡ s')
  unfolding mint_token
  mint_injective n n' s s' e e' l p = (parts.0, f.uint_injective s s' (ap (drop 1) parts.1))
    where
      parts : (n ≡ n') × (b'-' ∷ f.uint_text s ≡ b'-' ∷ f.uint_text s')
      parts = append_split n n' _ _ l (
          sym (after_bar-append (f.time_text e) _ (f.time_bar e))
          ∙ ap after_bar p
          ∙ after_bar-append (f.time_text e') _ (f.time_bar e'))
