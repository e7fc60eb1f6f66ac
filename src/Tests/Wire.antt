-- ===== src/Tests/Wire.antt =====
-- A concrete cryptography and a concrete encoding of tokens, which have what the model asks of its
-- parameters.
use mathlib.Core.List.{append_assoc, append-nil}
use baseline_integrity.Base.{
  ◌∙◌, ℕ, zero, suc, ◌≡◌, refl, sym, ap, Option, none, some, List, [], ◌∷◌, ◌++◌, length, Text,
  text_eq, text_eq_refl, ◌==◌, if◌then◌else◌, tabulate, length-tabulate, arith,
}
use baseline_integrity.Proto.{
  TrustTier, tier_unspecified, tier_open, tier_verified, tier_tournament, tier_unrecognized,
  SessionRef, Timestamp, SignedEnvelope, TierToken,
}
use baseline_integrity.Crypto.{Primitives, IsLawful, Codec, RoundTrips}

-- The first `n` bytes, or fewer, filled up with zeros.
unfoldable pub pad : ℕ → Text → Text
pad zero s = []
pad (suc n) [] = 0 ∷ pad n []
pad (suc n) (c ∷ s) = c ∷ pad n s

length-pad : (n : ℕ) (s : Text) → length (pad n s) ≡ n
unfolding pad
length-pad zero s = refl
length-pad (suc n) [] = ap suc (length-pad n [])
length-pad (suc n) (c ∷ s) = ap suc (length-pad n s)

-- The public key is the first half of the private key; a signature repeats it with the payload.
abbrev pub toy_crypto : Primitives
toy_crypto = record {
  public = pad 32;
  sign = λ priv payload. pad 64 (pad 32 priv ++ payload);
  verify = λ key payload sig. text_eq sig (pad 64 (key ++ payload));
  sha256 = pad 32;
  generate = tabulate 64;
}

pub toy_crypto-IsLawful : IsLawful toy_crypto
toy_crypto-IsLawful = record {
  verify-sign = λ bytes payload. text_eq_refl (pad 64 (pad 32 (tabulate 64 bytes) ++ payload));
  length-sign = λ priv payload h. length-pad 64 (pad 32 priv ++ payload);
  length-generate = length-tabulate 64;
  length-public = λ priv h. length-pad 32 priv;
}

-- Words, each with its length before it.
unfoldable pub flatten : List Text → Text
flatten [] = []
flatten (w ∷ ws) = length w ∷ (w ++ flatten ws)

abbrev onto : ℕ → Option (Text × Text) → Option (Text × Text)
onto c none = none
onto c (some (a, b)) = some (c ∷ a, b)

unfoldable take_word : ℕ → Text → Option (Text × Text)
take_word zero s = some ([], s)
take_word (suc n) [] = none
take_word (suc n) (c ∷ s) = onto c (take_word n s)

take_word-append : (w rest : Text) → take_word (length w) (w ++ rest) ≡ some (w, rest)
unfolding take_word
take_word-append [] rest = refl
take_word-append (c ∷ w) rest = rw (take_word-append w rest)

abbrev with_word : Text → Option (List Text) → Option (List Text)
with_word w none = none
with_word w (some ws) = some (w ∷ ws)

unfoldable pub words : ℕ → Text → Option (List Text)
unfolding take_word
words zero s = some []
words (suc n) [] = none
words (suc n) (k ∷ s) = elim (take_word k s) [
  | none ↦ none
  | some (w, rest) ↦ with_word w (words n rest)
]

pub words-flatten-append :
    (ws : List Text) (rest : Text) → words (length ws) (flatten ws ++ rest) ≡ some ws
unfolding words flatten
words-flatten-append [] rest = refl
words-flatten-append (w ∷ ws) rest = ground (
  arith,
  append_assoc w (flatten ws) rest,
  take_word-append w (flatten ws ++ rest),
  words-flatten-append ws rest,
)

pub words-flatten : (ws : List Text) → words (length ws) (flatten ws) ≡ some ws
words-flatten ws =
    ap (words (length ws)) (sym (append-nil (flatten ws))) ∙ words-flatten-append ws []

-- The fields of a message as words; a word of its own says whether it is there.
abbrev pub ref_words : Option SessionRef → List Text → List Text
ref_words none ws = [] ∷ [] ∷ [] ∷ [] ∷ ws
ref_words (some r) ws = (1 ∷ []) ∷ r.session_id ∷ r.match_id ∷ r.player_id ∷ ws

abbrev pub tier_word : TrustTier → Text
tier_word tier_unspecified = 0 ∷ []
tier_word tier_open = 1 ∷ []
tier_word tier_verified = 2 ∷ []
tier_word tier_tournament = 3 ∷ []
tier_word (tier_unrecognized n) = 4 ∷ n ∷ []

abbrev pub time_word : Option Timestamp → Text
time_word none = []
time_word (some t) = t.seconds ∷ t.nanos ∷ []

abbrev pub envelope_words : Option SignedEnvelope → List Text
envelope_words none = [] ∷ [] ∷ [] ∷ [] ∷ [] ∷ []
envelope_words (some e) = (1 ∷ []) ∷ e.key_id ∷ e.payload ∷ e.signature ∷ time_word e.signed_at ∷ []

abbrev pub token_words : TierToken → List Text
token_words t = ref_words t.ref (
    tier_word t.tier
    ∷ t.nonce_hash
    ∷ time_word t.issued_at
    ∷ time_word t.expires_at
    ∷ envelope_words t.signature)

abbrev pub ref_of : Text → Text → Text → Text → Option SessionRef
ref_of [] s m p = none
ref_of (c ∷ w) s m p = some (record { session_id = s; match_id = m; player_id = p })

abbrev pub tier_of : Text → TrustTier
tier_of [] = tier_unspecified
tier_of (_ ∷ n ∷ _) = tier_unrecognized n
tier_of (k ∷ []) =
    if k == 0
    then tier_unspecified
    else if k == 1
    then tier_open
    else if k == 2
    then tier_verified
    else tier_tournament

abbrev pub time_of : Text → Option Timestamp
time_of (s ∷ n ∷ []) = some (record { seconds = s; nanos = n })
time_of _ = none

abbrev pub envelope_of : Text → Text → Text → Text → Text → Option SignedEnvelope
envelope_of [] k p s t = none
envelope_of (c ∷ w) k p s t =
    some (record { key_id = k; payload = p; signature = s; signed_at = time_of t })

abbrev pub token_of : Option (List Text) → Option TierToken
token_of (some (r ∷ sid ∷ mid ∷ pid ∷ tier ∷ h ∷ i ∷ x ∷ e ∷ k ∷ p ∷ sig ∷ at ∷ [])) =
    some (record {
      ref = ref_of r sid mid pid;
      tier = tier_of tier;
      nonce_hash = h;
      issued_at = time_of i;
      expires_at = time_of x;
      signature = envelope_of e k p sig at;
    })
token_of _ = none

abbrev pub token_codec : Codec TierToken
token_codec = record {
  encode = λ t. some (flatten (token_words t));
  decode = λ s. token_of (words 13 s);
}

tier_of-tier_word : (t : TrustTier) → tier_of (tier_word t) ≡ t
tier_of-tier_word tier_unspecified = refl
tier_of-tier_word tier_open = refl
tier_of-tier_word tier_verified = refl
tier_of-tier_word tier_tournament = refl
tier_of-tier_word (tier_unrecognized n) = refl

time_of-time_word : (o : Option Timestamp) → time_of (time_word o) ≡ o
time_of-time_word none = refl
time_of-time_word (some t) = refl

length-token_words : (t : TierToken) → length (token_words t) ≡ 13
length-token_words t = parts t.ref t.signature
  where
    parts :
        (r : Option SessionRef) (e : Option SignedEnvelope)
        → length (token_words (record t { ref = r; signature = e })) ≡ 13
    parts none none = refl
    parts none (some e) = refl
    parts (some r) none = refl
    parts (some r) (some e) = refl

token_of-token_words : (t : TierToken) → token_of (some (token_words t)) ≡ some t
token_of-token_words t = parts t.ref t.signature
  where
    parts :
        (r : Option SessionRef) (e : Option SignedEnvelope)
        → token_of (some (token_words (record t { ref = r; signature = e })))
          ≡ some (record t { ref = r; signature = e })
    parts none none =
        rw (tier_of-tier_word t.tier, time_of-time_word t.issued_at, time_of-time_word t.expires_at)
    parts none (some e) = rw (
      tier_of-tier_word t.tier,
      time_of-time_word t.issued_at,
      time_of-time_word t.expires_at,
      time_of-time_word e.signed_at,
    )
    parts (some r) none =
        rw (tier_of-tier_word t.tier, time_of-time_word t.issued_at, time_of-time_word t.expires_at)
    parts (some r) (some e) = rw (
      tier_of-tier_word t.tier,
      time_of-time_word t.issued_at,
      time_of-time_word t.expires_at,
      time_of-time_word e.signed_at,
    )

decode-encode_words :
    (t : TierToken) (ws : List Text)
    → token_words t ≡ ws
    → length ws ≡ 13
    → token_of (words 13 (flatten ws)) ≡ some t
decode-encode_words t ws e size = rw (sym size, words-flatten ws, sym e, token_of-token_words t)

pub token_codec-RoundTrips : RoundTrips token_codec
token_codec-RoundTrips = record {
  decode-encode =
      λ t b e. ground (arith, e, decode-encode_words t (token_words t) refl (length-token_words t));
}
