-- ===== src/Telemetry/Acceptance.antt =====
-- What makes a submission acceptable, apart from the code.
use baseline_integrity.Base.{
  ℕ, suc, ◌≡◌, ◌⊎◌, inl, inr, true, false, Option, none, some, List, [], ◌∷◌, is_nil, length, All,
  Text, text_eq_iff, arith, Option-cases,
}
use baseline_integrity.Base.Result.{ok}
use baseline_integrity.Proto.{SignedEnvelope, SessionRef, Histogram}
use baseline_integrity.Crypto.{Primitives, Codec, verify}
use baseline_integrity.Risk.{PlayerAggregates}
use baseline_integrity.Telemetry.{
  SubmitMatchAggregatesRequest, Server, expected_telemetry_schema_id, allowed_key,
}
use baseline_integrity.Telemetry.Submission.{
  check_histograms, check_player, check_players, check_envelope, check_request, unsigned_request,
}

-- A histogram that declares a number of buckets has as many.
abbrev pub HasBuckets : Histogram → Type 0
HasBuckets h = (h.bucket_count ≡ 0) ⊎ (h.bucket_count ≡ length h.buckets)

-- A player of the match, with the expected schema and sound histograms.
abbrev pub IsPlayerOf : {F : Type 0} → Text → Option (PlayerAggregates F) → Type 0
IsPlayerOf match_id none = ⊥
IsPlayerOf match_id (some p) =
    (ref : SessionRef) × (p.ref ≡ some ref)
    × ((is_nil ref.match_id ≡ true) ⊎ (ref.match_id ≡ match_id))
    × (p.telemetry_schema_id ≡ expected_telemetry_schema_id)
    × All HasBuckets p.histograms

check_histograms-none : (hs : List Histogram) → check_histograms hs ≡ none → All HasBuckets hs
unfolding check_histograms
check_histograms-none [] e = tt
check_histograms-none (h ∷ hs) e = ground (arith, check_histograms-none hs)

module _ {F : Type 0} where
  check_player-none :
      (match_id : Text) (i : ℕ) (p : Option (PlayerAggregates F))
      → check_player match_id i p ≡ none
      → IsPlayerOf match_id p
  unfolding check_player
  check_player-none match_id i none e = cc
  check_player-none match_id i (some p) e = elim (Option-cases p.ref) [
    | inl missing ↦ ground arith
    | inr (ref, found) ↦ (
      ref,
      found,
      ground (arith, text_eq_iff ref.match_id match_id),
      ground (arith, text_eq_iff p.telemetry_schema_id expected_telemetry_schema_id),
      check_histograms-none p.histograms (ground arith),
    )
  ]

  check_players-none :
      (match_id : Text) (i : ℕ) (ps : List (Option (PlayerAggregates F)))
      → check_players match_id i ps ≡ none
      → All (IsPlayerOf match_id) ps
  unfolding check_players
  check_players-none match_id i [] e = tt
  check_players-none match_id i (p ∷ ps) e = (
    check_player-none match_id i p (ground arith),
    check_players-none match_id (suc i) ps (ground arith),
  )

module _ {F : Type 0} (C : Primitives) (wire : Codec (SubmitMatchAggregatesRequest F)) where
  -- The envelope signs the request without its signature, under an allowed key.
  abbrev pub IsSignedBy : Server → SubmitMatchAggregatesRequest F → Option SignedEnvelope → Type 0
  IsSignedBy s req none = ⊥
  IsSignedBy s req (some env) =
      (is_nil (allowed_key env.key_id s.allowed_keys) ≡ false)
      × (wire.encode (unsigned_request req) ≡ some env.payload)
      × (C.verify (allowed_key env.key_id s.allowed_keys) env.payload env.signature ≡ true)

  check_envelope-none :
      (s : Server) (req : SubmitMatchAggregatesRequest F) (env : Option SignedEnvelope)
      → check_envelope C wire s req env ≡ ok none
      → IsSignedBy s req env
  unfolding check_envelope verify
  check_envelope-none s req none e = ground arith
  check_envelope-none s req (some env) e =
      elim (Option-cases (wire.encode (unsigned_request req))) [
        | inl bad ↦ ground arith
        | inr (canonical, good) ↦ ground (arith, text_eq_iff canonical env.payload)
      ]

  -- What an acceptable request is, apart from the order of the checks.
  pub record IsAcceptable (s : Server) (req : SubmitMatchAggregatesRequest F) : Type 0 where
    pub has_match_id : is_nil req.match_id ≡ false
    pub has_build_id : is_nil req.game_build_id ≡ false
    pub has_players : is_nil req.players ≡ false
    pub signed : (s.require_sig ≡ false) ⊎ IsSignedBy s req req.server_signature
    pub players : All (IsPlayerOf req.match_id) req.players

  -- A request that passes the checks has its ids and players, every player belongs to the match,
  -- has the expected schema and sound histograms, and where the server requires a signature the
  -- envelope signs the encoding of the request without it, under an allowed key.
  pub check_request_sound :
      (s : Server) (req : SubmitMatchAggregatesRequest F)
      → check_request C wire s req ≡ ok none
      → IsAcceptable s req
  unfolding check_request
  check_request_sound s req e = record {
    has_match_id = ground arith;
    has_build_id = ground arith;
    has_players = ground arith;
    signed = ground (arith, check_envelope-none s req req.server_signature);
    players = check_players-none req.match_id 0 req.players (ground arith);
  }
