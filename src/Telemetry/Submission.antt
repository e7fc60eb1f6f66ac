-- ===== src/Telemetry/Submission.antt =====
-- `SubmitMatchAggregates`: the checks of a request, the append to the sink, and the event that goes
-- to the outbox.
use baseline_integrity.Base.{
  ℕ, suc, true, false, not, ◌&&◌, ◌||◌, Option, none, some, List, [], ◌∷◌, ◌++◌, is_nil, length,
  ◌==◌, Text, text_eq, codes, if◌then◌else◌,
}
use baseline_integrity.Base.Result.{internal, invalid_argument, status, Result, ok, err, or_err}
use baseline_integrity.Proto.{SignedEnvelope, Histogram}
use baseline_integrity.Crypto.{Primitives, Codec, verify}
use baseline_integrity.Os.{
  FilePath, join, Io, pure, raise, of_result, wrapping, ◌>>=◌, ◌>>◌, attempt, log, time_now,
  open_append, write_end,
}
use baseline_integrity.Outbox.{Event, match_finalized, new_event_id, enqueue}
use baseline_integrity.Risk.{PlayerAggregates}
use baseline_integrity.Telemetry.{
  SubmitMatchAggregatesRequest, SubmitMatchAggregatesResponse, Reason, accepted_ok,
  missing_match_id, missing_game_build_id, missing_players, missing_server_signature,
  unknown_server_key_id, server_signature_payload_mismatch, bad_server_signature, nil_player,
  ref_match_id_mismatch, schema_id_mismatch, histogram_bucket_count_mismatch, player_missing_ref,
  Server, Settings, expected_telemetry_schema_id, sanitize, allowed_key,
}

-- A reason to refuse, or none.
abbrev pub Refusal : Type 0
Refusal = Option Reason

abbrev pub first_refusal : Refusal → Refusal → Refusal
first_refusal (some r) later = some r
first_refusal none later = later

unfoldable pub check_histograms : List Histogram → Refusal
check_histograms [] = none
check_histograms (h ∷ hs) =
    let rest = check_histograms hs in
    if not (h.bucket_count == 0) && not (h.bucket_count == length h.buckets)
    then some histogram_bucket_count_mismatch
    else rest

abbrev pub unsigned_request :
    {F : Type 0} → SubmitMatchAggregatesRequest F → SubmitMatchAggregatesRequest F
unsigned_request req = record req { server_signature = none }

module _ {F : Type 0} where
  -- The checks on the player at this place of the list.
  unfoldable pub check_player : Text → ℕ → Option (PlayerAggregates F) → Refusal
  unfolding check_histograms
  check_player match_id i none = some nil_player
  check_player match_id i (some p) = elim p.ref [
    | none ↦ some (player_missing_ref i)
    | some ref ↦
        if not (is_nil ref.match_id) && not (text_eq ref.match_id match_id)
        then some ref_match_id_mismatch
        else if not (text_eq p.telemetry_schema_id expected_telemetry_schema_id)
        then some schema_id_mismatch
        else check_histograms p.histograms
  ]

  unfoldable pub check_players : Text → ℕ → List (Option (PlayerAggregates F)) → Refusal
  unfolding check_player
  check_players match_id i [] = none
  check_players match_id i (p ∷ ps) =
      first_refusal (check_player match_id i p) (check_players match_id (suc i) ps)

  -- The checks before the signature.
  unfoldable pub check_fields : SubmitMatchAggregatesRequest F → Refusal
  check_fields req =
      if is_nil req.match_id
      then some missing_match_id
      else if is_nil req.game_build_id
      then some missing_game_build_id
      else if is_nil req.players
      then some missing_players
      else none

module _ {F : Type 0} (C : Primitives) (wire : Codec (SubmitMatchAggregatesRequest F)) where
  -- The signature over the request without its signature.
  unfoldable pub check_envelope :
      Server → SubmitMatchAggregatesRequest F → Option SignedEnvelope → Result Refusal
  check_envelope s req none = ok (some missing_server_signature)
  check_envelope s req (some env) =
      if is_nil env.payload || is_nil env.signature
      then ok (some missing_server_signature)
      else (let pub_key = allowed_key env.key_id s.allowed_keys in
          if is_nil pub_key
          then ok (some unknown_server_key_id)
          else elim (wire.encode (unsigned_request req)) [
            | none ↦ err (status internal "marshal unsigned telemetry")
            | some canonical ↦
                if not (text_eq canonical env.payload)
                then ok (some server_signature_payload_mismatch)
                else elim (verify C pub_key env.payload env.signature) [
                  | err e ↦ err e
                  | ok good ↦ ok (if good then none else some bad_server_signature)
                ]
          ])

  abbrev pub after_refusal : Refusal → Result Refusal → Result Refusal
  after_refusal (some r) later = ok (some r)
  after_refusal none later = later

  unfoldable pub check_signature : Server → SubmitMatchAggregatesRequest F → Result Refusal
  unfolding check_envelope
  check_signature s req =
      if s.require_sig then check_envelope s req req.server_signature else ok none

  abbrev pub then_players : SubmitMatchAggregatesRequest F → Result Refusal → Result Refusal
  then_players req (err e) = err e
  then_players req (ok (some r)) = ok (some r)
  then_players req (ok none) = ok (check_players req.match_id 0 req.players)

  -- All checks, in the order of the handler.
  unfoldable pub check_request : Server → SubmitMatchAggregatesRequest F → Result Refusal
  unfolding check_fields check_signature check_players
  check_request s req = after_refusal (check_fields req) (then_players req (check_signature s req))

-- The file that a match's telemetry goes to.
abbrev pub sink_path : FilePath → Text → FilePath
sink_path d match_id = join d (codes "match_" ++ (sanitize match_id ++ codes ".jsonl"))

abbrev pub accepted_response : SubmitMatchAggregatesResponse
accepted_response = record { accepted = true; reason = accepted_ok }

abbrev pub refused : Reason → SubmitMatchAggregatesResponse
refused r = record { accepted = false; reason = r }

-- `protojson`, `encoding/json` on events, and the rendering of an instant as RFC 3339.
module _ {F : Type 0} (C : Primitives) (wire json : Codec (SubmitMatchAggregatesRequest F))
    (events : Codec Event) (format_time : ℕ → Text) where
  -- The sink: one line, a time stamp and the request, in two writes.
  unfoldable pub append_line : Server → SubmitMatchAggregatesRequest F → Io (Unit {0})
  append_line s req = do
    let path = sink_path s.sink_dir req.match_id
    b ← of_result (or_err (json.encode req) (status internal "marshal telemetry"))
    wrapping (λ e. status internal "open telemetry sink") (open_append path)
    now ← time_now
    wrapping (λ e. status internal "write telemetry sink")
        (write_end path (format_time now ++ (32 ∷ [])))
    wrapping (λ e. status internal "write telemetry sink") (write_end path (b ++ (10 ∷ [])))

  abbrev pub report : Result (Unit {0}) → Io (Unit {0})
  report (ok u) = pure tt
  report (err e) = log "outbox enqueue failed"

  -- The outbox push; its failure is logged, and the submission stands.
  unfoldable pub push_event : Settings → SubmitMatchAggregatesRequest F → Io (Unit {0})
  push_event settings req = do
    id ← new_event_id settings.instance_id req.match_id
    created_at ← time_now
    r ← attempt (
        enqueue events settings.outbox_dir (record {
          id = id;
          type = match_finalized;
          match_id = req.match_id;
          created_at = created_at;
        }))
    report r

  unfoldable pub store_request :
      Server → Settings → SubmitMatchAggregatesRequest F → Io SubmitMatchAggregatesResponse
  unfolding append_line push_event
  store_request s settings req = do
    append_line s req
    if settings.on_finalize_only then pure tt else push_event settings req
    pure accepted_response

  abbrev pub respond :
      Server
      → Settings
      → SubmitMatchAggregatesRequest F
      → Result Refusal
      → Io SubmitMatchAggregatesResponse
  respond s settings req (err e) = raise e
  respond s settings req (ok (some r)) = pure (refused r)
  respond s settings req (ok none) = store_request s settings req

  unfoldable pub submit_match_aggregates :
      Server → Settings → Option (SubmitMatchAggregatesRequest F) → Io SubmitMatchAggregatesResponse
  unfolding store_request check_request
  submit_match_aggregates s settings none = raise (status invalid_argument "missing request")
  submit_match_aggregates s settings (some req) =
      respond s settings req (check_request C wire s req)
