-- ===== src/Telemetry.antt =====
-- server/internal/baselineintegrity/telemetry/service.go: `Server`, `NewServer`,
-- `SubmitMatchAggregates`, `parseAllowedServerKeys` and `sanitize`. The two encodings of a request,
-- `proto.Marshal` and `protojson`, the encoding of events, base64 and the formatting of times are
-- parameters.
pub mod Submission
pub mod Acceptance
pub mod Outcome
pub mod Sanitize
pub mod Lines
pub mod Scanning
pub mod RoundTrip
pub mod Storage
pub mod Places
pub mod Durability
pub mod Refusal
pub mod Torn
pub mod AllowedKeys
use baseline_integrity.Base.{
  ℕ, zero, suc, String, Bool, true, false, not, ◌&&◌, ◌||◌, Option, none, some, List, [], ◌∷◌, ◌++◌,
  is_nil, length, leb, ◌==◌, Text, text_eq, option_eq, codes, trim_space, cut, split_at,
  if◌then◌else◌,
}
use baseline_integrity.Base.Result.{
  Code, internal, invalid_argument, Error, message, wrap, status, Result, ok, err, ◌>>=◌ as ◌>>=ᵣ◌,
  on_err, or_err,
}
use baseline_integrity.Proto.{Timestamp, SignedEnvelope, SessionRef, Histogram}
use baseline_integrity.Crypto.{Primitives, Codec, verify}
use baseline_integrity.Os.{
  FilePath, join, Io, pure, raise, raise_if, of_result, wrapping, ◌>>=◌, ◌>>◌, attempt, log,
  time_now, mkdir_all, open_append, write_end,
}
use baseline_integrity.Outbox.{Event, match_finalized, new_event_id, enqueue}
use baseline_integrity.Risk.{PlayerAggregates}

pub record SubmitMatchAggregatesRequest (F : Type 0) : Type 0 where
  pub match_id : Text
  pub game_build_id : Text
  pub match_started_at : Option Timestamp
  pub match_ended_at : Option Timestamp
  pub players : List (Option (PlayerAggregates F))
  pub server_signature : Option SignedEnvelope

-- The reasons of a response, named as their texts are; `player_missing_ref i` is
-- `player_<i>_missing_ref`.
pub data Reason : Type 0 where
  accepted_ok missing_match_id missing_game_build_id missing_players : Reason
  missing_server_signature unknown_server_key_id server_signature_payload_mismatch : Reason
  bad_server_signature nil_player ref_match_id_mismatch schema_id_mismatch : Reason
  histogram_bucket_count_mismatch : Reason
  player_missing_ref : ℕ → Reason

pub record SubmitMatchAggregatesResponse : Type 0 where
  pub accepted : Bool
  pub reason : Reason

pub record Server : Type 0 where
  pub sink_dir : FilePath
  pub require_sig : Bool
  pub allowed_keys : List (Text × Text)

-- The variables that a submission reads, with their defaults filled in.
pub record Settings : Type 0 where
  pub outbox_dir : FilePath
  pub on_finalize_only : Bool
  pub instance_id : Text

abbrev pub expected_telemetry_schema_id : Text
expected_telemetry_schema_id = codes "baselineintegrity.telemetry.v1"

-- A byte that `[^a-zA-Z0-9._-]` does not match. The bytes of other characters are all above 127.
unfoldable pub is_safe : ℕ → Bool
is_safe c =
    (leb b'a' c && leb c b'z')
    || (leb b'A' c && leb c b'Z')
    || (leb b'0' c && leb c b'9')
    || c == b'.'
    || c == b'_'
    || c == b'-'

-- `ReplaceAllString` with `_`; the flag says that the run of matches goes on.
unfoldable pub replace_unsafe : Bool → Text → Text
replace_unsafe in_run [] = []
replace_unsafe in_run (c ∷ s) =
    let safe = c ∷ replace_unsafe false s in
    let unsafe = replace_unsafe true s in
    if is_safe c then safe else if in_run then unsafe else b'_' ∷ unsafe

unfoldable pub sanitize : Text → Text
unfolding replace_unsafe
sanitize s = if is_nil s then codes "empty" else replace_unsafe false s

-- `s.allowedKeys[id]`
unfoldable pub allowed_key : Text → List (Text × Text) → Text
allowed_key id [] = []
allowed_key id ((k, v) ∷ keys) = let rest = allowed_key id keys in if text_eq id k then v else rest

-- `m[id] = pub`
unfoldable pub set_key : Text → Text → List (Text × Text) → List (Text × Text)
set_key id v [] = (id, v) ∷ []
set_key id v ((k, w) ∷ keys) =
    let rest = set_key id v keys in if text_eq k id then (id, v) ∷ keys else (k, w) ∷ rest

-- One entry of the list of keys; `base64` decodes or refuses.
unfoldable pub parse_key : (Text → Option Text) → Text → Result (Text × Text)
parse_key base64 entry =
    or_err (cut b':' entry) (message "bad key entry (want keyId:base64pub)") >>=ᵣ λ kv.
    or_err (base64 (trim_space kv.1)) (wrap "decode pubkey" (message "base64")) >>=ᵣ λ v.
    if length v == 32 then ok (trim_space kv.0, v) else err (message "pubkey wrong length")

unfoldable pub parse_keys :
    (Text → Option Text) → List Text → List (Text × Text) → Result (List (Text × Text))
unfolding parse_key set_key
parse_keys base64 [] m = ok m
parse_keys base64 (p ∷ parts) m =
    let entry = trim_space p in
    let skip = parse_keys base64 parts m in
    let take = parse_key base64 entry >>=ᵣ λ kv. parse_keys base64 parts (set_key kv.0 kv.1 m) in
    if is_nil entry then skip else take

unfoldable pub parse_allowed_server_keys : (Text → Option Text) → Text → Result (List (Text × Text))
unfolding parse_keys
parse_allowed_server_keys base64 s =
    let trimmed = trim_space s in
    if is_nil trimmed then ok [] else parse_keys base64 (split_at b',' trimmed) []

-- `NewServer`, given the values of its environment variables.
unfoldable pub new_server : (Text → Option Text) → FilePath → Text → Text → Io Server
new_server base64 d require_sig pubkeys = do
  wrapping (wrap "mkdir telemetry sink") (mkdir_all d)
  allowed ←
      of_result
        (on_err (wrap "parse telemetry server pubkeys") (parse_allowed_server_keys base64 pubkeys))
  pure (record {
    sink_dir = d;
    require_sig = text_eq require_sig (codes "1");
    allowed_keys = allowed;
  })
