-- ===== src/Telemetry/Outcome.antt =====
-- The outcome of `SubmitMatchAggregates`, in any world and under any faults.
use baseline_integrity.Base.{ℕ, ◌≡◌, refl, true, false, none, some, Text, arith}
use baseline_integrity.Base.Result.{Result, ok, err}
use baseline_integrity.Crypto.{Primitives, Codec}
use baseline_integrity.Os.{World}
use baseline_integrity.Outbox.{Event}
use baseline_integrity.Telemetry.{
  SubmitMatchAggregatesRequest, SubmitMatchAggregatesResponse, Server, Settings,
}
use baseline_integrity.Telemetry.Submission.{
  Refusal, check_request, store_request, respond, submit_match_aggregates,
}
use baseline_integrity.Telemetry.Acceptance.{IsAcceptable, check_request_sound}

module _ {F : Type 0} (C : Primitives) (wire json : Codec (SubmitMatchAggregatesRequest F))
    (events : Codec Event) (format_time : ℕ → Text) (s : Server) (settings : Settings)
    (req : SubmitMatchAggregatesRequest F) where
  pub respond-accepted :
      (r : Result Refusal) (w w' : World) (resp : SubmitMatchAggregatesResponse)
      → respond C wire json events format_time s settings req r w ≡ (ok resp, w')
      → resp.accepted ≡ true
      → r ≡ ok none
  respond-accepted (err e) w w' resp h a = ground arith
  respond-accepted (ok (some r)) w w' resp h a = ground arith
  respond-accepted (ok none) w w' resp h a = refl

  -- A response that accepts a request is given only for one that is acceptable: it has its ids and
  -- players, each player belongs to the match with the expected schema and sound histograms, and
  -- the signature verifies where one is required.
  pub submit-accepted :
      (w w' : World) (resp : SubmitMatchAggregatesResponse)
      → submit_match_aggregates C wire json events format_time s settings (some req) w
        ≡ (ok resp, w')
      → resp.accepted ≡ true
      → IsAcceptable C wire s req
  unfolding submit_match_aggregates
  submit-accepted w w' resp h a =
      check_request_sound C wire s req (respond-accepted (check_request C wire s req) w w' resp h a)

  store_request-accepted :
      (w w' : World) (resp : SubmitMatchAggregatesResponse)
      → store_request C wire json events format_time s settings req w ≡ (ok resp, w')
      → resp.accepted ≡ true
  unfolding store_request
  store_request-accepted w w' resp h = ground arith

  respond-refused :
      (r : Result Refusal) (w w' : World) (resp : SubmitMatchAggregatesResponse)
      → respond C wire json events format_time s settings req r w ≡ (ok resp, w')
      → resp.accepted ≡ false
      → w' ≡ w
  respond-refused (err e) w w' resp h a = ground arith
  respond-refused (ok (some r)) w w' resp h a = ground arith
  respond-refused (ok none) w w' resp h a = ground (arith, store_request-accepted w w' resp h)

  -- A response that refuses a request has changed nothing: no file, no event, no reading of the
  -- clock.
  pub submit-refused :
      (w w' : World) (resp : SubmitMatchAggregatesResponse)
      → submit_match_aggregates C wire json events format_time s settings (some req) w
        ≡ (ok resp, w')
      → resp.accepted ≡ false
      → w' ≡ w
  unfolding submit_match_aggregates
  submit-refused w w' resp h a = respond-refused (check_request C wire s req) w w' resp h a
