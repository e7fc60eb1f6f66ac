-- ===== src/Tests/Sink.antt =====
-- An accepted submission and the load of its match at a concrete input, with a concrete printing of
-- requests: those with one player, no times and no signature, and without line feeds.
use baseline_integrity.Base.{
  ℕ, suc, ◌+◌, ◌-◌, ◌≡◌, refl, true, false, none, some, Option, List, [], ◌∷◌, ◌++◌, length, all,
  Text, codes, if◌then◌else◌, arith, text_eq, inl, inr, Option-cases, ap, sym,
}
use baseline_integrity.Base.Int.{ℤ}
use baseline_integrity.Base.Result.{ok, not_exist}
use baseline_integrity.Crypto.{Codec}
use baseline_integrity.Proto.{SessionRef, Timestamp, SignedEnvelope, Counter, Histogram}
use baseline_integrity.Os.{
  World, path_eq, path_lt, lookup, insert, join, open_append, write_end, time_now, mkdir_all,
}
use baseline_integrity.Os.Still.{still}
use baseline_integrity.Outbox.{new_event_id, enqueue}
use baseline_integrity.Risk.{PlayerAggregates, Quantiles}
use baseline_integrity.Telemetry.{
  SubmitMatchAggregatesRequest, Server, Settings, expected_telemetry_schema_id, sanitize, is_safe,
}
use baseline_integrity.Telemetry.Submission.{submit_match_aggregates, accepted_response, sink_path}
use baseline_integrity.Telemetry.Lines.{load_buffer, load_match_requests}
use baseline_integrity.Telemetry.Scanning.{is_not_feed, is_solid}
use baseline_integrity.Telemetry.RoundTrip.{IsObjectText, empty-IsSink}
use baseline_integrity.Telemetry.Durability.{Printing, Holds, submit-load}
use baseline_integrity.Tests.Wire.{toy_crypto, flatten, words, words-flatten-append}
use baseline_integrity.Tests.Services.{event_ids, settings, player, calm}

-- The ids of a player without figures.
unfoldable pub player_words :
    Text
    → Option SessionRef
    → List Counter
    → List Histogram
    → List (Quantiles ℤ)
    → Option (List Text)
player_words schema (some r) [] [] [] = some (r.session_id ∷ r.match_id ∷ r.player_id ∷ schema ∷ [])
player_words _ _ _ _ _ = none

abbrev behind : Text → Text → Option (List Text) → Option (List Text)
behind m b none = none
behind m b (some ws) = some (m ∷ b ∷ ws)

unfoldable pub fields_words :
    Text
    → Text
    → Option Timestamp
    → Option Timestamp
    → List (Option (PlayerAggregates ℤ))
    → Option SignedEnvelope
    → Option (List Text)
unfolding player_words
fields_words m b none none (some p ∷ []) none =
    behind m b (player_words p.telemetry_schema_id p.ref p.counters p.histograms p.quantiles)
fields_words _ _ _ _ _ _ = none

abbrev request_words : SubmitMatchAggregatesRequest ℤ → Option (List Text)
request_words r =
    fields_words r.match_id r.game_build_id r.match_started_at r.match_ended_at r.players
      r.server_signature

abbrev request_of : Option (List Text) → Option (SubmitMatchAggregatesRequest ℤ)
request_of (some (m ∷ b ∷ sid ∷ mid ∷ pid ∷ schema ∷ [])) = some (record {
  match_id = m;
  game_build_id = b;
  match_started_at = none;
  match_ended_at = none;
  players =
      some (record {
        ref = some (record { session_id = sid; match_id = mid; player_id = pid });
        telemetry_schema_id = schema;
        counters = [];
        histograms = [];
        quantiles = [];
      })
      ∷ [];
  server_signature = none;
})
request_of _ = none

-- A text as an object, if it is on one line.
abbrev printed_as : Text → Option Text
printed_as t = if all is_not_feed (t ++ 125 ∷ []) then some (t ++ 125 ∷ []) else none

abbrev print_words : Option (List Text) → Option Text
print_words none = none
print_words (some ws) = printed_as (flatten ws)

abbrev pub json : Codec (SubmitMatchAggregatesRequest ℤ)
json = record { encode = λ r. print_words (request_words r); decode = λ b. request_of (words 6 b) }

player_words-size :
    (schema : Text) (r : Option SessionRef) (cs : List Counter) (hs : List Histogram)
    (qs : List (Quantiles ℤ)) (m b : Text) (ws : List Text)
    → player_words schema r cs hs qs ≡ some ws
    → (length ws ≡ 4)
      × (request_of (some (m ∷ b ∷ ws))
          ≡ some (record {
            match_id = m;
            game_build_id = b;
            match_started_at = none;
            match_ended_at = none;
            players =
                some (record {
                  ref = r;
                  telemetry_schema_id = schema;
                  counters = cs;
                  histograms = hs;
                  quantiles = qs;
                })
                ∷ [];
            server_signature = none;
          }))
unfolding player_words
player_words-size schema (some r) [] [] [] m b ws e =
    let same : r.session_id ∷ r.match_id ∷ r.player_id ∷ schema ∷ [] ≡ ws = ground arith in
    rw (sym same) (refl, refl)
player_words-size schema _ _ _ _ m b ws e = ground arith

fields_words-request :
    (m b : Text) (s e : Option Timestamp) (ps : List (Option (PlayerAggregates ℤ)))
    (sig : Option SignedEnvelope) (ws : List Text)
    → fields_words m b s e ps sig ≡ some ws
    → (length ws ≡ 6)
      × (request_of (some ws)
          ≡ some (record {
            match_id = m;
            game_build_id = b;
            match_started_at = s;
            match_ended_at = e;
            players = ps;
            server_signature = sig;
          }))
unfolding fields_words
fields_words-request m b none none (some p ∷ []) none ws h =
    elim (Option-cases
      (player_words p.telemetry_schema_id p.ref p.counters p.histograms p.quantiles)) [
        | inl odd ↦ ground arith
        | inr (vs, found) ↦
            let same : m ∷ b ∷ vs ≡ ws = ground (arith, found) in
            let (size, back) =
              player_words-size p.telemetry_schema_id p.ref p.counters p.histograms p.quantiles m b
                vs found in
            rw (sym same) (ap (λ n. suc (suc n)) size, back)
      ]
fields_words-request m b _ _ _ _ ws h = ground arith

printed_as-object :
    (t b : Text) → printed_as t ≡ some b → (b ≡ t ++ 125 ∷ []) × (all is_not_feed b ≡ true)
printed_as-object t b e = (ground arith, ground arith)

print_words-object : (o : Option (List Text)) (b : Text) → print_words o ≡ some b → IsObjectText b
print_words-object none b e = cc
print_words-object (some ws) b e =
    let (same, one) = printed_as-object (flatten ws) b e in (flatten ws, same, one)

json-decode :
    (r : SubmitMatchAggregatesRequest ℤ) (o : Option (List Text)) (b : Text)
    → request_words r ≡ o
    → print_words o ≡ some b
    → request_of (words 6 b) ≡ some r
json-decode r none b e h = cc
json-decode r (some ws) b e h =
    let (size, back) =
      fields_words-request r.match_id r.game_build_id r.match_started_at r.match_ended_at r.players
        r.server_signature ws e in
    let (same, one) = printed_as-object (flatten ws) b h in
    rw (same, sym size, words-flatten-append ws (125 ∷ [])) back

-- An instant as one code that is no white space.
abbrev pub print_time : ℕ → Text
print_time now = (33 + now) ∷ []

abbrev pub read_time : Text → Option ℕ
read_time (c ∷ []) = some (c - 33)
read_time _ = none

print_time-solid : (now : ℕ) → all is_solid (print_time now) ≡ true
unfolding all
print_time-solid now = ground arith

pub json-Printing : Printing json print_time read_time
json-Printing = record {
  stamp = λ now. (refl, print_time-solid now);
  parse-format = λ now. ap some (omega arith);
  object = λ r b e. print_words-object (request_words r) b e;
  round_trips = record { decode-encode = λ r b e. json-decode r (request_words r) b refl e };
}

abbrev pub open_server : Server
open_server = record { sink_dir = codes "telemetry" ∷ []; require_sig = false; allowed_keys = [] }

abbrev eager : Settings
eager = record settings { on_finalize_only = false }

abbrev pub quiet : SubmitMatchAggregatesRequest ℤ
quiet = record {
  match_id = codes "m1";
  game_build_id = codes "b";
  match_started_at = none;
  match_ended_at = none;
  players = some (record player { histograms = []; quantiles = [] }) ∷ [];
  server_signature = none;
}

abbrev pub quiet_text : Text
quiet_text =
    flatten (
      codes "m1"
      ∷ codes "b"
      ∷ codes "s"
      ∷ codes "m1"
      ∷ codes "p"
      ∷ expected_telemetry_schema_id
      ∷ [])
    ++ (125 ∷ [])

-- A world whose sixth call fails, within the push to the outbox.
abbrev shaky : World
shaky = record calm { faults = none ∷ none ∷ none ∷ none ∷ none ∷ some not_exist ∷ [] }

abbrev after_quiet : World
after_quiet =
    (submit_match_aggregates toy_crypto json json event_ids print_time open_server eager
      (some quiet) shaky).1

pub prints : json.encode quiet ≡ some quiet_text
unfolding fields_words player_words flatten all
prints = refl

submits_quiet :
    submit_match_aggregates toy_crypto json json event_ids print_time open_server eager
      (some quiet)
      shaky
    ≡ (ok accepted_response, after_quiet)
unfolding submit_match_aggregates fields_words player_words flatten all text_eq open_append lookup
    path_eq join sanitize is_safe time_now write_end insert path_lt new_event_id enqueue mkdir_all
submits_quiet = refl

shaky-Holds : Holds json read_time (sink_path (codes "telemetry" ∷ []) (codes "m1")) shaky []
unfolding lookup path_eq join sanitize is_safe
shaky-Holds = empty-IsSink json read_time load_buffer

submit-load_example :
    Holds json read_time
      (sink_path (codes "telemetry" ∷ []) (codes "m1"))
      after_quiet
      (record { at = 0; req = quiet } ∷ [])
    × ((load_match_requests json read_time
          (codes "telemetry" ∷ [])
          (codes "m1")
          (still after_quiet.files (λ n. n) 0 [])).0
        ≡ ok (record { at = 0; req = quiet } ∷ []))
unfolding all is_safe flatten
submit-load_example =
    submit-load toy_crypto json json event_ids print_time read_time json-Printing open_server eager
      quiet quiet_text shaky after_quiet accepted_response [] (λ n. n) 0 [] refl refl prints
      (omega arith) shaky-Holds submits_quiet refl
