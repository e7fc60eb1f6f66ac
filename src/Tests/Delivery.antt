-- ===== src/Tests/Delivery.antt =====
-- A match from its submission to the ledger at a concrete input.
use baseline_integrity.Base.{
  ◌+◌, ◌≡◌, arith, refl, some, [], ◌∷◌, codes, text_eq, list_eq, all, cut, trim_space,
}
use baseline_integrity.Base.Int.{ℤ}
use baseline_integrity.Base.Result.{ok, is_not_exist}
use baseline_integrity.Os.{
  World, dir, lookup, insert, path_eq, path_lt, join, mkdir_all, read_file, write_file, open_append,
  write_end, stat, time_now,
}
use baseline_integrity.Risk.{apply_match_risk, map_aggregates_to_match_risk, add_quantiles}
use baseline_integrity.Risk.Store.{load, save, append_match_line, mark_applied, is_applied}
use baseline_integrity.RiskWorker.{Setup, handler, process_lines}
use baseline_integrity.RiskWorker.Submitted.{IsEntered, submit-ledger}
use baseline_integrity.Telemetry.{sanitize, is_safe}
use baseline_integrity.Telemetry.Submission.{sink_path, submit_match_aggregates, accepted_response}
use baseline_integrity.Telemetry.Durability.{Holds}
use baseline_integrity.Telemetry.Lines.{
  load_buffer, load_match_requests, parse_file, parse_lines, parse_line, raw_lines, scan, drop_cr,
}
use baseline_integrity.Telemetry.RoundTrip.{empty-IsSink}
use baseline_integrity.Tests.Numbers.{whole}
use baseline_integrity.Tests.Scores.{match_ids, finalized}
use baseline_integrity.Tests.Scores.{setup as base_setup}
use baseline_integrity.Tests.Services.{calm, settings, event_ids}
use baseline_integrity.Tests.Sink.{
  json, print_time, read_time, json-Printing, open_server, fields_words, player_words, quiet,
  quiet_text, prints,
}
use baseline_integrity.Tests.Stores.{state_codec}
use baseline_integrity.Tests.Wire.{toy_crypto, flatten, words}

-- A world with both services' directories, and a setup that reads the open server's sink.
abbrev shared_world : World
shared_world = record calm {
  files =
      (codes "r" ∷ [], dir)
      ∷ (codes "players" ∷ codes "r" ∷ [], dir)
      ∷ (codes "telemetry" ∷ [], dir)
      ∷ [];
  clock = λ n. 1000 + n;
}

abbrev shared_setup : Setup ℤ
shared_setup = record base_setup { telemetry_dir = codes "telemetry" ∷ []; finalize_grace = 0 }

abbrev submitted_world : World
submitted_world =
    (submit_match_aggregates toy_crypto json json event_ids print_time open_server settings
      (some quiet) shared_world).1

abbrev entered_world : World
entered_world =
    (handler whole json read_time state_codec match_ids (λ t. codes "day") shared_setup finalized
      submitted_world).1

submits_shared :
    submit_match_aggregates toy_crypto json json event_ids print_time open_server settings
      (some quiet)
      shared_world
    ≡ (ok accepted_response, submitted_world)
unfolding submit_match_aggregates fields_words player_words flatten all text_eq open_append lookup
    path_eq join sanitize is_safe time_now write_end insert path_lt
submits_shared = refl

handles_shared :
    handler whole json read_time state_codec match_ids
      (λ t. codes "day")
      shared_setup
      finalized
      submitted_world
    ≡ (ok tt, entered_world)
unfolding submit_match_aggregates fields_words player_words all sanitize is_safe handler
    load_match_requests parse_file parse_lines parse_line raw_lines scan drop_cr cut trim_space
    words flatten process_lines map_aggregates_to_match_risk add_quantiles load save
    append_match_line mark_applied is_applied stat read_file write_file mkdir_all lookup insert join
    path_eq path_lt open_append write_end text_eq list_eq time_now apply_match_risk is_not_exist
handles_shared = refl

shared-Holds :
    Holds json read_time (sink_path (codes "telemetry" ∷ []) (codes "m1")) shared_world []
unfolding lookup path_eq join sanitize is_safe
shared-Holds = empty-IsSink json read_time load_buffer

submit-ledger_example :
    IsEntered whole match_ids
      (λ t. codes "day")
      shared_setup
      (codes "m1")
      1000
      (record { at = 1000; req = quiet } ∷ [])
      submitted_world
      entered_world
unfolding submit_match_aggregates fields_words player_words flatten all text_eq open_append lookup
    path_eq join sanitize is_safe time_now write_end insert path_lt
submit-ledger_example =
    submit-ledger whole toy_crypto json json event_ids print_time read_time json-Printing
      state_codec match_ids (λ t. codes "day") open_server settings quiet quiet_text shared_world
      submitted_world accepted_response [] shared_setup finalized submitted_world entered_world refl
      refl prints (omega arith) refl shared-Holds submits_shared refl refl refl refl refl refl
      handles_shared
