-- ===== src/Tests/Worker.antt =====
-- The risk worker over a tree of files, at concrete inputs.
use baseline_integrity.Base.{
  ◌≡◌, refl, true, false, Option, none, some, List, [], ◌∷◌, codes, has_suffix, if◌then◌else◌,
  text_eq, list_eq, is_nil, filter_by,
}
use baseline_integrity.Base.Int.{ℤ, pos}
use baseline_integrity.Base.Result.{ok, err, not_exist, is_panicked, is_retry_later}
use baseline_integrity.Os.{
  World, file, dir, lookup, insert, erase, path_eq, path_lt, join, has_no_slash, ◌>>◌, entries,
  mkdir_all, read_dir, read_file, write_file, rename, time_now,
}
use baseline_integrity.Os.Keeps.{Keeps}
use baseline_integrity.Os.Still.{still}
use baseline_integrity.Outbox.Atomic.{IsWhole, enqueue-IsWhole}
use baseline_integrity.Outbox.{enqueue, claim_one, pending, processing}
use baseline_integrity.Outbox.Exclusive.{claim_one-exclusive}
use baseline_integrity.Outbox.Stages.{At, queued, broken, dir_of}
use baseline_integrity.Worker.{Worker, Handler, run}
use baseline_integrity.Worker.Pipeline.{run-enqueue}
use baseline_integrity.Risk.{
  PlayerAggregates, RiskState, MatchRisk, apply_match_risk, map_aggregates_to_match_risk,
  add_quantiles,
}
use baseline_integrity.Risk.Store.{load, save}
use baseline_integrity.RiskWorker.{players_dir, fill_state, score_player}
use baseline_integrity.RiskWorker.Update.{score_player-load}
use baseline_integrity.RiskWorker.Command.{Flags, run_command}
use baseline_integrity.RiskWorker.Untouched.{run_command-Keeps, run_command-load}
use baseline_integrity.Telemetry.Lines.{MatchRequestLine, load_match_requests}
use baseline_integrity.Tests.Commands.{no_flags, no_codec}
use baseline_integrity.Tests.Numbers.{whole, whole-IsOrdered}
use baseline_integrity.Tests.Queue.{
  event_codec, event_codec-RoundTrips, queue, start_world, start_world-IsReady, start_world-free,
  finalized, finalized_text,
}
use baseline_integrity.Tests.Wire.{flatten, words}
use baseline_integrity.Tests.Scores.{requests, match_ids, setup, line, fresh}
use baseline_integrity.Tests.Services.{calm, event_ids}
use baseline_integrity.Tests.Stores.{state_codec, state_codec-RoundTrips}

abbrev flags : Flags ℤ
flags = record no_flags {
  outbox_dir = some (codes "o" ∷ []);
  telemetry_dir = some (codes "t" ∷ []);
  risk_dir = some (codes "r" ∷ []);
  mapping_config_path = some (codes "c" ∷ []);
}

abbrev run_flags : World → World
run_flags w =
    (run_command whole requests (λ t. none) state_codec no_codec (λ t. codes "d") no_codec event_ids
      (λ e. []) 3 flags w).1

run_command-Keeps_example : Keeps (codes "match_m1.jsonl" ∷ codes "t" ∷ []) (
    run_command whole no_codec
      (λ t. none)
      state_codec
      no_codec
      (λ t. codes "d")
      no_codec
      event_ids
      (λ e. [])
      3
      flags)
unfolding has_suffix text_eq list_eq
run_command-Keeps_example =
    run_command-Keeps whole no_codec (λ t. none) state_codec no_codec (λ t. codes "d") no_codec
      event_ids (λ e. []) 3 flags (codes "match_m1.jsonl") (codes "t" ∷ []) refl

abbrev stored : World
stored = record calm {
  files =
      (codes "t" ∷ [], dir) ∷ (codes "match_m1.jsonl" ∷ codes "t" ∷ [], file (codes "5 {}") 4) ∷ [];
}

run_command-load_example :
    (load_match_requests requests
      (λ t. none)
      (codes "t" ∷ [])
      (codes "m1")
      (still (run_flags stored).files (λ n. n) 0 [])).0
    ≡ (load_match_requests requests
        (λ t. none)
        (codes "t" ∷ [])
        (codes "m1")
        (still stored.files (λ n. n) 0 [])).0
unfolding has_no_slash lookup path_eq text_eq list_eq join
run_command-load_example =
    run_command-load whole requests (λ t. none) state_codec no_codec (λ t. codes "d") no_codec
      event_ids (λ e. []) 3 flags stored (codes "t" ∷ []) (codes "m1") (codes "5 {}") 4 (λ n. n) 0
      [] refl refl

enqueue-IsWhole_example :
    IsWhole event_codec queue finalized start_world
      (enqueue event_codec queue finalized start_world).1
unfolding has_no_slash
enqueue-IsWhole_example = enqueue-IsWhole event_codec queue finalized refl start_world

abbrev player_of : MatchRequestLine ℤ → Option (PlayerAggregates ℤ)
player_of l = head_or_none l.req.players
  where
    head_or_none : List (Option (PlayerAggregates ℤ)) → Option (PlayerAggregates ℤ)
    head_or_none [] = none
    head_or_none (p ∷ ps) = p

abbrev scored_player : World
scored_player =
    (score_player whole requests (λ t. none) state_codec match_ids (λ t. codes "d") setup 5
      (player_of line) [] fresh).1

scores_player :
    score_player whole requests
      (λ t. none)
      state_codec
      match_ids
      (λ t. codes "d")
      setup
      5
      (player_of line)
      []
      fresh
    ≡ (ok ((codes "p", pos 0) ∷ []), scored_player)
unfolding score_player map_aggregates_to_match_risk add_quantiles load save read_file write_file
    lookup insert join path_eq path_lt text_eq time_now apply_match_risk
scores_player = refl

score_player-load_example :
    (mr : MatchRisk ℤ) × (prev : RiskState ℤ) × (map_aggregates_to_match_risk whole
        (player_of line)
        setup.map_cfg
        5
      ≡ ok mr)
    × ((load whole state_codec (players_dir setup.risk_dir) mr.player_id fresh).0 ≡ ok prev)
    × (let next = apply_match_risk whole (fill_state prev mr) mr setup.score_cfg mr.at in
        ((load whole state_codec
            (players_dir setup.risk_dir)
            next.player_id
            (still scored_player.files (λ n. n) 0 [])).0
          ≡ ok next)
        × (whole.lt next.total_risk whole.zero ≡ false)
        × (whole.lt setup.score_cfg.risk_cap next.total_risk ≡ false)
        × (next.player_id ≡ (if is_nil prev.player_id then mr.player_id else prev.player_id)))
score_player-load_example =
    score_player-load whole whole-IsOrdered requests (λ t. none) state_codec state_codec-RoundTrips
      match_ids (λ t. codes "d") setup 5 (player_of line) [] ((codes "p", pos 0) ∷ []) fresh
      scored_player (λ n. n) 0 [] refl scores_player

abbrev once_worker : Worker
once_worker = record {
  ob = queue;
  cfg = record { outbox_dir = some queue; poll_interval = 1; once = true };
}

-- A handler that fails and leaves the files alone.
abbrev failing : Handler
failing c w = (err not_exist, record w { printed = "event" ∷ w.printed })

run-enqueue_example :
    At queue
      (codes "7_i_m.json")
      finalized_text
      broken
      ((enqueue event_codec queue finalized
          >> run event_codec (λ e. []) 3 once_worker (some failing))
        (still start_world.files (λ n. n) 0 [])).1.files
unfolding has_no_slash lookup path_eq list_eq text_eq entries filter_by is_retry_later is_panicked
run-enqueue_example =
    run-enqueue event_codec event_codec-RoundTrips (λ e. []) once_worker (λ n. n) 0 [] finalized
      finalized_text start_world.files failing (err not_exist)
      (still
        (insert (codes "7_i_m.json" ∷ processing queue) (file finalized_text 0) start_world.files)
        (λ n. n) 0 ("event" ∷ []))
      3 start_world-IsReady refl refl refl start_world-free refl refl refl refl (λ k is. refl)

-- Two events that wait; the fifth call and the one behind it do not fail by chance.
abbrev waiting_two : World
waiting_two = record start_world {
  files =
      (codes "6_i_k.json" ∷ dir_of queue queued, file finalized_text 0)
      ∷ (codes "7_i_m.json" ∷ dir_of queue queued, file finalized_text 0)
      ∷ start_world.files;
}

abbrev claimed_first : World
claimed_first = (claim_one event_codec queue waiting_two).1

abbrev claimed_second : World
claimed_second = (claim_one event_codec queue claimed_first).1

claims_first :
    claim_one event_codec queue waiting_two
    ≡ (ok (finalized, codes "6_i_k.json" ∷ processing queue), claimed_first)
unfolding claim_one mkdir_all lookup insert erase path_eq path_lt list_eq text_eq entries filter_by
    has_no_slash has_suffix join rename read_dir read_file flatten words
claims_first = refl

claims_second :
    claim_one event_codec queue claimed_first
    ≡ (ok (finalized, codes "7_i_m.json" ∷ processing queue), claimed_second)
unfolding claim_one mkdir_all lookup insert erase path_eq path_lt list_eq text_eq entries filter_by
    has_no_slash has_suffix join rename read_dir read_file flatten words
claims_second = refl

claim_one-exclusive_example :
    (path_eq (codes "6_i_k.json" ∷ processing queue) (codes "7_i_m.json" ∷ processing queue)
      ≡ false)
    × (lookup (codes "6_i_k.json" ∷ pending queue) claimed_first.files ≡ none)
unfolding claim_one mkdir_all lookup insert erase path_eq path_lt list_eq text_eq entries filter_by
    has_no_slash has_suffix join rename read_dir read_file flatten words
claim_one-exclusive_example =
    claim_one-exclusive event_codec queue waiting_two claimed_first claimed_first claimed_second
      (finalized, codes "6_i_k.json" ∷ processing queue)
      (finalized, codes "7_i_m.json" ∷ processing queue) claims_first refl claims_second
