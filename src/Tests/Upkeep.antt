-- ===== src/Tests/Upkeep.antt =====
-- Scores, pruning and key files at concrete inputs.
use baseline_integrity.Base.{
  ℕ, ◌*◌, ◌≡◌, inl, inr, refl, true, false, Option, none, some, [], ◌∷◌, ◌++◌, Text, codes,
  tabulate, has_suffix, text_eq, arith,
}
use baseline_integrity.Base.Int.{ℤ, pos}
use baseline_integrity.Base.Result.{is_not_exist, ok}
use baseline_integrity.Proto.{SessionRef, second}
use baseline_integrity.Crypto.{Codec, Signer}
use baseline_integrity.Os.{
  path_eq, insert, path_lt, mkdir_all, read_file, write_file, rename, FilePath, file, dir, World,
  lookup, join,
}
use baseline_integrity.Risk.{
  RiskState, MatchRisk, ScoreConfig, MappingConfig, soft_score, apply_match_risk,
  map_aggregates_to_match_risk, add_quantiles,
}
use baseline_integrity.Risk.Bounds.{
  apply_match_risk-bounds, apply_match_risk_clean, soft_score-range,
}
use baseline_integrity.Risk.Mapping.{map_aggregates-total}
use baseline_integrity.Telemetry.{expected_telemetry_schema_id}
use baseline_integrity.Retention.{drop}
use baseline_integrity.Retention.Recent.{telemetry_rule_recent}
use baseline_integrity.Base.{◌≢◌, all}
use baseline_integrity.Retention.Rules.{
  telemetry_rule, players_rule, events_rule, retention_of, run_retention,
}
use baseline_integrity.Retention.DryRun.{run_retention-dry_run}
use baseline_integrity.Retention.Old.{IsDated, IsStampedOlder, events_rule-drop, retention_of-exact}
use baseline_integrity.Keystore.{
  load_or_create_ed25519, create_key, first_bytes, DiskKeyFile, new_disk_signer,
}
use baseline_integrity.Keystore.KeyPairs.{IsDiskSigner, new_disk_signer-IsDiskSigner}
use baseline_integrity.Tests.Wire.{pad, toy_crypto, toy_crypto-IsLawful}
use baseline_integrity.Tests.Numbers.{whole, whole-IsOrdered, whole-IsRounded}
use baseline_integrity.Tests.Services.{calm, player}

abbrev before : RiskState ℤ
before = record { player_id = codes "p"; total_risk = pos 40; last_update = 3 }

abbrev found : MatchRisk ℤ
found = record { player_id = codes "p"; value = pos 90; at = 5 }

abbrev scoring : ScoreConfig ℤ
scoring = record { decay_factor = pos 1; risk_cap = pos 100 }

apply_match_risk-bounds_example :
    let next = apply_match_risk whole before found scoring 5 in
    (whole.lt next.total_risk (pos 0) ≡ false)
    × (whole.lt (pos 100) next.total_risk ≡ false)
    × (next.player_id ≡ codes "p")
    × (next.last_update ≡ 5)
apply_match_risk-bounds_example =
    apply_match_risk-bounds whole whole-IsOrdered before found scoring 5 refl

apply_match_risk_clean_example :
    let next = apply_match_risk whole before (record found { value = pos 0 }) scoring 5 in
    whole.le next.total_risk (pos 40) ≡ true
apply_match_risk_clean_example =
    apply_match_risk_clean whole whole-IsOrdered whole-IsRounded before
      (record found { value = pos 0 }) scoring 5 refl refl refl refl refl refl

soft_score-range_example :
    (whole.le (pos 0) (soft_score whole (pos 3) (pos 10)) ≡ true)
    × (whole.le (soft_score whole (pos 3) (pos 10)) (pos 10) ≡ true)
soft_score-range_example =
    soft_score-range whole whole-IsOrdered whole-IsRounded (pos 3) (pos 10) refl refl (inr refl)

abbrev mapping : MappingConfig ℤ
mapping = record {
  expected_schema_id = expected_telemetry_schema_id;
  per_signal_cap = pos 10;
  counters = [];
  quantiles =
      (codes "q", record { weight = pos 2; pctl = codes "p95"; mean = pos 1; std = pos 1 }) ∷ [];
}

abbrev session : SessionRef
session = record { session_id = codes "s"; match_id = codes "m1"; player_id = codes "p" }

map_aggregates-total_example :
    (mr : MatchRisk ℤ) × (map_aggregates_to_match_risk whole (some player) mapping 5 ≡ ok mr)
map_aggregates-total_example =
    map_aggregates-total whole player session mapping 5 refl refl refl
      (inr (inr (inr (inl refl))), tt)

maps :
    map_aggregates_to_match_risk whole (some player) mapping 5
    ≡ ok (record { player_id = codes "p"; value = pos 10; at = 5 })
unfolding map_aggregates_to_match_risk text_eq add_quantiles
maps = refl

-- An event of time 5 in `done`.
abbrev stored : World
stored = record calm {
  files =
      (codes "data" ∷ [], dir)
      ∷ (codes "outbox" ∷ codes "data" ∷ [], dir)
      ∷ (codes "done" ∷ codes "outbox" ∷ codes "data" ∷ [], dir)
      ∷ (codes "e.json" ∷ codes "done" ∷ codes "outbox" ∷ codes "data" ∷ [], file (5 ∷ []) 7)
      ∷ [];
  clock = λ n. 100 * 86_400 * second;
}

abbrev first_byte : Text → Option ℕ
first_byte [] = none
first_byte (c ∷ s) = some c

abbrev done_dir : FilePath
done_dir = codes "done" ∷ codes "outbox" ∷ codes "data" ∷ []

run_retention-dry_run_example :
    let (r, w') =
      run_retention first_byte first_byte first_byte first_byte
        (codes "data" ∷ [])
        true
        true
        1
        stored in
    w'.files ≡ stored.files
run_retention-dry_run_example =
    run_retention-dry_run first_byte first_byte first_byte first_byte (codes "data" ∷ []) true 1
      stored

chosen :
    ((events_rule first_byte done_dir 10).examine (codes "e.json", file (5 ∷ []) 7) stored).0
    ≡ ok drop
unfolding has_suffix read_file lookup path_eq join text_eq
chosen = refl

events_rule-drop_example :
    (has_suffix (codes "e.json") (codes ".json") ≡ true)
    × IsDated (IsStampedOlder 10) first_byte (lookup (join done_dir (codes "e.json")) stored.files)
events_rule-drop_example =
    events_rule-drop first_byte 10 done_dir (codes "e.json") (file (5 ∷ []) 7) stored chosen

retention_of-exact_example : retention_of 30 ≡ some (30 * (86_400 * second))
retention_of-exact_example = retention_of-exact 30 (omega arith) (omega arith)

abbrev key_files : Codec DiskKeyFile
key_files = record { encode = λ f. some f.key_id; decode = λ b. none }

abbrev plain : Codec Text
plain = record { encode = λ b. some b; decode = λ b. some b }

abbrev made : World
made =
    (new_disk_signer toy_crypto key_files plain (λ b. b) (codes "key" ∷ codes "telemetry" ∷ [])
      (some (λ i. 7)) calm).1

abbrev made_signer : Signer
made_signer = record {
  key_id = codes "dev-" ++ tabulate 12 (λ i. 7);
  priv = tabulate 64 (λ i. 7);
  pub_key = pad 32 (tabulate 64 (λ i. 7));
}

makes :
    new_disk_signer toy_crypto key_files plain
      (λ b. b)
      (codes "key" ∷ codes "telemetry" ∷ [])
      (some (λ i. 7))
      calm
    ≡ (ok made_signer, made)
unfolding new_disk_signer pad tabulate load_or_create_ed25519 mkdir_all lookup path_eq read_file
    is_not_exist create_key write_file insert path_lt rename first_bytes
makes = refl

new_disk_signer-IsDiskSigner_example :
    IsDiskSigner toy_crypto key_files plain
      (codes "key" ∷ codes "telemetry" ∷ [])
      (some (λ i. 7))
      made_signer
      made
new_disk_signer-IsDiskSigner_example =
    new_disk_signer-IsDiskSigner toy_crypto toy_crypto-IsLawful key_files plain (λ b. b)
      (codes "key" ∷ codes "telemetry" ∷ []) (some (λ i. 7)) calm made made_signer makes

-- A file of telemetry with one line, of time 40, that says `{}`.
abbrev telemetry_world : World
telemetry_world = record calm {
  files =
      (codes "match_m.jsonl" ∷ codes "telemetry" ∷ [], file (40 ∷ 32 ∷ 123 ∷ 125 ∷ 10 ∷ []) 7)
      ∷ (codes "telemetry" ∷ [], dir)
      ∷ [];
}

telemetry_rule_recent_example :
    ((telemetry_rule first_byte (codes "telemetry" ∷ []) 40).examine
      (codes "match_m.jsonl", file [] 7)
      telemetry_world).0
    ≢ ok drop
unfolding lookup path_eq join all
telemetry_rule_recent_example =
    telemetry_rule_recent first_byte (codes "telemetry" ∷ []) 40 (codes "match_m.jsonl") (file [] 7)
      [] (40 ∷ []) (123 ∷ 125 ∷ []) 40 7 telemetry_world refl (refl, refl) (123 ∷ [], refl, refl)
      refl (omega arith) refl

abbrev player_world : World
player_world = record calm {
  files =
      (codes "p.json" ∷ codes "players" ∷ [], file (5 ∷ []) 7) ∷ (codes "players" ∷ [], dir) ∷ [];
}

chosen_player :
    ((players_rule first_byte (codes "players" ∷ []) 10).examine
      (codes "p.json", file (5 ∷ []) 7)
      player_world).0
    ≡ ok drop
unfolding has_suffix read_file lookup path_eq join text_eq
chosen_player = refl
