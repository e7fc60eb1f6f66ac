-- ===== src/Retention/Rules.antt =====
-- The pruning functions of server/cmd/bi-retention/main.go, and its `main`.
use baseline_integrity.Base.{
  ℕ, ◌+◌, ◌-◌, ◌*◌, ◌%◌, ◌^◌, Bool, true, false, not, ◌||◌, Option, none, some, List, [], ◌∷◌,
  is_nil, is_none, ltb, leb, ◌==◌, Text, codes, has_prefix, has_suffix, drop_last, cut,
  if◌then◌else◌,
}
use baseline_integrity.Base.Result.{Error, message, Result, ok, err}
use baseline_integrity.Proto.{second}
use baseline_integrity.Os.{
  FilePath, join, Node, Io, pure, raise, ◌>>=◌, ◌>>◌, attempt, log, is_directory, time_now,
  read_file, stat, remove, read_dir,
}
use baseline_integrity.Telemetry.Lines.{raw_lines, scan, default_buffer, err_too_long}
use baseline_integrity.Retention.{
  Pruned, Decision, keep, drop, Rule, prune_loop, walk_dir, remove_all, prune_directory, if_there,
}

abbrev pub Entry : Type 0
Entry = Text × Node

abbrev pub day_length : ℕ
day_length = 86_400 * second

-- `Before(cutoff)` decides.
abbrev pub if_before : ℕ → ℕ → Decision
if_before t cutoff = if ltb t cutoff then drop else keep

-- `deleteOldFilesByModTime`, with the suffix test of the applied markers.
abbrev pub applied_rule : ℕ → Rule (FilePath × Node)
applied_rule cutoff = record {
  examine = λ e. elim e.0 [
    | [] ↦ pure keep
    | name ∷ above ↦
        if is_directory (some e.1) || not (has_suffix name (codes ".ok"))
        then pure keep
        else (do t ← stat (name ∷ above); pure (if_before t cutoff))
  ];
  delete = λ e. remove e.0;
  counts_dry = false;
}

unfoldable pub delete_old_files_by_mod_time : FilePath → ℕ → Bool → Io Pruned
unfolding prune_directory
delete_old_files_by_mod_time d cutoff dry_run =
    prune_directory (applied_rule cutoff) walk_dir dry_run d

-- `deleteOldLedgerDirs`: a day that ended before the cutoff goes with all that is in it. The parsing
-- of a day's name is a parameter.
module _ (parse_day : Text → Option ℕ) where
  abbrev pub ledger_rule : FilePath → ℕ → Rule Entry
  ledger_rule d cutoff = record {
    examine = λ e. if not (is_directory (some e.1)) then pure keep else elim (parse_day e.0) [
      | none ↦ pure keep
      | some t ↦ pure (if_before (t + day_length) cutoff)
    ];
    delete = λ e. remove_all (join d e.0);
    counts_dry = false;
  }

  abbrev pub ledger_counted : Result (List Entry) → (List Entry → Io (ℕ × Option Error)) → Io Pruned
  ledger_counted (err e) count =
      pure (record { deleted_files = 0; deleted_dirs = 0; failure = some e })
  ledger_counted (ok es) count = do
    counted ← count es
    pure (record { deleted_files = 0; deleted_dirs = counted.0; failure = counted.1 })

  unfoldable pub delete_old_ledger_dirs : FilePath → ℕ → Bool → Io Pruned
  unfolding prune_loop
  delete_old_ledger_dirs d cutoff dry_run = do
    there ← attempt (stat d)
    if_there
        (do
          es ← attempt (read_dir d)
          ledger_counted es (λ l. prune_loop (ledger_rule d cutoff) dry_run l 0))
        there

-- `deleteOldPlayersByLastUpdate`, for the reading of a state's `LastUpdate`.
module _ (last_update : Text → Option ℕ) where
  abbrev pub if_updated_before : ℕ → Option ℕ → Io Decision
  if_updated_before cutoff none = do log "skip unparseable player state"; pure keep
  if_updated_before cutoff (some t) = pure (if_before t cutoff)

  abbrev pub players_rule : FilePath → ℕ → Rule Entry
  players_rule d cutoff = record {
    examine = λ e.
        if is_directory (some e.1) || not (has_suffix e.0 (codes ".json"))
        then pure keep
        else (do b ← read_file (join d e.0); if_updated_before cutoff (last_update b));
    delete = λ e. remove (join d e.0);
    counts_dry = false;
  }

  unfoldable pub delete_old_players_by_last_update : FilePath → ℕ → Bool → Io Pruned
  unfolding prune_directory
  delete_old_players_by_last_update d cutoff dry_run =
      prune_directory (players_rule d cutoff) read_dir dry_run d

-- `telemetryFileLastTimestamp` and `deleteOldTelemetryByLineTime`.
module _ (parse_time : Text → Option ℕ) where
  -- The time stamp of a line: what stands before its first space, if that is a time.
  unfoldable pub line_time : Text → Option ℕ
  line_time line = elim (cut 32 line) [
    | none ↦ none
    | some (before, behind) ↦ if is_nil before then none else parse_time before
  ]

  abbrev pub or_else_time : Option ℕ → Option ℕ → Option ℕ
  or_else_time (some t) earlier = some t
  or_else_time none earlier = earlier

  unfoldable pub last_time : Option ℕ → List Text → Option ℕ
  unfolding line_time
  last_time found [] = found
  last_time found (l ∷ ls) = last_time (or_else_time (line_time l) found) ls

  -- The loop over the lines of a file that was opened, and the scanner's error behind it.
  abbrev pub scanned_time : List Text × Bool → Io (Option ℕ)
  scanned_time (lines, long) = if long then raise err_too_long else pure (last_time none lines)

  unfoldable pub telemetry_file_last_timestamp : FilePath → Io (Option ℕ)
  unfolding last_time scan raw_lines
  telemetry_file_last_timestamp p = do
    b ← read_file p
    scanned_time (scan default_buffer (raw_lines b))

  abbrev pub if_last_before : ℕ → Option ℕ → Io Decision
  if_last_before cutoff none = do log "skip telemetry (no timestamp)"; pure keep
  if_last_before cutoff (some last) = pure (if_before last cutoff)

  abbrev pub telemetry_rule : FilePath → ℕ → Rule Entry
  telemetry_rule d cutoff = record {
    examine = λ e.
        if is_directory (some e.1)
          || not (has_prefix e.0 (codes "match_"))
          || not (has_suffix e.0 (codes ".jsonl"))
        then pure keep
        else (do t ← telemetry_file_last_timestamp (join d e.0); if_last_before cutoff t);
    delete = λ e. remove (join d e.0);
    counts_dry = false;
  }

  unfoldable pub delete_old_telemetry_by_line_time : FilePath → ℕ → Bool → Io Pruned
  unfolding prune_directory telemetry_file_last_timestamp
  delete_old_telemetry_by_line_time d cutoff dry_run =
      prune_directory (telemetry_rule d cutoff) read_dir dry_run d

-- The name of the event that a sidecar belongs to.
abbrev pub paired_name : Text → Text
paired_name name = drop_last 8 name

-- `deleteOldOutboxEventsByCreatedAt` and `deleteOldOutboxFailedSidecarsByCreatedAt`, for the reading
-- of an event's `created_at`, which is 0 where the field is missing.
module _ (created_at : Text → Option ℕ) where
  abbrev pub if_created_before : ℕ → Option ℕ → Io Decision
  if_created_before cutoff none = do log "skip outbox (unparseable)"; pure keep
  if_created_before cutoff (some t) =
      if t == 0
      then (do log "skip outbox (missing or invalid created_at)"; pure keep)
      else pure (if_before t cutoff)

  abbrev pub events_rule : FilePath → ℕ → Rule Entry
  events_rule d cutoff = record {
    examine = λ e.
        if is_directory (some e.1) || not (has_suffix e.0 (codes ".json"))
        then pure keep
        else (do b ← read_file (join d e.0); if_created_before cutoff (created_at b));
    delete = λ e. remove (join d e.0);
    counts_dry = false;
  }

  unfoldable pub delete_old_outbox_events_by_created_at : FilePath → ℕ → Bool → Io Pruned
  unfolding prune_directory
  delete_old_outbox_events_by_created_at d cutoff dry_run =
      prune_directory (events_rule d cutoff) read_dir dry_run d

  abbrev pub examine_pair : FilePath → ℕ → Result ℕ → Io Decision
  examine_pair p cutoff (err e) = do log "skip outbox sidecar (missing paired json)"; pure keep
  examine_pair p cutoff (ok t) = do b ← read_file p; if_created_before cutoff (created_at b)

  -- A dry run counts the sidecars that it would delete.
  abbrev pub sidecars_rule : FilePath → ℕ → Rule Entry
  sidecars_rule d cutoff = record {
    examine = λ e.
        if is_directory (some e.1) || not (has_suffix e.0 (codes ".err.txt"))
        then pure keep
        else if not (has_suffix (paired_name e.0) (codes ".json"))
        then (do log "skip outbox sidecar (unexpected name)"; pure keep)
        else (do
          there ← attempt (stat (join d (paired_name e.0)))
          examine_pair (join d (paired_name e.0)) cutoff there);
    delete = λ e. remove (join d e.0);
    counts_dry = true;
  }

  unfoldable pub delete_old_outbox_failed_sidecars_by_created_at : FilePath → ℕ → Bool → Io Pruned
  unfolding prune_directory
  delete_old_outbox_failed_sidecars_by_created_at d cutoff dry_run =
      prune_directory (sidecars_rule d cutoff) read_dir dry_run d

-- `time.Duration(days) * 24 * time.Hour` on `int64`, as its bits.
unfoldable pub retention_bits : ℕ → ℕ
retention_bits days = (days * 24 % 2 ^ 64) * (3_600 * second) % 2 ^ 64

-- The retention that `main` accepts: a positive `int64`.
unfoldable pub retention_of : ℕ → Option ℕ
unfolding retention_bits
retention_of days =
    let bits = retention_bits days in if bits == 0 || leb (2 ^ 63) bits then none else some bits

-- What `main` sums up over its steps. The error of a step is logged.
unfoldable pub add_step : Io Pruned → ℕ × ℕ → Io (ℕ × ℕ)
add_step step (files, dirs) = do
  p ← step
  if is_none p.failure then pure tt else log "prune error"
  pure (files + p.deleted_files, dirs + p.deleted_dirs)

module _ (parse_time parse_day last_update created_at : Text → Option ℕ) (root : FilePath)
    (dry_run prune_players : Bool) where
  unfoldable pub prune_all : ℕ → Io (ℕ × ℕ)
  prune_all cutoff = do
    let outbox : FilePath = codes "outbox" ∷ root
    let risk : FilePath = codes "risk" ∷ root
    a ←
        add_step
          (delete_old_telemetry_by_line_time parse_time (codes "telemetry" ∷ root) cutoff dry_run)
          (0, 0)
    b ← add_step (delete_old_ledger_dirs parse_day (codes "ledger" ∷ risk) cutoff dry_run) a
    c ← add_step (delete_old_files_by_mod_time (codes "applied" ∷ risk) cutoff dry_run) b
    d ←
        add_step
          (delete_old_outbox_events_by_created_at created_at (codes "done" ∷ outbox) cutoff dry_run)
          c
    e ←
        add_step
          (delete_old_outbox_events_by_created_at created_at (codes "failed" ∷ outbox) cutoff
            dry_run)
          d
    f ←
        add_step
          (delete_old_outbox_failed_sidecars_by_created_at created_at (codes "failed" ∷ outbox)
            cutoff dry_run)
          e
    if prune_players
        then add_step
            (delete_old_players_by_last_update last_update (codes "players" ∷ risk) cutoff dry_run)
            f
        else pure f

  -- `main` for a number of days that is not negative: the totals, or the refusal with status 2.
  -- A cutoff before year 1 is year 1, and no instant lies before either.
  unfoldable pub run_retention : ℕ → Io (ℕ × ℕ)
  unfolding retention_of
  run_retention days =
      if is_nil root
      then raise (message "could not determine .baselineintegrity root")
      else elim (retention_of days) [
        | none ↦ raise (message "--retention must be > 0")
        | some retention ↦ do now ← time_now; prune_all (now - retention)
      ]
