-- ===== src/Retention/DryRun.antt =====
-- The `-dry-run` flag of server/cmd/bi-retention/main.go.
use mathlib.Core.List.{reverse}
use baseline_integrity.Base.{
  String, ℕ, ◌-◌, ◌≡◌, refl, Bool, true, Option, none, some, List, [], ◌∷◌, Text, arith,
}
use baseline_integrity.Base.Result.{Error, message, Result, ok, err}
use baseline_integrity.Os.{
  FilePath, Io, pure, raise, log, ◌>>=◌, ◌>>◌, World, read_dir, join, time_now,
}
use baseline_integrity.Os.Reads.{
  Reads, pure-Reads, raise-Reads, attempt-Reads, if-Reads, syscall-Reads, >>=-Reads, >>-Reads,
  log-Reads, time_now-Reads, read_file-Reads, stat-Reads, read_dir-Reads,
}
use baseline_integrity.Retention.{
  Pruned, Decision, keep, drop, Rule, prune_loop, walk_dir, empty_dir_rule, remove_empty_dirs,
  finish, finish_dirs, after_listing, if_there, prune_directory, continue_examined,
}
use baseline_integrity.Retention.Rules.{
  Entry, if_before, applied_rule, delete_old_files_by_mod_time, ledger_rule, ledger_counted,
  delete_old_ledger_dirs, players_rule, delete_old_players_by_last_update,
  telemetry_file_last_timestamp, telemetry_rule, delete_old_telemetry_by_line_time, events_rule,
  if_created_before, delete_old_outbox_events_by_created_at, sidecars_rule,
  delete_old_outbox_failed_sidecars_by_created_at, examine_pair, paired_name, retention_of,
  add_step, prune_all, run_retention,
}

-- Every examination of the rule only reads.
abbrev Examines : {E : Type 0} → Rule E → Type 0
Examines {E} rule = (e : E) → Reads (rule.examine e)

module _ {E : Type 0} (rule : Rule E) (safe : Examines rule) where
  continue_examined-Reads :
      (e : E) (later : ℕ → Io (ℕ × Option Error)) (n : ℕ) (r : Result Decision)
      → ((k : ℕ) → Reads (later k))
      → Reads (continue_examined rule true e later n r)
  continue_examined-Reads e later n (err x) h = record { keeps = λ w. refl }
  continue_examined-Reads e later n (ok keep) h = h n
  continue_examined-Reads e later n (ok drop) h = >>-Reads _ _ (log-Reads _) (h _)

  prune_loop-Reads : (es : List E) (n : ℕ) → Reads (prune_loop rule true es n)
  unfolding prune_loop
  prune_loop-Reads [] n = record { keeps = λ w. refl }
  prune_loop-Reads (e ∷ es) n =
      >>=-Reads _ _ (attempt-Reads _ (safe e))
        (λ r. continue_examined-Reads e (prune_loop rule true es) n r (prune_loop-Reads es))

walk_dir-Reads : (root : FilePath) → Reads (walk_dir root)
unfolding walk_dir
walk_dir-Reads root = syscall-Reads _ (λ w. refl)

empty_dir-Examines : (root : FilePath) → Examines (empty_dir_rule root)
empty_dir-Examines root e =
    if-Reads _ _ _ (pure-Reads keep) (>>=-Reads _ _ (read_dir-Reads e.0) (λ es. pure-Reads _))

remove_empty_dirs-Reads : (root : FilePath) → Reads (remove_empty_dirs true root)
unfolding remove_empty_dirs
remove_empty_dirs-Reads root =
    >>=-Reads _ _ (walk_dir-Reads root)
      (λ found. prune_loop-Reads (empty_dir_rule root) (empty_dir-Examines root) (reverse found) 0)

finish_dirs-Reads : (n : ℕ) (r : Result (ℕ × Option Error)) → Reads (finish_dirs n r)
finish_dirs-Reads n (err e) = record { keeps = λ w. refl }
finish_dirs-Reads n (ok (d, some e)) = record { keeps = λ w. refl }
finish_dirs-Reads n (ok (d, none)) = record { keeps = λ w. refl }

finish-Reads : (root : FilePath) (r : ℕ × Option Error) → Reads (finish true root r)
unfolding finish
finish-Reads root (n, some e) = record { keeps = λ w. refl }
finish-Reads root (n, none) =
    >>=-Reads _ _ (attempt-Reads _ (remove_empty_dirs-Reads root)) (finish_dirs-Reads n)

if_there-Reads : (act : Io Pruned) (r : Result ℕ) → Reads act → Reads (if_there act r)
if_there-Reads act (err e) h = record { keeps = λ w. refl }
if_there-Reads act (ok t) h = h

module _ {E : Type 0} (rule : Rule E) (safe : Examines rule) (root : FilePath) where
  after_listing-Reads : (r : Result (List E)) → Reads (after_listing rule true root r)
  after_listing-Reads (err e) = record { keeps = λ w. refl }
  after_listing-Reads (ok es) = >>=-Reads _ _ (prune_loop-Reads rule safe es 0) (finish-Reads root)

  prune_directory-Reads :
      (list : FilePath → Io (List E))
      → Reads (list root)
      → Reads (prune_directory rule list true root)
  unfolding prune_directory
  prune_directory-Reads list lists =
      >>=-Reads _ _ (attempt-Reads _ (stat-Reads root)) (λ there.
        if_there-Reads _ there (>>=-Reads _ _ (attempt-Reads _ lists) after_listing-Reads))

decide-Reads :
    (cutoff : ℕ) (t : Option ℕ) (s : String)
    → Reads (elim t [ none ↦ (do log s; pure keep) | some last ↦ pure (if_before last cutoff) ])
decide-Reads cutoff none s = record { keeps = λ w. refl }
decide-Reads cutoff (some t) s = record { keeps = λ w. refl }

applied-Examines : (cutoff : ℕ) → Examines (applied_rule cutoff)
applied-Examines cutoff ([], v) = record { keeps = λ w. refl }
applied-Examines cutoff (name ∷ above, v) =
    if-Reads _ _ _ (pure-Reads keep)
      (>>=-Reads _ _ (stat-Reads (name ∷ above)) (λ t. pure-Reads (if_before t cutoff)))

module _ (parse : Text → Option ℕ) (d : FilePath) (cutoff : ℕ) where
  ledger-Examines : Examines (ledger_rule parse d cutoff)
  ledger-Examines e = record { keeps = λ w. ground arith }

  players-Examines : Examines (players_rule parse d cutoff)
  players-Examines e = if-Reads _ _ _ (pure-Reads keep) (
      >>=-Reads _ _ (read_file-Reads (join d e.0))
        (λ b. decide-Reads cutoff (parse b) "skip unparseable player state"))

  last_timestamp-Reads : (p : FilePath) → Reads (telemetry_file_last_timestamp parse p)
  unfolding telemetry_file_last_timestamp
  last_timestamp-Reads p =
      >>=-Reads _ _ (read_file-Reads p) (λ b. record { keeps = λ w. ground arith })

  telemetry-Examines : Examines (telemetry_rule parse d cutoff)
  telemetry-Examines e = if-Reads _ _ _ (pure-Reads keep) (
      >>=-Reads _ _ (last_timestamp-Reads (join d e.0))
        (λ t. decide-Reads cutoff t "skip telemetry (no timestamp)"))

  if_created_before-Reads : (t : Option ℕ) → Reads (if_created_before parse cutoff t)
  if_created_before-Reads none = record { keeps = λ w. refl }
  if_created_before-Reads (some t) = record { keeps = λ w. ground arith }

  events-Examines : Examines (events_rule parse d cutoff)
  events-Examines e =
      if-Reads _ _ _ (pure-Reads keep)
        (>>=-Reads _ _ (read_file-Reads (join d e.0)) (λ b. if_created_before-Reads (parse b)))

  examine_pair-Reads : (p : FilePath) (r : Result ℕ) → Reads (examine_pair parse p cutoff r)
  examine_pair-Reads p (err e) = record { keeps = λ w. refl }
  examine_pair-Reads p (ok t) =
      >>=-Reads _ _ (read_file-Reads p) (λ b. if_created_before-Reads (parse b))

  sidecars-Examines : Examines (sidecars_rule parse d cutoff)
  sidecars-Examines e = if-Reads _ _ _ (pure-Reads keep) (
      if-Reads _ _ _
        (>>-Reads _ _ (log-Reads "skip outbox sidecar (unexpected name)") (pure-Reads keep))
        (>>=-Reads _ _ (attempt-Reads _ (stat-Reads _))
          (λ r. examine_pair-Reads (join d (paired_name e.0)) r)))

prune_ledger-Reads :
    (parse : Text → Option ℕ) (d : FilePath) (cutoff : ℕ)
    → Reads (delete_old_ledger_dirs parse d cutoff true)
unfolding delete_old_ledger_dirs
prune_ledger-Reads parse d cutoff =
    >>=-Reads _ _ (attempt-Reads _ (stat-Reads d))
      (λ there. if_there-Reads _ there (>>=-Reads _ _ (attempt-Reads _ (read_dir-Reads d)) counted))
  where
    counted :
        (r : Result (List Entry))
        → Reads (ledger_counted parse r (λ l. prune_loop (ledger_rule parse d cutoff) true l 0))
    counted (err e) = record { keeps = λ w. refl }
    counted (ok es) =
        >>=-Reads _ _
          (prune_loop-Reads (ledger_rule parse d cutoff) (ledger-Examines parse d cutoff) es 0)
          (λ r. pure-Reads _)

module _ (d : FilePath) (cutoff : ℕ) where
  prune_applied-Reads : Reads (delete_old_files_by_mod_time d cutoff true)
  unfolding delete_old_files_by_mod_time
  prune_applied-Reads =
      prune_directory-Reads (applied_rule cutoff) (applied-Examines cutoff) d walk_dir
        (walk_dir-Reads d)

module _ (parse : Text → Option ℕ) (d : FilePath) (cutoff : ℕ) where
  prune_telemetry-Reads : Reads (delete_old_telemetry_by_line_time parse d cutoff true)
  unfolding delete_old_telemetry_by_line_time
  prune_telemetry-Reads =
      prune_directory-Reads (telemetry_rule parse d cutoff) (telemetry-Examines parse d cutoff) d
        read_dir (read_dir-Reads d)

  prune_events-Reads : Reads (delete_old_outbox_events_by_created_at parse d cutoff true)
  unfolding delete_old_outbox_events_by_created_at
  prune_events-Reads =
      prune_directory-Reads (events_rule parse d cutoff) (events-Examines parse d cutoff) d read_dir
        (read_dir-Reads d)

  prune_sidecars-Reads : Reads (delete_old_outbox_failed_sidecars_by_created_at parse d cutoff true)
  unfolding delete_old_outbox_failed_sidecars_by_created_at
  prune_sidecars-Reads =
      prune_directory-Reads (sidecars_rule parse d cutoff) (sidecars-Examines parse d cutoff) d
        read_dir (read_dir-Reads d)

  prune_players-Reads : Reads (delete_old_players_by_last_update parse d cutoff true)
  unfolding delete_old_players_by_last_update
  prune_players-Reads =
      prune_directory-Reads (players_rule parse d cutoff) (players-Examines parse d cutoff) d
        read_dir (read_dir-Reads d)

add_step-Reads : (step : Io Pruned) (n : ℕ × ℕ) → Reads step → Reads (add_step step n)
unfolding add_step
add_step-Reads step n h = >>=-Reads _ _ h (λ p. record { keeps = λ w. ground arith })

module _ (parse_time parse_day last_update created_at : Text → Option ℕ) (root : FilePath)
    (prune_players : Bool) where
  prune_all-Reads :
      (cutoff : ℕ)
      → Reads (prune_all parse_time parse_day last_update created_at root true prune_players cutoff)
  unfolding prune_all
  prune_all-Reads cutoff =
      >>=-Reads _ _ (add_step-Reads _ _ (prune_telemetry-Reads parse_time _ cutoff)) λ a.
        >>=-Reads _ _ (add_step-Reads _ _ (prune_ledger-Reads parse_day _ cutoff)) λ b.
          >>=-Reads _ _ (add_step-Reads _ _ (prune_applied-Reads _ cutoff)) λ c.
            >>=-Reads _ _ (add_step-Reads _ _ (prune_events-Reads created_at _ cutoff)) λ d.
              >>=-Reads _ _ (add_step-Reads _ _ (prune_events-Reads created_at _ cutoff)) λ e.
                >>=-Reads _ _ (add_step-Reads _ _ (prune_sidecars-Reads created_at _ cutoff)) λ f.
                  if-Reads _ _ _ (add_step-Reads _ _ (prune_players-Reads last_update _ cutoff))
                    (pure-Reads f)

  run_retention-Reads :
      (days : ℕ)
      → Reads
          (run_retention parse_time parse_day last_update created_at root true prune_players days)
  unfolding run_retention
  run_retention-Reads days = if-Reads _ _ _ (raise-Reads (ℕ × ℕ) _) (accepted (retention_of days))
    where
      accepted :
          (o : Option ℕ)
          → Reads {A = ℕ × ℕ} (elim o [
            | none ↦ raise (message "--retention must be > 0")
            | some retention ↦ do
              now ← time_now
              prune_all parse_time parse_day last_update created_at root true prune_players
                  (now - retention)
          ])
      accepted none = record { keeps = λ w. refl }
      accepted (some r) = >>=-Reads _ _ time_now-Reads (λ now. prune_all-Reads (now - r))

  -- Whatever faults are scheduled, a dry run leaves every file and directory as it was.
  pub run_retention-dry_run :
      (days : ℕ) (w : World)
      → let (r, w') =
          run_retention parse_time parse_day last_update created_at root true prune_players days
            w in
        w'.files ≡ w.files
  run_retention-dry_run days = (run_retention-Reads days).keeps
