-- ===== src/Retention.antt =====
-- server/cmd/bi-retention/main.go: the command that deletes what is older than a cutoff. The parsing
-- of times and of JSON are parameters.
pub mod Rules
pub mod DryRun
pub mod Old
pub mod Recent
use baseline_integrity.Base.{
  ℕ, zero, suc, ◌+◌, ◌-◌, ◌*◌, ◌%◌, ◌^◌, String, Bool, true, false, not, ◌&&◌, ◌||◌, Option, none,
  some, List, [], ◌∷◌, ◌++◌, is_nil, is_none, ltb, ◌==◌, Text, codes, has_prefix, has_suffix,
  drop_last, cut, if◌then◌else◌,
}
use baseline_integrity.Base.Result.{Error, message, Result, ok, err}
use baseline_integrity.Proto.{second}
use baseline_integrity.Os.{
  FilePath, path_eq, path_lt, join, Node, file, dir, Files, Io, pure, raise, of_result, ◌>>=◌, ◌>>◌,
  attempt, log, syscall, put_files, is_directory, time_now, read_file, stat, remove, read_dir,
  entries,
}
use mathlib.Core.List.{reverse}

-- What a pruning function returns: how much it deleted, and the error that stopped it.
pub record Pruned : Type 0 where
  pub deleted_files : ℕ
  pub deleted_dirs : ℕ
  pub failure : Option Error

abbrev pub nothing_pruned : Pruned
nothing_pruned = record { deleted_files = 0; deleted_dirs = 0; failure = none }

-- What is to be done with an entry.
pub data Decision : Type 0 where
  keep drop : Decision

-- How one kind of entry is pruned: what decides, what deletes, and whether a dry run counts what it
-- would delete.
pub record Rule (E : Type 0) : Type 0 where
  pub examine : E → Io Decision
  pub delete : E → Io (Unit {0})
  pub counts_dry : Bool

abbrev pub stop_with : ℕ → Error → Io (ℕ × Option Error)
stop_with n e w = (ok (n, some e), w)

-- The loop that the pruning functions share: an error of an examination or of a deletion stops it,
-- and what was deleted until then is still counted.
module _ {E : Type 0} (rule : Rule E) (dry_run : Bool) where
  abbrev pub continue_deleted :
      (ℕ → Io (ℕ × Option Error)) → ℕ → Result (Unit {0}) → Io (ℕ × Option Error)
  continue_deleted later n (ok u) = later (n + 1)
  continue_deleted later n (err e) = stop_with n e

  abbrev pub continue_examined :
      E → (ℕ → Io (ℕ × Option Error)) → ℕ → Result Decision → Io (ℕ × Option Error)
  continue_examined e later n (err x) = stop_with n x
  continue_examined e later n (ok keep) = later n
  continue_examined e later n (ok drop) =
      if dry_run
      then (do log "DRY delete"; later (if rule.counts_dry then n + 1 else n))
      else (do r ← attempt (rule.delete e); continue_deleted later n r)

  unfoldable pub prune_loop : List E → ℕ → Io (ℕ × Option Error)
  prune_loop [] n = pure (n, none)
  prune_loop (e ∷ es) n = do d ← attempt (rule.examine e); continue_examined e (prune_loop es) n d

-- Whether a path is the root of a walk or below it.
unfoldable pub is_under : FilePath → FilePath → Bool
is_under root [] = is_nil root
is_under root (e ∷ p) = path_eq (e ∷ p) root || is_under root p

unfoldable pub insert_walk : FilePath × Node → List (FilePath × Node) → List (FilePath × Node)
insert_walk x [] = x ∷ []
insert_walk x (y ∷ ys) =
    let rest = insert_walk x ys in
    if path_lt (reverse y.0) (reverse x.0) then y ∷ rest else x ∷ y ∷ ys

-- `filepath.WalkDir`: what lies at the root and below, each directory before its entries, in
-- lexical order.
unfoldable pub walk : FilePath → Files → List (FilePath × Node)
unfolding is_under insert_walk
walk root [] = []
walk root ((p, v) ∷ fs) =
    let rest = walk root fs in if is_under root p then insert_walk (p, v) rest else rest

unfoldable pub walk_dir : FilePath → Io (List (FilePath × Node))
unfolding walk
walk_dir root = syscall λ w. (ok (walk root w.files), w)

-- `os.RemoveAll`
unfoldable pub erase_under : FilePath → Files → Files
unfolding is_under
erase_under root [] = []
erase_under root ((p, v) ∷ fs) =
    let rest = erase_under root fs in if is_under root p then rest else (p, v) ∷ rest

unfoldable pub remove_all : FilePath → Io (Unit {0})
unfolding erase_under
remove_all root = syscall λ w. (ok tt, put_files (erase_under root w.files) w)

-- `removeEmptyDirs`, on the directories below the root, children first.
abbrev pub empty_dir_rule : FilePath → Rule (FilePath × Node)
empty_dir_rule root = record {
  examine = λ e.
      if path_eq e.0 root || not (is_directory (some e.1))
      then pure keep
      else (do es ← read_dir e.0; pure (if is_nil es then drop else keep));
  delete = λ e. remove e.0;
  counts_dry = false;
}

unfoldable pub remove_empty_dirs : Bool → FilePath → Io (ℕ × Option Error)
unfolding prune_loop walk_dir
remove_empty_dirs dry_run root = do
  found ← walk_dir root
  prune_loop (empty_dir_rule root) dry_run (reverse found) 0

abbrev finish_dirs : ℕ → Result (ℕ × Option Error) → Io Pruned
finish_dirs n (err e) = pure (record { deleted_files = n; deleted_dirs = 0; failure = some e })
finish_dirs n (ok (d, some e)) =
    pure (record { deleted_files = n; deleted_dirs = 0; failure = some e })
finish_dirs n (ok (d, none)) = pure (record { deleted_files = n; deleted_dirs = d; failure = none })

-- The end of a pruning function: empty directories go if nothing failed.
unfoldable pub finish : Bool → FilePath → ℕ × Option Error → Io Pruned
unfolding remove_empty_dirs
finish dry_run root (n, some e) =
    pure (record { deleted_files = n; deleted_dirs = 0; failure = some e })
finish dry_run root (n, none) = do r ← attempt (remove_empty_dirs dry_run root); finish_dirs n r

abbrev after_listing : {E : Type 0} → Rule E → Bool → FilePath → Result (List E) → Io Pruned
after_listing rule dry_run root (err e) =
    pure (record { deleted_files = 0; deleted_dirs = 0; failure = some e })
after_listing rule dry_run root (ok es) = do
  counted ← prune_loop rule dry_run es 0
  finish dry_run root counted

abbrev if_there : Io Pruned → Result ℕ → Io Pruned
if_there act (err e) = pure nothing_pruned
if_there act (ok t) = act

-- A pruning function: nothing if the directory is not there, else the listing and the loop.
unfoldable pub prune_directory :
    {E : Type 0} → Rule E → (FilePath → Io (List E)) → Bool → FilePath → Io Pruned
unfolding prune_loop finish
prune_directory rule list dry_run root = do
  there ← attempt (stat root)
  if_there (do es ← attempt (list root); after_listing rule dry_run root es) there
