-- ===== src/Outbox.antt =====
-- server/internal/baselineintegrity/outbox/outbox.go: a queue of events in four directories, one
-- file to an event. `encoding/json` on events is a parameter.
pub mod Stages
pub mod Follows
pub mod Lifecycle
pub mod Sequences
pub mod RoundTrip
pub mod Frame
pub mod Foreign
pub mod Atomic
pub mod Exclusive
pub mod EventIds
use baseline_integrity.Base.{
  ℕ, ◌+◌, ◌-◌, ◌*◌, ◌%◌, ◌^◌, ltb, Bool, true, false, none, some, List, [], ◌∷◌, ◌++◌, Text, codes,
  has_suffix, decimal, if◌then◌else◌,
}
use baseline_integrity.Base.Result.{message, no_pending, Result, ok, err, or_err, is_exist}
use baseline_integrity.Proto.{unix_epoch}
use baseline_integrity.Crypto.{Codec}
use baseline_integrity.Os.{
  FilePath, join, base, Node, file, dir, Io, pure, raise, of_result, ◌>>=◌, ◌>>◌, attempt, ignore,
  time_now, mkdir_all, read_file, write_file, rename, remove, stat, read_dir,
}

pub data EventType : Type 0 where
  match_finalized : EventType
  unsupported : Text → EventType

pub record Event : Type 0 where
  pub id : Text
  pub type : EventType
  pub match_id : Text
  pub created_at : ℕ

-- `FSOutbox.Dir`
abbrev pub Outbox : Type 0
Outbox = FilePath

abbrev pub pending : Outbox → FilePath
pending o = codes "pending" ∷ o

abbrev pub processing : Outbox → FilePath
processing o = codes "processing" ∷ o

abbrev pub done : Outbox → FilePath
done o = codes "done" ∷ o

abbrev pub failed : Outbox → FilePath
failed o = codes "failed" ∷ o

abbrev pub json_suffix : Text
json_suffix = codes ".json"

-- `UnixNano()` as the bits of its `int64`, for an instant since year 1. The four whole turns of 64 bits
-- keep the difference above 0.
abbrev pub unix_nano : ℕ → ℕ
unix_nano now = (now + 4 * 2 ^ 64 - unix_epoch) % 2 ^ 64

-- `%d` of an `int64`, by its bits.
abbrev pub print_int64 : ℕ → Text
print_int64 bits = if ltb bits (2 ^ 63) then decimal bits else 45 ∷ decimal (2 ^ 64 - bits)

unfoldable pub new_event_id : Text → Text → Io Text
new_event_id instance_id match_id = do
  now ← time_now
  pure (print_int64 (unix_nano now) ++ (codes "_" ++ (instance_id ++ (codes "_" ++ match_id))))

unfoldable pub ensure : Outbox → Io (Unit {0})
ensure o = do
  mkdir_all (pending o)
  mkdir_all (processing o)
  mkdir_all (done o)
  mkdir_all (failed o)

abbrev pub is_stated : Result ℕ → Bool
is_stated (ok t) = true
is_stated (err e) = false

-- What `Enqueue` does with the outcome of its rename.
unfoldable pub settle : FilePath → FilePath → Result (Unit {0}) → Io (Unit {0})
settle tmp dst (ok u) = pure tt
settle tmp dst (err e) = do
  ignore (remove tmp)
  found ← if is_exist e then pure true else (do r ← attempt (stat dst); pure (is_stated r))
  if found then pure tt else raise e

-- An entry that `ClaimOne` may claim: `filepath.Ext(name)` is `.json`.
abbrev pub is_claimable : Text → Node → Bool
is_claimable name dir = false
is_claimable name (file b t) = has_suffix name json_suffix

module _ (J : Codec Event) where
  unfoldable pub enqueue : Outbox → Event → Io (Unit {0})
  unfolding settle ensure
  enqueue o ev = do
    ensure o
    b ← of_result (or_err (J.encode ev) (message "json"))
    let tmp = join (pending o) (ev.id ++ codes ".tmp")
    let dst = join (pending o) (ev.id ++ json_suffix)
    write_file tmp b
    renamed ← attempt (rename tmp dst)
    settle tmp dst renamed

  -- A claimed file is read and decoded; if that fails it goes to `failed`.
  unfoldable pub accept : Outbox → Text → FilePath → Result Text → Io (Event × FilePath)
  accept o name dst (err e) = do ignore (rename dst (join (failed o) name)); raise e
  accept o name dst (ok b) = elim (J.decode b) [
    | none ↦ do ignore (rename dst (join (failed o) name)); raise (message "json")
    | some ev ↦ pure (ev, dst)
  ]

  -- What `ClaimOne` does once it has tried to move a file; `later` claims from the other entries.
  unfoldable pub claimed :
      Outbox → Text → FilePath → Io (Event × FilePath) → Result (Unit {0}) → Io (Event × FilePath)
  unfolding accept
  claimed o name dst later (err e) = later
  claimed o name dst later (ok u) = do b ← attempt (read_file dst); accept o name dst b

  unfoldable pub claim_from : Outbox → List (Text × Node) → Io (Event × FilePath)
  unfolding claimed
  claim_from o [] = raise no_pending
  claim_from o ((name, node) ∷ es) =
      let later = claim_from o es in
      if is_claimable name node
      then (do
        let dst = join (processing o) name
        moved ← attempt (rename (join (pending o) name) dst)
        claimed o name dst later moved)
      else later

  unfoldable pub claim_one : Outbox → Io (Event × FilePath)
  unfolding claim_from ensure
  claim_one o = do ensure o; es ← read_dir (pending o); claim_from o es

unfoldable pub mark_done : Outbox → FilePath → Io (Unit {0})
mark_done o processing_path = rename processing_path (join (done o) (base processing_path))

-- The text is the error as `%v\n` prints it.
unfoldable pub mark_failed : Outbox → FilePath → Text → Io (Unit {0})
mark_failed o processing_path why = do
  let name = base processing_path
  ignore (write_file (join (failed o) (name ++ codes ".err.txt")) why)
  rename processing_path (join (failed o) name)

unfoldable pub requeue : Outbox → FilePath → Io (Unit {0})
requeue o processing_path = rename processing_path (join (pending o) (base processing_path))
