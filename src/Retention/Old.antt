-- ===== src/Retention/Old.antt =====
-- What the rules of server/cmd/bi-retention/main.go choose, and the retention window.
use baseline_integrity.Base.{
  ℕ, ◌*◌, ◌≤◌, ◌<◌, ◌≡◌, ◌≢◌, refl, true, Option, none, some, Text, codes, has_suffix, arith,
  Bool-cases, Option-cases, ◌+◌, inl, inr,
}
use baseline_integrity.Base.Result.{Result, ok, err}
use baseline_integrity.Proto.{second}
use baseline_integrity.Os.{
  FilePath, Node, file, dir, lookup, World, Io, continue_with, read_file, join,
}
use baseline_integrity.Os.Yields.{Holds, read_file-Holds}
use baseline_integrity.Retention.{drop, Decision}
use baseline_integrity.Retention.Rules.{
  events_rule, players_rule, ledger_rule, day_length, if_created_before, if_updated_before,
  retention_of,
}

-- The file's bytes give a time of this kind.
abbrev pub IsDated : (ℕ → Type 0) → (Text → Option ℕ) → Option Node → Type 0
IsDated Q time (some (file b t)) = (at : ℕ) × (time b ≡ some at) × Q at
IsDated Q time _ = ⊥

abbrev pub IsOlder : ℕ → ℕ → Type 0
IsOlder cutoff at = at < cutoff

-- Before the cutoff, and not the zero time that a missing field stands for.
abbrev pub IsStampedOlder : ℕ → ℕ → Type 0
IsStampedOlder cutoff at = (at ≢ 0) × (at < cutoff)

IsDated-of_Holds :
    (Q : ℕ → Type 0) (time : Text → Option ℕ) (b : Text) (at : ℕ) (o : Option Node)
    → Holds b o
    → time b ≡ some at
    → Q at
    → IsDated Q time o
IsDated-of_Holds Q time b at none h e q = h
IsDated-of_Holds Q time b at (some dir) h e q = h
IsDated-of_Holds Q time b at (some (file b' t)) h e q = (at, rw h e, q)

module _ (time : Text → Option ℕ) (cutoff : ℕ) where
  created-drop :
      (w : World) (o : Option ℕ)
      → (if_created_before time cutoff o w).0 ≡ ok drop
      → (at : ℕ) × (o ≡ some at) × IsStampedOlder cutoff at
  created-drop w none e = ground arith
  created-drop w (some at) e = (at, refl, (ground arith, ground arith))

  updated-drop :
      (w : World) (o : Option ℕ)
      → (if_updated_before time cutoff o w).0 ≡ ok drop
      → (at : ℕ) × (o ≡ some at) × IsOlder cutoff at
  updated-drop w none e = ground arith
  updated-drop w (some at) e = (at, refl, ground arith)

  -- What is decided on the time that a file was read to have.
  read-drop :
      (Q : ℕ → Type 0) (p : FilePath) (w : World) (decide : Option ℕ → Io Decision)
      (r : Result Text × World)
      → ((v : World) (o : Option ℕ) → (decide o v).0 ≡ ok drop → (at : ℕ) × (o ≡ some at) × Q at)
      → ((b : Text) → r.0 ≡ ok b → Holds b (lookup p w.files))
      → (continue_with (λ b. decide (time b)) r).0 ≡ ok drop
      → IsDated Q time (lookup p w.files)
  read-drop Q p w decide (ok b, w') only h e =
      let (at, found, q) = only w' (time b) e in
      IsDated-of_Holds Q time b at (lookup p w.files) (h b refl) found q
  read-drop Q p w decide (err x, w') only h e = cc

  -- An event file of `done` or `failed` is chosen for deletion only if its name ends in `.json` and
  -- the bytes that it holds give a creation time that is not the zero time and is before the cutoff,
  -- whatever faults are scheduled.
  pub events_rule-drop :
      (d : FilePath) (name : Text) (node : Node) (w : World)
      → ((events_rule time d cutoff).examine (name, node) w).0 ≡ ok drop
      → (has_suffix name (codes ".json") ≡ true)
        × IsDated (IsStampedOlder cutoff) time (lookup (join d name) w.files)
  events_rule-drop d name dir w e = ground arith
  events_rule-drop d name (file b t) w e = elim (Bool-cases (has_suffix name (codes ".json"))) [
    | inl json ↦ (
      json,
      read-drop (IsStampedOlder cutoff) (join d name) w (if_created_before time cutoff)
          (read_file (join d name) w) created-drop (λ b h. read_file-Holds (join d name) w b h)
          (ground (arith, json)),
    )
    | inr other ↦ ground arith
  ]

  -- A player's file is chosen for deletion only if its name ends in `.json` and the bytes that it
  -- holds give a last update before the cutoff, whatever faults are scheduled.
  pub players_rule-drop :
      (d : FilePath) (name : Text) (node : Node) (w : World)
      → ((players_rule time d cutoff).examine (name, node) w).0 ≡ ok drop
      → (has_suffix name (codes ".json") ≡ true)
        × IsDated (IsOlder cutoff) time (lookup (join d name) w.files)
  players_rule-drop d name dir w e = ground arith
  players_rule-drop d name (file b t) w e = elim (Bool-cases (has_suffix name (codes ".json"))) [
    | inl json ↦ (
      json,
      read-drop (IsOlder cutoff) (join d name) w (if_updated_before time cutoff)
          (read_file (join d name) w) updated-drop (λ b h. read_file-Holds (join d name) w b h)
          (ground (arith, json)),
    )
    | inr other ↦ ground arith
  ]

-- An entry of the ledger is chosen for deletion only if it is a directory whose name is a day that
-- ended before the cutoff.
pub ledger_rule-drop :
    (parse_day : Text → Option ℕ) (d : FilePath) (cutoff : ℕ) (name : Text) (node : Node)
    (w : World)
    → ((ledger_rule parse_day d cutoff).examine (name, node) w).0 ≡ ok drop
    → (node ≡ dir) × (day : ℕ) × (parse_day name ≡ some day) × (day + day_length < cutoff)
ledger_rule-drop parse_day d cutoff name (file b t) w e = ground arith
ledger_rule-drop parse_day d cutoff name dir w e = elim (Option-cases (parse_day name)) [
  | inl other ↦ ground (arith, other)
  | inr (day, found) ↦ (refl, day, found, ground (arith, found))
]

-- For 1 to 106,751 days the retention is exactly that many days, in nanoseconds.
pub retention_of-exact :
    (days : ℕ) → 0 < days → days ≤ 106_751 → retention_of days ≡ some (days * (86_400 * second))
unfolding retention_of
retention_of-exact days h k = ground arith

-- 213,504 days wrap around to a retention of 1,526 seconds and some.
retention_of-wraps : retention_of 213_504 ≡ some 1_526_290_448_384
unfolding retention_of
retention_of-wraps = refl
