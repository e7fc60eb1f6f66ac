-- ===== src/RiskWorker/Exit.antt =====
-- The exit status of the risk-worker command.
use baseline_integrity.Base.{ℕ, ◌≡◌, Bool, true, false, Option, Text, is_none, ◌⊎◌, if◌then◌else◌}
use baseline_integrity.Base.Int.{pos}
use baseline_integrity.Base.Result.{Error, Result, ok, err}
use baseline_integrity.Crypto.{Codec}
use baseline_integrity.Os.{World, Io}
use baseline_integrity.Os.Reads.{Reads}
use baseline_integrity.Float.{Float}
use baseline_integrity.Outbox.{Event}
use baseline_integrity.Risk.{RiskState, MappingConfig}
use baseline_integrity.Risk.Store.{MatchLine}
use baseline_integrity.Telemetry.{SubmitMatchAggregatesRequest}
use baseline_integrity.RiskWorker.Command.{Flags, run_command}

-- An action that does not fail and changes no file.
pub record Looks {A : Type 0} (m : Io A) : Type 0 where
  pub look : (w : World) → (a : A) × (v : World) × (m w ≡ (ok a, v)) × (v.files ≡ w.files)

if-Looks : {A : Type 0} (b : Bool) (m n : Io A) → Looks m → Looks n → Looks (if b then m else n)
if-Looks true m n h k = h
if-Looks false m n h k = k

module _ {F : Type 0} where
  -- What the command asks of its flags, condition by condition: the four paths are given, the decay
  -- factor is above 0 and at most 1, the cap is above 0, and the grace is not negative.
  pub record AreUsable (R : Float F) (cfg : Flags F) : Type 0 where
    pub outbox_dir-given : is_none cfg.outbox_dir ≡ false
    pub telemetry_dir-given : is_none cfg.telemetry_dir ≡ false
    pub risk_dir-given : is_none cfg.risk_dir ≡ false
    pub mapping-given : is_none cfg.mapping_config_path ≡ false
    pub decay-positive : R.le cfg.decay_factor R.zero ≡ false
    pub decay-small : R.lt R.one cfg.decay_factor ≡ false
    pub cap-positive : R.le cfg.risk_cap R.zero ≡ false
    pub grace-size : (n : ℕ) × (cfg.finalize_grace ≡ pos n)

module _ {F : Type 0} (R : Float F) (json : Codec (SubmitMatchAggregatesRequest F))
    (parse_time : Text → Option ℕ) (states : Codec (RiskState F)) (lines : Codec (MatchLine F))
    (day : ℕ → Text) (mappings : Codec (MappingConfig F)) (events : Codec Event)
    (describe : Error → Text) where
  -- The three ends of the process, for the flags that it completed and the world that it then is in.
  abbrev pub Ends : ℕ → Flags F → World → ℕ → World → Type 0
  Ends n cfg u status v =
      let ran = run_command R json parse_time states lines day mappings events describe n cfg u in
      (¬ AreUsable R cfg × (status ≡ 2) × (v.files ≡ u.files))
      ⊎ (AreUsable R cfg
          × (v.files ≡ ran.1.files)
          × (((ran.0 ≡ ok tt) × (status ≡ 0)) ⊎ ((e : Error) × (ran.0 ≡ err e) × (status ≡ 1))))
