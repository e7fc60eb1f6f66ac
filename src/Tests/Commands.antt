-- ===== src/Tests/Commands.antt =====
-- Keys and the commands at concrete inputs.
use baseline_integrity.Base.{
  ◌≡◌, ◌↔◌, refl, true, none, some, Option, List, [], ◌∷◌, ◌++◌, All, length, all, tabulate, Text,
  codes, arith, sym, ◌==◌, if◌then◌else◌,
}
use baseline_integrity.Base.Int.{ℤ, pos}
use baseline_integrity.Base.Result.{ok, is_dir, is_not_exist}
use baseline_integrity.Crypto.{Codec, Signer, new_ephemeral_signer}
use baseline_integrity.Os.{
  World, Io, log, FilePath, path_eq, path_lt, lookup, insert, erase, has_no_slash, read_file,
  write_file, rename, mkdir_all,
}
use baseline_integrity.Os.Room.{IsRoom}
use baseline_integrity.Os.Still.{still}
use baseline_integrity.RiskWorker.Command.{Flags}
use baseline_integrity.Keystore.{
  DiskKeyFile, new_disk_signer, load_or_create_ed25519, create_key, first_bytes,
}
use baseline_integrity.Keystore.Atomic.{IsWholeKey, new_disk_signer-IsWholeKey}
use baseline_integrity.Keystore.Reload.{KeyFormats, new_disk_signer-again}
use baseline_integrity.Telemetry.{is_safe}
use baseline_integrity.Telemetry.Lines.{load_path}
use baseline_integrity.Telemetry.Submission.{sink_path}
use baseline_integrity.Telemetry.Places.{load_path-sink_path_iff}
use baseline_integrity.Telemetry.AllowedKeys.{HasKeySize}
use baseline_integrity.Api.{telemetry_api_main}
use baseline_integrity.Api.Keys.{telemetry_api_main_sound}
use baseline_integrity.Tests.Wire.{
  pad, toy_crypto, toy_crypto-IsLawful, flatten, words, words-flatten-append,
}
use baseline_integrity.Tests.Services.{calm}

abbrev drawn : Signer
drawn = record {
  key_id = codes "k";
  priv = tabulate 64 (λ i. 7);
  pub_key = pad 32 (tabulate 64 (λ i. 7));
}

draws : new_ephemeral_signer toy_crypto (codes "k") (some (λ i. 7)) ≡ ok drawn
unfolding new_ephemeral_signer
draws = refl

load_path-sink_path_iff_example :
    (load_path (codes "telemetry" ∷ []) (codes "m 1")
      ≡ sink_path (codes "telemetry" ∷ []) (codes "m 1"))
    ↔ (all is_safe (codes "m 1") ≡ true)
unfolding has_no_slash
load_path-sink_path_iff_example =
    load_path-sink_path_iff (codes "telemetry" ∷ []) (codes "m 1") refl refl

-- Key files as words, and base64 that leaves a text as it is.
abbrev key_words : DiskKeyFile → List Text
key_words f = (f.version ∷ []) ∷ f.key_id ∷ f.priv_b64 ∷ []

abbrev key_of : Option (List Text) → Option DiskKeyFile
key_of (some ((v ∷ []) ∷ k ∷ p ∷ [])) = some (record { version = v; key_id = k; priv_b64 = p })
key_of _ = none

abbrev key_json : Codec DiskKeyFile
key_json = record { encode = λ f. some (flatten (key_words f)); decode = λ b. key_of (words 3 b) }

abbrev same_text : Codec Text
same_text = record { encode = λ b. some b; decode = λ b. some b }

key_json-KeyFormats : KeyFormats key_json same_text
key_json-KeyFormats = record {
  json_line = λ f b e.
      let same : flatten (key_words f) ≡ b = ground arith in
      rw (sym same, words-flatten-append (key_words f) (10 ∷ []));
  base64_key = λ key. (key, refl, refl, refl);
}

abbrev key_path : FilePath
key_path = codes "key" ∷ codes "telemetry" ∷ []

abbrev with_key : World
with_key = (new_disk_signer toy_crypto key_json same_text (λ b. b) key_path (some (λ i. 7)) calm).1

abbrev key_signer : Signer
key_signer = record {
  key_id = codes "dev-" ++ tabulate 12 (λ i. 7);
  priv = tabulate 64 (λ i. 7);
  pub_key = pad 32 (tabulate 64 (λ i. 7));
}

makes_key :
    new_disk_signer toy_crypto key_json same_text (λ b. b) key_path (some (λ i. 7)) calm
    ≡ (ok key_signer, with_key)
unfolding new_disk_signer pad tabulate load_or_create_ed25519 mkdir_all lookup path_eq read_file
    is_not_exist create_key write_file insert path_lt rename first_bytes
makes_key = refl

with_key-IsRoom : IsRoom (codes "telemetry" ∷ []) with_key.files
unfolding new_disk_signer pad tabulate load_or_create_ed25519 mkdir_all lookup path_eq read_file
    is_not_exist create_key write_file insert path_lt rename first_bytes erase
with_key-IsRoom = (refl, tt)

new_disk_signer-again_example :
    new_disk_signer toy_crypto key_json same_text
      (λ b. b)
      key_path
      (some (λ i. 9))
      (still with_key.files (λ n. n) 0 [])
    ≡ (ok key_signer, still with_key.files (λ n. n) 0 [])
new_disk_signer-again_example =
    new_disk_signer-again toy_crypto toy_crypto-IsLawful key_json same_text (λ b. b)
      key_json-KeyFormats key_path (some (λ i. 7)) (some (λ i. 9)) key_signer calm with_key (λ n. n)
      0 [] makes_key with_key-IsRoom

-- The fifth call, the rename, fails.
abbrev failing_rename : World
failing_rename = record calm { faults = none ∷ none ∷ none ∷ none ∷ some is_dir ∷ [] }

new_disk_signer-IsWholeKey_example :
    IsWholeKey toy_crypto key_json same_text
      (λ b. b)
      (codes "key")
      (codes "telemetry" ∷ [])
      (some (λ i. 7))
      failing_rename
      (new_disk_signer toy_crypto key_json same_text
        (λ b. b)
        key_path
        (some (λ i. 7))
        failing_rename).1
new_disk_signer-IsWholeKey_example =
    new_disk_signer-IsWholeKey toy_crypto key_json same_text (λ b. b) (codes "key")
      (codes "telemetry" ∷ []) (some (λ i. 7)) failing_rename

abbrev pub no_codec : {A : Type 0} → Codec A
no_codec = record { encode = λ a. none; decode = λ b. none }

abbrev pub no_flags : Flags ℤ
no_flags = record {
  root_dir = none;
  outbox_dir = none;
  telemetry_dir = none;
  risk_dir = none;
  mapping_config_path = none;
  decay_factor = pos 1;
  risk_cap = pos 10;
  finalize_grace = pos 0;
  poll_interval = pos 1;
  once = true;
}

abbrev bad_keys : Text → Text
bad_keys name = codes "k:short"

-- Serving that tells a key of a wrong size.
abbrev picky : List (Text × Text) → Io (Unit {0})
picky [] = log "serving"
picky (kv ∷ m) = if length kv.1 == 32 then log "serving" else log "unsound key"

picky-log : (m : List (Text × Text)) → All HasKeySize m → (w : World) → log "serving" w ≡ picky m w
picky-log [] sound w = refl
picky-log (kv ∷ m) (h, k) w = rw h refl

telemetry_api_main_sound_example :
    telemetry_api_main bad_keys (λ b. some b) (log "bound") (λ s. log "serving") calm
    ≡ telemetry_api_main bad_keys (λ b. some b) (log "bound") (λ s. picky s.allowed_keys) calm
telemetry_api_main_sound_example =
    telemetry_api_main_sound bad_keys (λ b. some b) (log "bound") (λ s. log "serving")
      (λ s. picky s.allowed_keys) (λ s sound w. picky-log s.allowed_keys sound w) calm
