-- ===== src/Api.antt =====
-- server/cmd/trust-api/main.go and server/cmd/telemetry-api/main.go, and what the services read from
-- their environment (`os.Getenv`, the empty text for a variable that is not set). The network and
-- gRPC are parameters: an action that listens, and one that serves until it stops.
pub mod Keys
use baseline_integrity.Base.{
  ℕ, String, Option, List, [], ◌∷◌, is_nil, Text, text_eq, codes, if◌then◌else◌,
}
use baseline_integrity.Base.Result.{Result, ok, err}
use baseline_integrity.Crypto.{Primitives, Codec, Entropy}
use baseline_integrity.Os.{FilePath, join, Io, pure, ◌>>=◌, ◌>>◌, attempt, log}
use baseline_integrity.Keystore.{DiskKeyFile, new_server as new_trust_server}
use baseline_integrity.Telemetry.{Settings, new_server as new_telemetry_server}
use baseline_integrity.Telemetry as T
use baseline_integrity.Trust as R

module _ (getenv : Text → Text) where
  -- A path of the environment, or its default.
  abbrev pub env_path : Text → FilePath → FilePath
  env_path name default = if is_nil (getenv name) then default else join [] (getenv name)

  abbrev pub env_text : Text → Text → Text
  env_text name default = if is_nil (getenv name) then default else getenv name

  -- `NewServer` of trust/service.go
  unfoldable pub trust_server_of_env :
      Primitives → Codec DiskKeyFile → Codec Text → (Text → Text) → Entropy → Io R.Server
  trust_server_of_env C json base64 base64_url entropy =
      new_trust_server C json base64 base64_url
        (env_path (codes "BASELINEINTEGRITY_SIGNING_KEY_PATH")
          (codes "dev_signing_key.json" ∷ codes ".baselineintegrity" ∷ []))
        entropy

  -- `NewServer` of telemetry/service.go
  unfoldable pub telemetry_server_of_env : (Text → Option Text) → Io T.Server
  telemetry_server_of_env base64 =
      new_telemetry_server base64
        (env_path (codes "BASELINEINTEGRITY_TELEMETRY_DIR")
          (codes "telemetry" ∷ codes ".baselineintegrity" ∷ []))
        (getenv (codes "BASELINEINTEGRITY_REQUIRE_TELEMETRY_SERVER_SIG"))
        (getenv (codes "BASELINEINTEGRITY_TELEMETRY_SERVER_PUBKEYS"))

  -- What `SubmitMatchAggregates` reads for the push to the outbox.
  unfoldable pub settings_of_env : Settings
  settings_of_env = record {
    outbox_dir =
        env_path (codes "BASELINEINTEGRITY_OUTBOX_DIR")
          (codes "outbox" ∷ codes ".baselineintegrity" ∷ []);
    on_finalize_only =
        text_eq (getenv (codes "BASELINEINTEGRITY_OUTBOX_ON_FINALIZE_ONLY")) (codes "1");
    instance_id = env_text (codes "BASELINEINTEGRITY_SERVER_INSTANCE_ID") (codes "dev");
  }

-- `log.Fatalf` prints and exits with status 1.
abbrev pub or_fatal : {A : Type 0} → String → (A → Io ℕ) → Result A → Io ℕ
or_fatal why next (ok a) = next a
or_fatal why next (err e) = do log why; pure 1

module _ {S : Type 0} where
  -- From a server that is made, and from a socket that listens, to the end of the process.
  abbrev pub serve_made : (S → Io (Unit {0})) → S → Io ℕ
  serve_made serve srv = do
    log "listening"
    served ← attempt (serve srv)
    or_fatal "gRPC server stopped" (λ v. pure 0) served

  abbrev pub serve_listening : Io S → (S → Io (Unit {0})) → Unit {0} → Io ℕ
  serve_listening new_server serve u = do
    made ← attempt new_server
    or_fatal "failed to init server" (serve_made serve) made

  -- `main` of both commands: the status that the process exits with.
  unfoldable pub serve_main : Io (Unit {0}) → Io S → (S → Io (Unit {0})) → Io ℕ
  serve_main listen new_server serve = do
    listening ← attempt listen
    or_fatal "failed to listen" (serve_listening new_server serve) listening

unfoldable pub trust_api_main :
    (Text → Text)
    → Primitives
    → Codec DiskKeyFile
    → Codec Text
    → (Text → Text)
    → Entropy
    → Io (Unit {0})
    → (R.Server → Io (Unit {0}))
    → Io ℕ
unfolding serve_main trust_server_of_env
trust_api_main getenv C json base64 base64_url entropy listen serve =
    serve_main listen (trust_server_of_env getenv C json base64 base64_url entropy) serve

unfoldable pub telemetry_api_main :
    (Text → Text) → (Text → Option Text) → Io (Unit {0}) → (T.Server → Io (Unit {0})) → Io ℕ
unfolding serve_main telemetry_server_of_env
telemetry_api_main getenv base64 listen serve =
    serve_main listen (telemetry_server_of_env getenv base64) serve
