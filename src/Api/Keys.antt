-- ===== src/Api/Keys.antt =====
-- The telemetry service never serves with an allowed key of a wrong size.
use baseline_integrity.Base.{[], ◌∷◌, text_eq, codes, ◌≡◌, refl, Option, List, Text, All, arith}
use baseline_integrity.Base.Result.{Error, Result, ok, err, on_err, wrap}
use baseline_integrity.Os.{World, FilePath, Io, pure, of_result, wrapping, mkdir_all, ◌>>=◌}
use baseline_integrity.Os.Yields.{Yields, >>=-Yields, >>=-Yields-Yields}
use baseline_integrity.Api.{
  env_path, telemetry_server_of_env, serve_main, or_fatal, serve_made, serve_listening,
  telemetry_api_main,
}
use baseline_integrity.Telemetry.{Server, new_server, parse_allowed_server_keys}
use baseline_integrity.Telemetry.AllowedKeys.{HasKeySize, parse_allowed_server_keys-ok}

-- Two ways to serve that do the same for servers with sound keys.
abbrev pub AgreeOnSound : (Server → Io (Unit {0})) → (Server → Io (Unit {0})) → Type 0
AgreeOnSound f g = (s : Server) → All HasKeySize s.allowed_keys → (w : World) → f s w ≡ g s w

on_err-ok : {A : Type 0} (f : Error → Error) (r : Result A) (a : A) → on_err f r ≡ ok a → r ≡ ok a
on_err-ok f (ok b) a e = e
on_err-ok f (err x) a e = cc

module _ (getenv : Text → Text) (base64 : Text → Option Text) where
  new_server-Yields :
      (d : FilePath) (require_sig pubkeys : Text)
      → Yields (λ s. All HasKeySize s.allowed_keys) (new_server base64 d require_sig pubkeys)
  unfolding new_server
  new_server-Yields d require_sig pubkeys =
      let keys =
        on_err (wrap "parse telemetry server pubkeys") (parse_allowed_server_keys base64 pubkeys) in
      let made : List (Text × Text) → Io Server = λ allowed. pure (record {
        sink_dir = d;
        require_sig = text_eq require_sig (codes "1");
        allowed_keys = allowed;
      }) in
      >>=-Yields _ (wrapping (wrap "mkdir telemetry sink") (mkdir_all d))
        (λ u. of_result keys >>= made)
        (λ u.
          >>=-Yields-Yields (λ s. All HasKeySize s.allowed_keys) (All HasKeySize) (of_result keys)
            made
            (record {
              value_ok = λ w found e. parse_allowed_server_keys-ok base64 pubkeys found (
                  on_err-ok (wrap "parse telemetry server pubkeys")
                    (parse_allowed_server_keys base64 pubkeys) found e);
            })
            (λ allowed sound. record { value_ok = λ w s e. made_ok allowed s sound e }))
    where
      made_ok :
          (allowed : List (Text × Text)) (s : Server)
          → All HasKeySize allowed
          → ok (record {
            sink_dir = d;
            require_sig = text_eq require_sig (codes "1");
            allowed_keys = allowed;
          })
            ≡ ok s
          → All HasKeySize s.allowed_keys
      made_ok allowed s sound e =
          let same : allowed ≡ s.allowed_keys = ground arith in rw same at sound

  server_of_env-Yields :
      Yields (λ s. All HasKeySize s.allowed_keys) (telemetry_server_of_env getenv base64)
  unfolding telemetry_server_of_env
  server_of_env-Yields =
      new_server-Yields
        (env_path getenv (codes "BASELINEINTEGRITY_TELEMETRY_DIR")
          (codes "telemetry" ∷ codes ".baselineintegrity" ∷ []))
        (getenv (codes "BASELINEINTEGRITY_REQUIRE_TELEMETRY_SERVER_SIG"))
        (getenv (codes "BASELINEINTEGRITY_TELEMETRY_SERVER_PUBKEYS"))

  served :
      (serve serve' : Server → Io (Unit {0})) (r : Result Server) (w : World)
      → AgreeOnSound serve serve'
      → ((s : Server) → r ≡ ok s → All HasKeySize s.allowed_keys)
      → or_fatal "failed to init server" (serve_made serve) r w
        ≡ or_fatal "failed to init server" (serve_made serve') r w
  served serve serve' (err e) w agree sound = refl
  served serve serve' (ok s) w agree sound =
      rw (agree s (sound s refl) (record w { printed = "listening" ∷ w.printed })) refl

  listened :
      (serve serve' : Server → Io (Unit {0})) (r : Result (Unit {0})) (w : World)
      → AgreeOnSound serve serve'
      → or_fatal "failed to listen"
          (serve_listening (telemetry_server_of_env getenv base64) serve)
          r
          w
        ≡ or_fatal "failed to listen"
            (serve_listening (telemetry_server_of_env getenv base64) serve')
            r
            w
  listened serve serve' (err e) w agree = refl
  listened serve serve' (ok u) w agree =
      let made = telemetry_server_of_env getenv base64 w in
      served serve serve' made.0 made.1 agree (server_of_env-Yields.value_ok w)

  -- What the process does does not depend on how a server with an unsound key would be served: under
  -- any faults, it serves only with allowed keys of 32 bytes.
  pub telemetry_api_main_sound :
      (listen : Io (Unit {0})) (serve serve' : Server → Io (Unit {0}))
      → AgreeOnSound serve serve'
      → (w : World)
      → telemetry_api_main getenv base64 listen serve w
        ≡ telemetry_api_main getenv base64 listen serve' w
  unfolding telemetry_api_main serve_main
  telemetry_api_main_sound listen serve serve' agree w =
      listened serve serve' (listen w).0 (listen w).1 agree
