-- ===== src/Lib.antt =====
-- Baseline Integrity: the Go services that open game sessions, check their tokens, collect the
-- telemetry of matches, score it and prune what is old.
--
-- The parts of the program, and the files that model them:
--   Trust (server/internal/baselineintegrity/trust/service.go): `StartSession` is `start_session`
--     (`session_for` has its checks, `open_session` builds and signs the token), `GetPublicKeys` is
--     `get_public_keys`, `IntrospectTierToken` is `introspect_tier_token`. Token says what a genuine
--     token is, apart from the code.
--   Verify (verify/tier_token.go beside it): `VerifyTierTokenOffline`, which game servers run on the
--     keys that the trust service publishes.
--   Crypto and Keystore (crypto/crypto.go and crypto/keystore.go): nonces, signing, the key file;
--     Keystore/KeyPairs is about the signers that come out of it, Keystore/Reload and Keystore/Atomic
--     about reading it back and about faults.
--   Telemetry (telemetry/service.go): `NewServer` and `SubmitMatchAggregates`, whose checks, append
--     to the sink and push to the outbox are in Telemetry/Submission. Telemetry/Lines has the loaders
--     of telemetry/store; Telemetry/Scanning and Telemetry/RoundTrip are about the lines of a file,
--     Telemetry/Storage and Telemetry/Durability about what a submission leaves there, and
--     Telemetry/Torn about one that fails between its two writes.
--   Outbox (outbox/outbox.go): events as files in `pending`, `processing`, `done` and `failed`.
--     Outbox/Stages has these as the stages of a state machine, Outbox/Follows says when an action
--     implements it, Outbox/Lifecycle relates each operation to it and Outbox/Sequences all of them in
--     any order; Outbox/RoundTrip is about `Enqueue` and `ClaimOne` in a row, Outbox/Atomic about what
--     `Enqueue` can leave when it fails, Outbox/Exclusive about claims after each other, Outbox/Foreign
--     about the files that are not the outbox's, and Outbox/EventIds about `NewEventID`.
--   Worker (worker/worker.go): claims events, calls a handler and settles them. Worker/Settling and
--     Worker/Pipeline follow an event from `Enqueue` to where it is put away.
--   Risk (risk/): features, mapper and scoring; Risk/Store has the stores, the markers of applied
--     matches, the ledger and the loading of the configuration, and Risk/Reload what is read back.
--   RiskWorker (server/cmd/risk-worker/main.go): the handler that scores a finalized match. Its
--     flags, `run` and `main`, which gives the exit status, are in RiskWorker/Command. RiskWorker/Players
--     has the risks of a match without state, to compare with, RiskWorker/Ledger and RiskWorker/Update
--     what a success leaves in the ledger and in a player's file, RiskWorker/Delivery and
--     RiskWorker/Submitted relate the ledger to the sink and to submissions, and RiskWorker/Foreign
--     and RiskWorker/Untouched say what the command leaves alone.
--   Api (server/cmd/trust-api/main.go and server/cmd/telemetry-api/main.go): `main` of the two
--     services, and what they read from the environment. Listening and serving are parameters.
--   Retention (server/cmd/bi-retention/main.go): the command that deletes what is older than a cutoff;
--     its pruning functions are rules of one loop, in Retention/Rules.
--   Proto (proto/baselineintegrity/v1): the messages as records.
--   Os: the file tree, the clock and the log that code with effects runs on. Each call takes an entry
--     of a schedule of faults, so that a theorem about every world is about every sequence of faults.
--     Os/Reads, Os/Spares and Os/Keeps say what an action leaves alone, Os/Endings how a
--     path that is built from a foreign name ends, Os/Yields and Os/Appends what holds when an action
--     succeeds, Os/Still and Os/Room what it does when no fault is scheduled.
--   Float: `float64` as a parameter, with the laws of rounding that a theorem asks for.
--   Tests: concrete parameters and runs.
--
-- A submission appends a line to the match's file and enqueues an event; the worker claims the event
-- and the handler loads the lines, scores the players, appends to the ledger and marks the match. The
-- retention command prunes the files of all of them.
--
-- Parameters, being code that is not here: ed25519, SHA-256, the encodings of protobuf, JSON and
-- base64, the reading and printing of times, `float64`. Random bytes and clock readings are inputs.
--
-- Bounds and fuel: an instant is a count of nanoseconds since year 1; the retention is computed in 64
-- bits, wrap-around included; a difference of times saturates as `time.Duration` does. The nanoseconds
-- in an event's id are an `int64`, wrap-around and sign included. `decimal` has fuel for 20 digits,
-- enough below 2 ^ 64. The worker's endless loop is a number of rounds, which is an argument. Lines of
-- more than the scanner's buffer (64 KiB, or 8 MiB) are an error.
--
-- Paths: a file path is the list of its names, the last one first, from one place: `.` and `/` are the
-- empty list, and a relative path is not told from an absolute one. The flags of risk-worker and the
-- configuration of the worker have an optional path, with nothing for the empty string.
--
-- Not modelled: gRPC itself, flag parsing and signals (a cancelled context is the end of the
-- rounds), permissions, links and open files, dates before 1970 in messages, nil elements of the
-- lists of counters, histograms and quantiles, and what else runs at the same time. Unknown fields
-- of messages, which protobuf keeps, writes and compares, have no place in the records. Go ranges
-- over a map in a random order at each call; the rules of a mapping configuration are lists here, in
-- one order at every call, so differences of rounding between calls do not show. `.` or `/` as the
-- telemetry directory that is loaded from, or as the root of bi-retention, is taken for a missing one.
-- A panic is an error that no caller handles, and the status of a process that it ends is left out;
-- the handler of risk-worker has none.
pub mod Base
pub mod Proto
pub mod Crypto
pub mod Trust
pub mod Token
pub mod Verify
pub mod Os
pub mod Outbox
pub mod Worker
pub mod Float
pub mod Risk
pub mod Telemetry
pub mod RiskWorker
pub mod Retention
pub mod Keystore
pub mod Api
pub mod Tests
