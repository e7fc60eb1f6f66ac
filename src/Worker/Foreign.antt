-- ===== src/Worker/Foreign.antt =====
-- What the worker's loops leave alone, with a handler that leaves it alone.
use baseline_integrity.Base.{ℕ, zero, suc, ◌≡◌, false, some, [], ◌∷◌, Text, is_nil, has_suffix}
use baseline_integrity.Base.Result.{
  Error, Result, ok, err, is_panicked, is_retry_later, is_no_pending,
}
use baseline_integrity.Crypto.{Codec}
use baseline_integrity.Os.{FilePath, ◌>>◌}
use baseline_integrity.Os.Reads.{pure-Reads, raise-Reads, log-Reads}
use baseline_integrity.Os.Keeps.{
  Keeps, Reads-Keeps, if-Keeps, attempt-Keeps, ignore-Keeps, >>=-Keeps, >>-Keeps, attempt->>=-Keeps,
}
use baseline_integrity.Outbox.{Event, Outbox, claim_one, json_suffix}
use baseline_integrity.Outbox.Foreign.{
  sidecar_suffix, claim_one-Keeps, mark_done-Keeps, mark_failed-Keeps, requeue-Keeps,
}
use baseline_integrity.Outbox.Lifecycle.{IsClaimed, claim_one-Yields}
use baseline_integrity.Worker.{
  Worker, Handler, Claimed, put_away, handle, round, run_rounds, once_claimed, run_once, run,
}

module _ (C : Codec Event) (describe : Error → Text) (x : Text) (q : FilePath)
    (json : has_suffix x json_suffix ≡ false) (txt : has_suffix x sidecar_suffix ≡ false) where
  put_away-Keeps :
      (o : Outbox) (p : FilePath) (r : Result (Unit {0}))
      → IsClaimed o p
      → Keeps (x ∷ q) (put_away C describe o p r)
  unfolding put_away
  put_away-Keeps o p (ok u) (y, e, is) =
      rw e (ignore-Keeps (x ∷ q) _ (mark_done-Keeps x q json txt o y is))
  put_away-Keeps o p (err why) (y, e, is) = rw e (
      if-Keeps (x ∷ q) (is_panicked why) _ _ (Reads-Keeps (x ∷ q) _ (raise-Reads Unit why)) (
        if-Keeps (x ∷ q) (is_retry_later why) _ _
          (ignore-Keeps (x ∷ q) _ (requeue-Keeps x q json txt o y is))
          (ignore-Keeps (x ∷ q) _ (mark_failed-Keeps x q json txt o y (describe why) is))))

  module _ (w : Worker) (handler : Handler) (tame : (c : Claimed) → Keeps (x ∷ q) (handler c)) where
    handle-Keeps :
        (got : Event × FilePath)
        → IsClaimed w.ob got.1
        → Keeps (x ∷ q) (handle C describe w handler got)
    unfolding handle
    handle-Keeps (ev, p) is =
        >>=-Keeps (x ∷ q) _ (put_away C describe w.ob p)
          (attempt-Keeps (x ∷ q) _ (tame (record { event = ev; processing_path = p })))
          (λ r. put_away-Keeps w.ob p r is)

    round_claimed-Keeps :
        (got : Event × FilePath)
        → IsClaimed w.ob got.1
        → Keeps (x ∷ q) (round C describe w handler (ok got))
    unfolding round
    round_claimed-Keeps (ev, p) is =
        if-Keeps (x ∷ q) (is_nil p) _ _ (Reads-Keeps (x ∷ q) _ (pure-Reads tt))
          (handle-Keeps (ev, p) is)

    round_failed-Keeps : (e : Error) → Keeps (x ∷ q) (round C describe w handler (err e))
    unfolding round
    round_failed-Keeps e =
        if-Keeps (x ∷ q) (is_no_pending e) _ _ (Reads-Keeps (x ∷ q) _ (pure-Reads tt))
          (Reads-Keeps (x ∷ q) _ (log-Reads "claim error"))

    run_rounds-Keeps : (n : ℕ) → Keeps (x ∷ q) (run_rounds C describe n w handler)
    unfolding run_rounds
    run_rounds-Keeps zero = Reads-Keeps (x ∷ q) _ (pure-Reads tt)
    run_rounds-Keeps (suc n) =
        attempt->>=-Keeps (x ∷ q) (λ got. IsClaimed w.ob got.1) (claim_one C w.ob)
          (λ got. round C describe w handler got >> run_rounds C describe n w handler)
          (claim_one-Keeps x q json txt C w.ob) (claim_one-Yields w.ob x [] C)
          (λ got is. >>-Keeps (x ∷ q) _ _ (round_claimed-Keeps got is) (run_rounds-Keeps n))
          (λ e. >>-Keeps (x ∷ q) _ _ (round_failed-Keeps e) (run_rounds-Keeps n))

    once_claimed-Keeps :
        (got : Event × FilePath)
        → IsClaimed w.ob got.1
        → Keeps (x ∷ q) (once_claimed C describe w handler (ok got))
    unfolding once_claimed
    once_claimed-Keeps (ev, p) is =
        if-Keeps (x ∷ q) (is_nil p) _ _ (Reads-Keeps (x ∷ q) _ (log-Reads "no work (once mode)"))
          (handle-Keeps (ev, p) is)

    once_failed-Keeps : (e : Error) → Keeps (x ∷ q) (once_claimed C describe w handler (err e))
    unfolding once_claimed
    once_failed-Keeps e =
        if-Keeps (x ∷ q) (is_no_pending e) _ _
          (Reads-Keeps (x ∷ q) _ (log-Reads "no work (once mode)"))
          (Reads-Keeps (x ∷ q) _ (log-Reads "claim error (once mode)"))

    run_once-Keeps : Keeps (x ∷ q) (run_once C describe w handler)
    unfolding run_once
    run_once-Keeps =
        attempt->>=-Keeps (x ∷ q) (λ got. IsClaimed w.ob got.1) (claim_one C w.ob)
          (once_claimed C describe w handler) (claim_one-Keeps x q json txt C w.ob)
          (claim_one-Yields w.ob x [] C) once_claimed-Keeps once_failed-Keeps

    pub run-Keeps : (n : ℕ) → Keeps (x ∷ q) (run C describe n w (some handler))
    unfolding run
    run-Keeps n = if-Keeps (x ∷ q) w.cfg.once _ _ run_once-Keeps (run_rounds-Keeps n)
