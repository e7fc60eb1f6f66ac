-- ===== src/Worker.antt =====
-- server/internal/baselineintegrity/worker/worker.go: the loop that claims events, hands them to a
-- handler and puts them away by its outcome.
pub mod Foreign
pub mod Settling
pub mod Pipeline
use baseline_integrity.Base.{ℕ, zero, suc, Bool, Option, none, some, is_nil, Text, if◌then◌else◌}
use baseline_integrity.Base.Result.{
  Error, message, Result, ok, err, is_no_pending, is_panicked, is_retry_later,
}
use baseline_integrity.Proto.{second}
use baseline_integrity.Crypto.{Codec}
use baseline_integrity.Os.{FilePath, Io, pure, raise, raise_if, ◌>>=◌, ◌>>◌, attempt, ignore, log}
use baseline_integrity.Outbox.{Event, Outbox, ensure, claim_one, mark_done, mark_failed, requeue}

-- Intervals are not negative here, so `<= 0` is `== 0`.
pub record Config : Type 0 where
  -- Nothing for the empty string.
  pub outbox_dir : Option FilePath
  pub poll_interval : ℕ
  pub once : Bool

pub record Claimed : Type 0 where
  pub event : Event
  pub processing_path : FilePath

pub record Worker : Type 0 where
  pub ob : Outbox
  pub cfg : Config

abbrev pub Handler : Type 0
Handler = Claimed → Io (Unit {0})

abbrev interval_or_second : ℕ → ℕ
interval_or_second zero = second
interval_or_second (suc n) = suc n

-- `New`, for a logger that is there.
unfoldable pub new_worker_at : Config → Option FilePath → Io Worker
new_worker_at cfg none = raise (message "OutboxDir is required")
new_worker_at cfg (some d) = do
  ensure d
  pure
      (record { ob = d; cfg = record cfg { poll_interval = interval_or_second cfg.poll_interval } })

unfoldable pub new_worker : Config → Io Worker
unfolding new_worker_at
new_worker cfg = new_worker_at cfg cfg.outbox_dir

-- How an error is printed (`%v\n`) is a parameter.
module _ (J : Codec Event) (describe : Error → Text) where
  -- Where the event goes by the handler's outcome. Errors of the move are dropped. A panic of the
  -- handler ends the process before anything is moved.
  unfoldable pub put_away : Outbox → FilePath → Result (Unit {0}) → Io (Unit {0})
  put_away o p (ok u) = ignore (mark_done o p)
  put_away o p (err e) =
      if is_panicked e
      then raise e
      else if is_retry_later e
      then ignore (requeue o p)
      else ignore (mark_failed o p (describe e))

  unfoldable pub handle : Worker → Handler → Event × FilePath → Io (Unit {0})
  unfolding put_away
  handle w handler (ev, p) = do
    outcome ← attempt (handler (record { event = ev; processing_path = p }))
    put_away w.ob p outcome

  -- One round of the loop in `Run`, from the claim to the second `select`.
  unfoldable pub round : Worker → Handler → Result (Event × FilePath) → Io (Unit {0})
  round w handler (err e) = if is_no_pending e then pure tt else log "claim error"
  round w handler (ok (ev, p)) = if is_nil p then pure tt else handle w handler (ev, p)

  -- `Run` in loop mode, for a context that is cancelled after this many rounds.
  unfoldable pub run_rounds : ℕ → Worker → Handler → Io (Unit {0})
  unfolding round
  run_rounds zero w handler = pure tt
  run_rounds (suc n) w handler = do
    got ← attempt (claim_one J w.ob)
    round w handler got
    run_rounds n w handler

  unfoldable pub once_claimed : Worker → Handler → Result (Event × FilePath) → Io (Unit {0})
  once_claimed w handler (err e) =
      if is_no_pending e then log "no work (once mode)" else log "claim error (once mode)"
  once_claimed w handler (ok (ev, p)) =
      if is_nil p then log "no work (once mode)" else handle w handler (ev, p)

  unfoldable pub run_once : Worker → Handler → Io (Unit {0})
  unfolding once_claimed
  run_once w handler = do got ← attempt (claim_one J w.ob); once_claimed w handler got

  unfoldable pub run : ℕ → Worker → Option Handler → Io (Unit {0})
  run n w none = raise (message "handler is required")
  run n w (some handler) = if w.cfg.once then run_once w handler else run_rounds n w handler
