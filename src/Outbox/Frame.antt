-- ===== src/Outbox/Frame.antt =====
-- What `Enqueue` leaves alone: every file but the two names of its event.
use baseline_integrity.Base.{true, ◌++◌, codes}
use baseline_integrity.Base.Result.{Result, ok, err, or_err, message, is_exist}
use baseline_integrity.Crypto.{Codec}
use baseline_integrity.Os.{FilePath, join, ignore, rename, remove}
use baseline_integrity.Os.Reads.{
  pure-Reads, raise-Reads, of_result-Reads, attempt-Reads, >>=-Reads, stat-Reads,
}
use baseline_integrity.Os.Spares.{IsNot, IsNeither, write_file-Spares, rename-Spares, remove-Spares}
use baseline_integrity.Os.Keeps.{
  Keeps, Spares-Keeps, Reads-Keeps, if-Keeps, attempt-Keeps, ignore-Keeps, >>=-Keeps, >>-Keeps,
  mkdir_all-Keeps,
}
use baseline_integrity.Outbox.{
  Outbox, Event, pending, processing, done, failed, json_suffix, ensure, is_stated, settle, enqueue,
}

module _ (p : FilePath) where
  pub ensure-Keeps : (o : Outbox) → Keeps p (ensure o)
  unfolding ensure
  ensure-Keeps o = >>-Keeps p _ _ (mkdir_all-Keeps p (pending o)) (
      >>-Keeps p _ _ (mkdir_all-Keeps p (processing o))
        (>>-Keeps p _ _ (mkdir_all-Keeps p (done o)) (mkdir_all-Keeps p (failed o))))

  settle-Keeps :
      (tmp dst : FilePath) (r : Result (Unit {0})) → IsNot tmp p → Keeps p (settle tmp dst r)
  unfolding settle
  settle-Keeps tmp dst (ok u) i = Reads-Keeps p _ (pure-Reads tt)
  settle-Keeps tmp dst (err e) i =
      >>-Keeps p (ignore (remove tmp)) _
        (ignore-Keeps p _ (Spares-Keeps p (IsNot tmp) _ i (remove-Spares tmp)))
        (>>=-Keeps p _ _
          (if-Keeps p (is_exist e) _ _ (Reads-Keeps p _ (pure-Reads true)) (
            Reads-Keeps p _
              (>>=-Reads _ _ (attempt-Reads _ (stat-Reads dst)) (λ r. pure-Reads (is_stated r)))))
          (λ found.
            if-Keeps p found _ _ (Reads-Keeps p _ (pure-Reads tt))
              (Reads-Keeps p _ (raise-Reads Unit e))))

  pub enqueue-Keeps :
      (C : Codec Event) (o : Outbox) (ev : Event)
      → IsNot (join (pending o) (ev.id ++ codes ".tmp")) p
      → IsNot (join (pending o) (ev.id ++ json_suffix)) p
      → Keeps p (enqueue C o ev)
  unfolding enqueue
  enqueue-Keeps C o ev i j =
      let tmp = join (pending o) (ev.id ++ codes ".tmp") in
      let dst = join (pending o) (ev.id ++ json_suffix) in
      >>-Keeps p _ _ (ensure-Keeps o) (
        >>=-Keeps p _ _ (Reads-Keeps p _ (of_result-Reads (or_err (C.encode ev) (message "json"))))
          (λ b. >>-Keeps p _ _ (Spares-Keeps p (IsNot tmp) _ i (write_file-Spares tmp b)) (
            >>=-Keeps p _ _
              (attempt-Keeps p _ (
                Spares-Keeps p (IsNeither tmp dst) (rename tmp dst) (i, j) (rename-Spares tmp dst)))
              (λ r. settle-Keeps tmp dst r i))))
