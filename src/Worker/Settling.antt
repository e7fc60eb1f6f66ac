-- ===== src/Worker/Settling.antt =====
-- Where the worker puts an event away when no fault is scheduled.
use baseline_integrity.Base.{
  ℕ, ◌<◌, ◌≡◌, ◌∙◌, refl, ap, false, Option, none, some, [], ◌∷◌, ◌++◌, length, Text, codes, arith,
  inl, inr, Bool-cases, if◌then◌else◌,
}
use baseline_integrity.Base.Result.{Error, Result, ok, err, is_panicked, is_retry_later}
use baseline_integrity.Crypto.{Codec}
use baseline_integrity.Os.{
  FilePath, join, path_eq, path_eq_iff, has_no_slash, Node, file, dir, lookup, World, open_truncate,
  write_end, write_file, rename,
}
use baseline_integrity.Os.Room.{join-suffix}
use baseline_integrity.Os.Spares.{IsNot, write_file-Spares}
use baseline_integrity.Outbox.{
  Event, Outbox, failed, done, pending, processing, mark_done, mark_failed, requeue,
}
use baseline_integrity.Outbox.Stages.{
  Stage, queued, taken, finished, broken, dir_of, content, At, stage_eq,
}
use baseline_integrity.Outbox.Follows.{moved-At}
use baseline_integrity.Outbox.Lifecycle.{IsEventName, join-IsEventName, sidecar-ne-place}
use baseline_integrity.Worker.{Worker, Handler, put_away, handle}

-- The stage that an event is put into by its handler's outcome.
abbrev pub outcome_stage : Result (Unit {0}) → Stage
outcome_stage (ok u) = finished
outcome_stage (err e) = if is_panicked e then taken else if is_retry_later e then queued else broken

pub path_eq_of_shorter : (p k : FilePath) → length k < length p → path_eq p k ≡ false
path_eq_of_shorter p k h = elim (Bool-cases (path_eq p k)) [
  | inl same ↦ absurd (omega (arith, h, ap length ((path_eq_iff p k).0 same)))
  | inr other ↦ other
]

content-file :
    (n : Option Node) (b : Text) → content n ≡ some (some b) → (t : ℕ) × (n ≡ some (file b t))
content-file none b h = ground arith
content-file (some dir) b h = ground arith
content-file (some (file c t)) b h = (t, ground arith)

content-none : (n : Option Node) → content n ≡ none → n ≡ none
content-none none h = refl
content-none (some dir) h = ground arith
content-none (some (file c t)) h = ground arith

-- No fault is scheduled after a write if none was before it.
write_file-calm :
    (p : FilePath) (b : Text) (w : World) → w.faults ≡ [] → (write_file p b w).1.faults ≡ []
unfolding write_file open_truncate write_end
write_file-calm p b w h = ground arith

module _ (o : Outbox) (x b : Text) where
  -- A claimed event moves on if the next directory is there.
  rename-moves :
      (t : Stage) (w : World)
      → stage_eq taken t ≡ false
      → w.faults ≡ []
      → lookup (dir_of o t) w.files ≡ some dir
      → At o x b taken w.files
      → At o x b t (rename (x ∷ dir_of o taken) (x ∷ dir_of o t) w).1.files
  unfolding rename
  rename-moves t w other calm room home =
      let (time, here) = content-file (lookup (x ∷ dir_of o taken) w.files) b (home taken) in
      let free : lookup (x ∷ dir_of o t) w.files ≡ none =
        content-none (lookup (x ∷ dir_of o t) w.files) (rw other at (home t)) in
      rw (calm, here, free, room) (moved-At o x b taken t time w.files home)

  module _ (event : IsEventName x) where
    mark_done-moves :
        (w : World)
        → w.faults ≡ []
        → lookup (done o) w.files ≡ some dir
        → At o x b taken w.files
        → At o x b finished (mark_done o (x ∷ processing o) w).1.files
    unfolding mark_done
    mark_done-moves w calm room home =
        rw (join-IsEventName (done o) x event) (rename-moves finished w refl calm room home)

    requeue-moves :
        (w : World)
        → w.faults ≡ []
        → lookup (pending o) w.files ≡ some dir
        → At o x b taken w.files
        → At o x b queued (requeue o (x ∷ processing o) w).1.files
    unfolding requeue
    requeue-moves w calm room home =
        rw (join-IsEventName (pending o) x event) (rename-moves queued w refl calm room home)

    sidecar-ne-failed : IsNot (join (failed o) (x ++ codes ".err.txt")) (failed o)
    unfolding has_no_slash
    sidecar-ne-failed =
        let there : join (failed o) (x ++ codes ".err.txt") ≡ (x ++ codes ".err.txt") ∷ failed o =
          join-suffix (failed o) x (codes ".err.txt") event.plain refl (omega arith) in
        rw there (path_eq_of_shorter ((x ++ codes ".err.txt") ∷ failed o) (failed o) (omega arith))

    mark_failed-moves :
        (why : Text) (w : World)
        → w.faults ≡ []
        → lookup (failed o) w.files ≡ some dir
        → At o x b taken w.files
        → At o x b broken (mark_failed o (x ∷ processing o) why w).1.files
    unfolding mark_failed
    mark_failed-moves why w calm room home =
        let sidecar = join (failed o) (x ++ codes ".err.txt") in
        let v = (write_file sidecar why w).1 in
        let spared = (write_file-Spares sidecar why).spares w in
        let home' : At o x b taken v.files = λ t.
          ap content (
            spared (x ∷ dir_of o t)
              (sidecar-ne-place o x b event x (x ∷ dir_of o t) event (t, refl)))
          ∙ home t in
        rw (join-IsEventName (failed o) x event) (
          rename-moves broken v refl (write_file-calm sidecar why w calm)
            (spared (failed o) sidecar-ne-failed ∙ room) home')

    module _ (C : Codec Event) (describe : Error → Text) where
      put_away-moves :
          (r : Result (Unit {0})) (w : World)
          → w.faults ≡ []
          → lookup (dir_of o (outcome_stage r)) w.files ≡ some dir
          → At o x b taken w.files
          → At o x b (outcome_stage r) (put_away C describe o (x ∷ processing o) r w).1.files
      unfolding put_away
      put_away-moves (ok u) w calm room home = mark_done-moves w calm room home
      put_away-moves (err e) w calm room home = elim (Bool-cases (is_panicked e)) [
        | inl dies ↦ rw dies home
        | inr lives ↦ elim (Bool-cases (is_retry_later e)) [
          | inl later ↦ rw (lives, later) (requeue-moves w calm (rw (lives, later) at room) home)
          | inr never ↦
              rw (lives, never)
                (mark_failed-moves (describe e) w calm (rw (lives, never) at room) home)
        ]
      ]

-- A claimed event is put where its handler's outcome says: into `done` on success, back into
-- `pending` on a retry, into `failed` on any other error, and stays in `processing` on a panic, with
-- the same bytes, and it is in no other directory; for a handler that leaves the claimed file and that stage's directory where they are and
-- uses up the faults that are scheduled.
pub handle-settles :
    (C : Codec Event) (describe : Error → Text) (w : Worker) (handler : Handler) (ev : Event)
    (x b : Text) (before after : World) (r : Result (Unit {0}))
    → IsEventName x
    → handler (record { event = ev; processing_path = x ∷ processing w.ob }) before ≡ (r, after)
    → after.faults ≡ []
    → lookup (dir_of w.ob (outcome_stage r)) after.files ≡ some dir
    → At w.ob x b taken after.files
    → At w.ob x b
        (outcome_stage r)
        (handle C describe w handler (ev, x ∷ processing w.ob) before).1.files
unfolding handle
handle-settles C describe w handler ev x b before after r event ran calm room home =
    rw ran (put_away-moves w.ob x b event C describe r after calm room home)
