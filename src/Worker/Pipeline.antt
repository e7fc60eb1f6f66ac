-- ===== src/Worker/Pipeline.antt =====
-- An event from `Enqueue` to where the worker puts it, when no fault is scheduled.
use baseline_integrity.Base.{
  ℕ, ◌≡◌, ◌⊎◌, ◌∙◌, refl, ap, true, none, some, List, [], ◌∷◌, ◌++◌, Text, codes, String, arith,
  inl, inr, has_suffix-append, text_eq_refl, if◌then◌else◌,
}
use baseline_integrity.Base.Result.{Error, Result}
use baseline_integrity.Crypto.{Codec, RoundTrips}
use baseline_integrity.Os.{
  FilePath, has_no_slash, has_no_slash-append, file, dir, Files, lookup, insert, lookup-insert,
  World, listing, ◌>>◌,
}
use baseline_integrity.Os.Appends.{continue_with-ok}
use baseline_integrity.Os.Still.{still}
use baseline_integrity.Outbox.{Event, Outbox, json_suffix, pending, processing, enqueue}
use baseline_integrity.Outbox.Lifecycle.{IsEventName}
use baseline_integrity.Outbox.RoundTrip.{IsReady, claim_one-enqueue}
use baseline_integrity.Outbox.Stages.{Stage, taken, dir_of, path_eq-dir_of, content, At}
use baseline_integrity.Worker.{Worker, Handler, once_claimed, run_rounds, run_once, run}
use baseline_integrity.Worker.Settling.{outcome_stage, handle-settles, path_eq_of_shorter}

-- The paths of the outbox that an event of this name and its moves depend on.
abbrev pub IsOfOutbox : Outbox → Text → FilePath → Type 0
IsOfOutbox o x k = (s : Stage) × ((k ≡ dir_of o s) ⊎ (k ≡ x ∷ dir_of o s))

module _ (o : Outbox) (x b : Text) (t : ℕ) (fs : Files) where
  abbrev claimed_files : Files
  claimed_files = insert (x ∷ processing o) (file b t) fs

  claimed-At : ((s : Stage) → lookup (x ∷ dir_of o s) fs ≡ none) → At o x b taken claimed_files
  claimed-At free s = ground (
    arith,
    lookup-insert (x ∷ processing o) (x ∷ dir_of o s) (file b t) fs,
    path_eq-dir_of o x x taken s,
    text_eq_refl x,
    free s,
  )

  claimed-dir :
      (s : Stage) → lookup (dir_of o s) fs ≡ some dir → lookup (dir_of o s) claimed_files ≡ some dir
  claimed-dir s room =
      rw (lookup-insert, path_eq_of_shorter (x ∷ processing o) (dir_of o s) (omega arith)) room

module _ (C : Codec Event) (R : RoundTrips C) (describe : Error → Text) (w : Worker) (c : ℕ → ℕ)
    (n : ℕ) (l : List String) where
  -- Without faults, an event that encodes and whose id has no separator, put into an outbox that has its
  -- four directories, nothing at all in `pending` and in none of the four a file of the event's name, is
  -- handled by the next run in once mode, and ends, with its bytes and in no other directory, in `done`
  -- if its handler succeeds, in `pending` if it asks for a retry, in `processing` if it panics, and in
  -- `failed` otherwise; for a handler that leaves the outbox's directories and this event's file alone
  -- and meets no fault.
  pub run-enqueue :
      (ev : Event) (b : Text) (fs : Files) (handler : Handler) (r : Result (Unit {0}))
      (after : World) (rounds : ℕ)
      → IsReady w.ob fs
      → listing (pending w.ob) fs ≡ []
      → has_no_slash ev.id ≡ true
      → C.encode ev ≡ some b
      → ((s : Stage) → lookup ((ev.id ++ json_suffix) ∷ dir_of w.ob s) fs ≡ none)
      → lookup ((ev.id ++ codes ".tmp") ∷ pending w.ob) fs ≡ none
      → w.cfg.once ≡ true
      → handler
          (record { event = ev; processing_path = (ev.id ++ json_suffix) ∷ processing w.ob })
          (still (insert ((ev.id ++ json_suffix) ∷ processing w.ob) (file b (c n)) fs) c n l)
        ≡ (r, after)
      → after.faults ≡ []
      → ((k : FilePath)
          → IsOfOutbox w.ob (ev.id ++ json_suffix) k
          → lookup k after.files
            ≡ lookup k (insert ((ev.id ++ json_suffix) ∷ processing w.ob) (file b (c n)) fs))
      → At w.ob
          (ev.id ++ json_suffix)
          b
          (outcome_stage r)
          ((enqueue C w.ob ev >> run C describe rounds w (some handler)) (still fs c n l)).1.files
  unfolding run run_once once_claimed has_no_slash
  run-enqueue ev b fs handler r after rounds ready empty plain encoded free free_tmp once ran calm
        left =
      let o = w.ob in
      let x = ev.id ++ json_suffix in
      let event : IsEventName x = record {
        plain = has_no_slash-append ev.id json_suffix plain refl;
        json = has_suffix-append ev.id json_suffix;
      } in
      let claimed = still (insert (x ∷ processing o) (file b (c n)) fs) c n l in
      let (u, v, queued_it, got) =
        continue_with-ok _ (enqueue C o ev (still fs c n l)) (ev, x ∷ processing o) claimed
          (claim_one-enqueue C o c n l R ev b fs ready empty plain encoded free free_tmp) in
      let settled =
        handle-settles C describe w handler ev x b claimed after r event ran calm
          (left (dir_of o (outcome_stage r)) (outcome_stage r, inl refl)
            ∙ claimed-dir o x b (c n) fs (outcome_stage r) (ready (outcome_stage r)).0)
          (λ s.
            ap content (left (x ∷ dir_of o s) (s, inr refl)) ∙ claimed-At o x b (c n) fs free s) in
      let ran_once =
        ap
          (λ m.
            (if m then run_once C describe w handler else run_rounds C describe rounds w handler) v)
          once
        ∙ ap (λ q. once_claimed C describe w handler q.0 q.1) got in
      rw (queued_it, ran_once) settled
