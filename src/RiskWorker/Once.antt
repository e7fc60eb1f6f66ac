-- ===== src/RiskWorker/Once.antt =====
-- The handler of server/cmd/risk-worker/main.go on a match that it has scored before.
use baseline_integrity.Base.{ℕ, suc, ◌≡◌, String, true, Option, List, [], ◌∷◌, Text, arith}
use baseline_integrity.Base.Result.{ok}
use baseline_integrity.Crypto.{Codec}
use baseline_integrity.Float.{Float}
use baseline_integrity.Os.{FilePath, Files, World, time_now, stat}
use baseline_integrity.Os.Reads.{log-Reads}
use baseline_integrity.Os.Still.{still}
use baseline_integrity.Os.Leaves.{Leaves, HasFile, >>=-Leaves, >>-Leaves, write_file-Leaves}
use baseline_integrity.Worker.{Claimed}
use baseline_integrity.Risk.{RiskState}
use baseline_integrity.Risk.Store.{
  is_applied, mark_applied, applied_path, MatchLine, append_match_line,
}
use baseline_integrity.Telemetry.{SubmitMatchAggregatesRequest}
use baseline_integrity.Telemetry.Lines.{MatchRequestLine}
use baseline_integrity.RiskWorker.{
  Setup, applied_dir, score_lines, last_at, line_at, process_lines, apply_once, handler,
}

mark_applied-Leaves :
    (d : FilePath) (id : Text) → Leaves (HasFile (applied_path d id)) (mark_applied d id)
unfolding mark_applied
mark_applied-Leaves d id = >>=-Leaves _ _ _ (λ u. write_file-Leaves _ _)

is_applied-marked :
    (d : FilePath) (id : Text) (fs : Files) (c : ℕ → ℕ) (n : ℕ) (l : List String)
    → HasFile (applied_path d id) fs
    → is_applied d id (still fs c n l) ≡ (ok true, still fs c n l)
unfolding is_applied stat
is_applied-marked d id fs c n l h = ground arith

module _ {F : Type 0} (R : Float F) (json : Codec (SubmitMatchAggregatesRequest F))
    (parse_time : Text → Option ℕ) (states : Codec (RiskState F)) (lines : Codec (MatchLine F))
    (day : ℕ → Text) (setup : Setup F) where
  process_lines-Leaves :
      (id : Text) (l : MatchRequestLine F) (ls : List (MatchRequestLine F))
      → Leaves
          (HasFile (applied_path (applied_dir setup.risk_dir) id))
          (process_lines R json parse_time states lines day setup id (l ∷ ls))
  unfolding process_lines
  process_lines-Leaves id l ls =
      let scored = score_lines R json parse_time states lines day setup (l ∷ ls) [] in
      let append = λ (players : List (Text × F)) (at : ℕ).
        append_match_line lines day setup.risk_dir
          (record { match_id = id; at = at; players = players }) in
      >>=-Leaves _ scored _ λ players. >>=-Leaves _ (line_at (last_at 0 (l ∷ ls))) _ λ at.
        >>=-Leaves _ (append players at) _ λ u.
          >>-Leaves _ _ _ (mark_applied-Leaves _ id) (log-Reads "SUCCESS event=match_finalized")

  apply_once-marked :
      (id : Text) (fs : Files) (c : ℕ → ℕ) (n : ℕ) (l : List String)
      → HasFile (applied_path (applied_dir setup.risk_dir) id) fs
      → (apply_once R json parse_time states lines day setup id (still fs c n l)).1.files ≡ fs
  unfolding apply_once
  apply_once-marked id fs c n l h =
      ground (arith, is_applied-marked (applied_dir setup.risk_dir) id fs c n l h)

  handler-marked :
      (claimed : Claimed) (fs : Files) (c : ℕ → ℕ) (n : ℕ) (l : List String)
      → HasFile (applied_path (applied_dir setup.risk_dir) claimed.event.match_id) fs
      → (handler R json parse_time states lines day setup claimed (still fs c n l)).1.files ≡ fs
  unfolding handler time_now
  handler-marked claimed fs c n l h = ground (
    arith,
    apply_once-marked claimed.event.match_id fs c n l h,
    apply_once-marked claimed.event.match_id fs c (suc n) l h,
  )

  -- Once the lines of a match were processed with success, under whatever faults, handling an event
  -- of that match again changes no file, at any later time.
  pub handler-process_lines :
      (claimed : Claimed) (first : MatchRequestLine F) (rest : List (MatchRequestLine F))
      (w w' : World) (c : ℕ → ℕ) (n : ℕ) (l : List String)
      → process_lines R json parse_time states lines day setup claimed.event.match_id
          (first ∷ rest)
          w
        ≡ (ok tt, w')
      → (handler R json parse_time states lines day setup claimed (still w'.files c n l)).1.files
        ≡ w'.files
  handler-process_lines claimed first rest w w' c n l h =
      handler-marked claimed w'.files c n l
        (rw h at ((process_lines-Leaves claimed.event.match_id first rest).when_ok w tt (rw h)))
