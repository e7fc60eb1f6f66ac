-- ===== src/Risk/Reload.antt =====
-- What the stores of risk/ read back of what they wrote, whatever faults were scheduled for the
-- writing, and where they put it.
use mathlib.Core.List.{append_cancel_right}
use baseline_integrity.Base.{
  ℕ, ◌≡◌, ◌∙◌, refl, true, Option, none, some, List, [], ◌∷◌, ◌++◌, Text, ◌==◌, codes, arith, ap,
  if◌then◌else◌, sym, inl, inr, Bool-cases, Option-cases, String,
}
use baseline_integrity.Base.Result.{ok}
use baseline_integrity.Crypto.{Codec, RoundTrips}
use baseline_integrity.Float.{Float}
use baseline_integrity.Os.{
  FilePath, join, path_eq, path_eq_iff, read_file, Files, has_no_slash, lookup, Node, file, dir,
  time_now, World, mkdir_all, write_file, open_append, write_end, push_all, split_slash, onto_first,
  slash, push,
}
use baseline_integrity.Os.Appends.{
  continue_with-ok, IsFile, bytes_of, write_file-ok, open_append-ok, write_end-ok,
}
use baseline_integrity.Os.Room.{join-suffix}
use baseline_integrity.Os.Spares.{write_file-Spares, mkdir_all-Spares}
use baseline_integrity.Os.Still.{still, read_file-still, stat-still}
use baseline_integrity.Risk.{RiskState}
use baseline_integrity.Risk.Store.{
  state_path, loaded, load, save, applied_path, stated, is_applied, mark_applied, MatchLine,
  ledger_dir, append_match_line,
}

json_plain : has_no_slash (codes ".json") ≡ true
unfolding has_no_slash
json_plain = refl

state_path-plain :
    (d : FilePath) (id : Text)
    → has_no_slash id ≡ true
    → state_path d id ≡ (id ++ codes ".json") ∷ d
state_path-plain d id h = join-suffix d id (codes ".json") h json_plain (omega arith)

onto_first-cons :
    (c : ℕ) (ws : List Text) → (v : Text) × (vs : List Text) × (onto_first c ws ≡ v ∷ vs)
onto_first-cons c [] = (c ∷ [], [], refl)
onto_first-cons c (w ∷ ws) = elim (Bool-cases (c == slash)) [
  | inl cut ↦ ([], w ∷ ws, rw cut refl)
  | inr kept ↦ (c ∷ w, ws, rw kept refl)
]

split_slash-cons : (s : Text) → (v : Text) × (vs : List Text) × (split_slash s ≡ v ∷ vs)
unfolding split_slash
split_slash-cons [] = ([], [], refl)
split_slash-cons (c ∷ s) = onto_first-cons c (split_slash s)

join-dot_dot : (e : Text) (d : FilePath) (s : Text) → join (e ∷ d) (codes "../" ++ s) ≡ join d s
unfolding join push_all push split_slash
join-dot_dot e d s = let (v, vs, parts) = split_slash-cons s in rw (parts) refl

-- A player whose id has no separator has a file directly in the store's directory, two such players
-- have different files, and for an id that is `../` followed by an id without separator the file is
-- directly in the directory above the store's.
pub state_path-places :
    (e : Text) (d : FilePath) (id id' : Text)
    → has_no_slash id ≡ true
    → has_no_slash id' ≡ true
    → (state_path (e ∷ d) id ≡ (id ++ codes ".json") ∷ e ∷ d)
      × (state_path (e ∷ d) id ≡ state_path (e ∷ d) id' → id ≡ id')
      × (state_path (e ∷ d) (codes "../" ++ id) ≡ (id ++ codes ".json") ∷ d)
state_path-places e d id id' plain plain' =
    let here = state_path-plain (e ∷ d) id plain in
    let there = state_path-plain (e ∷ d) id' plain' in
    (
      here,
      λ same. append_cancel_right id id' (codes ".json") (ground (arith, here, there, same)),
      join-dot_dot e d (id ++ codes ".json") ∙ state_path-plain d id plain,
    )

module _ {F : Type 0} (R : Float F) (states : Codec (RiskState F)) (P : RoundTrips states) where
  pub load-IsFile :
      (d : FilePath) (id b : Text) (s : RiskState F) (w : World) (c : ℕ → ℕ) (n : ℕ)
      (l : List String)
      → IsFile (state_path d id) b w
      → states.decode b ≡ some s
      → (load R states d id (still w.files c n l)).0 ≡ ok s
  unfolding load loaded
  load-IsFile d id b s w c n l (t, there) decoded =
      rw (read_file-still c n l w.files (state_path d id) b t there, decoded)

  -- A read without faults looks only at the player's file.
  load-same :
      (d : FilePath) (id : Text) (fs fs' : Files) (c : ℕ → ℕ) (n : ℕ) (l : List String)
      → lookup (state_path d id) fs ≡ lookup (state_path d id) fs'
      → (load R states d id (still fs c n l)).0 ≡ (load R states d id (still fs' c n l)).0
  unfolding load loaded read_file time_now
  load-same d id fs fs' c n l same = go (lookup (state_path d id) fs') same refl
    where
      go :
          (o : Option Node)
          → lookup (state_path d id) fs ≡ o
          → lookup (state_path d id) fs' ≡ o
          → (load R states d id (still fs c n l)).0 ≡ (load R states d id (still fs' c n l)).0
      go none e e' = rw (e, e')
      go (some dir) e e' = rw (e, e')
      go (some (file b t)) e e' = rw (e, e')

  -- After a state was saved with success, under any faults, what is loaded for a player, when no
  -- fault is scheduled, is the saved state if the player's file is the one that was saved to, as it is
  -- for the saved player, and what was loaded before otherwise.
  pub load-save :
      (d : FilePath) (s : RiskState F) (id : Text) (w w' : World) (c : ℕ → ℕ) (n : ℕ)
      (l : List String)
      → save R states d s w ≡ (ok tt, w')
      → (load R states d id (still w'.files c n l)).0 ≡ (
          if path_eq (state_path d s.player_id) (state_path d id)
          then ok s
          else (load R states d id (still w.files c n l)).0)
  unfolding save
  load-save d s id w w' c n l e = elim (Option-cases (states.encode s)) [
    | inl bad ↦ ground (arith, bad)
    | inr (b, good) ↦
        let p = state_path d s.player_id in
        let written : write_file p b w ≡ (ok tt, w') = rw good at e in
        elim (Bool-cases (path_eq p (state_path d id))) [
          | inl same ↦
              let (time, there) = write_file-ok p w w' b written in
              let here = (path_eq_iff p (state_path d id)).0 same in
              rw same (
                load-IsFile d id b s w' c n l (time, sym (ap (λ q. lookup q w'.files) here) ∙ there)
                  (P.decode-encode s b good))
          | inr other ↦
              let spared = (write_file-Spares p b).spares w (state_path d id) other in
              rw other (
                load-same d id w'.files w.files c n l
                  (sym (ap (λ r. lookup (state_path d id) r.1.files) written) ∙ spared))
        ]
  ]

-- A match that was marked with success, under any faults, is applied, when no fault is scheduled.
pub is_applied-mark_applied :
    (d : FilePath) (match_id : Text) (w w' : World) (c : ℕ → ℕ) (n : ℕ) (l : List String)
    → mark_applied d match_id w ≡ (ok tt, w')
    → (is_applied d match_id (still w'.files c n l)).0 ≡ ok true
unfolding mark_applied is_applied stated
is_applied-mark_applied d match_id w w' c n l e =
    let (u, v, made, run) = continue_with-ok _ (mkdir_all d w) tt w' e in
    let (t, there) = write_file-ok (applied_path d match_id) v w' (codes "ok" ++ (10 ∷ [])) run in
    rw (stat-still c n l w'.files (applied_path d match_id) (codes "ok" ++ (10 ∷ [])) t there)

module _ {F : Type 0} (J : Codec (MatchLine F)) (day : ℕ → Text) where
  -- A line that was appended to the ledger with success, under any faults, is behind what the file of
  -- its day held before, as one more line, and the bytes before it are unchanged.
  pub append_match_line_appends :
      (risk_root : FilePath) (line : MatchLine F) (b : Text) (w w' : World)
      → J.encode line ≡ some b
      → append_match_line J day risk_root line w ≡ (ok tt, w')
      → let p = codes "ledger.jsonl" ∷ ledger_dir J day risk_root line.at in
        IsFile p (bytes_of (lookup p w.files) ++ (b ++ (10 ∷ []))) w'
  unfolding append_match_line
  append_match_line_appends risk_root line b w w' good e =
      let d = ledger_dir J day risk_root line.at in
      let p = codes "ledger.jsonl" ∷ d in
      let (u, v, made, run) = continue_with-ok _ (mkdir_all d w) tt w' e in
      let (u', x, opened, write) = continue_with-ok _ (open_append p v) tt w' run in
      let spared = (mkdir_all-Spares d).spares w p (omega arith) in
      let old : lookup p v.files ≡ lookup p w.files =
        sym (ap (λ r. lookup p r.1.files) made) ∙ spared in
      let (here, clock, reads) = open_append-ok p v x opened in
      let kept : IsFile p (bytes_of (lookup p w.files)) x = rw (sym old) here in
      let written : write_end p (b ++ (10 ∷ [])) x ≡ (ok tt, w') = rw good at write in
      write_end-ok p x w' (bytes_of (lookup p w.files)) (b ++ (10 ∷ [])) kept written
