-- ===== src/RiskWorker/Players.antt =====
-- The risks of a match as the handler collects them: a map from players to their last risks.
use baseline_integrity.Base.{
  ℕ, ◌≡◌, ◌∙◌, refl, sym, false, Option, none, some, List, [], ◌∷◌, ◌++◌, Text, text_eq,
  text_eq_iff, text_eq_refl, arith, inl, inr, Bool-cases, if◌then◌else◌,
}
use baseline_integrity.Base.Result.{Result, ok, ◌>>=◌ as ◌>>=ᵣ◌}
use baseline_integrity.Crypto.{Codec}
use baseline_integrity.Float.{Float}
use baseline_integrity.Os.{pure, log}
use baseline_integrity.Os.Yields.{Yields, >>=-Yields, >>=-Yields-Yields}
use baseline_integrity.Risk.{
  PlayerAggregates, RiskState, MatchRisk, MappingConfig, apply_match_risk,
  map_aggregates_to_match_risk,
}
use baseline_integrity.Risk.Store.{MatchLine, load, save}
use baseline_integrity.Telemetry.{SubmitMatchAggregatesRequest}
use baseline_integrity.Telemetry.Lines.{MatchRequestLine}
use baseline_integrity.RiskWorker.{
  Setup, players_dir, fill_state, set_player, score_player, score_players, score_lines,
}

module _ {F : Type 0} where
  -- What a list of risks says of a player: the first entry, and the last one.
  abbrev pub first_risk : Text → List (Text × F) → Option F
  first_risk k [] = none
  first_risk k ((id, v) ∷ rs) = if text_eq id k then some v else first_risk k rs

  abbrev pub or_else : Option F → Option F → Option F
  or_else (some v) d = some v
  or_else none d = d

  abbrev pub last_risk : Text → List (Text × F) → Option F
  last_risk k [] = none
  last_risk k ((id, v) ∷ rs) = or_else (last_risk k rs) (if text_eq id k then some v else none)

  -- No player is listed twice.
  abbrev pub IsMap : List (Text × F) → Type 0
  IsMap [] = Unit
  IsMap ((id, v) ∷ rs) = (first_risk id rs ≡ none) × IsMap rs

  abbrev set_all : List (Text × F) → List (Text × F) → List (Text × F)
  set_all [] acc = acc
  set_all ((id, v) ∷ rs) acc = set_all rs (set_player id v acc)

  first_risk-set_player :
      (k id : Text) (v : F) (acc : List (Text × F))
      → first_risk k (set_player id v acc) ≡ (if text_eq id k then some v else first_risk k acc)
  unfolding set_player
  first_risk-set_player k id v [] = refl
  first_risk-set_player k id v ((j, u) ∷ acc) = elim (Bool-cases (text_eq j id)) [
    | inl same ↦ let named : j ≡ id = (text_eq_iff j id).0 same in rw (same, named) (ground arith)
    | inr differ ↦ elim (Bool-cases (text_eq id k)) [
      | inr other ↦ rw (differ, first_risk-set_player k id v acc, other) refl
      | inl it ↦
          let named : id ≡ k = (text_eq_iff id k).0 it in
          let apart : text_eq j k ≡ false = rw named at differ in
          rw (differ, first_risk-set_player k id v acc, it, apart) refl
    ]
  ]

  set_player-IsMap :
      (id : Text) (v : F) (acc : List (Text × F)) → IsMap acc → IsMap (set_player id v acc)
  unfolding set_player
  set_player-IsMap id v [] h = (refl, tt)
  set_player-IsMap id v ((j, u) ∷ acc) (new, h) = elim (Bool-cases (text_eq j id)) [
    | inl same ↦ let named : j ≡ id = (text_eq_iff j id).0 same in rw same (rw named at new, h)
    | inr differ ↦ rw differ (
      first_risk-set_player j id v acc ∙ ground (arith, text_eq_iff id j, text_eq_refl j),
      set_player-IsMap id v acc h,
    )
  ]

  set_all-IsMap : (rs acc : List (Text × F)) → IsMap acc → IsMap (set_all rs acc)
  set_all-IsMap [] acc h = h
  set_all-IsMap ((id, v) ∷ rs) acc h = set_all-IsMap rs _ (set_player-IsMap id v acc h)

  first_risk-set_all :
      (k : Text) (rs acc : List (Text × F))
      → first_risk k (set_all rs acc) ≡ or_else (last_risk k rs) (first_risk k acc)
  first_risk-set_all k [] acc = refl
  first_risk-set_all k ((id, v) ∷ rs) acc =
      first_risk-set_all k rs (set_player id v acc)
      ∙ rw (first_risk-set_player k id v acc) (by_last (last_risk k rs))
    where
      by_last :
          (r : Option F)
          → or_else r (if text_eq id k then some v else first_risk k acc)
            ≡ or_else (or_else r (if text_eq id k then some v else none)) (first_risk k acc)
      by_last (some u) = refl
      by_last none = elim (Bool-cases (text_eq id k)) [
        | inl it ↦ rw it refl
        | inr other ↦ rw other refl
      ]

  set_all-append :
      (rs more acc : List (Text × F)) → set_all (rs ++ more) acc ≡ set_all more (set_all rs acc)
  set_all-append [] more acc = refl
  set_all-append ((id, v) ∷ rs) more acc = set_all-append rs more (set_player id v acc)

module _ {F : Type 0} (R : Float F) (cfg : MappingConfig F) where
  -- The risks that a match's lines map to, in their order, without any state.
  unfoldable pub player_risks : ℕ → List (Option (PlayerAggregates F)) → Result (List (Text × F))
  player_risks at [] = ok []
  player_risks at (p ∷ ps) = map_aggregates_to_match_risk R p cfg at >>=ᵣ λ mr.
      player_risks at ps >>=ᵣ λ rs. ok ((mr.player_id, mr.value) ∷ rs)

  unfoldable pub line_risks : List (MatchRequestLine F) → Result (List (Text × F))
  unfolding player_risks
  line_risks [] = ok []
  line_risks (l ∷ ls) =
      player_risks l.at l.req.players >>=ᵣ λ rs. line_risks ls >>=ᵣ λ more. ok (rs ++ more)

  -- The map that a match's lines give: each player once, with the last risk found for it.
  abbrev pub IsScores : List (MatchRequestLine F) → List (Text × F) → Type 0
  IsScores ls players =
      IsMap players
      × (rs : List (Text × F)) × (line_risks ls ≡ ok rs)
      × ((k : Text) → first_risk k players ≡ last_risk k rs)

pure-Yields : {A : Type 0} (Q : A → Type 0) (a : A) → Q a → Yields Q (pure a)
pure-Yields Q a h = record { value_ok = λ w b e. let same : a ≡ b = ground arith in rw same at h }

module _ {F : Type 0} (R : Float F) (json : Codec (SubmitMatchAggregatesRequest F))
    (parse_time : Text → Option ℕ) (states : Codec (RiskState F)) (lines : Codec (MatchLine F))
    (day : ℕ → Text) (setup : Setup F) where
  -- These risks were added to the map.
  abbrev IsAdded : Result (List (Text × F)) → List (Text × F) → List (Text × F) → Type 0
  IsAdded found acc players = (rs : List (Text × F)) × (found ≡ ok rs) × (players ≡ set_all rs acc)

  score_player-Yields :
      (at : ℕ) (p : Option (PlayerAggregates F)) (acc : List (Text × F))
      → Yields
          (λ players.
            (mr : MatchRisk F) × (map_aggregates_to_match_risk R p setup.map_cfg at ≡ ok mr)
            × (players ≡ set_player mr.player_id mr.value acc))
          (score_player R json parse_time states lines day setup at p acc)
  unfolding score_player
  score_player-Yields at p acc =
      let d = players_dir setup.risk_dir in
      >>=-Yields-Yields _ (λ mr. map_aggregates_to_match_risk R p setup.map_cfg at ≡ ok mr) _ _
        (record { value_ok = λ w mr e. e })
        λ mr found. >>=-Yields _ (load R states d mr.player_id) _ λ prev.
          >>=-Yields _
            (save R states d (apply_match_risk R (fill_state prev mr) mr setup.score_cfg mr.at)) _
            λ u.
              >>=-Yields _ (log "match_risk total_risk") _
                λ u. pure-Yields _ (set_player mr.player_id mr.value acc) (mr, found, refl)

  score_players-Yields :
      (at : ℕ) (ps : List (Option (PlayerAggregates F))) (acc : List (Text × F))
      → Yields
          (IsAdded (player_risks R setup.map_cfg at ps) acc)
          (score_players R json parse_time states lines day setup at ps acc)
  unfolding score_players player_risks
  score_players-Yields at [] acc = record { value_ok = λ w players e. ([], refl, ground arith) }
  score_players-Yields at (p ∷ ps) acc =
      >>=-Yields-Yields _ _ _ _ (score_player-Yields at p acc) λ scored (mr, found, is). record {
        value_ok = λ w players e.
            let (rs, more, all) = (score_players-Yields at ps scored).value_ok w players e in
            ((mr.player_id, mr.value) ∷ rs, rw (found, more) refl, rw is at all);
      }

  score_lines-Yields :
      (ls : List (MatchRequestLine F)) (acc : List (Text × F))
      → Yields
          (IsAdded (line_risks R setup.map_cfg ls) acc)
          (score_lines R json parse_time states lines day setup ls acc)
  unfolding score_lines line_risks
  score_lines-Yields [] acc = record { value_ok = λ w players e. ([], refl, ground arith) }
  score_lines-Yields (l ∷ ls) acc =
      >>=-Yields-Yields _ _ _ _ (score_players-Yields l.at l.req.players acc)
        λ scored (rs, found, is). record {
          value_ok = λ w players e.
              let (more, rest, all) = (score_lines-Yields ls scored).value_ok w players e in
              (rs ++ more, rw (found, rest) refl, rw is at all ∙ sym (set_all-append rs more acc));
        }

  -- What scoring a match collects, under any faults.
  pub score_lines-IsScores :
      (ls : List (MatchRequestLine F))
      → Yields
          (IsScores R setup.map_cfg ls)
          (score_lines R json parse_time states lines day setup ls [])
  score_lines-IsScores ls = record {
    value_ok = λ w players e.
        let (rs, found, all) = (score_lines-Yields ls []).value_ok w players e in
        (
          rw all (set_all-IsMap rs [] tt),
          rs,
          found,
          λ k. rw all (first_risk-set_all k rs []) ∙ or_none (last_risk k rs),
        );
  }
    where
      or_none : (r : Option F) → or_else r none ≡ r
      or_none none = refl
      or_none (some v) = refl
