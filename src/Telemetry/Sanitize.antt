-- ===== src/Telemetry/Sanitize.antt =====
-- `sanitize` and the file names that it makes.
use baseline_integrity.Base.{
  ℕ, ◌≡◌, refl, Bool, true, false, [], ◌∷◌, ◌++◌, is_nil, all, Text, codes, ◌==◌, arith,
}
use baseline_integrity.Os.{FilePath, join-plain, has_no_slash, has_no_slash-append, slash}
use baseline_integrity.Telemetry.{is_safe, replace_unsafe, sanitize}
use baseline_integrity.Telemetry.Submission.{sink_path}

underscore_safe : is_safe b'_' ≡ true
unfolding is_safe
underscore_safe = refl

safe-ne-slash : (c : ℕ) → is_safe c ≡ true → (c == slash) ≡ false
unfolding is_safe
safe-ne-slash c h = ground arith

replace_unsafe-safe : (in_run : Bool) (s : Text) → all is_safe (replace_unsafe in_run s) ≡ true
unfolding replace_unsafe all
replace_unsafe-safe in_run [] = refl
replace_unsafe-safe in_run (c ∷ s) =
    ground (arith, underscore_safe, replace_unsafe-safe true s, replace_unsafe-safe false s)

replace_unsafe_fixed : (s : Text) → all is_safe s ≡ true → replace_unsafe false s ≡ s
unfolding replace_unsafe all
replace_unsafe_fixed [] h = refl
replace_unsafe_fixed (c ∷ s) h = ground (arith, replace_unsafe_fixed s)

pub has_no_slash_of_safe : (s : Text) → all is_safe s ≡ true → has_no_slash s ≡ true
unfolding all has_no_slash
has_no_slash_of_safe [] h = refl
has_no_slash_of_safe (c ∷ s) h = ground (arith, safe-ne-slash c, has_no_slash_of_safe s)

empty_safe : all is_safe (codes "empty") ≡ true
unfolding all is_safe
empty_safe = refl

pub sanitize-safe : (s : Text) → all is_safe (sanitize s) ≡ true
unfolding sanitize all
sanitize-safe [] = empty_safe
sanitize-safe (c ∷ s) = replace_unsafe-safe false (c ∷ s)

-- A name of safe bytes that is not empty stays as it is.
pub sanitize_fixed : (s : Text) → is_nil s ≡ false → all is_safe s ≡ true → sanitize s ≡ s
unfolding sanitize
sanitize_fixed [] h k = cc
sanitize_fixed (c ∷ s) h k = replace_unsafe_fixed (c ∷ s) k

abbrev pub match_name : Text → Text
match_name s = codes "match_" ++ (s ++ codes ".jsonl")

pub match_name-plain : (s : Text) → has_no_slash s ≡ true → has_no_slash (match_name s) ≡ true
unfolding has_no_slash
match_name-plain s h = has_no_slash-append s (codes ".jsonl") h refl

-- Every request is stored directly in the sink's directory: the file's name is `match_`, safe bytes
-- and `.jsonl`, for any id at all.
pub sink_path-in_sink :
    (d : FilePath) (match_id : Text)
    → (sink_path d match_id ≡ (codes "match_" ++ (sanitize match_id ++ codes ".jsonl")) ∷ d)
      × (all is_safe (sanitize match_id) ≡ true)
sink_path-in_sink d match_id = (
  join-plain d (match_name (sanitize match_id))
      (match_name-plain (sanitize match_id)
        (has_no_slash_of_safe (sanitize match_id) (sanitize-safe match_id)))
      (omega arith),
  sanitize-safe match_id,
)
