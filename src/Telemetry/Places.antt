-- ===== src/Telemetry/Places.antt =====
-- Where a match is stored and where it is looked for.
use mathlib.Core.List.{append_cancel_right}
use baseline_integrity.Base.{
  ◌≡◌, ◌↔◌, ◌∙◌, refl, sym, ap, true, false, ◌∷◌, ◌++◌, is_nil, all, Text, codes, arith,
}
use baseline_integrity.Os.{FilePath, join-plain, has_no_slash}
use baseline_integrity.Telemetry.{is_safe, sanitize}
use baseline_integrity.Telemetry.Lines.{load_path}
use baseline_integrity.Telemetry.Sanitize.{
  sanitize_fixed, sanitize-safe, match_name-plain, sink_path-in_sink,
}
use baseline_integrity.Telemetry.Submission.{sink_path}

pub load_path-plain :
    (d : FilePath) (m : Text)
    → has_no_slash m ≡ true
    → load_path d m ≡ (codes "match_" ++ (m ++ codes ".jsonl")) ∷ d
load_path-plain d m h =
    join-plain d (codes "match_" ++ (m ++ codes ".jsonl")) (match_name-plain m h) (omega arith)

name_cancel :
    (x y : Text) (d : FilePath)
    → (codes "match_" ++ (x ++ codes ".jsonl")) ∷ d ≡ (codes "match_" ++ (y ++ codes ".jsonl")) ∷ d
    → x ≡ y
name_cancel x y d e = append_cancel_right x y (codes ".jsonl") (ground arith)

-- A match whose id is not empty and has no separator is looked for where it is stored exactly when
-- the id is of safe bytes.
pub load_path-sink_path_iff :
    (d : FilePath) (m : Text)
    → is_nil m ≡ false
    → has_no_slash m ≡ true
    → (load_path d m ≡ sink_path d m) ↔ (all is_safe m ≡ true)
load_path-sink_path_iff d m full plain = (
  λ same.
      let fixed : m ≡ sanitize m =
        name_cancel m (sanitize m) d
          (sym (load_path-plain d m plain) ∙ same ∙ (sink_path-in_sink d m).0) in
      ap (all is_safe) fixed ∙ sanitize-safe m,
  λ safe. rw (sanitize_fixed m full safe) refl,
)
