-- ===== src/Tests/Stores.antt =====
-- The stores of players, matches and the ledger at concrete inputs.
use baseline_integrity.Base.{
  zero, ◌≡◌, refl, none, some, Option, List, [], ◌∷◌, Text, codes, arith, sym, text_eq, list_eq,
  if◌then◌else◌,
}
use baseline_integrity.Base.Int.{ℤ, pos, negsuc}
use baseline_integrity.Base.Result.{ok}
use baseline_integrity.Crypto.{Codec, RoundTrips}
use baseline_integrity.Os.{
  World, FilePath, path_eq, path_lt, lookup, insert, join, push_all, push, split_slash, file, dir,
  has_no_slash, write_file, mkdir_all, read_file,
}
use baseline_integrity.Os.Still.{still}
use baseline_integrity.Risk.{RiskState}
use baseline_integrity.Risk.Store.{state_path, load, loaded, save, mark_applied}
use baseline_integrity.Risk.Reload.{state_path-places, load-save}
use baseline_integrity.Tests.Wire.{flatten, words, words-flatten}
use baseline_integrity.Tests.Numbers.{whole}
use baseline_integrity.Tests.Services.{calm}
use baseline_integrity.Os.{open_append, write_end}
use baseline_integrity.Risk.Store.{MatchLine, append_match_line}

abbrev int_word : ℤ → Text
int_word (pos n) = 0 ∷ n ∷ []
int_word (negsuc n) = 1 ∷ n ∷ []

abbrev int_of : Text → ℤ
int_of (zero ∷ n ∷ []) = pos n
int_of (_ ∷ n ∷ []) = negsuc n
int_of _ = pos 0

int_of-int_word : (z : ℤ) → int_of (int_word z) ≡ z
int_of-int_word (pos n) = refl
int_of-int_word (negsuc n) = refl

abbrev state_words : RiskState ℤ → List Text
state_words s = s.player_id ∷ int_word s.total_risk ∷ (s.last_update ∷ []) ∷ []

abbrev state_of : Option (List Text) → Option (RiskState ℤ)
state_of (some (i ∷ r ∷ (t ∷ []) ∷ [])) =
    some (record { player_id = i; total_risk = int_of r; last_update = t })
state_of _ = none

abbrev pub state_codec : Codec (RiskState ℤ)
state_codec = record {
  encode = λ s. some (flatten (state_words s));
  decode = λ b. state_of (words 3 b);
}

pub state_codec-RoundTrips : RoundTrips state_codec
state_codec-RoundTrips = record {
  decode-encode = λ s b e.
      let same : flatten (state_words s) ≡ b = ground arith in
      rw (sym same, words-flatten (state_words s), int_of-int_word s.total_risk);
}

abbrev players : FilePath
players = codes "players" ∷ []

abbrev ann : RiskState ℤ
ann = record { player_id = codes "ann"; total_risk = pos 4; last_update = 3 }

abbrev bob : RiskState ℤ
bob = record { player_id = codes "bob"; total_risk = negsuc 0; last_update = 5 }

abbrev with_bob : World
with_bob = record calm {
  files = (codes "bob.json" ∷ players, file (flatten (state_words bob)) 1) ∷ (players, dir) ∷ [];
}

abbrev with_ann : World
with_ann = (save whole state_codec players ann with_bob).1

saves : save whole state_codec players ann with_bob ≡ (ok tt, with_ann)
unfolding save write_file join push_all push split_slash lookup path_eq list_eq text_eq insert
    path_lt
saves = refl

load-save_example :
    (load whole state_codec players (codes "bob") (still with_ann.files (λ n. n) 0 [])).0 ≡ (
      if path_eq (state_path players (codes "ann")) (state_path players (codes "bob"))
      then ok ann
      else (load whole state_codec players (codes "bob") (still with_bob.files (λ n. n) 0 [])).0)
load-save_example =
    load-save whole state_codec state_codec-RoundTrips players ann (codes "bob") with_bob with_ann
      (λ n. n) 0 [] saves

-- So the other player's state is still there, and the saved one is loaded.
bob_stays :
    (load whole state_codec players (codes "bob") (still with_ann.files (λ n. n) 0 [])).0 ≡ ok bob
unfolding load loaded save write_file read_file join push_all push split_slash lookup path_eq
    list_eq text_eq insert path_lt words flatten
bob_stays = refl

ann_loads :
    (load whole state_codec players (codes "ann") (still with_ann.files (λ n. n) 0 [])).0 ≡ ok ann
unfolding load loaded save write_file read_file join push_all push split_slash lookup path_eq
    list_eq text_eq insert path_lt words flatten
ann_loads = refl

state_path-places_example :
    (state_path (codes "players" ∷ codes "risk" ∷ []) (codes "p")
      ≡ codes "p.json" ∷ codes "players" ∷ codes "risk" ∷ [])
    × (state_path (codes "players" ∷ codes "risk" ∷ []) (codes "p")
          ≡ state_path (codes "players" ∷ codes "risk" ∷ []) (codes "q")
        → codes "p" ≡ codes "q")
    × (state_path (codes "players" ∷ codes "risk" ∷ []) (codes "../p")
        ≡ codes "p.json" ∷ codes "risk" ∷ [])
unfolding has_no_slash
state_path-places_example =
    state_path-places (codes "players") (codes "risk" ∷ []) (codes "p") (codes "q") refl refl

abbrev marked : World
marked = (mark_applied (codes "applied" ∷ []) (codes "m") calm).1

marks : mark_applied (codes "applied" ∷ []) (codes "m") calm ≡ (ok tt, marked)
unfolding mark_applied mkdir_all write_file join push_all push split_slash lookup path_eq list_eq
    text_eq insert path_lt
marks = refl

-- A ledger of the day, and lines by their matches.
abbrev line_codec : Codec (MatchLine ℤ)
line_codec = record { encode = λ l. some l.match_id; decode = λ b. none }

abbrev match_line : MatchLine ℤ
match_line = record { match_id = codes "m"; at = 5; players = (codes "p", pos 1) ∷ [] }

abbrev appended : World
appended = (append_match_line line_codec (λ t. codes "day") (codes "risk" ∷ []) match_line calm).1

appends :
    append_match_line line_codec (λ t. codes "day") (codes "risk" ∷ []) match_line calm
    ≡ (ok tt, appended)
unfolding append_match_line mkdir_all open_append write_end join push_all push split_slash lookup
    path_eq list_eq text_eq insert path_lt
appends = refl
