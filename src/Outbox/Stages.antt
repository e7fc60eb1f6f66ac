-- ===== src/Outbox/Stages.antt =====
-- The life of one event as a state machine, and what it means for the four directories of the outbox.
use baseline_integrity.Base.{
  ◌≡◌, ◌↔◌, refl, Bool, true, false, ◌&&◌, Option, none, some, ◌∷◌, Text, codes, text_eq, list_eq,
  arith, if◌then◌else◌,
}
use baseline_integrity.Os.{
  FilePath, path_eq, path_eq-cons, path_eq_refl, Node, file, dir, Files, lookup,
}
use baseline_integrity.Outbox.{Outbox}

-- Where an event is: waiting to be claimed, with a worker, or put away for good.
pub data Stage : Type 0 where
  queued taken finished broken : Stage

abbrev pub stage_eq : Stage → Stage → Bool
stage_eq queued queued = true
stage_eq taken taken = true
stage_eq finished finished = true
stage_eq broken broken = true
stage_eq _ _ = false

abbrev pub stage_name : Stage → Text
stage_name queued = codes "pending"
stage_name taken = codes "processing"
stage_name finished = codes "done"
stage_name broken = codes "failed"

abbrev pub dir_of : Outbox → Stage → FilePath
dir_of o s = stage_name s ∷ o

-- The moves: a worker claims an event, and finishes it, fails it or asks for a retry.
pub data Move : Stage → Stage → Type 0 where
  claim : Move queued taken
  finish : Move taken finished
  break : Move taken broken
  retry : Move taken queued

pub data Reach (s : Stage) : Stage → Type 0 where
  here : Reach s s
  next : {t u : Stage} → Reach s t → Move t u → Reach s u

pub Reach-trans : {s t u : Stage} → Reach s t → Reach t u → Reach s u
Reach-trans r here = r
Reach-trans r (next q m) = next (Reach-trans r q) m

-- The stages that no move leaves.
abbrev pub is_final : Stage → Bool
is_final finished = true
is_final broken = true
is_final _ = false

Move-not_final : {s t : Stage} → Move s t → is_final s ≡ false
Move-not_final claim = refl
Move-not_final finish = refl
Move-not_final break = refl
Move-not_final retry = refl

pub Reach-final : {s t : Stage} → is_final s ≡ true → Reach s t → t ≡ s
Reach-final f here = refl
Reach-final f (next r m) = cc (f, Move-not_final m, Reach-final f r)

-- A file by its bytes; a directory has none.
abbrev pub content : Option Node → Option (Option Text)
content none = none
content (some dir) = some none
content (some (file b t)) = some (some b)

text_eq-names : (s t : Stage) → text_eq (stage_name s) (stage_name t) ≡ stage_eq s t
unfolding text_eq list_eq
text_eq-names queued t = ground arith
text_eq-names taken t = ground arith
text_eq-names finished t = ground arith
text_eq-names broken t = ground arith

pub stage_eq_iff : (s t : Stage) → (stage_eq s t ≡ true) ↔ (s ≡ t)
stage_eq_iff queued t = ground arith
stage_eq_iff taken t = ground arith
stage_eq_iff finished t = ground arith
stage_eq_iff broken t = ground arith

pub path_eq-dir_of :
    (o : Outbox) (x y : Text) (s t : Stage)
    → path_eq (x ∷ dir_of o s) (y ∷ dir_of o t) ≡ (text_eq x y && stage_eq s t)
path_eq-dir_of o x y s t = ground (
  arith,
  path_eq-cons x y (dir_of o s) (dir_of o t),
  path_eq-cons (stage_name s) (stage_name t) o o,
  path_eq_refl o,
  text_eq-names s t,
)

module _ (o : Outbox) (name b : Text) where
  -- The event's file, with its bytes, is in the directory of its stage and in no other one.
  abbrev pub At : Stage → Files → Type 0
  At s fs =
      (t : Stage)
      → content (lookup (name ∷ dir_of o t) fs) ≡ (if stage_eq s t then some (some b) else none)

  -- Later files: the event has made moves of the state machine, or none.
  abbrev pub After : Stage → Files → Type 0
  After s fs = (t : Stage) × Reach s t × At t fs
