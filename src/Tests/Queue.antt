-- ===== src/Tests/Queue.antt =====
-- The life of an event in the outbox at concrete inputs.
use baseline_integrity.Base.{
  ◌+◌, decimal, ◌≡◌, refl, none, some, Option, List, [], ◌∷◌, Text, codes, arith, sym, has_suffix,
  text_eq, list_eq, filter_by,
}
use baseline_integrity.Base.Result.{ok, not_exist}
use baseline_integrity.Crypto.{Codec, RoundTrips}
use baseline_integrity.Os.{
  time_now, World, ◌>>◌, path_eq, lookup, insert, file, dir, has_no_slash, entries,
}
use baseline_integrity.Os.Still.{still}
use baseline_integrity.Outbox.{
  new_event_id, Event, Outbox, EventType, unsupported, processing, enqueue, claim_one,
  match_finalized,
}
use baseline_integrity.Outbox.Stages.{Stage, queued, taken, finished, broken, Reach, At, dir_of}
use baseline_integrity.Outbox.Lifecycle.{IsEventName}
use baseline_integrity.Base.{All}
use baseline_integrity.Outbox.EventIds.{instant, new_event_id-instant}
use baseline_integrity.Proto.{unix_epoch}
use baseline_integrity.Outbox.RoundTrip.{IsReady, claim_one-enqueue}
use baseline_integrity.Outbox.Sequences.{
  Operation, put, claim_next, finish_it, IsAllowed, perform_all, perform_all-conserves,
}
use baseline_integrity.Tests.Wire.{flatten, words, words-flatten}
use baseline_integrity.Tests.Services.{calm}

abbrev type_word : EventType → Text
type_word match_finalized = []
type_word (unsupported t) = 1 ∷ t

abbrev type_of : Text → EventType
type_of [] = match_finalized
type_of (c ∷ t) = unsupported t

type_of-type_word : (t : EventType) → type_of (type_word t) ≡ t
type_of-type_word match_finalized = refl
type_of-type_word (unsupported t) = refl

abbrev event_words : Event → List Text
event_words ev = ev.id ∷ type_word ev.type ∷ ev.match_id ∷ (ev.created_at ∷ []) ∷ []

abbrev event_of : Option (List Text) → Option Event
event_of (some (i ∷ t ∷ m ∷ (at ∷ []) ∷ [])) =
    some (record { id = i; type = type_of t; match_id = m; created_at = at })
event_of _ = none

abbrev pub event_codec : Codec Event
event_codec = record {
  encode = λ ev. some (flatten (event_words ev));
  decode = λ b. event_of (words 4 b);
}

pub event_codec-RoundTrips : RoundTrips event_codec
event_codec-RoundTrips = record {
  decode-encode = λ ev b e.
      let same : flatten (event_words ev) ≡ b = ground arith in
      rw (sym same, words-flatten (event_words ev), type_of-type_word ev.type);
}

abbrev pub queue : Outbox
queue = codes "outbox" ∷ []

abbrev pub start_world : World
start_world = record calm {
  files =
      (queue, dir)
      ∷ (dir_of queue queued, dir)
      ∷ (dir_of queue taken, dir)
      ∷ (dir_of queue finished, dir)
      ∷ (dir_of queue broken, dir)
      ∷ [];
}

abbrev pub finalized : Event
finalized = record {
  id = codes "7_i_m";
  type = match_finalized;
  match_id = codes "m";
  created_at = 7;
}

abbrev pub finalized_text : Text
finalized_text = flatten (event_words finalized)

pub start_world-IsReady : IsReady queue start_world.files
unfolding lookup path_eq list_eq text_eq
start_world-IsReady queued = (refl, (refl, tt))
start_world-IsReady taken = (refl, (refl, tt))
start_world-IsReady finished = (refl, (refl, tt))
start_world-IsReady broken = (refl, (refl, tt))

pub start_world-free :
    (s : Stage) → lookup (codes "7_i_m.json" ∷ dir_of queue s) start_world.files ≡ none
unfolding lookup path_eq list_eq text_eq
start_world-free queued = refl
start_world-free taken = refl
start_world-free finished = refl
start_world-free broken = refl

claim_one-enqueue_example :
    (enqueue event_codec queue finalized >> claim_one event_codec queue) start_world ≡ (
      ok (finalized, codes "7_i_m.json" ∷ processing queue),
      still
          (insert (codes "7_i_m.json" ∷ processing queue) (file finalized_text 0) start_world.files)
          (λ n. n)
          0
          [],
    )
unfolding has_no_slash lookup path_eq list_eq text_eq entries filter_by
claim_one-enqueue_example =
    claim_one-enqueue event_codec queue (λ n. n) 0 [] event_codec-RoundTrips finalized
      finalized_text start_world.files start_world-IsReady refl refl refl start_world-free refl

-- The event waits in `pending`, and the third call fails.
abbrev waiting : World
waiting = record start_world {
  files = (codes "7_i_m.json" ∷ dir_of queue queued, file finalized_text 0) ∷ start_world.files;
  faults = none ∷ none ∷ some not_exist ∷ none ∷ none ∷ [];
}

event_name : IsEventName (codes "7_i_m.json")
unfolding has_no_slash has_suffix text_eq list_eq
event_name = record { plain = refl; json = refl }

waiting-At : At queue (codes "7_i_m.json") finalized_text queued waiting.files
unfolding lookup path_eq list_eq text_eq flatten
waiting-At queued = refl
waiting-At taken = refl
waiting-At finished = refl
waiting-At broken = refl

-- Putting another event fails at its third call; this one is claimed and finished all the same.
abbrev other_event : Event
other_event = record finalized { id = codes "8_i_m" }

abbrev calls : List Operation
calls = put other_event ∷ claim_next ∷ finish_it (codes "7_i_m.json") ∷ claim_next ∷ []

calls-IsAllowed : All (IsAllowed (codes "7_i_m.json")) calls
unfolding has_no_slash text_eq list_eq
calls-IsAllowed = ((refl, refl), (tt, (event_name, (tt, tt))))

perform_all-conserves_example :
    (t : Stage) × Reach queued t
    × At queue
        (codes "7_i_m.json")
        finalized_text
        t
        (perform_all event_codec queue calls waiting).1.files
perform_all-conserves_example =
    perform_all-conserves event_codec queue (codes "7_i_m.json") finalized_text event_name calls
      waiting queued calls-IsAllowed waiting-At

-- Two worlds that read the same instant, 5 nanoseconds after 1970.
abbrev early : World
early = record calm { clock = λ n. unix_epoch + 5 }

abbrev later : World
later = record early { reads = 3 }

abbrev shared_id : Text
shared_id = codes "5_a_b_c"

early_id : (new_event_id (codes "a") (codes "b_c") early).0 ≡ ok shared_id
unfolding new_event_id time_now decimal
early_id = refl

later_id : (new_event_id (codes "a_b") (codes "c") later).0 ≡ ok shared_id
unfolding new_event_id time_now decimal
later_id = refl

new_event_id-instant_example : instant early ≡ instant later
new_event_id-instant_example =
    new_event_id-instant (codes "a") (codes "b_c") (codes "a_b") (codes "c") shared_id early later
      (omega arith) (omega arith) (omega arith) (omega arith) early_id later_id
