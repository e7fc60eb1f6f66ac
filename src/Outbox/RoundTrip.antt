-- ===== src/Outbox/RoundTrip.antt =====
-- `Enqueue` and `ClaimOne` on an outbox whose directories are there, with no fault scheduled.
use baseline_integrity.Base.{
  ℕ, ◌≡◌, refl, true, false, String, none, some, List, [], ◌∷◌, ◌++◌, length-append, Text, codes,
  text_eq, text_eq_of_shorter, has_suffix-append, arith,
}
use baseline_integrity.Base.Result.{ok}
use baseline_integrity.Crypto.{Codec, RoundTrips}
use baseline_integrity.Os.{
  has_no_slash, has_no_slash-append, Node, file, Files, lookup, insert, erase, ◌>>◌, lookup-insert,
  erase-insert, erase_of_none, listing,
}
use baseline_integrity.Os.Still.{still, read_file-still, rename-still, lookup-insert_self}
use baseline_integrity.Os.Room.{
  IsRoom, insert-IsRoom, mkdir_all-still, read_dir-still, listing-insert, has_directory_of_dir,
  join-suffix, write_file-free, rename-written,
}
use baseline_integrity.Outbox.{
  Outbox, Event, pending, processing, done, failed, json_suffix, settle, enqueue, accept, claimed,
  claim_from, claim_one,
}
use baseline_integrity.Outbox.Stages.{
  Stage, queued, taken, finished, broken, dir_of, path_eq-dir_of,
}
use baseline_integrity.Outbox.Lifecycle.{IsEventName, join-IsEventName}

-- The four directories of the outbox are there.
abbrev pub IsReady : Outbox → Files → Type 0
IsReady o fs = (s : Stage) → IsRoom (dir_of o s) fs

tmp-ne-dst : (x : Text) → text_eq (x ++ codes ".tmp") (x ++ json_suffix) ≡ false
tmp-ne-dst x =
    text_eq_of_shorter (x ++ codes ".tmp") (x ++ json_suffix)
      (omega (arith, length-append x (codes ".tmp"), length-append x json_suffix))

tmp_plain : has_no_slash (codes ".tmp") ≡ true
unfolding has_no_slash
tmp_plain = refl

json_plain : has_no_slash json_suffix ≡ true
unfolding has_no_slash
json_plain = refl

module _ (C : Codec Event) (o : Outbox) (c : ℕ → ℕ) (n : ℕ) (l : List String) where
  -- The event's file is written under another name first, of which nothing is left.
  enqueue-still :
      (ev : Event) (b : Text) (fs : Files)
      → IsReady o fs
      → has_no_slash ev.id ≡ true
      → C.encode ev ≡ some b
      → lookup ((ev.id ++ codes ".tmp") ∷ pending o) fs ≡ none
      → lookup ((ev.id ++ json_suffix) ∷ pending o) fs ≡ none
      → enqueue C o ev (still fs c n l)
        ≡ (ok tt, still (insert ((ev.id ++ json_suffix) ∷ pending o) (file b (c n)) fs) c n l)
  unfolding enqueue settle
  enqueue-still ev b fs ready plain encoded free_tmp free_dst = rw (
    mkdir_all-still c n l (pending o) fs (ready queued),
    mkdir_all-still c n l (processing o) fs (ready taken),
    mkdir_all-still c n l (done o) fs (ready finished),
    mkdir_all-still c n l (failed o) fs (ready broken),
    encoded,
    join-suffix (pending o) ev.id (codes ".tmp") plain tmp_plain (omega arith),
    join-suffix (pending o) ev.id json_suffix plain json_plain (omega arith),
    write_file-free c n l fs ((ev.id ++ codes ".tmp") ∷ pending o) b free_tmp (ready queued).0,
    rename-written c n l fs (ev.id ++ codes ".tmp") (ev.id ++ json_suffix) (pending o) b (c n)
        free_tmp free_dst (ready queued).0 (tmp-ne-dst ev.id),
  )

  -- The first entry is claimed.
  claim_from-first :
      (ev : Event) (b x : Text) (t : ℕ) (es : List (Text × Node)) (fs : Files)
      → IsReady o fs
      → IsEventName x
      → lookup (x ∷ pending o) fs ≡ some (file b t)
      → lookup (x ∷ processing o) fs ≡ none
      → C.decode b ≡ some ev
      → claim_from C o ((x, file b t) ∷ es) (still fs c n l) ≡ (
        ok (ev, x ∷ processing o),
        still (insert (x ∷ processing o) (file b t) (erase (x ∷ pending o) fs)) c n l,
      )
  unfolding claim_from claimed accept
  claim_from-first ev b x t es fs ready name there free decoded = rw (
    name.json,
    join-IsEventName (processing o) x name,
    join-IsEventName (pending o) x name,
    rename-still c n l fs (x ∷ pending o) (x ∷ processing o) b t there free
        (has_directory_of_dir (processing o) fs (ready taken).0),
    read_file-still c n l (insert (x ∷ processing o) (file b t) (erase (x ∷ pending o) fs))
        (x ∷ processing o) b t
        (lookup-insert_self (x ∷ processing o) (file b t) (erase (x ∷ pending o) fs)),
    accept,
    decoded,
  )

  claim_one-still :
      (ev : Event) (b x : Text) (t : ℕ) (es : List (Text × Node)) (fs : Files)
      → IsReady o fs
      → IsEventName x
      → listing (pending o) fs ≡ (x, file b t) ∷ es
      → lookup (x ∷ pending o) fs ≡ some (file b t)
      → lookup (x ∷ processing o) fs ≡ none
      → C.decode b ≡ some ev
      → claim_one C o (still fs c n l) ≡ (
        ok (ev, x ∷ processing o),
        still (insert (x ∷ processing o) (file b t) (erase (x ∷ pending o) fs)) c n l,
      )
  unfolding claim_one claim_from claimed accept
  claim_one-still ev b x t es fs ready name listed there free decoded = rw (
    mkdir_all-still c n l (pending o) fs (ready queued),
    mkdir_all-still c n l (processing o) fs (ready taken),
    mkdir_all-still c n l (done o) fs (ready finished),
    mkdir_all-still c n l (failed o) fs (ready broken),
    read_dir-still c n l (pending o) fs (ready queued).0,
    listed,
    claim_from-first ev b x t es fs ready name there free decoded,
  )

  -- Without faults, an event that encodes and whose id has no separator, put into an outbox that has its
  -- four directories, nothing at all in `pending` (no left temporary file either) and in none of the
  -- four a file of the event's name, is the next one that is claimed: the same event, with its file now
  -- in `processing`, written once, and no other change.
  pub claim_one-enqueue :
      RoundTrips C
      → (ev : Event) (b : Text) (fs : Files) → IsReady o fs
      → listing (pending o) fs ≡ []
      → has_no_slash ev.id ≡ true
      → C.encode ev ≡ some b
      → ((s : Stage) → lookup ((ev.id ++ json_suffix) ∷ dir_of o s) fs ≡ none)
      → lookup ((ev.id ++ codes ".tmp") ∷ pending o) fs ≡ none
      → (enqueue C o ev >> claim_one C o) (still fs c n l) ≡ (
        ok (ev, (ev.id ++ json_suffix) ∷ processing o),
        still (insert ((ev.id ++ json_suffix) ∷ processing o) (file b (c n)) fs) c n l,
      )
  claim_one-enqueue R ev b fs ready empty plain encoded free free_tmp =
      let x = ev.id ++ json_suffix in
      let event : IsEventName x = record {
        plain = has_no_slash-append ev.id json_suffix plain json_plain;
        json = has_suffix-append ev.id json_suffix;
      } in
      let queue = insert (x ∷ pending o) (file b (c n)) fs in
      rw (
        enqueue-still ev b fs ready plain encoded free_tmp (free queued),
        claim_one-still ev b x (c n) [] queue
            (λ s.
              insert-IsRoom (dir_of o s) (x ∷ pending o) (file b (c n)) fs (free queued) (ready s))
            event (listing-insert (pending o) x (file b (c n)) fs event.plain empty)
            (lookup-insert_self (x ∷ pending o) (file b (c n)) fs)
            (ground (
              arith,
              lookup-insert (x ∷ pending o) (x ∷ processing o) (file b (c n)) fs,
              path_eq-dir_of o x x queued taken,
              free taken,
            ))
            (R.decode-encode ev b encoded),
        erase-insert,
        erase_of_none (x ∷ pending o) fs (free queued),
      )
