-- ===== src/Outbox/Sequences.antt =====
-- The operations of outbox/outbox.go after each other, by however many workers and submitters.
use baseline_integrity.Base.{
  ap, list_eq, ◌∙◌, ◌≡◌, false, true, List, [], ◌∷◌, ◌++◌, All, Text, codes, text_eq, text_eq_iff,
  has_suffix, has_suffix_of_append, refl, arith, inl, inr, Bool-cases,
}
use baseline_integrity.Base.Result.{Result, ok, err, or_err, message, is_exist}
use baseline_integrity.Crypto.{Codec}
use baseline_integrity.Os.{
  FilePath, has_no_slash, World, Io, pure, ◌>>=◌, ◌>>◌, ignore, rename, remove,
}
use baseline_integrity.Os.Reads.{
  pure-Reads, raise-Reads, of_result-Reads, attempt-Reads, >>=-Reads, stat-Reads,
}
use baseline_integrity.Os.Room.{join-suffix}
use baseline_integrity.Os.Spares.{
  IsNot, IsNeither, Spares-mono, write_file-Spares, rename-Spares, remove-Spares,
}
use baseline_integrity.Outbox.{
  Outbox, Event, json_suffix, pending, processing, is_stated, settle, enqueue, claim_one, mark_done,
  mark_failed, requeue,
}
use baseline_integrity.Outbox.Stages.{Stage, queued, Reach, path_eq-dir_of, At}
use baseline_integrity.Outbox.Follows.{
  Follows, IsPlace, Spares-Follows, Reads-Follows, if-Follows, attempt-Follows, ignore-Follows,
  >>=-Follows, >>-Follows,
}
use baseline_integrity.Outbox.Lifecycle.{
  IsEventName, ensure-Follows, claim_one-Follows, mark_done-Follows, mark_failed-Follows,
  requeue-Follows,
}

-- One call on the outbox. The last three are on the file in `processing` of a name.
pub data Operation : Type 0 where
  put : Event → Operation
  claim_next : Operation
  finish_it retry_it : Text → Operation
  fail_it : Text → Text → Operation

module _ (C : Codec Event) (o : Outbox) where
  unfoldable pub perform : Operation → Io (Unit {0})
  perform (put ev) = enqueue C o ev
  perform claim_next = do got ← claim_one C o; pure tt
  perform (finish_it x) = mark_done o (x ∷ processing o)
  perform (retry_it x) = requeue o (x ∷ processing o)
  perform (fail_it x why) = mark_failed o (x ∷ processing o) why

  -- The calls in a row. A failure of one does not keep the next from being made.
  unfoldable pub perform_all : List Operation → Io (Unit {0})
  unfolding perform
  perform_all [] = pure tt
  perform_all (op ∷ ops) = do ignore (perform op); perform_all ops

-- A call that is allowed while the event of this name is followed: no other event is put under its
-- name, and a file that is put away has a name as `ClaimOne` hands it out.
abbrev pub IsAllowed : Text → Operation → Type 0
IsAllowed name (put ev) =
    (has_no_slash ev.id ≡ true) × (text_eq (ev.id ++ json_suffix) name ≡ false)
IsAllowed name claim_next = Unit {0}
IsAllowed name (finish_it x) = IsEventName x
IsAllowed name (retry_it x) = IsEventName x
IsAllowed name (fail_it x why) = IsEventName x

json_suffix-last : has_suffix json_suffix (codes "n") ≡ true
unfolding has_suffix text_eq list_eq
json_suffix-last = refl

-- What ends in `.json` ends in `n`, and `.tmp` does not.
json-last : (s : Text) → has_suffix s json_suffix ≡ true → has_suffix s (codes "n") ≡ true
unfolding has_suffix text_eq list_eq
json-last [] h = ground arith
json-last (c ∷ s) h = elim (Bool-cases (text_eq (c ∷ s) json_suffix)) [
  | inl same ↦
      ap (λ x. has_suffix x (codes "n")) ((text_eq_iff (c ∷ s) json_suffix).0 same)
      ∙ json_suffix-last
  | inr other ↦ ground (arith, other, json-last s)
]

tmp-ne-last : has_suffix (codes ".tmp") (codes "n") ≡ false
unfolding has_suffix text_eq list_eq
tmp-ne-last = refl

plain_suffixes : (has_no_slash (codes ".tmp") ≡ true) × (has_no_slash json_suffix ≡ true)
unfolding has_no_slash
plain_suffixes = (refl, refl)

module _ (C : Codec Event) (o : Outbox) (name b : Text) (event : IsEventName name) where
  tmp-ne_name : (x : Text) → text_eq (x ++ codes ".tmp") name ≡ false
  tmp-ne_name x = elim (Bool-cases (text_eq (x ++ codes ".tmp") name)) [
    | inr other ↦ other
    | inl same ↦ cc (
      json-last name event.json,
      (text_eq_iff (x ++ codes ".tmp") name).0 same,
      has_suffix_of_append x (codes ".tmp") (codes "n") (omega arith) tmp-ne-last,
    )
  ]

  place-IsNot :
      (x : Text) (k : FilePath)
      → text_eq x name ≡ false
      → IsPlace o name b k
      → IsNot (x ∷ pending o) k
  place-IsNot x k other (t, i) = rw (i, path_eq-dir_of o x name queued t, other)

  settle-Follows :
      (tmp dst : FilePath) (r : Result (Unit {0}))
      → ((k : FilePath) → IsPlace o name b k → IsNot tmp k)
      → Follows o name b (settle tmp dst r)
  unfolding settle
  settle-Follows tmp dst (ok u) i = Reads-Follows o name b _ (pure-Reads tt)
  settle-Follows tmp dst (err e) i =
      >>-Follows o name b (ignore (remove tmp)) _
        (ignore-Follows o name b _
          (Spares-Follows o name b _ (Spares-mono _ _ _ i (remove-Spares tmp))))
        (>>=-Follows o name b _ _
          (if-Follows o name b (is_exist e) _ _ (Reads-Follows o name b _ (pure-Reads true)) (
            Reads-Follows o name b _
              (>>=-Reads _ _ (attempt-Reads _ (stat-Reads dst)) (λ r. pure-Reads (is_stated r)))))
          (λ found.
            if-Follows o name b found _ _ (Reads-Follows o name b _ (pure-Reads tt))
              (Reads-Follows o name b _ (raise-Reads Unit e))))

  -- `Enqueue` of another event.
  enqueue-Follows :
      (ev : Event)
      → has_no_slash ev.id ≡ true
      → text_eq (ev.id ++ json_suffix) name ≡ false
      → Follows o name b (enqueue C o ev)
  unfolding enqueue
  enqueue-Follows ev plain other =
      let tmp = (ev.id ++ codes ".tmp") ∷ pending o in
      let dst = (ev.id ++ json_suffix) ∷ pending o in
      let i : (k : FilePath) → IsPlace o name b k → IsNot tmp k =
        λ k p. place-IsNot (ev.id ++ codes ".tmp") k (tmp-ne_name ev.id) p in
      let j : (k : FilePath) → IsPlace o name b k → IsNot dst k =
        λ k p. place-IsNot (ev.id ++ json_suffix) k other p in
      rw
        (
          join-suffix (pending o) ev.id (codes ".tmp") plain plain_suffixes.0 (omega arith),
          join-suffix (pending o) ev.id json_suffix plain plain_suffixes.1 (omega arith),
        )
        (>>-Follows o name b _ _ (ensure-Follows o name b) (
          >>=-Follows o name b _ _
            (Reads-Follows o name b _ (of_result-Reads (or_err (C.encode ev) (message "json"))))
            (λ out.
              >>-Follows o name b _ _
                (Spares-Follows o name b _ (Spares-mono _ _ _ i (write_file-Spares tmp out)))
                (>>=-Follows o name b _ _
                  (attempt-Follows o name b _ (
                    Spares-Follows o name b _ (
                      Spares-mono (IsNeither tmp dst) (IsPlace o name b) (rename tmp dst)
                        (λ k p. (i k p, j k p)) (rename-Spares tmp dst))))
                  (λ r. settle-Follows tmp dst r i)))))

  perform-Follows : (op : Operation) → IsAllowed name op → Follows o name b (perform C o op)
  unfolding perform
  perform-Follows (put ev) (plain, other) = enqueue-Follows ev plain other
  perform-Follows claim_next h =
      >>=-Follows o name b _ _ (claim_one-Follows o name b C)
        (λ got. Reads-Follows o name b _ (pure-Reads tt))
  perform-Follows (finish_it x) h = mark_done-Follows o name b x h
  perform-Follows (retry_it x) h = requeue-Follows o name b x h
  perform-Follows (fail_it x why) h = mark_failed-Follows o name b event x why h

  perform_all-Follows :
      (ops : List Operation) → All (IsAllowed name) ops → Follows o name b (perform_all C o ops)
  unfolding perform_all
  perform_all-Follows [] h = Reads-Follows o name b _ (pure-Reads tt)
  perform_all-Follows (op ∷ ops) (h, hs) =
      >>-Follows o name b (ignore (perform C o op)) (perform_all C o ops)
        (ignore-Follows o name b _ (perform-Follows op h)) (perform_all-Follows ops hs)

  -- For a name that ends in `.json` and has no separator, whatever operations of the outbox are made
  -- in whatever order and with whatever faults, as long as no other event is put under that name: a
  -- file of the name that is in the directory of a stage, and in no other one, is afterwards, with the
  -- same bytes, in the directory of a stage that the state machine reaches, and in no other one.
  pub perform_all-conserves :
      (ops : List Operation) (before : World) (s : Stage)
      → All (IsAllowed name) ops
      → At o name b s before.files
      → (t : Stage) × Reach s t × At o name b t (perform_all C o ops before).1.files
  perform_all-conserves ops before s h home = (perform_all-Follows ops h).follows before s home
