-- ===== src/Outbox/Lifecycle.antt =====
-- Every operation of the outbox against the state machine of one event.
use baseline_integrity.Base.{
  ap, list_eq, length-append, ◌≤◌, ◌≡◌, refl, true, false, List, [], ◌∷◌, ◌++◌, length, All, Text,
  codes, text_eq, text_eq_iff, has_suffix, has_suffix-le, has_suffix_of_append, arith, inl, inr,
  Bool-cases, Option-cases,
}
use baseline_integrity.Base.Result.{Error, message, no_pending, Result, ok, err}
use baseline_integrity.Crypto.{Codec}
use baseline_integrity.Os.{
  FilePath, join, join-plain, has_no_slash, has_no_slash-append, Node, file, dir, Io, raise, ◌>>◌,
  attempt, ignore, mkdir_all, read_file, rename, read_dir,
}
use baseline_integrity.Os.Reads.{
  pure-Reads, raise-Reads, attempt-Reads, read_file-Reads, read_dir-Reads,
}
use baseline_integrity.Os.Yields.{
  Yields, >>=-Yields, >>=-Yields-Yields, HasPlainNames, read_dir-HasPlainNames,
}
use baseline_integrity.Os.Spares.{Spares-mono, IsLonger, IsNot, mkdir_all-Spares, write_file-Spares}
use baseline_integrity.Outbox.{
  Outbox, Event, pending, processing, done, failed, json_suffix, ensure, is_claimable, accept,
  claimed, claim_from, claim_one, mark_done, mark_failed, requeue,
}
use baseline_integrity.Outbox.Stages.{
  Stage, queued, taken, finished, broken, claim, finish, break, retry, dir_of, path_eq-dir_of,
}
use baseline_integrity.Outbox.Follows.{
  Follows, IsPlace, Spares-Follows, ignore-Follows, attempt-Follows, Reads-Follows, >>=-Follows,
  >>=-Follows-Yields, >>-Follows, rename-Follows,
}

-- A name that a claim can meet: an entry of a directory that ends in `.json`.
pub record IsEventName (x : Text) : Type 0 where
  pub plain : has_no_slash x ≡ true
  pub json : has_suffix x json_suffix ≡ true

pub join-IsEventName : (d : FilePath) (x : Text) → IsEventName x → join d x ≡ x ∷ d
join-IsEventName d x e = join-plain d x e.plain (omega (arith, has_suffix-le x json_suffix e.json))

-- What `ClaimOne` returns the path of: an event's file in `processing`.
abbrev pub IsClaimed : Outbox → FilePath → Type 0
IsClaimed o p = (x : Text) × (p ≡ x ∷ processing o) × IsEventName x

pub claimable-IsEventName :
    (x : Text) (node : Node) → has_no_slash x ≡ true → is_claimable x node ≡ true → IsEventName x
claimable-IsEventName x dir plain h = cc
claimable-IsEventName x (file b t) plain h = record { plain = plain; json = h }

txt-ne-json : has_suffix (codes ".err.txt") json_suffix ≡ false
unfolding has_suffix text_eq list_eq
txt-ne-json = refl

module _ (o : Outbox) (name b : Text) where
  place-IsLonger : (s : Stage) (k : FilePath) → IsPlace o name b k → IsLonger (dir_of o s) k
  place-IsLonger s k (t, e) = omega (arith, ap length e)

  mkdir-Follows : (s : Stage) → Follows o name b (mkdir_all (dir_of o s))
  mkdir-Follows s = Spares-Follows o name b _ (
      Spares-mono (IsLonger (dir_of o s)) (IsPlace o name b) _ (place-IsLonger s)
        (mkdir_all-Spares (dir_of o s)))

  pub ensure-Follows : Follows o name b (ensure o)
  unfolding ensure
  ensure-Follows = >>-Follows o name b _ _ (mkdir-Follows queued) (
      >>-Follows o name b _ _ (mkdir-Follows taken)
        (>>-Follows o name b _ _ (mkdir-Follows finished) (mkdir-Follows broken)))

  pub mark_done-Follows :
      (x : Text) → IsEventName x → Follows o name b (mark_done o (x ∷ processing o))
  unfolding mark_done
  mark_done-Follows x e =
      rw (join-IsEventName (done o) x e) (rename-Follows o name b x taken finished finish)

  pub requeue-Follows : (x : Text) → IsEventName x → Follows o name b (requeue o (x ∷ processing o))
  unfolding requeue
  requeue-Follows x e =
      rw (join-IsEventName (pending o) x e) (rename-Follows o name b x taken queued retry)

  to_failed-Follows :
      (x : Text) → IsEventName x → Follows o name b (rename (x ∷ processing o) (join (failed o) x))
  to_failed-Follows x event =
      rw (join-IsEventName (failed o) x event) (rename-Follows o name b x taken broken break)

  module _ (event : IsEventName name) where
    sidecar-ne_name : (x : Text) → text_eq (x ++ codes ".err.txt") name ≡ false
    sidecar-ne_name x = elim (Bool-cases (text_eq (x ++ codes ".err.txt") name)) [
      | inr other ↦ other
      | inl same ↦ cc (
        event.json,
        (text_eq_iff (x ++ codes ".err.txt") name).0 same,
        has_suffix_of_append x (codes ".err.txt") json_suffix (omega arith) txt-ne-json,
      )
    ]

    pub sidecar-ne-place :
        (x : Text) (k : FilePath)
        → IsEventName x
        → IsPlace o name b k
        → IsNot (join (failed o) (x ++ codes ".err.txt")) k
    unfolding has_no_slash
    sidecar-ne-place x k e (t, i) =
        let le : length json_suffix ≤ length x = has_suffix-le x json_suffix e.json in
        let there : join (failed o) (x ++ codes ".err.txt") ≡ (x ++ codes ".err.txt") ∷ failed o =
          join-plain (failed o) (x ++ codes ".err.txt")
            (has_no_slash-append x (codes ".err.txt") e.plain refl)
            (omega (arith, length-append x (codes ".err.txt"))) in
        rw (there, i, path_eq-dir_of o (x ++ codes ".err.txt") name broken t, sidecar-ne_name x)

    pub mark_failed-Follows :
        (x why : Text) → IsEventName x → Follows o name b (mark_failed o (x ∷ processing o) why)
    unfolding mark_failed
    mark_failed-Follows x why e =
        >>-Follows o name b _ (rename (x ∷ processing o) (join (failed o) x))
          (ignore-Follows o name b _ (
            Spares-Follows o name b _ (
              Spares-mono _ _ _ (λ k i. sidecar-ne-place x k e i)
                (write_file-Spares (join (failed o) (x ++ codes ".err.txt")) why))))
          (to_failed-Follows x e)

  set_aside-Follows :
      (x : Text) (A : Type 0) (e : Error)
      → IsEventName x
      → Follows o name b {A = A} (ignore (rename (x ∷ processing o) (join (failed o) x)) >> raise e)
  set_aside-Follows x A e event =
      >>-Follows o name b _ _ (ignore-Follows o name b _ (to_failed-Follows x event))
        (Reads-Follows o name b _ (raise-Reads A e))

  -- `ClaimOne`
  accept-Follows :
      (C : Codec Event) (x : Text) (r : Result Text)
      → IsEventName x
      → Follows o name b (accept C o x (x ∷ processing o) r)
  unfolding accept
  accept-Follows C x (err e) event = set_aside-Follows x _ e event
  accept-Follows C x (ok bytes) event = elim (Option-cases (C.decode bytes)) [
    | inl bad ↦ rw (accept, bad) (set_aside-Follows x _ (message "json") event)
    | inr (ev, good) ↦
        rw (accept, good) (Reads-Follows o name b _ (pure-Reads (ev, x ∷ processing o)))
  ]

  accept-Yields :
      (C : Codec Event) (x : Text)
      → IsEventName x
      → (r : Result Text) → Yields (λ r. IsClaimed o r.1) (accept C o x (x ∷ processing o) r)
  unfolding accept
  accept-Yields C x event (err e) = record { value_ok = λ w r h. ground arith }
  accept-Yields C x event (ok bytes) = elim (Option-cases (C.decode bytes)) [
    | inl bad ↦ record { value_ok = λ w r h. ground (arith, bad) }
    | inr (ev, good) ↦ record { value_ok = λ w r h. (x, ground (arith, good), event) }
  ]

  claimed-Follows :
      (C : Codec Event) (x : Text) (later : Io (Event × FilePath)) (r : Result (Unit {0}))
      → IsEventName x
      → Follows o name b later
      → Follows o name b (claimed C o x (x ∷ processing o) later r)
  unfolding claimed
  claimed-Follows C x later (err e) event h = h
  claimed-Follows C x later (ok u) event h =
      >>=-Follows o name b _ _
        (Reads-Follows o name b _ (attempt-Reads _ (read_file-Reads (x ∷ processing o))))
        (λ r. accept-Follows C x r event)

  claim_from-Follows :
      (C : Codec Event) (es : List (Text × Node))
      → All (λ e. has_no_slash e.0 ≡ true) es
      → Follows o name b (claim_from C o es)
  unfolding claim_from
  claim_from-Follows C [] h = Reads-Follows o name b _ (raise-Reads _ no_pending)
  claim_from-Follows C ((x, node) ∷ es) (plain, h) = elim (Bool-cases (is_claimable x node)) [
    | inr other ↦ rw other (claim_from-Follows C es h)
    | inl good ↦
        let event = claimable-IsEventName x node plain good in
        rw (good, join-IsEventName (processing o) x event, join-IsEventName (pending o) x event)
          (>>=-Follows o name b _ _
            (attempt-Follows o name b _ (rename-Follows o name b x queued taken claim))
            (λ r. claimed-Follows C x (claim_from C o es) r event (claim_from-Follows C es h)))
  ]

  claimed-Yields :
      (C : Codec Event) (x : Text) (later : Io (Event × FilePath)) (r : Result (Unit {0}))
      → IsEventName x
      → Yields (λ r. IsClaimed o r.1) later
      → Yields (λ r. IsClaimed o r.1) (claimed C o x (x ∷ processing o) later r)
  unfolding claimed
  claimed-Yields C x later (err e) event h = h
  claimed-Yields C x later (ok u) event h =
      >>=-Yields (λ r. IsClaimed o r.1) (attempt (read_file (x ∷ processing o)))
        (accept C o x (x ∷ processing o)) (accept-Yields C x event)

  pub claim_one-Follows : (C : Codec Event) → Follows o name b (claim_one C o)
  unfolding claim_one
  claim_one-Follows C = >>-Follows o name b (ensure o) _ ensure-Follows (
      >>=-Follows-Yields o name b HasPlainNames (read_dir (pending o)) (claim_from C o)
        (Reads-Follows o name b _ (read_dir-Reads (pending o))) (read_dir-HasPlainNames (pending o))
        (claim_from-Follows C))

  claim_from-Yields :
      (C : Codec Event) (es : List (Text × Node))
      → HasPlainNames es
      → Yields (λ r. IsClaimed o r.1) (claim_from C o es)
  unfolding claim_from
  claim_from-Yields C [] h = record { value_ok = λ w r e. cc }
  claim_from-Yields C ((x, node) ∷ es) (plain, h) = elim (Bool-cases (is_claimable x node)) [
    | inr other ↦ rw other (claim_from-Yields C es h)
    | inl good ↦
        let event = claimable-IsEventName x node plain good in
        rw (good, join-IsEventName (processing o) x event)
          (>>=-Yields (λ r. IsClaimed o r.1)
            (attempt (rename (join (pending o) x) (x ∷ processing o)))
            (λ r. claimed C o x (x ∷ processing o) (claim_from C o es) r)
            (λ r. claimed-Yields C x (claim_from C o es) r event (claim_from-Yields C es h)))
  ]

  pub claim_one-Yields : (C : Codec Event) → Yields (λ r. IsClaimed o r.1) (claim_one C o)
  unfolding claim_one
  claim_one-Yields C =
      >>=-Yields (λ r. IsClaimed o r.1) (ensure o) _
        λ u.
          >>=-Yields-Yields (λ r. IsClaimed o r.1) HasPlainNames (read_dir (pending o))
            (claim_from C o) (read_dir-HasPlainNames (pending o)) (claim_from-Yields C)
