-- ===== src/Outbox/Foreign.antt =====
-- What the worker's operations on the outbox leave alone: every file whose name is neither an
-- event's nor a sidecar's.
use baseline_integrity.Base.{
  ◌≡◌, refl, true, false, List, [], ◌∷◌, ◌++◌, Text, codes, text_eq, text_eq_iff, has_suffix,
  has_suffix-append, arith, inl, inr, Bool-cases, Option-cases, length, ◌<◌,
}
use baseline_integrity.Base.Result.{Error, message, no_pending, Result, ok, err}
use baseline_integrity.Crypto.{Codec}
use baseline_integrity.Os.{
  FilePath, join, has_no_slash, path_eq-cons, Node, Io, raise, ◌>>◌, ignore, rename, read_dir,
}
use baseline_integrity.Os.Endings.{join-ending}
use baseline_integrity.Os.Reads.{
  pure-Reads, raise-Reads, attempt-Reads, read_file-Reads, read_dir-Reads,
}
use baseline_integrity.Os.Yields.{HasPlainNames, read_dir-HasPlainNames}
use baseline_integrity.Os.Spares.{IsNot, IsNeither, rename-Spares, write_file-Spares}
use baseline_integrity.Os.Keeps.{
  Keeps, Spares-Keeps, Reads-Keeps, attempt-Keeps, ignore-Keeps, >>=-Keeps, >>-Keeps,
  >>=-Keeps-Yields,
}
use baseline_integrity.Outbox.{
  Outbox, Event, pending, processing, done, failed, json_suffix, is_claimable, accept, claimed,
  claim_from, claim_one, mark_done, mark_failed, requeue,
}
use baseline_integrity.Outbox.Frame.{ensure-Keeps}
use baseline_integrity.Outbox.Lifecycle.{IsEventName, join-IsEventName, claimable-IsEventName}

abbrev pub sidecar_suffix : Text
sidecar_suffix = codes ".err.txt"

module _ (x : Text) (q : FilePath) where
  -- A name with an ending, joined to any path, is not a file whose name ends otherwise.
  pub ending-IsNot :
      (ending : Text) (d : FilePath) (y : Text)
      → has_no_slash ending ≡ true
      → 2 < length ending
      → has_suffix x ending ≡ false
      → IsNot (join d (y ++ ending)) (x ∷ q)
  ending-IsNot ending d y plain long other =
      let (z, d', there) = join-ending ending plain long d y in
      elim (Bool-cases (text_eq (z ++ ending) x)) [
        | inr differ ↦ rw (there, path_eq-cons, differ)
        | inl same ↦ cc (other, (text_eq_iff (z ++ ending) x).0 same, has_suffix-append z ending)
      ]

  module _ (json : has_suffix x json_suffix ≡ false)
      (txt : has_suffix x sidecar_suffix ≡ false) where
    event-IsNot : (y : Text) (d : FilePath) → IsEventName y → IsNot (y ∷ d) (x ∷ q)
    event-IsNot y d e = elim (Bool-cases (text_eq y x)) [
      | inr differ ↦ rw (path_eq-cons, differ)
      | inl same ↦ cc (json, (text_eq_iff y x).0 same, e.json)
    ]

    move-Keeps :
        (y : Text) (d d' : FilePath) → IsEventName y → Keeps (x ∷ q) (rename (y ∷ d) (join d' y))
    move-Keeps y d d' e = rw (join-IsEventName d' y e) (
        Spares-Keeps (x ∷ q) (IsNeither (y ∷ d) (y ∷ d')) _ (event-IsNot y d e, event-IsNot y d' e)
          (rename-Spares (y ∷ d) (y ∷ d')))

    pub mark_done-Keeps :
        (o : Outbox) (y : Text) → IsEventName y → Keeps (x ∷ q) (mark_done o (y ∷ processing o))
    unfolding mark_done
    mark_done-Keeps o y = move-Keeps y (processing o) (done o)

    pub requeue-Keeps :
        (o : Outbox) (y : Text) → IsEventName y → Keeps (x ∷ q) (requeue o (y ∷ processing o))
    unfolding requeue
    requeue-Keeps o y = move-Keeps y (processing o) (pending o)

    pub mark_failed-Keeps :
        (o : Outbox) (y why : Text)
        → IsEventName y
        → Keeps (x ∷ q) (mark_failed o (y ∷ processing o) why)
    unfolding mark_failed has_no_slash
    mark_failed-Keeps o y why e =
        let sidecar = join (failed o) (y ++ sidecar_suffix) in
        >>-Keeps (x ∷ q) _ _
          (ignore-Keeps (x ∷ q) _ (
            Spares-Keeps (x ∷ q) (IsNot sidecar) _
              (ending-IsNot sidecar_suffix (failed o) y refl (omega arith) txt)
              (write_file-Spares sidecar why)))
          (move-Keeps y (processing o) (failed o) e)

    module _ (C : Codec Event) (o : Outbox) where
      set_aside-Keeps :
          (y : Text) (A : Type 0) (e : Error)
          → IsEventName y
          → Keeps {A = A}
              (x ∷ q)
              (ignore (rename (y ∷ processing o) (join (failed o) y)) >> raise e)
      set_aside-Keeps y A e event =
          >>-Keeps (x ∷ q) _ _
            (ignore-Keeps (x ∷ q) _ (move-Keeps y (processing o) (failed o) event))
            (Reads-Keeps (x ∷ q) _ (raise-Reads A e))

      accept-Keeps :
          (y : Text) (r : Result Text)
          → IsEventName y
          → Keeps (x ∷ q) (accept C o y (y ∷ processing o) r)
      unfolding accept
      accept-Keeps y (err e) event = set_aside-Keeps y _ e event
      accept-Keeps y (ok bytes) event = elim (Option-cases (C.decode bytes)) [
        | inl bad ↦ rw (accept, bad) (set_aside-Keeps y _ (message "json") event)
        | inr (ev, good) ↦
            rw (accept, good) (Reads-Keeps (x ∷ q) _ (pure-Reads (ev, y ∷ processing o)))
      ]

      claimed-Keeps :
          (y : Text) (later : Io (Event × FilePath)) (r : Result (Unit {0}))
          → IsEventName y
          → Keeps (x ∷ q) later
          → Keeps (x ∷ q) (claimed C o y (y ∷ processing o) later r)
      unfolding claimed
      claimed-Keeps y later (err e) event h = h
      claimed-Keeps y later (ok u) event h =
          >>=-Keeps (x ∷ q) _ _
            (Reads-Keeps (x ∷ q) _ (attempt-Reads _ (read_file-Reads (y ∷ processing o))))
            (λ r. accept-Keeps y r event)

      claim_from-Keeps :
          (es : List (Text × Node)) → HasPlainNames es → Keeps (x ∷ q) (claim_from C o es)
      unfolding claim_from
      claim_from-Keeps [] h = Reads-Keeps (x ∷ q) _ (raise-Reads _ no_pending)
      claim_from-Keeps ((y, node) ∷ es) (plain, h) = elim (Bool-cases (is_claimable y node)) [
        | inr other ↦ rw other (claim_from-Keeps es h)
        | inl good ↦
            let event = claimable-IsEventName y node plain good in
            rw (good, join-IsEventName (processing o) y event, join-IsEventName (pending o) y event)
              (>>=-Keeps (x ∷ q) _ _
                (attempt-Keeps (x ∷ q) _ (
                  rw (join-IsEventName (processing o) y event) at
                    (move-Keeps y (pending o) (processing o) event)))
                (λ r. claimed-Keeps y (claim_from C o es) r event (claim_from-Keeps es h)))
      ]

      pub claim_one-Keeps : Keeps (x ∷ q) (claim_one C o)
      unfolding claim_one
      claim_one-Keeps = >>-Keeps (x ∷ q) _ _ (ensure-Keeps (x ∷ q) o) (
          >>=-Keeps-Yields (x ∷ q) HasPlainNames (read_dir (pending o)) (claim_from C o)
            (Reads-Keeps (x ∷ q) _ (read_dir-Reads (pending o)))
            (read_dir-HasPlainNames (pending o)) claim_from-Keeps)
