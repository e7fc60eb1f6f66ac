-- ===== src/Outbox/Exclusive.antt =====
-- Claims of the same outbox, one after another: no event is handed out twice.
use baseline_integrity.Base.{
  ◌≡◌, ◌∙◌, refl, sym, ap, false, Option, none, some, List, [], ◌∷◌, Text, text_eq, text_eq_iff,
  arith, inl, inr, Bool-cases, Option-cases,
}
use baseline_integrity.Base.Result.{Result, ok, err}
use baseline_integrity.Crypto.{Codec}
use baseline_integrity.Os.{
  FilePath, base, path_eq, path_eq_iff, path_eq-cons, Node, file, dir, lookup, erase, lookup-insert,
  lookup-erase, World, Io, rename_at, rename, read_file, read_dir,
}
use baseline_integrity.Os.Appends.{continue_with-ok, gate-ok}
use baseline_integrity.Os.Reads.{read_file-Reads, read_dir-Reads}
use baseline_integrity.Os.Yields.{HasPlainNames, read_dir-HasPlainNames}
use baseline_integrity.Outbox.{
  Outbox, Event, pending, processing, is_claimable, ensure, accept, claimed, claim_from, claim_one,
}
use baseline_integrity.Outbox.Atomic.{rename-err, ensure-Spares}
use baseline_integrity.Outbox.Lifecycle.{join-IsEventName, claimable-IsEventName}
use baseline_integrity.Outbox.Stages.{queued, taken, path_eq-dir_of}

module _ (p q : FilePath) where
  rename_at-took :
      (w : World) (from to : Option Node) (v : World)
      → path_eq q p ≡ false
      → rename_at p q w from to ≡ (ok tt, v)
      → lookup p v.files ≡ none
  rename_at-took w none to v h e = ground arith
  rename_at-took w (some dir) to v h e = ground arith
  rename_at-took w (some (file b t)) (some dir) v h e = ground arith
  rename_at-took w (some (file b t)) none v h e = ground (
    arith,
    lookup-insert q p (file b t) (erase p w.files),
    lookup-erase p p w.files,
    path_eq_iff p p,
  )
  rename_at-took w (some (file b t)) (some (file c u)) v h e = ground (
    arith,
    lookup-insert q p (file b t) (erase p w.files),
    lookup-erase p p w.files,
    path_eq_iff p p,
  )

  -- A file that was renamed is no longer under its old name.
  rename-took :
      (w v : World) → path_eq q p ≡ false → rename p q w ≡ (ok tt, v) → lookup p v.files ≡ none
  unfolding rename
  rename-took w v h e =
      let (u, same, run) =
        gate-ok w.faults (λ v. rename_at p q v (lookup p v.files) (lookup q v.files)) w tt v e in
      rename_at-took u (lookup p u.files) (lookup q u.files) v h run

  -- What is not there cannot be renamed.
  rename-missing : (w v : World) → lookup p w.files ≡ none → rename p q w ≡ (ok tt, v) → ⊥
  unfolding rename
  rename-missing w v gone e =
      let (u, same, run) =
        gate-ok w.faults (λ v. rename_at p q v (lookup p v.files) (lookup q v.files)) w tt v e in
      let missing : lookup p u.files ≡ none = ap (lookup p) same.0 ∙ gone in
      ground (arith, missing, run)

module _ (C : Codec Event) (o : Outbox) where
  -- No file with this name waits in the outbox.
  abbrev IsGone : Text → World → Type 0
  IsGone x w = lookup (x ∷ pending o) w.files ≡ none

  accept-ok :
      (y : Text) (dst : FilePath) (r : Result Text) (u v : World) (got : Event × FilePath)
      → accept C o y dst r u ≡ (ok got, v)
      → (got.1 ≡ dst) × (u ≡ v)
  unfolding accept
  accept-ok y dst (err e) u v got h = ground arith
  accept-ok y dst (ok b) u v got h = elim (Option-cases (C.decode b)) [
    | inl bad ↦ ground (arith, bad)
    | inr (ev, good) ↦ (ground (arith, good), ground (arith, good))
  ]

  -- A claim from a file that was moved gives its new path, and only reads further.
  claimed-ok :
      (y : Text) (dst : FilePath) (later : Io (Event × FilePath)) (u v : World)
      (got : Event × FilePath)
      → claimed C o y dst later (ok tt) u ≡ (ok got, v)
      → (got.1 ≡ dst) × (v.files ≡ u.files)
  unfolding claimed
  claimed-ok y dst later u v got h =
      let read = read_file dst u in
      let (is, same) = accept-ok y dst read.0 read.1 v got h in
      (is, ap (λ w. w.files) (sym same) ∙ (read_file-Reads dst).keeps u)

  other_name :
      (x y : Text) (w v : World)
      → IsGone x w
      → rename (y ∷ pending o) (y ∷ processing o) w ≡ (ok tt, v)
      → text_eq x y ≡ false
  other_name x y w v gone e = elim (Bool-cases (text_eq x y)) [
    | inr differ ↦ differ
    | inl same ↦
        let named : x ≡ y = (text_eq_iff x y).0 same in
        absurd (rename-missing (y ∷ pending o) (y ∷ processing o) w v (rw named at gone) e)
  ]

  -- What a claim hands out: a file of `processing` whose name no longer waits, and which is not a
  -- name that did not wait before.
  abbrev IsTaken : World → World → FilePath → Type 0
  IsTaken w v p =
      (y : Text) × (p ≡ y ∷ processing o)
      × IsGone y v
      × ((x : Text) → IsGone x w → text_eq x y ≡ false)

  tried-IsTaken :
      (y : Text) (later : Io (Event × FilePath)) (w v : World) (got : Event × FilePath)
      (r : Result (Unit {0}) × World)
      → rename (y ∷ pending o) (y ∷ processing o) w ≡ r
      → ((u : World) → u.files ≡ w.files → later u ≡ (ok got, v) → IsTaken u v got.1)
      → claimed C o y (y ∷ processing o) later r.0 r.1 ≡ (ok got, v)
      → IsTaken w v got.1
  unfolding claimed
  tried-IsTaken y later w v got (ok u', u) moved h e =
      let (is, same) = claimed-ok y (y ∷ processing o) later u v got e in
      let apart : path_eq (y ∷ processing o) (y ∷ pending o) ≡ false =
        path_eq-dir_of o y y taken queued ∙ ground (arith, text_eq_iff y y) in
      let gone = rename-took (y ∷ pending o) (y ∷ processing o) w u apart moved in
      (y, is, ap (lookup (y ∷ pending o)) same ∙ gone, λ x absent. other_name x y w u absent moved)
  tried-IsTaken y later w v got (err x, u) moved h e =
      let files = rename-err (y ∷ pending o) (y ∷ processing o) w x u moved in
      let (z, is, gone, fresh) = h u files e in
      (z, is, gone, λ x absent. fresh x (ap (lookup (x ∷ pending o)) files ∙ absent))

  claim_from-IsTaken :
      (es : List (Text × Node)) (w v : World) (got : Event × FilePath)
      → HasPlainNames es
      → claim_from C o es w ≡ (ok got, v)
      → IsTaken w v got.1
  unfolding claim_from
  claim_from-IsTaken [] w v got h e = ground arith
  claim_from-IsTaken ((y, node) ∷ es) w v got (plain, h) e =
      elim (Bool-cases (is_claimable y node)) [
        | inr other ↦ claim_from-IsTaken es w v got h (rw other at e)
        | inl good ↦
            let event = claimable-IsEventName y node plain good in
            let there = join-IsEventName (processing o) y event in
            let here = join-IsEventName (pending o) y event in
            tried-IsTaken y (claim_from C o es) w v got
              (rename (y ∷ pending o) (y ∷ processing o) w) refl
              (λ u files. claim_from-IsTaken es u v got h) (rw (good, there, here) at e)
      ]

  claim_one-IsTaken :
      (w v : World) (got : Event × FilePath) → claim_one C o w ≡ (ok got, v) → IsTaken w v got.1
  unfolding claim_one
  claim_one-IsTaken w v got e =
      let (x, u, made, run) = continue_with-ok _ (ensure o w) got v e in
      let (es, u', listed, run') = continue_with-ok _ (read_dir (pending o) u) got v run in
      let plain = (read_dir-HasPlainNames (pending o)).value_ok u es (ap (λ r. r.0) listed) in
      let (y, is, gone, fresh) = claim_from-IsTaken es u' v got plain run' in
      (
        y,
        is,
        gone,
        λ x absent. fresh x (
            sym (ap (λ r. lookup (x ∷ pending o) r.1.files) listed)
            ∙ ap (lookup (x ∷ pending o)) ((read_dir-Reads (pending o)).keeps u)
            ∙ sym (ap (λ r. lookup (x ∷ pending o) r.1.files) made)
            ∙ (ensure-Spares o).spares w (x ∷ pending o) (omega arith)
            ∙ absent),
      )

  -- Two claims that succeed, under any faults and whatever happens between them, hand out different
  -- files, and the first one's is no longer in `pending` after it; if the first one's name is not back
  -- in `pending` when the second one starts.
  pub claim_one-exclusive :
      (w v w' v' : World) (got got' : Event × FilePath)
      → claim_one C o w ≡ (ok got, v)
      → lookup (base got.1 ∷ pending o) w'.files ≡ none
      → claim_one C o w' ≡ (ok got', v')
      → (path_eq got.1 got'.1 ≡ false) × (lookup (base got.1 ∷ pending o) v.files ≡ none)
  claim_one-exclusive w v w' v' got got' e absent e' =
      let (y, is, gone, fresh) = claim_one-IsTaken w v got e in
      let (z, is', gone', fresh') = claim_one-IsTaken w' v' got' e' in
      (rw (is, is', path_eq-cons, fresh' y (rw is at absent)) refl, rw is gone)
