-- ===== src/Outbox/Atomic.antt =====
-- What `Enqueue` can leave under the name of its event, whatever faults are scheduled.
use baseline_integrity.Base.{
  suc, ◌<◌, ◌≡◌, ◌⊎◌, ◌∙◌, refl, ap, true, Option, none, some, List, [], ◌∷◌, ◌++◌, length,
  length-append, Text, codes, text_eq_of_shorter, arith, inl, inr, Option-cases,
}
use baseline_integrity.Base.Result.{Error, message, Result, ok, err, or_err, is_exist}
use baseline_integrity.Crypto.{Codec}
use baseline_integrity.Os.{
  FilePath, join, has_no_slash, path_eq-cons, Node, file, dir, lookup, World, Io, continue_with,
  of_result, attempt, ignore, gate, rename_at, mkdir_all, write_file, rename, remove, ◌>>=◌, ◌>>◌,
}
use baseline_integrity.Os.Appends.{IsFile, write_file-ok, rename-ok}
use baseline_integrity.Os.Room.{join-suffix}
use baseline_integrity.Os.Reads.{pure-Reads, raise-Reads, attempt-Reads, >>=-Reads, stat-Reads}
use baseline_integrity.Os.Spares.{
  Spares, Reads-Spares, if-Spares, >>=-Spares, >>-Spares, IsNot, IsLonger, Spares-mono,
  mkdir_all-Spares, write_file-Spares, remove-Spares,
}
use baseline_integrity.Outbox.{
  Outbox, Event, pending, processing, done, failed, json_suffix, ensure, is_stated, settle, enqueue,
}

-- What holds after a first action and, if it succeeds, after the second holds in the end.
pub continue_with-after :
    {A B : Type 0} (P : World → Type 0) (f : A → Io B) (r : Result A × World)
    → P r.1
    → ((a : A) (v : World) → r ≡ (ok a, v) → P (f a v).1)
    → P (continue_with f r).1
continue_with-after P f (ok a, v) h k = k a v refl
continue_with-after P f (err e, v) h k = h

module _ (p q : FilePath) where
  rename_at-err :
      (w : World) (from to : Option Node) (e : Error) (v : World)
      → rename_at p q w from to ≡ (err e, v)
      → v.files ≡ w.files
  rename_at-err w none to e v h = ground arith
  rename_at-err w (some dir) to e v h = ground arith
  rename_at-err w (some (file b t)) (some dir) e v h = ground arith
  rename_at-err w (some (file b t)) none e v h = ground arith
  rename_at-err w (some (file b t)) (some (file c u)) e v h = ground arith

  gate-err :
      (fs : List (Option Error)) (w : World) (e : Error) (v : World)
      → gate fs (λ w. rename_at p q w (lookup p w.files) (lookup q w.files)) w ≡ (err e, v)
      → v.files ≡ w.files
  gate-err [] w e v h = rename_at-err w (lookup p w.files) (lookup q w.files) e v h
  gate-err (none ∷ rest) w e v h =
      rename_at-err (record w { faults = rest }) (lookup p w.files) (lookup q w.files) e v h
  gate-err (some x ∷ rest) w e v h = ground arith

  -- A rename that fails changes nothing.
  pub rename-err :
      (w : World) (e : Error) (v : World) → rename p q w ≡ (err e, v) → v.files ≡ w.files
  unfolding rename
  rename-err w e v h = gate-err w.faults w e v h

pub ensure-Spares : (o : Outbox) → Spares (IsLonger (pending o)) (ensure o)
unfolding ensure
ensure-Spares o = >>-Spares K _ _ (mkdir_all-Spares (pending o)) (
    >>-Spares K _ _ (made (processing o) refl)
      (>>-Spares K _ _ (made (done o) refl) (made (failed o) refl)))
  where
    K : FilePath → Type 0
    K = IsLonger (pending o)

    made : (d : FilePath) → length d ≡ suc (length o) → Spares K (mkdir_all d)
    made d e = Spares-mono (IsLonger d) K _ (λ k i. omega (arith, e, i)) (mkdir_all-Spares d)

settle-Spares : (tmp dst : FilePath) (r : Result (Unit {0})) → Spares (IsNot tmp) (settle tmp dst r)
unfolding settle
settle-Spares tmp dst (ok u) = Reads-Spares (IsNot tmp) _ (pure-Reads tt)
settle-Spares tmp dst (err e) =
    >>-Spares (IsNot tmp) (ignore (remove tmp)) _ (record { spares = (remove-Spares tmp).spares })
      (>>=-Spares (IsNot tmp) _ _
        (if-Spares (IsNot tmp) (is_exist e) _ _ (Reads-Spares (IsNot tmp) _ (pure-Reads true)) (
          Reads-Spares (IsNot tmp) _
            (>>=-Reads _ _ (attempt-Reads _ (stat-Reads dst)) (λ r. pure-Reads (is_stated r)))))
        (λ found.
          if-Spares (IsNot tmp) found _ _ (Reads-Spares (IsNot tmp) _ (pure-Reads tt))
            (Reads-Spares (IsNot tmp) _ (raise-Reads Unit e))))

module _ (C : Codec Event) (o : Outbox) (ev : Event) where
  -- The file of an event that waits in the outbox.
  abbrev pub event_path : FilePath
  event_path = (ev.id ++ json_suffix) ∷ pending o

  -- The path of the event holds what it held before, or the whole event.
  abbrev pub IsWhole : World → World → Type 0
  IsWhole w v =
      (lookup event_path v.files ≡ lookup event_path w.files)
      ⊎ ((b : Text) × (C.encode ev ≡ some b) × IsFile event_path b v)

  kept-IsWhole :
      (w u v : World)
      → lookup event_path v.files ≡ lookup event_path u.files
      → IsWhole w u
      → IsWhole w v
  kept-IsWhole w u v same (inl before) = inl (same ∙ before)
  kept-IsWhole w u v same (inr (b, good, (t, there))) = inr (b, good, (t, same ∙ there))

  module _ (plain : has_no_slash ev.id ≡ true) where
    abbrev temporary : FilePath
    temporary = (ev.id ++ codes ".tmp") ∷ pending o

    temporary-IsNot : IsNot temporary event_path
    temporary-IsNot =
        let short : length (ev.id ++ codes ".tmp") < length (ev.id ++ json_suffix) =
          omega (arith, length-append ev.id (codes ".tmp"), length-append ev.id json_suffix) in
        rw (path_eq-cons, text_eq_of_shorter (ev.id ++ codes ".tmp") (ev.id ++ json_suffix) short)
          refl

    -- The rename of a whole temporary file.
    renamed-IsWhole :
        (w u : World) (b : Text) (r : Result (Unit {0}) × World)
        → C.encode ev ≡ some b
        → IsFile temporary b u
        → IsWhole w u
        → rename temporary event_path u ≡ r
        → IsWhole w r.1
    renamed-IsWhole w u b (ok tt, v) good tmp before e =
        inr (b, good, rename-ok temporary event_path u v b tmp e)
    renamed-IsWhole w u b (err x, v) good tmp before e =
        kept-IsWhole w u v (ap (lookup event_path) (rename-err temporary event_path u x v e)) before

    encoded :
        (u v : World) (b : Text)
        → of_result (or_err (C.encode ev) (message "json")) u ≡ (ok b, v)
        → (C.encode ev ≡ some b) × (u ≡ v)
    encoded u v b e = elim (Option-cases (C.encode ev)) [
      | inl bad ↦ ground (arith, bad)
      | inr (b', good) ↦ (ground (arith, good), ground (arith, good))
    ]

    Spares-IsWhole :
        {A : Type 0} (m : Io A) (w u : World)
        → Spares (IsNot temporary) m
        → IsWhole w u
        → IsWhole w (m u).1
    Spares-IsWhole m w u h before =
        kept-IsWhole w u (m u).1 (h.spares u event_path temporary-IsNot) before

    written-IsWhole :
        (w u : World) (b : Text)
        → C.encode ev ≡ some b
        → IsWhole w u
        → IsWhole w
            ((write_file temporary b
                >> (attempt (rename temporary event_path) >>= settle temporary event_path))
              u).1
    written-IsWhole w u b good before =
        let half =
          Spares-IsWhole (write_file temporary b) w u (write_file-Spares temporary b) before in
        continue_with-after (IsWhole w) _ (write_file temporary b u) half λ x v ran.
          let moved = rename temporary event_path v in
          Spares-IsWhole (settle temporary event_path moved.0) w moved.1
            (settle-Spares temporary event_path moved.0)
            (renamed-IsWhole w v b moved good (write_file-ok temporary u v b ran) (rw ran at half)
              refl)

    -- The outbox never shows a part of an event: after `Enqueue`, under any faults and whatever it
    -- returns, the path of the event in `pending` holds what it held before, or it holds a file with
    -- all the bytes that the encoder gives for the event. The event's id has no separator.
    pub enqueue-IsWhole : (w : World) → IsWhole w (enqueue C o ev w).1
    unfolding enqueue has_no_slash
    enqueue-IsWhole w =
        let at_tmp : join (pending o) (ev.id ++ codes ".tmp") ≡ temporary =
          join-suffix (pending o) ev.id (codes ".tmp") plain refl (omega arith) in
        let at_dst : join (pending o) (ev.id ++ json_suffix) ≡ event_path =
          join-suffix (pending o) ev.id json_suffix plain refl (omega arith) in
        let dirs = (ensure-Spares o).spares w event_path (omega arith) in
        continue_with-after (IsWhole w) _ (ensure o w) (inl dirs) λ x u made.
          continue_with-after (IsWhole w) _ _ (inl (rw made at dirs)) λ b v got.
            let (good, same) = encoded u v b got in
            rw (at_tmp, at_dst) (written-IsWhole w v b good (inl (rw (made, same) at dirs)))
