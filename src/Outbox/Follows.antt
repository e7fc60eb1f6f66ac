-- ===== src/Outbox/Follows.antt =====
-- Actions that take an event along its state machine, and rules for them.
use baseline_integrity.Base.{
  ℕ, ◌≡◌, refl, Bool, true, false, Option, none, some, List, [], ◌∷◌, Text, text_eq, text_eq_iff,
  text_eq_refl, arith, inl, inr, Bool-cases, if◌then◌else◌,
}
use baseline_integrity.Base.Result.{Error, not_exist, Result, ok, err}
use baseline_integrity.Os.{
  FilePath, Node, file, dir, Files, lookup, insert, erase, lookup-insert, lookup-erase, World, Io,
  continue_with, ◌>>=◌, ◌>>◌, gate, attempt, ignore, put_files, rename_at, rename, has_directory,
}
use baseline_integrity.Os.Reads.{Reads}
use baseline_integrity.Os.Yields.{Yields}
use baseline_integrity.Os.Spares.{Spares, Reads-Spares}
use baseline_integrity.Outbox.{Outbox}
use baseline_integrity.Outbox.Stages.{
  Stage, stage_eq_iff, dir_of, Move, here, next, Reach-trans, path_eq-dir_of, At, After,
}

module _ (o : Outbox) (name b : Text) where
  -- Under any faults the action takes the event along moves only, and never loses it.
  pub record Follows {A : Type 0} (m : Io A) : Type 0 where
    pub follows : (w : World) (s : Stage) → At o name b s w.files → After o name b s (m w).1.files

  -- The places where the event's file can be.
  abbrev pub IsPlace : FilePath → Type 0
  IsPlace k = (t : Stage) × (k ≡ name ∷ dir_of o t)

  pub Spares-Follows : {A : Type 0} (m : Io A) → Spares IsPlace m → Follows m
  Spares-Follows m h = record {
    follows = λ w s home. (s, here, λ t. rw (h.spares w (name ∷ dir_of o t) (t, refl)) (home t));
  }

  pub Reads-Follows : {A : Type 0} (m : Io A) → Reads m → Follows m
  Reads-Follows m h = Spares-Follows m (Reads-Spares IsPlace m h)

  pub if-Follows :
      {A : Type 0} (c : Bool) (m n : Io A) → Follows m → Follows n → Follows (if c then m else n)
  if-Follows true m n h k = h
  if-Follows false m n h k = k

  pub attempt-Follows : {A : Type 0} (m : Io A) → Follows m → Follows (attempt m)
  attempt-Follows m h = record { follows = h.follows }

  pub ignore-Follows : {A : Type 0} (m : Io A) → Follows m → Follows (ignore m)
  ignore-Follows m h = record { follows = h.follows }

  continue_with-Follows :
      {A B : Type 0} (f : A → Io B) (r : Result A × World) (s : Stage)
      → ((a : A) → Follows (f a))
      → After o name b s r.1.files
      → After o name b s (continue_with f r).1.files
  continue_with-Follows f (ok a, w) s h (t, reach, home) =
      let (u, more, there) = (h a).follows w t home in (u, Reach-trans reach more, there)
  continue_with-Follows f (err x, w) s h after = after

  pub >>=-Follows :
      {A B : Type 0} (m : Io A) (f : A → Io B)
      → Follows m
      → ((a : A) → Follows (f a))
      → Follows (m >>= f)
  >>=-Follows m f h k = record {
    follows = λ w s home. continue_with-Follows f (m w) s k (h.follows w s home);
  }

  -- The same where what follows is known to get a value with a property.
  pub >>=-Follows-Yields :
      {A B : Type 0} (Q : A → Type 0) (m : Io A) (f : A → Io B)
      → Follows m
      → Yields Q m
      → ((a : A) → Q a → Follows (f a))
      → Follows (m >>= f)
  >>=-Follows-Yields {A} {B} Q m f h y k = record {
    follows = λ w s home. go (m w) s (λ a e. y.value_ok w a e) (h.follows w s home);
  }
    where
      go :
          (r : Result A × World) (s : Stage)
          → ((a : A) → r.0 ≡ ok a → Q a)
          → After o name b s r.1.files
          → After o name b s (continue_with f r).1.files
      go (ok a, w) s q (t, reach, home) =
          let (u, more, there) = (k a (q a refl)).follows w t home in
          (u, Reach-trans reach more, there)
      go (err x, w) s q after = after

  pub >>-Follows :
      {B : Type 0} (m : Io (Unit {0})) (n : Io B) → Follows m → Follows n → Follows (m >> n)
  >>-Follows m n h k = >>=-Follows m (λ u. n) h (λ u. k)

  gate-Follows :
      {A : Type 0} (faults : List (Option Error)) (act : Io A) (w : World) (s : Stage)
      → Follows act
      → At o name b s w.files
      → After o name b s (gate faults act w).1.files
  gate-Follows [] act w s h home = h.follows w s home
  gate-Follows (none ∷ rest) act w s h home = h.follows (record w { faults = rest }) s home
  gate-Follows (some x ∷ rest) act w s h home = (s, here, home)

  -- A file moves from the directory of one stage to that of the next.
  pub moved-At :
      (s t : Stage) (time : ℕ) (fs : Files)
      → At o name b s fs
      → At o name b t (insert (name ∷ dir_of o t) (file b time) (erase (name ∷ dir_of o s) fs))
  moved-At s t time fs home u = ground (
    arith,
    lookup-insert (name ∷ dir_of o t) (name ∷ dir_of o u) (file b time)
        (erase (name ∷ dir_of o s) fs),
    lookup-erase (name ∷ dir_of o s) (name ∷ dir_of o u) fs,
    path_eq-dir_of o name name t u,
    path_eq-dir_of o name name s u,
    text_eq_refl name,
    home u,
  )

  other-At :
      (x : Text) (s t u : Stage) (node : Node) (fs : Files)
      → text_eq x name ≡ false
      → At o name b s fs
      → At o name b s (insert (x ∷ dir_of o u) node (erase (x ∷ dir_of o t) fs))
  other-At x s t u node fs ne home v = ground (
    arith,
    lookup-insert (x ∷ dir_of o u) (name ∷ dir_of o v) node (erase (x ∷ dir_of o t) fs),
    lookup-erase (x ∷ dir_of o t) (name ∷ dir_of o v) fs,
    path_eq-dir_of o x name u v,
    path_eq-dir_of o x name t v,
    home v,
  )

  renamed :
      (x : Text) (s t u : Stage) (c : Text) (time : ℕ) (w : World)
      → Move t u
      → lookup (x ∷ dir_of o t) w.files ≡ some (file c time)
      → At o name b s w.files
      → (room : Bool)
      → let r : Result (Unit {0}) × World =
          if room
          then (
            ok tt,
            put_files (insert (x ∷ dir_of o u) (file c time) (erase (x ∷ dir_of o t) w.files)) w,
          )
          else (err not_exist, w) in
        After o name b s r.1.files
  renamed x s t u c time w m e home false = (s, here, home)
  renamed x s t u c time w m e home true = elim (Bool-cases (text_eq x name)) [
    | inr other ↦ (s, here, other-At x s t u (file c time) w.files other home)
    | inl same ↦
        let named : x ≡ name = (text_eq_iff x name).0 same in
        let is_it : (s ≡ t) × (c ≡ b) = ground (arith, named, e, home t, stage_eq_iff s t) in
        (
          u,
          rw (is_it.0) (next here m),
          rw (named, is_it.1) (moved-At t u time w.files (rw (is_it.0) at home)),
        )
  ]

  -- A rename of any file from one stage's directory to the next one's.
  rename_at-follows :
      (x : Text) (s t u : Stage) (w : World) (from to : Option Node)
      → Move t u
      → lookup (x ∷ dir_of o t) w.files ≡ from
      → At o name b s w.files
      → After o name b s (rename_at (x ∷ dir_of o t) (x ∷ dir_of o u) w from to).1.files
  rename_at-follows x s t u w none to m e home = (s, here, home)
  rename_at-follows x s t u w (some dir) to m e home = (s, here, home)
  rename_at-follows x s t u w (some (file c time)) (some dir) m e home = (s, here, home)
  rename_at-follows x s t u w (some (file c time)) (some (file c' time')) m e home =
      renamed x s t u c time w m e home (has_directory (dir_of o u) w.files)
  rename_at-follows x s t u w (some (file c time)) none m e home =
      renamed x s t u c time w m e home (has_directory (dir_of o u) w.files)

  pub rename-Follows :
      (x : Text) (t u : Stage) → Move t u → Follows (rename (x ∷ dir_of o t) (x ∷ dir_of o u))
  unfolding rename
  rename-Follows x t u m = record {
    follows = λ w s home.
        gate-Follows w.faults _ w s
          (record {
            follows = λ w s home.
                rename_at-follows x s t u w (lookup (x ∷ dir_of o t) w.files)
                  (lookup (x ∷ dir_of o u) w.files) m refl home;
          })
          home;
  }

  -- After an attempt the code goes on by its outcome, whose value has what the action yields.
  pub attempt->>=-Follows :
      {A B : Type 0} (Q : A → Type 0) (m : Io A) (f : Result A → Io B)
      → Follows m
      → Yields Q m
      → ((a : A) → Q a → Follows (f (ok a)))
      → ((e : Error) → Follows (f (err e)))
      → Follows (attempt m >>= f)
  attempt->>=-Follows {A} Q m f h y on_ok on_err = record {
    follows = λ w s home. split (m w) s (λ a e. y.value_ok w a e) (h.follows w s home);
  }
    where
      split :
          (r : Result A × World) (s : Stage)
          → ((a : A) → r.0 ≡ ok a → Q a)
          → After o name b s r.1.files
          → After o name b s (f r.0 r.1).1.files
      split (ok a, w) s q (t, reach, home) =
          let (u, more, there) = (on_ok a (q a refl)).follows w t home in
          (u, Reach-trans reach more, there)
      split (err e, w) s q (t, reach, home) =
          let (u, more, there) = (on_err e).follows w t home in (u, Reach-trans reach more, there)
