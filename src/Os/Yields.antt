-- ===== src/Os/Yields.antt =====
-- What holds of the value whenever an action succeeds, whatever faults are scheduled.
use baseline_integrity.Base.{
  true, All, filter_by-All, ◌≡◌, refl, Option, none, some, List, [], ◌∷◌, Text, arith,
}
use baseline_integrity.Base.Result.{Error, Result, ok, err}
use baseline_integrity.Os.{
  FilePath, Node, file, dir, Files, lookup, World, Io, continue_with, ◌>>=◌, wrapping, rewrap, gate,
  read_file, read_dir, listing, entries, has_no_slash, syscall,
}

pub record Yields {A : Type 0} (Q : A → Type 0) (m : Io A) : Type 0 where
  pub value_ok : (w : World) (a : A) → (m w).0 ≡ ok a → Q a

module _ {B : Type 0} (Q : B → Type 0) where
  continue_with-value_ok :
      {A : Type 0} (f : A → Io B) (r : Result A × World) (b : B)
      → ((a : A) → Yields Q (f a))
      → (continue_with f r).0 ≡ ok b
      → Q b
  continue_with-value_ok f (ok a, w) b h e = (h a).value_ok w b e
  continue_with-value_ok f (err x, w) b h e = cc

  pub >>=-Yields :
      {A : Type 0} (m : Io A) (f : A → Io B) → ((a : A) → Yields Q (f a)) → Yields Q (m >>= f)
  >>=-Yields m f h = record { value_ok = λ w b e. continue_with-value_ok f (m w) b h e }

  pub >>=-Yields-Yields :
      {A : Type 0} (P : A → Type 0) (m : Io A) (f : A → Io B)
      → Yields P m
      → ((a : A) → P a → Yields Q (f a))
      → Yields Q (m >>= f)
  >>=-Yields-Yields {A} P m f h k = record {
    value_ok = λ w b e. go (m w) b (λ a e. h.value_ok w a e) e;
  }
    where
      go :
          (r : Result A × World) (b : B)
          → ((a : A) → r.0 ≡ ok a → P a)
          → (continue_with f r).0 ≡ ok b
          → Q b
      go (ok a, w) b p e = (k a (p a refl)).value_ok w b e
      go (err x, w) b p e = cc

  rewrap-value_ok :
      (f : Error → Error) (r : Result B × World) (b : B)
      → ((b : B) → r.0 ≡ ok b → Q b)
      → (rewrap f r).0 ≡ ok b
      → Q b
  rewrap-value_ok f (ok a, w) b h e = h b e
  rewrap-value_ok f (err x, w) b h e = cc

  pub wrapping-Yields : (f : Error → Error) (m : Io B) → Yields Q m → Yields Q (wrapping f m)
  wrapping-Yields f m h = record { value_ok = λ w b e. rewrap-value_ok f (m w) b (h.value_ok w) e }

  gate-value_ok :
      (faults : List (Option Error)) (act : Io B) (w : World) (b : B)
      → Yields Q act
      → (gate faults act w).0 ≡ ok b
      → Q b
  gate-value_ok [] act w b h e = h.value_ok w b e
  gate-value_ok (none ∷ rest) act w b h e = h.value_ok (record w { faults = rest }) b e
  gate-value_ok (some x ∷ rest) act w b h e = cc

  pub syscall-Yields : (act : Io B) → Yields Q act → Yields Q (syscall act)
  syscall-Yields act h = record { value_ok = λ w b e. gate-value_ok w.faults act w b h e }

-- The names that a directory lists have no separator.
abbrev pub HasPlainNames : List (Text × Node) → Type 0
HasPlainNames es = All (λ e. has_no_slash e.0 ≡ true) es

pub read_dir-HasPlainNames : (d : FilePath) → Yields HasPlainNames (read_dir d)
unfolding read_dir
read_dir-HasPlainNames d =
    syscall-Yields HasPlainNames _
      (record { value_ok = λ w es e. listed w es (lookup d w.files) e })
  where
    listed :
        (w : World) (es : List (Text × Node)) (o : Option Node)
        → let r : Result (List (Text × Node)) × World = elim o [
          | some dir ↦ (ok (listing d w.files), w)
          | some (file b t) ↦ (err Error.not_dir, w)
          | none ↦ (err Error.not_exist, w)
        ] in
          r.0 ≡ ok es → HasPlainNames es
    listed w es none e = cc
    listed w es (some (file b t)) e = cc
    listed w es (some dir) e =
        let same : listing d w.files ≡ es = cc in
        rw (← same) (filter_by-All (λ (e : Text × Node). has_no_slash e.0) (entries d w.files))

-- Bytes that were read are those of a file at that path.
abbrev pub Holds : Text → Option Node → Type 0
Holds b (some (file b' t)) = b' ≡ b
Holds b _ = ⊥

looked-Holds :
    (o : Option Node) (w : World) (b : Text)
    → let r : Result Text × World = elim o [
      | some (file b' t) ↦ (ok b', w)
      | some dir ↦ (err Error.is_dir, w)
      | none ↦ (err Error.not_exist, w)
    ] in
      r.0 ≡ ok b → Holds b o
looked-Holds none w b e = cc
looked-Holds (some dir) w b e = cc
looked-Holds (some (file b' t)) w b e = ground arith

gate-read :
    (fs : List (Option Error)) (act : Io Text) (fs' : Files) (p : FilePath) (w : World) (b : Text)
    → w.files ≡ fs'
    → ((w : World) (b : Text) → (act w).0 ≡ ok b → Holds b (lookup p w.files))
    → (gate fs act w).0 ≡ ok b
    → Holds b (lookup p fs')
gate-read [] act fs' p w b s h e = rw (s) at (h w b e)
gate-read (none ∷ rest) act fs' p w b s h e = rw (s) at (h (record w { faults = rest }) b e)
gate-read (some x ∷ rest) act fs' p w b s h e = cc

pub read_file-Holds :
    (p : FilePath) (w : World) (b : Text) → (read_file p w).0 ≡ ok b → Holds b (lookup p w.files)
unfolding read_file
read_file-Holds p w b e =
    gate-read w.faults _ w.files p w b refl (λ w b e. looked-Holds (lookup p w.files) w b e) e
