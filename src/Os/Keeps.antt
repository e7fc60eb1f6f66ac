-- ===== src/Os/Keeps.antt =====
-- Actions that leave one file as it is, whatever faults are scheduled.
use baseline_integrity.Base.{
  ℕ, ◌≡◌, refl, ◌∙◌, Bool, true, false, Option, none, some, List, [], ◌∷◌, Text, arith,
  if◌then◌else◌, inl, inr, ap,
}
use baseline_integrity.Base.Result.{Result-cases, Error, Result, ok, err}
use baseline_integrity.Os.{
  FilePath, path_eq_iff, file, dir, Files, lookup, lookup-insert, World, Io, continue_with, ◌>>=◌,
  ◌>>◌, attempt, ignore, gate, mkdir_at, make_all, mkdir_all,
}
use baseline_integrity.Os.Reads.{Reads}
use baseline_integrity.Os.Spares.{Spares}
use baseline_integrity.Os.Yields.{Yields}

-- A file at the path is there afterwards, with the same bytes and time.
pub record Keeps {A : Type 0} (p : FilePath) (m : Io A) : Type 0 where
  pub keeps_file :
      (w : World) (b : Text) (t : ℕ)
      → lookup p w.files ≡ some (file b t)
      → lookup p (m w).1.files ≡ some (file b t)

module _ (p : FilePath) where
  pub Spares-Keeps : {A : Type 0} (K : FilePath → Type 0) (m : Io A) → K p → Spares K m → Keeps p m
  Spares-Keeps K m i h = record { keeps_file = λ w b t e. h.spares w p i ∙ e }

  pub Reads-Keeps : {A : Type 0} (m : Io A) → Reads m → Keeps p m
  Reads-Keeps m h = record { keeps_file = λ w b t e. ap (lookup p) (h.keeps w) ∙ e }

  pub if-Keeps :
      {A : Type 0} (b : Bool) (m n : Io A) → Keeps p m → Keeps p n → Keeps p (if b then m else n)
  if-Keeps true m n h k = h
  if-Keeps false m n h k = k

  pub attempt-Keeps : {A : Type 0} (m : Io A) → Keeps p m → Keeps p (attempt m)
  attempt-Keeps m h = record { keeps_file = λ w b t e. h.keeps_file w b t e }

  pub ignore-Keeps : {A : Type 0} (m : Io A) → Keeps p m → Keeps p (ignore m)
  ignore-Keeps m h = record { keeps_file = λ w b t e. h.keeps_file w b t e }

  continue_with-Keeps :
      {A B : Type 0} (f : A → Io B) (r : Result A × World) (b : Text) (t : ℕ)
      → ((a : A) → Keeps p (f a))
      → lookup p r.1.files ≡ some (file b t)
      → lookup p (continue_with f r).1.files ≡ some (file b t)
  continue_with-Keeps f (ok a, w) b t h e = (h a).keeps_file w b t e
  continue_with-Keeps f (err x, w) b t h e = e

  pub >>=-Keeps :
      {A B : Type 0} (m : Io A) (f : A → Io B)
      → Keeps p m
      → ((a : A) → Keeps p (f a))
      → Keeps p (m >>= f)
  >>=-Keeps m f h g = record {
    keeps_file = λ w b t e. continue_with-Keeps f (m w) b t g (h.keeps_file w b t e);
  }

  pub >>-Keeps :
      {B : Type 0} (m : Io (Unit {0})) (n : Io B) → Keeps p m → Keeps p n → Keeps p (m >> n)
  >>-Keeps m n h g = >>=-Keeps m (λ u. n) h (λ u. g)

  gate-Keeps :
      {A : Type 0} (fs : List (Option Error)) (act : Io A) (w : World) (b : Text) (t : ℕ)
      → Keeps p act
      → lookup p w.files ≡ some (file b t)
      → lookup p (gate fs act w).1.files ≡ some (file b t)
  gate-Keeps [] act w b t h e = h.keeps_file w b t e
  gate-Keeps (none ∷ rest) act w b t h e = h.keeps_file (record w { faults = rest }) b t e
  gate-Keeps (some x ∷ rest) act w b t h e = e

  make_all-keeps_file :
      (q : FilePath) (fs out : Files) (b : Text) (t : ℕ)
      → lookup p fs ≡ some (file b t)
      → make_all q fs ≡ ok out
      → lookup p out ≡ some (file b t)
  unfolding make_all
  make_all-keeps_file [] fs out b t h e = ground arith
  make_all-keeps_file (d ∷ q) fs out b t h e = elim (Result-cases (make_all q fs)) [
    | inl (above, made) ↦ ground (
      arith,
      made,
      lookup-insert (d ∷ q) p dir above,
      path_eq_iff (d ∷ q) p,
      make_all-keeps_file q fs above b t,
    )
    | inr (x, broken) ↦ ground (arith, broken)
  ]

  mkdir_at-keeps_file :
      (q : FilePath) (w : World) (r : Result Files) (b : Text) (t : ℕ)
      → make_all q w.files ≡ r
      → lookup p w.files ≡ some (file b t)
      → lookup p (mkdir_at w r).1.files ≡ some (file b t)
  mkdir_at-keeps_file q w (ok fs) b t e h = make_all-keeps_file q w.files fs b t h e
  mkdir_at-keeps_file q w (err x) b t e h = h

  -- Directories are only made where nothing is.
  pub mkdir_all-Keeps : (q : FilePath) → Keeps p (mkdir_all q)
  unfolding mkdir_all
  mkdir_all-Keeps q = record {
    keeps_file = λ w b t e.
        gate-Keeps w.faults (λ v. mkdir_at v (make_all q v.files)) w b t
          (record {
            keeps_file = λ v c u h. mkdir_at-keeps_file q v (make_all q v.files) c u refl h;
          })
          e;
  }

  continue_with-Keeps-Yields :
      {A B : Type 0} (Q : A → Type 0) (f : A → Io B) (r : Result A × World) (b : Text) (t : ℕ)
      → ((a : A) → r.0 ≡ ok a → Q a)
      → ((a : A) → Q a → Keeps p (f a))
      → lookup p r.1.files ≡ some (file b t)
      → lookup p (continue_with f r).1.files ≡ some (file b t)
  continue_with-Keeps-Yields Q f (ok a, w) b t y h e = (h a (y a refl)).keeps_file w b t e
  continue_with-Keeps-Yields Q f (err x, w) b t y h e = e

  -- The same where what follows is known to get a value with a property.
  pub >>=-Keeps-Yields :
      {A B : Type 0} (Q : A → Type 0) (m : Io A) (f : A → Io B)
      → Keeps p m
      → Yields Q m
      → ((a : A) → Q a → Keeps p (f a))
      → Keeps p (m >>= f)
  >>=-Keeps-Yields Q m f h y k = record {
    keeps_file =
        λ w b t e. continue_with-Keeps-Yields Q f (m w) b t (y.value_ok w) k (h.keeps_file w b t e);
  }

  outcome-Keeps :
      {A B : Type 0} (Q : A → Type 0) (f : Result A → Io B) (r : Result A × World) (b : Text)
      (t : ℕ)
      → ((a : A) → r.0 ≡ ok a → Q a)
      → ((a : A) → Q a → Keeps p (f (ok a)))
      → ((e : Error) → Keeps p (f (err e)))
      → lookup p r.1.files ≡ some (file b t)
      → lookup p (f r.0 r.1).1.files ≡ some (file b t)
  outcome-Keeps Q f (ok a, w) b t y h k e = (h a (y a refl)).keeps_file w b t e
  outcome-Keeps Q f (err x, w) b t y h k e = (k x).keeps_file w b t e

  -- After an attempt the code goes on by its outcome, whose value has what the action yields.
  pub attempt->>=-Keeps :
      {A B : Type 0} (Q : A → Type 0) (m : Io A) (f : Result A → Io B)
      → Keeps p m
      → Yields Q m
      → ((a : A) → Q a → Keeps p (f (ok a)))
      → ((e : Error) → Keeps p (f (err e)))
      → Keeps p (attempt m >>= f)
  attempt->>=-Keeps Q m f h y k l = record {
    keeps_file = λ w b t e. outcome-Keeps Q f (m w) b t (y.value_ok w) k l (h.keeps_file w b t e);
  }
