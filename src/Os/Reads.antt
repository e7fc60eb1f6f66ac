-- ===== src/Os/Reads.antt =====
-- Actions that leave the files alone, whatever faults are scheduled.
use baseline_integrity.Base.{
  ◌≡◌, refl, ◌∙◌, String, Bool, true, false, Option, none, some, List, [], ◌∷◌, arith,
  if◌then◌else◌,
}
use baseline_integrity.Base.Result.{Error, Result, ok, err}
use baseline_integrity.Os.{
  FilePath, Files, World, Io, pure, raise, of_result, continue_with, ◌>>=◌, ◌>>◌, attempt, log,
  time_now, gate, syscall, read_file, stat, read_dir,
}

-- The action changes no file, in any world.
pub record Reads {A : Type 0} (m : Io A) : Type 0 where
  pub keeps : (w : World) → (m w).1.files ≡ w.files

module _ {A : Type 0} where
  pub pure-Reads : (a : A) → Reads (pure a)
  pure-Reads a = record { keeps = λ w. refl }

  pub of_result-Reads : (r : Result A) → Reads (of_result r)
  of_result-Reads r = record { keeps = λ w. refl }

  pub attempt-Reads : (m : Io A) → Reads m → Reads (attempt m)
  attempt-Reads m h = record { keeps = λ w. h.keeps w }

  pub if-Reads : (b : Bool) (m n : Io A) → Reads m → Reads n → Reads (if b then m else n)
  if-Reads true m n h k = h
  if-Reads false m n h k = k

  gate-keeps :
      (fs : List (Option Error)) (act : Io A) (w : World)
      → Reads act
      → (gate fs act w).1.files ≡ w.files
  gate-keeps [] act w h = h.keeps w
  gate-keeps (none ∷ rest) act w h = h.keeps (record w { faults = rest })
  gate-keeps (some e ∷ rest) act w h = refl

  pub syscall-Reads : (act : Io A) → ((w : World) → (act w).1.files ≡ w.files) → Reads (syscall act)
  syscall-Reads act h = record { keeps = λ w. gate-keeps w.faults act w (record { keeps = h }) }

  continue_with-keeps :
      {B : Type 0} (f : A → Io B) (r : Result A × World) (fs : Files)
      → ((a : A) → Reads (f a))
      → r.1.files ≡ fs
      → (continue_with f r).1.files ≡ fs
  continue_with-keeps f (ok a, w) fs k e = (k a).keeps w ∙ e
  continue_with-keeps f (err x, w) fs k e = e

  pub >>=-Reads :
      {B : Type 0} (m : Io A) (f : A → Io B) → Reads m → ((a : A) → Reads (f a)) → Reads (m >>= f)
  >>=-Reads m f h k = record { keeps = λ w. continue_with-keeps f (m w) w.files k (h.keeps w) }

pub >>-Reads : {B : Type 0} (m : Io (Unit {0})) (k : Io B) → Reads m → Reads k → Reads (m >> k)
>>-Reads m k h j = >>=-Reads m (λ u. k) h (λ u. j)

pub raise-Reads : (A : Type 0) (e : Error) → Reads {A = A} (raise e)
raise-Reads A e = record { keeps = λ w. refl }

pub log-Reads : (s : String) → Reads (log s)
log-Reads s = record { keeps = λ w. refl }

pub time_now-Reads : Reads time_now
unfolding time_now
time_now-Reads = record { keeps = λ w. refl }

pub read_file-Reads : (p : FilePath) → Reads (read_file p)
unfolding read_file
read_file-Reads p = syscall-Reads _ λ w. ground arith

pub stat-Reads : (p : FilePath) → Reads (stat p)
unfolding stat
stat-Reads p = syscall-Reads _ λ w. ground arith

pub read_dir-Reads : (p : FilePath) → Reads (read_dir p)
unfolding read_dir
read_dir-Reads p = syscall-Reads _ λ w. ground arith
