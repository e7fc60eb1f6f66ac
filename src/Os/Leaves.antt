-- ===== src/Os/Leaves.antt =====
-- What holds of the files whenever an action succeeds, whatever faults are scheduled.
use baseline_integrity.Base.{
  ◌≡◌, refl, Bool, true, false, Option, none, some, List, [], ◌∷◌, ◌++◌, Text,
}
use baseline_integrity.Base.Result.{Error, is_dir, not_exist, Result, ok, err}
use baseline_integrity.Os.{
  FilePath, Node, file, dir, Files, lookup, insert, World, Io, continue_with, ◌>>=◌, ◌>>◌, gate,
  syscall, put_files, write_end, write_file, open_truncate,
}
use baseline_integrity.Os.Reads.{Reads}
use baseline_integrity.Os.Still.{lookup-insert_self}

-- After a success, the files are as the predicate says.
pub record Leaves {A : Type 0} (P : Files → Type 0) (m : Io A) : Type 0 where
  pub when_ok : (w : World) (a : A) → (m w).0 ≡ ok a → P (m w).1.files

module _ (P : Files → Type 0) where
  gate-when_ok :
      {A : Type 0} (fs : List (Option Error)) (act : Io A) (w : World) (a : A)
      → Leaves P act
      → (gate fs act w).0 ≡ ok a
      → P (gate fs act w).1.files
  gate-when_ok [] act w a h e = h.when_ok w a e
  gate-when_ok (none ∷ rest) act w a h e = h.when_ok (record w { faults = rest }) a e
  gate-when_ok (some x ∷ rest) act w a h e = cc

  pub syscall-Leaves : {A : Type 0} (act : Io A) → Leaves P act → Leaves P (syscall act)
  syscall-Leaves act h = record { when_ok = λ w a e. gate-when_ok w.faults act w a h e }

  continue_with-when_ok :
      {A B : Type 0} (f : A → Io B) (r : Result A × World) (b : B)
      → ((a : A) → Leaves P (f a))
      → (continue_with f r).0 ≡ ok b
      → P (continue_with f r).1.files
  continue_with-when_ok f (ok a, w) b h e = (h a).when_ok w b e
  continue_with-when_ok f (err x, w) b h e = cc

  pub >>=-Leaves :
      {A B : Type 0} (m : Io A) (f : A → Io B) → ((a : A) → Leaves P (f a)) → Leaves P (m >>= f)
  >>=-Leaves m f h = record { when_ok = λ w b e. continue_with-when_ok f (m w) b h e }

  continue_with-after :
      {A B : Type 0} (k : Io B) (r : Result A × World) (b : B)
      → Reads k
      → ((a : A) → r.0 ≡ ok a → P r.1.files)
      → (continue_with (λ a. k) r).0 ≡ ok b
      → P (continue_with (λ a. k) r).1.files
  continue_with-after k (ok a, w) b reads h e = rw (reads.keeps w) (h a refl)
  continue_with-after k (err x, w) b reads h e = cc

  -- What a first action leaves, a second that only reads leaves too.
  pub >>-Leaves :
      {B : Type 0} (m : Io (Unit {0})) (k : Io B) → Leaves P m → Reads k → Leaves P (m >> k)
  >>-Leaves m k h reads = record {
    when_ok = λ w b e. continue_with-after k (m w) b reads (h.when_ok w) e;
  }

abbrev pub is_file : Option Node → Bool
is_file (some (file b t)) = true
is_file _ = false

abbrev pub HasFile : FilePath → Files → Type 0
HasFile p fs = is_file (lookup p fs) ≡ true

written-HasFile :
    (p : FilePath) (more : Text) (w : World) (o : Option Node)
    → lookup p w.files ≡ o
    → let r : Result (Unit {0}) × World = elim o [
      | some (file b t) ↦
          (ok tt, put_files (insert p (file (b ++ more) (w.clock w.reads)) w.files) w)
      | some dir ↦ (err is_dir, w)
      | none ↦ (err not_exist, w)
    ] in
      r.0 ≡ ok tt → HasFile p r.1.files
written-HasFile p more w none h e = cc
written-HasFile p more w (some dir) h e = cc
written-HasFile p more w (some (file b t)) h e = rw lookup-insert_self

pub write_file-Leaves : (p : FilePath) (b : Text) → Leaves (HasFile p) (write_file p b)
unfolding write_file write_end
write_file-Leaves p b =
    >>=-Leaves (HasFile p) (open_truncate p) (λ u. write_end p b)
      λ u.
        syscall-Leaves (HasFile p) _
          (record { when_ok = λ w a e. written-HasFile p b w (lookup p w.files) refl e })
