-- ===== src/Os/Still.antt =====
-- The calls of the operating system in a world where no fault is scheduled.
use baseline_integrity.Base.{ℕ, ◌≡◌, String, true, false, none, some, List, [], ◌++◌, Text, arith}
use baseline_integrity.Base.Result.{not_exist, ok, err}
use baseline_integrity.Os.{
  FilePath, parent, path_eq, path_eq_refl, Node, file, Files, lookup, insert, erase, lookup-insert,
  World, open_append, open_truncate, write_end, write_file, read_file, rename, stat, has_directory,
}

abbrev pub still : Files → (ℕ → ℕ) → ℕ → List String → World
still fs clock n printed = record {
  files = fs;
  faults = [];
  clock = clock;
  reads = n;
  printed = printed;
}

pub lookup-insert_self : (p : FilePath) (v : Node) (fs : Files) → lookup p (insert p v fs) ≡ some v
lookup-insert_self p v fs = rw (lookup-insert, path_eq_refl)

pub lookup-insert_ne :
    (p q : FilePath) (v : Node) (fs : Files)
    → path_eq p q ≡ false
    → lookup q (insert p v fs) ≡ lookup q fs
lookup-insert_ne p q v fs h = rw (lookup-insert, h)

module _ (c : ℕ → ℕ) (n : ℕ) (l : List String) (fs : Files) (p : FilePath) where
  pub open_append-new :
      lookup p fs ≡ none
      → has_directory (parent p) fs ≡ true
      → open_append p (still fs c n l) ≡ (ok tt, still (insert p (file [] (c n)) fs) c n l)
  unfolding open_append
  open_append-new new room = ground arith

  pub open_append-old :
      (b : Text) (t : ℕ)
      → lookup p fs ≡ some (file b t)
      → open_append p (still fs c n l) ≡ (ok tt, still (insert p (file b t) fs) c n l)
  unfolding open_append
  open_append-old b t old = ground arith

  pub write_end-still :
      (b : Text) (t : ℕ) (more : Text)
      → lookup p fs ≡ some (file b t)
      → write_end p more (still fs c n l)
        ≡ (ok tt, still (insert p (file (b ++ more) (c n)) fs) c n l)
  unfolding write_end
  write_end-still b t more old = ground arith

  pub read_file-still :
      (b : Text) (t : ℕ)
      → lookup p fs ≡ some (file b t)
      → read_file p (still fs c n l) ≡ (ok b, still fs c n l)
  unfolding read_file
  read_file-still b t old = ground arith

  pub read_file-missing :
      lookup p fs ≡ none → read_file p (still fs c n l) ≡ (err not_exist, still fs c n l)
  unfolding read_file
  read_file-missing gone = ground arith

  pub stat-still :
      (b : Text) (t : ℕ)
      → lookup p fs ≡ some (file b t)
      → stat p (still fs c n l) ≡ (ok t, still fs c n l)
  unfolding stat
  stat-still b t old = ground arith

  pub stat-missing : lookup p fs ≡ none → stat p (still fs c n l) ≡ (err not_exist, still fs c n l)
  unfolding stat
  stat-missing gone = ground arith

  -- The files after a rename onto a free name.
  pub rename-still :
      (q : FilePath) (b : Text) (t : ℕ)
      → lookup p fs ≡ some (file b t)
      → lookup q fs ≡ none
      → has_directory (parent q) fs ≡ true
      → rename p q (still fs c n l) ≡ (ok tt, still (insert q (file b t) (erase p fs)) c n l)
  unfolding rename
  rename-still q b t old free room = ground arith

-- A new file, written whole.
pub write_file-new :
    (c : ℕ → ℕ) (n : ℕ) (l : List String) (fs : Files) (p : FilePath) (b : Text)
    → lookup p fs ≡ none
    → has_directory (parent p) fs ≡ true
    → write_file p b (still fs c n l)
      ≡ (ok tt, still (insert p (file b (c n)) (insert p (file [] (c n)) fs)) c n l)
unfolding write_file open_truncate
write_file-new c n l fs p b new room = ground (
  arith,
  write_end-still c n l (insert p (file [] (c n)) fs) p [] (c n) b,
  lookup-insert_self p (file [] (c n)) fs,
)
