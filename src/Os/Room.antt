-- ===== src/Os/Room.antt =====
-- Files and directories in a world where no fault is scheduled: what is made in a directory that is there.
use baseline_integrity.Base.{
  ℕ, ◌<◌, ◌≡◌, refl, true, false, String, none, some, List, [], ◌∷◌, ◌++◌, length, length-append,
  filter_by, Text, text_eq, text_eq_iff, arith,
}
use baseline_integrity.Base.Result.{ok}
use baseline_integrity.Os.{
  FilePath, parent, join, join-plain, has_no_slash, has_no_slash-append, path_eq, path_eq-cons,
  path_eq_iff, path_eq_refl, path_lt, Node, file, dir, Files, lookup, insert, lookup-insert,
  insert-insert, erase-insert, erase_of_none, entries, listing, make_all, mkdir_all, write_file,
  rename, read_dir, has_directory,
}
use baseline_integrity.Os.Still.{still, write_file-new, rename-still, lookup-insert_self}

-- The path and all that lies above it are directories.
abbrev pub IsRoom : FilePath → Files → Type 0
IsRoom [] fs = Unit
IsRoom (e ∷ p) fs = (lookup (e ∷ p) fs ≡ some dir) × IsRoom p fs

pub make_all-IsRoom : (p : FilePath) (fs : Files) → IsRoom p fs → make_all p fs ≡ ok fs
unfolding make_all
make_all-IsRoom [] fs h = refl
make_all-IsRoom (e ∷ p) fs (there, above) = ground (arith, make_all-IsRoom p fs above)

pub insert-IsRoom :
    (p k : FilePath) (v : Node) (fs : Files)
    → lookup k fs ≡ none
    → IsRoom p fs
    → IsRoom p (insert k v fs)
insert-IsRoom [] k v fs free h = tt
insert-IsRoom (e ∷ p) k v fs free (there, above) = (
  ground (arith, lookup-insert k (e ∷ p) v fs, path_eq_iff k (e ∷ p)),
  insert-IsRoom p k v fs free above,
)

module _ (c : ℕ → ℕ) (n : ℕ) (l : List String) where
  pub mkdir_all-still :
      (p : FilePath) (fs : Files)
      → IsRoom p fs
      → mkdir_all p (still fs c n l) ≡ (ok tt, still fs c n l)
  unfolding mkdir_all
  mkdir_all-still p fs h = ground (arith, make_all-IsRoom p fs h)

  pub read_dir-still :
      (p : FilePath) (fs : Files)
      → lookup p fs ≡ some dir
      → read_dir p (still fs c n l) ≡ (ok (listing p fs), still fs c n l)
  unfolding read_dir
  read_dir-still p fs h = ground arith

-- A directory without entries has one after an insertion.
pub listing-insert :
    (d : FilePath) (e : Text) (v : Node) (fs : Files)
    → has_no_slash e ≡ true
    → listing d fs ≡ []
    → listing d (insert (e ∷ d) v fs) ≡ (e, v) ∷ []
unfolding filter_by entries insert path_eq path_lt
listing-insert d e v [] plain h = ground (arith, path_eq_refl d)
listing-insert d e v (([], w) ∷ fs) plain h =
    ground (arith, path_eq_refl d, listing-insert d e v fs plain)
listing-insert d e v ((x ∷ p, w) ∷ fs) plain h =
    ground
      (arith, path_eq_refl d, path_eq-cons x e p d, text_eq_iff x e, listing-insert d e v fs plain)

pub has_directory_of_dir :
    (p : FilePath) (fs : Files) → lookup p fs ≡ some dir → has_directory p fs ≡ true
has_directory_of_dir [] fs h = refl
has_directory_of_dir (e ∷ p) fs h = rw h

pub join-suffix :
    (d : FilePath) (x suffix : Text)
    → has_no_slash x ≡ true
    → has_no_slash suffix ≡ true
    → 2 < length suffix
    → join d (x ++ suffix) ≡ (x ++ suffix) ∷ d
join-suffix d x suffix h k size =
    join-plain d (x ++ suffix) (has_no_slash-append x suffix h k)
      (omega (arith, length-append x suffix))

module _ (c : ℕ → ℕ) (n : ℕ) (l : List String) (fs : Files) where
  pub write_file-free :
      (p : FilePath) (b : Text)
      → lookup p fs ≡ none
      → lookup (parent p) fs ≡ some dir
      → write_file p b (still fs c n l) ≡ (ok tt, still (insert p (file b (c n)) fs) c n l)
  write_file-free p b free room =
      rw (write_file-new c n l fs p b free (has_directory_of_dir (parent p) fs room), insert-insert)

  -- A file that was just written takes its final name.
  pub rename-written :
      (x y : Text) (d : FilePath) (b : Text) (t : ℕ)
      → lookup (x ∷ d) fs ≡ none
      → lookup (y ∷ d) fs ≡ none
      → lookup d fs ≡ some dir
      → text_eq x y ≡ false
      → rename (x ∷ d) (y ∷ d) (still (insert (x ∷ d) (file b t) fs) c n l)
        ≡ (ok tt, still (insert (y ∷ d) (file b t) fs) c n l)
  rename-written x y d b t free free' room ne = rw (
    rename-still c n l (insert (x ∷ d) (file b t) fs) (x ∷ d) (y ∷ d) b t
        (lookup-insert_self (x ∷ d) (file b t) fs)
        (ground (arith, lookup-insert (x ∷ d) (y ∷ d) (file b t) fs, path_eq-cons x y d d))
        (has_directory_of_dir d (insert (x ∷ d) (file b t) fs)
          (ground (arith, lookup-insert (x ∷ d) d (file b t) fs, path_eq_iff (x ∷ d) d))),
    erase-insert,
    erase_of_none (x ∷ d) fs free,
  )
