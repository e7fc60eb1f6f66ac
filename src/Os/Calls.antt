-- ===== src/Os/Calls.antt =====
-- The state that a Go function runs in, and the calls that it makes of `os` and `time`. Every call
-- to the operating system first takes one entry of the fault schedule: an entry with an error makes
-- the call fail and change nothing, and a call past the end of the schedule does not fail by chance.
-- Permissions, links and open files are left out.
use baseline_integrity.Base.{
  ℕ, suc, String, Bool, true, false, Option, none, some, List, [], ◌∷◌, ◌++◌, filter_by, is_nil,
  Text, if◌then◌else◌,
}
use baseline_integrity.Base.Result.{
  Error, not_exist, exist, is_dir, not_dir, not_empty, Result, ok, err,
}
use baseline_integrity.Os.Paths.{FilePath, path_eq, parent, has_no_slash}
use baseline_integrity.Os.Tree.{Node, file, dir, Files, lookup, insert, erase}

pub record World : Type 0 where
  pub files : Files
  pub faults : List (Option Error)
  -- The readings of the clock, and how many have been taken.
  pub clock : ℕ → ℕ
  pub reads : ℕ
  -- What `log` has printed, newest first.
  pub printed : List String

abbrev pub Io {ℓ} : Type ℓ → Type ℓ
Io A = World → Result A × World

abbrev pub pure {ℓ} : {A : Type ℓ} → A → Io A
pure a w = (ok a, w)

abbrev pub raise {ℓ} : {A : Type ℓ} → Error → Io A
raise e w = (err e, w)

abbrev pub of_result {ℓ} : {A : Type ℓ} → Result A → Io A
of_result r w = (r, w)

-- `if err != nil { return ..., err }`
abbrev pub continue_with {ℓ κ} :
    {A : Type ℓ} {B : Type κ} → (A → Io B) → Result A × World → Result B × World
continue_with f (ok a, w) = f a w
continue_with f (err e, w) = (err e, w)

infixl 5 ◌>>=◌ ◌>>◌
abbrev pub ◌>>=◌ {ℓ κ} : {A : Type ℓ} {B : Type κ} → Io A → (A → Io B) → Io B
◌>>=◌ m f w = continue_with f (m w)

abbrev pub ◌>>◌ {ℓ} : {B : Type ℓ} → Io (Unit {0}) → Io B → Io B
◌>>◌ m k w = continue_with (λ u. k) (m w)

-- The result of a call, errors included, for code that looks at the error.
abbrev pub attempt {ℓ} : {A : Type ℓ} → Io A → Io (Result A)
attempt m w = (ok (m w).0, (m w).1)

-- `_ = f(...)`
abbrev pub ignore {ℓ} : {A : Type ℓ} → Io A → Io (Unit {0})
ignore m w = (ok tt, (m w).1)

abbrev pub raise_if : Bool → Error → Io (Unit {0})
raise_if true e w = (err e, w)
raise_if false e w = (ok tt, w)

-- The same with `fmt.Errorf("...: %w", err)` on the error path.
abbrev pub rewrap {ℓ} : {A : Type ℓ} → (Error → Error) → Result A × World → Result A × World
rewrap f (ok a, w) = (ok a, w)
rewrap f (err e, w) = (err (f e), w)

abbrev pub wrapping {ℓ} : {A : Type ℓ} → (Error → Error) → Io A → Io A
wrapping f m w = rewrap f (m w)

-- `logger.Printf`
abbrev pub log : String → Io (Unit {0})
log s w = (ok tt, record w { printed = s ∷ w.printed })

-- `time.Now()`
unfoldable pub time_now : Io ℕ
time_now w = (ok (w.clock w.reads), record w { reads = suc w.reads })

-- One entry of the fault schedule is used up.
abbrev pub gate {ℓ} : {A : Type ℓ} → List (Option Error) → Io A → Io A
gate [] act w = act w
gate (none ∷ rest) act w = act (record w { faults = rest })
gate (some e ∷ rest) act w = (err e, record w { faults = rest })

abbrev pub syscall {ℓ} : {A : Type ℓ} → Io A → Io A
syscall act w = gate w.faults act w

abbrev pub put_files : Files → World → World
put_files fs w = record w { files = fs }

abbrev pub is_directory : Option Node → Bool
is_directory (some dir) = true
is_directory _ = false

-- Whether new entries can be made under the path; the root and the working directory are there.
abbrev pub has_directory : FilePath → Files → Bool
has_directory [] fs = true
has_directory (e ∷ p) fs = is_directory (lookup (e ∷ p) fs)

-- `os.MkdirAll`: the missing directories on the path are made, outermost first.
unfoldable pub make_all : FilePath → Files → Result Files
make_all [] fs = ok fs
make_all (e ∷ p) fs = elim (make_all p fs) [
  | err x ↦ err x
  | ok above ↦ elim (lookup (e ∷ p) above) [
    | none ↦ ok (insert (e ∷ p) dir above)
    | some dir ↦ ok above
    | some (file b t) ↦ err not_dir
  ]
]

abbrev pub mkdir_at : World → Result Files → Result (Unit {0}) × World
mkdir_at w (ok fs) = (ok tt, put_files fs w)
mkdir_at w (err e) = (err e, w)

unfoldable pub mkdir_all : FilePath → Io (Unit {0})
unfolding make_all
mkdir_all p = syscall λ w. mkdir_at w (make_all p w.files)

abbrev pub read_at : World → Option Node → Result Text × World
read_at w (some (file b t)) = (ok b, w)
read_at w (some dir) = (err is_dir, w)
read_at w none = (err not_exist, w)

unfoldable pub read_file : FilePath → Io Text
read_file p = syscall λ w. read_at w (lookup p w.files)

-- `os.Stat`: the modification time of what is there (0 for a directory).
unfoldable pub stat : FilePath → Io ℕ
stat p = syscall λ w. elim (lookup p w.files) [
  | some (file b t) ↦ (ok t, w)
  | some dir ↦ (ok 0, w)
  | none ↦ (err not_exist, w)
]

-- Opening for writing, by what is there: an old file keeps the bytes that `kept` leaves of it.
abbrev pub open_at : (Text → Text) → FilePath → World → Option Node → Result (Unit {0}) × World
open_at kept p w (some (file b t)) = (ok tt, put_files (insert p (file (kept b) t) w.files) w)
open_at kept p w (some dir) = (err is_dir, w)
open_at kept p w none =
    if has_directory (parent p) w.files
    then (ok tt, put_files (insert p (file [] (w.clock w.reads)) w.files) w)
    else (err not_exist, w)

abbrev pub write_at : Text → FilePath → World → Option Node → Result (Unit {0}) × World
write_at more p w (some (file b t)) =
    (ok tt, put_files (insert p (file (b ++ more) (w.clock w.reads)) w.files) w)
write_at more p w (some dir) = (err is_dir, w)
write_at more p w none = (err not_exist, w)

-- A write at the end of an open file, which also sets the modification time.
unfoldable pub write_end : FilePath → Text → Io (Unit {0})
write_end p more = syscall λ w. write_at more p w (lookup p w.files)

-- `os.OpenFile` with `O_CREATE|O_APPEND`, and with `O_CREATE|O_TRUNC`.
unfoldable pub open_append : FilePath → Io (Unit {0})
open_append p = syscall λ w. open_at (λ b. b) p w (lookup p w.files)

unfoldable pub open_truncate : FilePath → Io (Unit {0})
open_truncate p = syscall λ w. open_at (λ b. []) p w (lookup p w.files)

-- `os.WriteFile` opens, then writes: a fault between the two leaves an empty file.
unfoldable pub write_file : FilePath → Text → Io (Unit {0})
unfolding open_truncate write_end
write_file p b = do open_truncate p; write_end p b

-- `os.Rename` of a file, which replaces a file at the target, by what is at both paths.
abbrev pub rename_at :
    FilePath → FilePath → World → Option Node → Option Node → Result (Unit {0}) × World
rename_at p q w none there = (err not_exist, w)
rename_at p q w (some dir) there = (err is_dir, w)
rename_at p q w (some (file b t)) (some dir) = (err exist, w)
rename_at p q w (some (file b t)) there =
    if has_directory (parent q) w.files
    then (ok tt, put_files (insert q (file b t) (erase p w.files)) w)
    else (err not_exist, w)

unfoldable pub rename : FilePath → FilePath → Io (Unit {0})
rename p q = syscall λ w. rename_at p q w (lookup p w.files) (lookup q w.files)

-- The entries of a directory, in the order of the table.
unfoldable pub entries : FilePath → Files → List (Text × Node)
entries d [] = []
entries d (([], v) ∷ fs) = entries d fs
entries d ((e ∷ p, v) ∷ fs) = let rest = entries d fs in if path_eq p d then (e, v) ∷ rest else rest

-- `os.Remove`: a file, or a directory with nothing in it.
abbrev pub remove_at : FilePath → World → Option Node → Result (Unit {0}) × World
remove_at p w none = (err not_exist, w)
remove_at p w (some (file b t)) = (ok tt, put_files (erase p w.files) w)
remove_at p w (some dir) =
    if is_nil (entries p w.files)
    then (ok tt, put_files (erase p w.files) w)
    else (err not_empty, w)

unfoldable pub remove : FilePath → Io (Unit {0})
remove p = syscall λ w. remove_at p w (lookup p w.files)

-- The names of a directory's entries have no separator.
abbrev pub listing : FilePath → Files → List (Text × Node)
listing d fs = filter_by (λ e. has_no_slash e.0) (entries d fs)

-- `os.ReadDir`: sorted by name.
unfoldable pub read_dir : FilePath → Io (List (Text × Node))
read_dir p = syscall λ w. elim (lookup p w.files) [
  | some dir ↦ (ok (listing p w.files), w)
  | some (file b t) ↦ (err not_dir, w)
  | none ↦ (err not_exist, w)
]
