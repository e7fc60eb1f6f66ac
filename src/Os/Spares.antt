-- ===== src/Os/Spares.antt =====
-- Actions that leave certain paths alone, whatever faults are scheduled.
use baseline_integrity.Base.{
  ◌<◌, ◌≡◌, refl, ◌∙◌, Bool, true, false, Option, none, some, List, [], ◌∷◌, length, Text, arith,
  if◌then◌else◌, inl, inr, Bool-cases, ap,
}
use baseline_integrity.Base.Result.{Result-cases, Error, Result, ok, err}
use baseline_integrity.Os.{
  FilePath, path_eq, path_eq_iff, Node, file, dir, Files, lookup, erase, lookup-insert,
  lookup-erase, World, Io, continue_with, ◌>>=◌, ◌>>◌, open_at, write_at, remove_at, rename_at,
  mkdir_at, gate, syscall, make_all, mkdir_all, open_append, open_truncate, write_end, write_file,
  rename, remove,
}
use baseline_integrity.Os.Reads.{Reads}

-- What is found at each path with the property is the same before and after.
pub record Spares {A : Type 0} (K : FilePath → Type 0) (m : Io A) : Type 0 where
  pub spares : (w : World) (k : FilePath) → K k → lookup k (m w).1.files ≡ lookup k w.files

module _ (K : FilePath → Type 0) where
  pub Reads-Spares : {A : Type 0} (m : Io A) → Reads m → Spares K m
  Reads-Spares m h = record { spares = λ w k i. ap (lookup k) (h.keeps w) }

  pub if-Spares :
      {A : Type 0} (b : Bool) (m n : Io A) → Spares K m → Spares K n → Spares K (if b then m else n)
  if-Spares true m n h k = h
  if-Spares false m n h k = k

  continue_with-Spares :
      {A B : Type 0} (f : A → Io B) (r : Result A × World) (k : FilePath)
      → K k
      → ((a : A) → Spares K (f a))
      → lookup k (continue_with f r).1.files ≡ lookup k r.1.files
  continue_with-Spares f (ok a, w) k i h = (h a).spares w k i
  continue_with-Spares f (err x, w) k i h = refl

  pub >>=-Spares :
      {A B : Type 0} (m : Io A) (f : A → Io B)
      → Spares K m
      → ((a : A) → Spares K (f a))
      → Spares K (m >>= f)
  >>=-Spares m f h g = record {
    spares = λ w k i. continue_with-Spares f (m w) k i g ∙ h.spares w k i;
  }

  pub >>-Spares :
      {B : Type 0} (m : Io (Unit {0})) (n : Io B) → Spares K m → Spares K n → Spares K (m >> n)
  >>-Spares m n h g = >>=-Spares m (λ u. n) h (λ u. g)

  gate-Spares :
      {A : Type 0} (fs : List (Option Error)) (act : Io A) (w : World) (k : FilePath)
      → K k
      → Spares K act
      → lookup k (gate fs act w).1.files ≡ lookup k w.files
  gate-Spares [] act w k i h = h.spares w k i
  gate-Spares (none ∷ rest) act w k i h = h.spares (record w { faults = rest }) k i
  gate-Spares (some x ∷ rest) act w k i h = refl

  pub syscall-Spares : {A : Type 0} (act : Io A) → Spares K act → Spares K (syscall act)
  syscall-Spares act h = record { spares = λ w k i. gate-Spares w.faults act w k i h }

-- The other paths than this one.
abbrev pub IsNot : FilePath → FilePath → Type 0
IsNot p k = path_eq p k ≡ false

module _ (p : FilePath) where
  open_at-spares :
      (kept : Text → Text) (w : World) (o : Option Node) (k : FilePath)
      → IsNot p k
      → lookup k (open_at kept p w o).1.files ≡ lookup k w.files
  open_at-spares kept w (some (file b t)) k i = rw (lookup-insert, i)
  open_at-spares kept w (some dir) k i = refl
  open_at-spares kept w none k i =
      ground (arith, lookup-insert p k (file [] (w.clock w.reads)) w.files)

  write_at-spares :
      (more : Text) (w : World) (o : Option Node) (k : FilePath)
      → IsNot p k
      → lookup k (write_at more p w o).1.files ≡ lookup k w.files
  write_at-spares more w (some (file b t)) k i = rw (lookup-insert, i)
  write_at-spares more w (some dir) k i = refl
  write_at-spares more w none k i = refl

  remove_at-spares :
      (w : World) (o : Option Node) (k : FilePath)
      → IsNot p k
      → lookup k (remove_at p w o).1.files ≡ lookup k w.files
  remove_at-spares w (some (file b t)) k i = rw (lookup-erase, i)
  remove_at-spares w (some dir) k i = ground (arith, lookup-erase p k w.files)
  remove_at-spares w none k i = refl

  pub open_append-Spares : Spares (IsNot p) (open_append p)
  unfolding open_append
  open_append-Spares =
      syscall-Spares _ _
        (record { spares = λ w k i. open_at-spares (λ b. b) w (lookup p w.files) k i })

  pub open_truncate-Spares : Spares (IsNot p) (open_truncate p)
  unfolding open_truncate
  open_truncate-Spares =
      syscall-Spares _ _
        (record { spares = λ w k i. open_at-spares (λ b. []) w (lookup p w.files) k i })

  pub write_end-Spares : (more : Text) → Spares (IsNot p) (write_end p more)
  unfolding write_end
  write_end-Spares more =
      syscall-Spares _ _
        (record { spares = λ w k i. write_at-spares more w (lookup p w.files) k i })

  pub write_file-Spares : (b : Text) → Spares (IsNot p) (write_file p b)
  unfolding write_file
  write_file-Spares b = >>-Spares _ _ _ open_truncate-Spares (write_end-Spares b)

  pub remove-Spares : Spares (IsNot p) (remove p)
  unfolding remove
  remove-Spares =
      syscall-Spares _ _ (record { spares = λ w k i. remove_at-spares w (lookup p w.files) k i })

-- Longer paths than this one.
abbrev pub IsLonger : FilePath → FilePath → Type 0
IsLonger p k = length p < length k

pub path_eq_of_length : (p k : FilePath) → length p < length k → path_eq p k ≡ false
path_eq_of_length p k h = elim (Bool-cases (path_eq p k)) [
  | inl same ↦ absurd (omega (arith, h, ap length ((path_eq_iff p k).0 same)))
  | inr other ↦ other
]

make_all-spares :
    (p : FilePath) (fs out : Files) (k : FilePath)
    → length p < length k
    → make_all p fs ≡ ok out
    → lookup k out ≡ lookup k fs
unfolding make_all
make_all-spares [] fs out k h e = ground arith
make_all-spares (d ∷ p) fs out k h e = elim (Result-cases (make_all p fs)) [
  | inl (above, made) ↦ ground (
    arith,
    made,
    lookup-insert (d ∷ p) k dir above,
    path_eq_of_length (d ∷ p) k h,
    make_all-spares p fs above k,
  )
  | inr (x, broken) ↦ ground (arith, broken)
]

mkdir_at-spares :
    (p : FilePath) (w : World) (r : Result Files) (k : FilePath)
    → make_all p w.files ≡ r
    → length p < length k
    → lookup k (mkdir_at w r).1.files ≡ lookup k w.files
mkdir_at-spares p w (ok fs) k e i = make_all-spares p w.files fs k i e
mkdir_at-spares p w (err x) k e i = refl

pub mkdir_all-Spares : (p : FilePath) → Spares (IsLonger p) (mkdir_all p)
unfolding mkdir_all
mkdir_all-Spares p =
    syscall-Spares _ _
      (record { spares = λ w k i. mkdir_at-spares p w (make_all p w.files) k refl i })

-- An action that spares more paths than are asked for.
pub Spares-mono :
    {A : Type 0} (K L : FilePath → Type 0) (m : Io A)
    → ((k : FilePath) → L k → K k)
    → Spares K m
    → Spares L m
Spares-mono K L m sub h = record { spares = λ w k i. h.spares w k (sub k i) }

-- The other paths than these two.
abbrev pub IsNeither : FilePath → FilePath → FilePath → Type 0
IsNeither p q k = IsNot p k × IsNot q k

module _ (p q : FilePath) where
  rename_at-spares :
      (w : World) (from to : Option Node) (k : FilePath)
      → IsNeither p q k
      → lookup k (rename_at p q w from to).1.files ≡ lookup k w.files
  rename_at-spares w none to k i = refl
  rename_at-spares w (some dir) to k i = refl
  rename_at-spares w (some (file b t)) (some dir) k i = refl
  rename_at-spares w (some (file b t)) none k i =
      ground (arith, lookup-insert q k (file b t) (erase p w.files), lookup-erase p k w.files)
  rename_at-spares w (some (file b t)) (some (file c u)) k i =
      ground (arith, lookup-insert q k (file b t) (erase p w.files), lookup-erase p k w.files)

  pub rename-Spares : Spares (IsNeither p q) (rename p q)
  unfolding rename
  rename-Spares =
      syscall-Spares _ _
        (record { spares = λ w k i. rename_at-spares w (lookup p w.files) (lookup q w.files) k i })
