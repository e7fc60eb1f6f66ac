-- ===== src/Os/Appends.antt =====
-- What an append leaves in a file when it succeeds, whatever faults are scheduled.
use baseline_integrity.Base.{
  ℕ, ◌≡◌, refl, Option, none, some, List, [], ◌∷◌, ◌++◌, suc, Text, arith, ap, ◌∙◌,
}
use baseline_integrity.Base.Result.{Error, Result, ok, err}
use baseline_integrity.Os.{
  FilePath, Node, file, dir, lookup, World, Io, continue_with, ◌>>=◌, ◌>>◌, wrapping, time_now,
  rewrap, gate, open_at, write_at, open_append, open_truncate, write_file, write_end, read_file,
  read_at, rename, rename_at, erase,
}
use baseline_integrity.Os.Still.{lookup-insert_self}

-- A success of a sequence is a success of both parts.
pub continue_with-ok :
    {A B : Type 0} (f : A → Io B) (r : Result A × World) (b : B) (w : World)
    → continue_with f r ≡ (ok b, w)
    → (a : A) × (v : World) × (r ≡ (ok a, v)) × (f a v ≡ (ok b, w))
continue_with-ok f (ok a, v) b w e = (a, v, refl, e)
continue_with-ok f (err x, v) b w e = ground arith

pub rewrap-ok :
    {A : Type 0} (g : Error → Error) (r : Result A × World) (a : A) (w : World)
    → rewrap g r ≡ (ok a, w)
    → r ≡ (ok a, w)
rewrap-ok g (ok b, v) a w e = e
rewrap-ok g (err x, v) a w e = ground arith

-- Two worlds with the same files and the same clock.
abbrev pub IsAsBefore : World → World → Type 0
IsAsBefore w v = (v.files ≡ w.files) × (v.clock ≡ w.clock) × (v.reads ≡ w.reads)

pub gate-ok :
    {A : Type 0} (fs : List (Option Error)) (act : Io A) (w : World) (a : A) (w' : World)
    → gate fs act w ≡ (ok a, w')
    → (v : World) × IsAsBefore w v × (act v ≡ (ok a, w'))
gate-ok [] act w a w' e = (w, (refl, refl, refl), e)
gate-ok (none ∷ rest) act w a w' e = (record w { faults = rest }, (refl, refl, refl), e)
gate-ok (some x ∷ rest) act w a w' e = ground arith

-- The bytes of the file at a path, none if nothing is there.
abbrev pub bytes_of : Option Node → Text
bytes_of (some (file b t)) = b
bytes_of (some dir) = []
bytes_of none = []

-- A file with these bytes is at the path.
abbrev pub IsFile : FilePath → Text → World → Type 0
IsFile p b w = (t : ℕ) × (lookup p w.files ≡ some (file b t))

module _ (p : FilePath) where
  open_at-ok :
      (kept : Text → Text) (v w' : World) (o : Option Node)
      → kept [] ≡ []
      → open_at kept p v o ≡ (ok tt, w')
      → IsFile p (kept (bytes_of o)) w' × (w'.clock ≡ v.clock) × (w'.reads ≡ v.reads)
  open_at-ok kept v w' (some (file b t)) z e = (
    (t, ground (arith, lookup-insert_self p (file (kept b) t) v.files)),
    ground arith,
    ground arith,
  )
  open_at-ok kept v w' (some dir) z e = ground arith
  open_at-ok kept v w' none z e =
      let now = v.clock v.reads in
      (
        (now, rw z (ground (arith, lookup-insert_self p (file [] now) v.files))),
        ground arith,
        ground arith,
      )

  write_at-ok :
      (v w' : World) (b more : Text) (t : ℕ)
      → write_at more p v (some (file b t)) ≡ (ok tt, w')
      → IsFile p (b ++ more) w'
  write_at-ok v w' b more t e =
      let now = v.clock v.reads in
      (now, ground (arith, lookup-insert_self p (file (b ++ more) now) v.files))

  pub open_append-ok :
      (w w' : World)
      → open_append p w ≡ (ok tt, w')
      → IsFile p (bytes_of (lookup p w.files)) w' × (w'.clock ≡ w.clock) × (w'.reads ≡ w.reads)
  unfolding open_append
  open_append-ok w w' e =
      let (v, same, run) =
        gate-ok w.faults (λ v. open_at (λ b. b) p v (lookup p v.files)) w tt w' e in
      let (there, clock, reads) = open_at-ok (λ b. b) v w' (lookup p v.files) refl run in
      let found : lookup p v.files ≡ lookup p w.files = ap (lookup p) same.0 in
      (rw found at there, clock ∙ same.1, reads ∙ same.2)

  pub write_end-ok :
      (w w' : World) (b more : Text)
      → IsFile p b w
      → write_end p more w ≡ (ok tt, w')
      → IsFile p (b ++ more) w'
  unfolding write_end
  write_end-ok w w' b more (t, there) e =
      let (v, same, run) = gate-ok w.faults (λ v. write_at more p v (lookup p v.files)) w tt w' e in
      let found : lookup p v.files ≡ some (file b t) = ap (lookup p) same.0 ∙ there in
      write_at-ok v w' b more t (rw found at run)

  pub write_file-ok : (w w' : World) (b : Text) → write_file p b w ≡ (ok tt, w') → IsFile p b w'
  unfolding write_file open_truncate
  write_file-ok w w' b e =
      let (u, v, opened, run) = continue_with-ok (λ u. write_end p b) (open_truncate p w) tt w' e in
      let (v', same, ran) =
        gate-ok w.faults (λ v. open_at (λ b. []) p v (lookup p v.files)) w tt v opened in
      write_end-ok v w' [] b (open_at-ok (λ b. []) v' v (lookup p v'.files) refl ran).0 run

  read_at-ok :
      (v w' : World) (o : Option Node) (b : Text)
      → lookup p v.files ≡ o
      → read_at v o ≡ (ok b, w')
      → IsFile p b w'
  read_at-ok v w' (some (file c t)) b there e = (t, ground (arith, there))
  read_at-ok v w' (some dir) b there e = ground arith
  read_at-ok v w' none b there e = ground arith

  pub read_file-ok : (w w' : World) (b : Text) → read_file p w ≡ (ok b, w') → IsFile p b w'
  unfolding read_file
  read_file-ok w w' b e =
      let (v, same, run) = gate-ok w.faults (λ v. read_at v (lookup p v.files)) w b w' e in
      read_at-ok v w' (lookup p v.files) b refl run

  rename_at-ok :
      (q : FilePath) (v w' : World) (there : Option Node) (b : Text) (t : ℕ)
      → rename_at p q v (some (file b t)) there ≡ (ok tt, w')
      → IsFile q b w'
  rename_at-ok q v w' (some dir) b t e = ground arith
  rename_at-ok q v w' (some (file c u)) b t e =
      (t, ground (arith, lookup-insert_self q (file b t) (erase p v.files)))
  rename_at-ok q v w' none b t e =
      (t, ground (arith, lookup-insert_self q (file b t) (erase p v.files)))

  pub rename-ok :
      (q : FilePath) (w w' : World) (b : Text)
      → IsFile p b w
      → rename p q w ≡ (ok tt, w')
      → IsFile q b w'
  unfolding rename
  rename-ok q w w' b (t, here) e =
      let (v, same, run) =
        gate-ok w.faults (λ v. rename_at p q v (lookup p v.files) (lookup q v.files)) w tt w' e in
      let found : lookup p v.files ≡ some (file b t) = ap (lookup p) same.0 ∙ here in
      rename_at-ok q v w' (lookup q v.files) b t (rw found at run)

  -- An append in two writes, the first of which has the time in it.
  pub append-ok :
      (f g h : Error → Error) (first : ℕ → Text) (second : Text) (w w' : World)
      → (wrapping f (open_append p)
            >> (time_now >>= λ now.
                wrapping g (write_end p (first now)) >> wrapping h (write_end p second)))
          w
        ≡ (ok tt, w')
      → IsFile p ((bytes_of (lookup p w.files) ++ first (w.clock w.reads)) ++ second) w'
  unfolding time_now
  append-ok f g h first second w w' e =
      let opened = continue_with-ok _ (wrapping f (open_append p) w) tt w' e in
      let v = opened.1 in
      let (old, clock, reads) = open_append-ok w v (rewrap-ok f (open_append p w) tt v opened.2) in
      let now = v.clock v.reads in
      let u = record v { reads = suc v.reads } in
      let wrote = continue_with-ok _ (wrapping g (write_end p (first now)) u) tt w' opened.3 in
      let x = wrote.1 in
      let half =
        write_end-ok u x (bytes_of (lookup p w.files)) (first now) old
          (rewrap-ok g (write_end p (first now) u) tt x wrote.2) in
      let same : now ≡ w.clock w.reads = ground (arith, clock, reads) in
      let full =
        write_end-ok x w' (bytes_of (lookup p w.files) ++ first now) second half
          (rewrap-ok h (write_end p second x) tt w' wrote.3) in
      rw same at full
