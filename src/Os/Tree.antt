-- ===== src/Os/Tree.antt =====
-- The file tree: a table from paths to nodes, in the order of directory listings.
use baseline_integrity.Base.{
  ℕ, ◌≡◌, refl, Option, none, some, List, [], ◌∷◌, Text, arith, if◌then◌else◌,
}
use baseline_integrity.Os.Paths.{FilePath, path_eq, path_eq_iff, path_eq_refl, path_lt}

-- A regular file with its bytes and its modification time, or a directory.
pub data Node : Type 0 where
  file : Text → ℕ → Node
  dir : Node

abbrev pub Files : Type 0
Files = List (FilePath × Node)

unfoldable pub lookup : FilePath → Files → Option Node
lookup k [] = none
lookup k ((j, v) ∷ fs) = let rest = lookup k fs in if path_eq j k then some v else rest

unfoldable pub insert : FilePath → Node → Files → Files
insert k v [] = (k, v) ∷ []
insert k v ((j, w) ∷ fs) =
    let rest = insert k v fs in
    if path_eq j k then (k, v) ∷ fs else if path_lt k j then (k, v) ∷ (j, w) ∷ fs else (j, w) ∷ rest

unfoldable pub erase : FilePath → Files → Files
erase k [] = []
erase k ((j, v) ∷ fs) = let rest = erase k fs in if path_eq j k then rest else (j, v) ∷ rest

pub lookup-insert :
    (k j : FilePath) (v : Node) (fs : Files)
    → lookup j (insert k v fs) ≡ (if path_eq k j then some v else lookup j fs)
unfolding lookup insert
lookup-insert k j v [] = refl
lookup-insert k j v ((i, w) ∷ fs) =
    ground (arith, path_eq_iff k j, path_eq_iff i k, path_eq_iff i j, lookup-insert k j v fs)

pub lookup-erase :
    (k j : FilePath) (fs : Files)
    → lookup j (erase k fs) ≡ (if path_eq k j then none else lookup j fs)
unfolding lookup erase
lookup-erase k j [] = ground arith
lookup-erase k j ((i, w) ∷ fs) =
    ground (arith, path_eq_iff k j, path_eq_iff i k, path_eq_iff i j, lookup-erase k j fs)

-- Writing twice, and taking away what was written.
pub insert-insert :
    (k : FilePath) (v u : Node) (fs : Files) → insert k v (insert k u fs) ≡ insert k v fs
unfolding insert
insert-insert k v u [] = ground (arith, path_eq_refl k)
insert-insert k v u ((j, w) ∷ fs) = ground (arith, path_eq_refl k, insert-insert k v u fs)

pub erase-insert : (k : FilePath) (v : Node) (fs : Files) → erase k (insert k v fs) ≡ erase k fs
unfolding insert erase
erase-insert k v [] = ground (arith, path_eq_refl k)
erase-insert k v ((j, w) ∷ fs) =
    ground (arith, path_eq_iff j k, path_eq_refl k, erase-insert k v fs)

pub erase_of_none : (k : FilePath) (fs : Files) → lookup k fs ≡ none → erase k fs ≡ fs
unfolding lookup erase
erase_of_none k [] h = refl
erase_of_none k ((j, w) ∷ fs) h = ground (arith, erase_of_none k fs)
