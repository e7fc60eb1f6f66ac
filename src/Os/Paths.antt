-- ===== src/Os/Paths.antt =====
-- Paths as `path/filepath` builds them: the elements of a cleaned path, the last one first.
use baseline_integrity.Base.{
  ℕ, ◌<◌, ◌≡◌, ◌↔◌, refl, Bool, true, false, not, ◌&&◌, ◌||◌, List, [], ◌∷◌, ◌++◌, is_nil, length,
  Text, text_eq, text_eq_iff, list_eq, list_eq_iff, ltb, ◌==◌, arith, if◌then◌else◌,
}

abbrev pub FilePath : Type 0
FilePath = List Text

unfoldable pub path_eq : FilePath → FilePath → Bool
unfolding text_eq list_eq
path_eq = list_eq text_eq

pub path_eq_iff : (p q : FilePath) → (path_eq p q ≡ true) ↔ (p ≡ q)
unfolding path_eq
path_eq_iff = list_eq_iff text_eq text_eq_iff

pub path_eq_refl : (p : FilePath) → path_eq p p ≡ true
path_eq_refl p = (path_eq_iff p p).1 refl

pub path_eq-cons :
    (x y : Text) (p q : FilePath) → path_eq (x ∷ p) (y ∷ q) ≡ (text_eq x y && path_eq p q)
unfolding path_eq
path_eq-cons x y p q = refl

-- The order of names in a directory listing, and of paths by their last elements.
unfoldable pub text_lt : Text → Text → Bool
text_lt [] [] = false
text_lt [] (y ∷ ys) = true
text_lt (x ∷ xs) [] = false
text_lt (x ∷ xs) (y ∷ ys) = ltb x y || (x == y && text_lt xs ys)

unfoldable pub path_lt : FilePath → FilePath → Bool
unfolding text_lt
path_lt [] [] = false
path_lt [] (y ∷ ys) = true
path_lt (x ∷ xs) [] = false
path_lt (x ∷ xs) (y ∷ ys) = text_lt x y || (text_eq x y && path_lt xs ys)

abbrev pub slash : ℕ
slash = b'/'

abbrev pub dot : ℕ
dot = b'.'

-- A byte in front of the first of the words that are left.
abbrev pub onto_first : ℕ → List Text → List Text
onto_first c [] = (c ∷ []) ∷ []
onto_first c (w ∷ ws) = if c == slash then [] ∷ w ∷ ws else (c ∷ w) ∷ ws

-- The elements between separators.
unfoldable pub split_slash : Text → List Text
split_slash [] = [] ∷ []
split_slash (c ∷ s) = onto_first c (split_slash s)

abbrev pub parent : FilePath → FilePath
parent [] = []
parent (e ∷ p) = p

abbrev pub is_dot : Text → Bool
is_dot (c ∷ []) = c == dot
is_dot _ = false

abbrev pub is_dot_dot : Text → Bool
is_dot_dot (c ∷ d ∷ []) = c == dot && d == dot
is_dot_dot _ = false

-- One step of `Clean`: empty and `.` elements go, and `..` takes an element away.
unfoldable pub push : FilePath → Text → FilePath
push p e = if is_nil e || is_dot e then p else if is_dot_dot e then parent p else e ∷ p

unfoldable pub push_all : FilePath → List Text → FilePath
unfolding push
push_all p [] = p
push_all p (e ∷ es) = push_all (push p e) es

-- `filepath.Join(dir, name)`
unfoldable pub join : FilePath → Text → FilePath
unfolding push_all split_slash
join p name = push_all p (split_slash name)

-- `filepath.Base` of a path with a name.
abbrev pub base : FilePath → Text
base [] = slash ∷ []
base (e ∷ p) = e

-- A name without a separator.
unfoldable pub has_no_slash : Text → Bool
has_no_slash [] = true
has_no_slash (c ∷ s) = not (c == slash) && has_no_slash s

pub has_no_slash-append :
    (s t : Text) → has_no_slash s ≡ true → has_no_slash t ≡ true → has_no_slash (s ++ t) ≡ true
unfolding has_no_slash
has_no_slash-append [] t h k = k
has_no_slash-append (c ∷ s) t h k = ground (arith, has_no_slash-append s t)

pub split_slash-plain :
    (c : ℕ) (s : Text) → has_no_slash (c ∷ s) ≡ true → split_slash (c ∷ s) ≡ (c ∷ s) ∷ []
unfolding split_slash has_no_slash
split_slash-plain c [] h = ground arith
split_slash-plain c (d ∷ s) h = ground (arith, split_slash-plain d s)

-- A plain name of more than two bytes is the last element of what it is joined to.
pub join-plain :
    (p : FilePath) (name : Text)
    → has_no_slash name ≡ true
    → 2 < length name
    → join p name ≡ name ∷ p
unfolding join
join-plain p [] h k = absurd (omega arith)
join-plain p (a ∷ []) h k = absurd (omega arith)
join-plain p (a ∷ b ∷ []) h k = absurd (omega arith)
join-plain p (a ∷ b ∷ c ∷ s) h k = ground (arith, split_slash-plain a (b ∷ c ∷ s) h)
