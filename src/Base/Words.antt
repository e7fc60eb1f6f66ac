-- ===== src/Base/Words.antt =====
-- The functions of Go's `strings` that the program uses, and decimal numbers.
use Prim.Native.Nat.{◌≤◌, ◌<◌, ℕ, zero, suc, ◌+◌, ◌/◌, ◌%◌}
use mathlib.Core.Path.{◌≡◌, refl, ap}
use mathlib.Core.Logic.{inl, inr}
use mathlib.Core.Bool.{Bool, true, false, ◌&&◌, ◌||◌}
use mathlib.Core.Option.{Option, none, some}
use mathlib.Core.List.{List, [], ◌∷◌, ◌++◌, reverse}
use native.Mathlib.Omega.{arith}
use baseline_integrity.Base.Conditional.{Bool-cases, ◌==◌, ltb, leb, if◌then◌else◌}
use baseline_integrity.Base.Lists.{is_nil, length, length-append, last_or}
use baseline_integrity.Base.Bytes.{Text, text_eq, text_eq_iff, text_eq_refl}

-- `strings.HasPrefix`
unfoldable pub has_prefix : Text → Text → Bool
has_prefix s [] = true
has_prefix [] (q ∷ qs) = false
has_prefix (c ∷ s) (q ∷ qs) = c == q && has_prefix s qs

-- `strings.HasSuffix`
unfoldable pub has_suffix : Text → Text → Bool
has_suffix [] t = is_nil t
has_suffix (c ∷ s) t = text_eq (c ∷ s) t || has_suffix s t

pub has_suffix_self : (t : Text) → has_suffix t t ≡ true
unfolding has_suffix
has_suffix_self [] = refl
has_suffix_self (c ∷ t) = ground (arith, text_eq_refl (c ∷ t))

pub has_suffix-append : (s t : Text) → has_suffix (s ++ t) t ≡ true
unfolding has_suffix
has_suffix-append [] t = has_suffix_self t
has_suffix-append (c ∷ s) t = ground (arith, has_suffix-append s t)

pub has_suffix-le : (s t : Text) → has_suffix s t ≡ true → length t ≤ length s
unfolding has_suffix
has_suffix-le [] [] h = omega arith
has_suffix-le [] (d ∷ t) h = ground arith
has_suffix-le (c ∷ s) t h = elim (Bool-cases (text_eq (c ∷ s) t)) [
  | inl same ↦ omega (arith, ap length ((text_eq_iff (c ∷ s) t).0 same))
  | inr other ↦ let le : length t ≤ length s = has_suffix-le s t (ground arith) in omega arith
]

pub text_eq_of_length : (s t : Text) → length t < length s → text_eq s t ≡ false
text_eq_of_length s t h = elim (Bool-cases (text_eq s t)) [
  | inl same ↦ absurd (omega (arith, ap length ((text_eq_iff s t).0 same)))
  | inr other ↦ other
]

pub text_eq_of_shorter : (s t : Text) → length s < length t → text_eq s t ≡ false
text_eq_of_shorter s t h = elim (Bool-cases (text_eq s t)) [
  | inl same ↦ absurd (omega (arith, ap length ((text_eq_iff s t).0 same)))
  | inr other ↦ other
]

-- A longer suffix that does not end in the shorter one.
pub has_suffix_of_append :
    (s long short : Text)
    → length short ≤ length long
    → has_suffix long short ≡ false
    → has_suffix (s ++ long) short ≡ false
unfolding has_suffix
has_suffix_of_append [] long short le h = h
has_suffix_of_append (c ∷ s) long short le h = ground (
  arith,
  text_eq_of_length (c ∷ (s ++ long)) short,
  length-append s long,
  has_suffix_of_append s long short le h,
)

-- A text ends in the last byte of each of its suffixes.
pub last_or_of_suffix :
    (s t : Text) → has_suffix s t ≡ true → is_nil t ≡ false → last_or 0 s ≡ last_or 0 t
unfolding has_suffix
last_or_of_suffix [] t h k = ground arith
last_or_of_suffix (c ∷ []) t h k = ground (arith, text_eq_iff (c ∷ []) t)
last_or_of_suffix (c ∷ d ∷ s) t h k = elim (Bool-cases (text_eq (c ∷ d ∷ s) t)) [
  | inl same ↦ ap (last_or 0) ((text_eq_iff (c ∷ d ∷ s) t).0 same)
  | inr other ↦ last_or_of_suffix (d ∷ s) t (ground arith) k
]

pub other_last :
    (s t : Text) → is_nil t ≡ false → (last_or 0 s == last_or 0 t) ≡ false → has_suffix s t ≡ false
other_last s t full differ = elim (Bool-cases (has_suffix s t)) [
  | inr lacks ↦ lacks
  | inl ends ↦ ground (arith, last_or_of_suffix s t ends full)
]

-- `strings.TrimSuffix` of a suffix of this length.
unfoldable pub drop_last : ℕ → Text → Text
drop_last n s = reverse (drop_first n (reverse s))
  where
    drop_first : ℕ → Text → Text
    drop_first zero t = t
    drop_first (suc k) [] = []
    drop_first (suc k) (c ∷ t) = drop_first k t

-- White space of ASCII, as `strings.TrimSpace` cuts it.
abbrev pub is_space : ℕ → Bool
is_space c = c == 32 || (leb 9 c && leb c 13)

unfoldable pub trim_left : Text → Text
trim_left [] = []
trim_left (c ∷ s) = let rest = trim_left s in if is_space c then rest else c ∷ s

unfoldable pub trim_space : Text → Text
unfolding trim_left
trim_space s = reverse (trim_left (reverse (trim_left s)))

-- The parts of a text before and behind the first byte `c` (`strings.IndexByte`, `SplitN` with 2).
abbrev pub with_head : ℕ → Option (Text × Text) → Option (Text × Text)
with_head c none = none
with_head c (some (before, behind)) = some (c ∷ before, behind)

unfoldable pub cut : ℕ → Text → Option (Text × Text)
cut c [] = none
cut c (d ∷ s) = let rest = cut c s in if d == c then some ([], s) else with_head d rest

abbrev pub onto_head : ℕ → List Text → List Text
onto_head c [] = (c ∷ []) ∷ []
onto_head c (w ∷ ws) = (c ∷ w) ∷ ws

-- `strings.Split` at a byte.
unfoldable pub split_at : ℕ → Text → List Text
split_at c [] = [] ∷ []
split_at c (d ∷ s) = let rest = split_at c s in if d == c then [] ∷ rest else onto_head d rest

-- `%d`; a number below 2 ^ 64 has at most 20 digits.
unfoldable pub decimal_digits : ℕ → ℕ → Text → Text
decimal_digits zero n acc = acc
decimal_digits (suc fuel) n acc =
    let rest = decimal_digits fuel (n / 10) ((48 + n % 10) ∷ acc) in
    if ltb n 10 then (48 + n) ∷ acc else rest

unfoldable pub decimal : ℕ → Text
unfolding decimal_digits
decimal n = decimal_digits 20 n []
