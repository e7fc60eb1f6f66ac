-- ===== src/Telemetry/Scanning.antt =====
-- The lines of a file and of its continuation, and texts that the loader takes as they are.
use mathlib.Core.List.{reverse, reverse-append, reverse-reverse}
use baseline_integrity.Base.{
  ap, sym, ℕ, ◌<◌, ◌≡◌, refl, Bool, true, false, not, some, List, [], ◌∷◌, ◌++◌, length, all,
  last_or, Text, cut, trim_left, trim_space, is_space, ◌==◌, arith, inl, inr, Bool-cases,
  if◌then◌else◌,
}
use baseline_integrity.Telemetry.Lines.{drop_cr, raw_lines, onto_line, scan}

-- Nothing is left behind the last line feed.
abbrev pub IsComplete : Text → Type 0
IsComplete b = last_or 10 b ≡ 10

pub raw_lines-cons :
    (c : ℕ) (s : Text) → (l : Text) × (ls : List Text) × (raw_lines (c ∷ s) ≡ l ∷ ls)
unfolding raw_lines
raw_lines-cons c s = elim (Bool-cases (c == 10)) [
  | inl feed ↦ ([], raw_lines s, rw feed)
  | inr other ↦ onto c (raw_lines s) other
]
  where
    onto :
        (c : ℕ) (ls : List Text)
        → (c == 10) ≡ false
        → (l : Text) × (ls' : List Text) × ((if c == 10 then [] ∷ ls else onto_line c ls) ≡ l ∷ ls')
    onto c [] h = (c ∷ [], [], rw h)
    onto c (l ∷ ls) h = (c ∷ l, ls, rw h)

pub raw_lines-append : (b t : Text) → IsComplete b → raw_lines (b ++ t) ≡ raw_lines b ++ raw_lines t
unfolding raw_lines
raw_lines-append [] t h = refl
raw_lines-append (c ∷ []) t h = ground arith
raw_lines-append (c ∷ d ∷ s) t h =
    let (l, ls, e) = raw_lines-cons d s in ground (arith, e, raw_lines-append (d ∷ s) t)

abbrev pub is_solid : ℕ → Bool
is_solid c = not (is_space c)

abbrev pub is_not_feed : ℕ → Bool
is_not_feed c = not (c == 10)

pub raw_lines-line : (l : Text) → all is_not_feed l ≡ true → raw_lines (l ++ 10 ∷ []) ≡ l ∷ []
unfolding raw_lines all
raw_lines-line [] h = refl
raw_lines-line (c ∷ l) h = ground (arith, raw_lines-line l)

pub scan-append :
    (size : ℕ) (xs : List Text) (l : Text)
    → (scan size xs).1 ≡ false
    → length l < size
    → scan size (xs ++ l ∷ []) ≡ ((scan size xs).0 ++ drop_cr l ∷ [], false)
unfolding scan
scan-append size [] l h k = ground arith
scan-append size (x ∷ xs) l h k = ground (arith, scan-append size xs l)

pub cut-append :
    (c : ℕ) (s t : Text) → all (λ d. not (d == c)) s ≡ true → cut c (s ++ c ∷ t) ≡ some (s, t)
unfolding cut all
cut-append c [] t h = ground arith
cut-append c (d ∷ s) t h = ground (arith, cut-append c s t)

pub trim_left-solid : (c : ℕ) (s : Text) → is_space c ≡ false → trim_left (c ∷ s) ≡ c ∷ s
unfolding trim_left
trim_left-solid c s h = rw h

-- A text that does not begin or end with white space.
pub trim_space-ends :
    (c d : ℕ) (s : Text)
    → is_space c ≡ false
    → is_space d ≡ false
    → trim_space (c ∷ (s ++ d ∷ [])) ≡ c ∷ (s ++ d ∷ [])
unfolding trim_space
trim_space-ends c d s h k =
    let full = c ∷ (s ++ d ∷ []) in
    let backward : reverse full ≡ d ∷ reverse (c ∷ s) = reverse-append (c ∷ s) (d ∷ []) in
    rw (
      trim_left-solid c (s ++ d ∷ []) h,
      backward,
      trim_left-solid d (reverse (c ∷ s)) k,
      sym backward,
      reverse-reverse full,
    )

pub drop_cr-end : (s : Text) (d : ℕ) → (d == 13) ≡ false → drop_cr (s ++ d ∷ []) ≡ s ++ d ∷ []
unfolding drop_cr
drop_cr-end [] d h = ground arith
drop_cr-end (c ∷ []) d h = ground arith
drop_cr-end (c ∷ e ∷ s) d h = ap (λ t. c ∷ t) (drop_cr-end (e ∷ s) d h)
