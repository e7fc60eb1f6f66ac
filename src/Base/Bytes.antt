-- ===== src/Base/Bytes.antt =====
-- Go strings and byte slices: both are lists of bytes.
use Prim.Native.Nat.{ℕ}
use Prim.Native.Char.{code}
use Prim.Native.String.{String}
use mathlib.Core.Path.{◌≡◌, refl}
use mathlib.Core.Logic.{◌↔◌}
use mathlib.Core.Bool.{Bool, true, false, ◌&&◌}
use mathlib.Core.Option.{Option, none, some}
use mathlib.Core.List.{List, [], ◌∷◌}
use native.Mathlib.Omega.{arith}
use baseline_integrity.Base.Conditional.{◌==◌, ==_iff}

abbrev pub Text : Type 0
Text = List ℕ

-- The bytes of an ASCII literal.
abbrev pub codes : String → Text
codes String.[] = []
codes (String.◌∷◌ c s) = code c ∷ codes s

-- Equality of a list by that of its elements: `bytes.Equal`, and `==` on strings.
unfoldable pub list_eq {ℓ} : {A : Type ℓ} → (A → A → Bool) → List A → List A → Bool
list_eq eq [] [] = true
list_eq eq [] (y ∷ ys) = false
list_eq eq (x ∷ xs) [] = false
list_eq eq (x ∷ xs) (y ∷ ys) = eq x y && list_eq eq xs ys

pub list_eq_iff {ℓ} :
    {A : Type ℓ} (eq : A → A → Bool)
    → ((x y : A) → (eq x y ≡ true) ↔ (x ≡ y))
    → (xs ys : List A) → (list_eq eq xs ys ≡ true) ↔ (xs ≡ ys)
unfolding list_eq
list_eq_iff eq h [] [] = ground arith
list_eq_iff eq h [] (y ∷ ys) = ground arith
list_eq_iff eq h (x ∷ xs) [] = ground arith
list_eq_iff eq h (x ∷ xs) (y ∷ ys) = ground (arith, h x y, list_eq_iff eq h xs ys)

unfoldable pub text_eq : Text → Text → Bool
unfolding list_eq
text_eq = list_eq (λ a b. a == b)

pub text_eq_iff : (a b : Text) → (text_eq a b ≡ true) ↔ (a ≡ b)
unfolding text_eq
text_eq_iff = list_eq_iff (λ a b. a == b) ==_iff

pub text_eq_refl : (a : Text) → text_eq a a ≡ true
text_eq_refl a = (text_eq_iff a a).1 refl

-- Equality of pointers to messages: `proto.Equal`, where nil equals only nil.
abbrev pub option_eq {ℓ} : {A : Type ℓ} → (A → A → Bool) → Option A → Option A → Bool
option_eq eq none none = true
option_eq eq (some a) (some b) = eq a b
option_eq eq none (some b) = false
option_eq eq (some a) none = false

pub option_eq_iff {ℓ} :
    {A : Type ℓ} (eq : A → A → Bool)
    → ((x y : A) → (eq x y ≡ true) ↔ (x ≡ y))
    → (a b : Option A) → (option_eq eq a b ≡ true) ↔ (a ≡ b)
option_eq_iff eq h none none = ground arith
option_eq_iff eq h none (some b) = ground arith
option_eq_iff eq h (some a) none = ground arith
option_eq_iff eq h (some a) (some b) = ground (arith, h a b)
