-- ===== src/Float.antt =====
-- `float64` and the functions of Go's `math` on it, as a parameter: a type with its operations, and
-- the facts of IEEE 754 arithmetic that a theorem asks for, each true of rounded results.
use baseline_integrity.Base.{ℕ, ◌≡◌, Bool, true, false}
use baseline_integrity.Base.Int.{ℤ, pos, negsuc}

pub record Float (F : Type 0) : Type 0 where
  pub zero : F
  pub one : F
  pub add : F → F → F
  pub sub : F → F → F
  pub mul : F → F → F
  pub div : F → F → F
  pub pow : F → F → F
  pub neg : F → F
  pub exp : F → F
  pub lt : F → F → Bool
  pub le : F → F → Bool
  pub is_finite : F → Bool
  pub of_uint64 : ℕ → F
  -- `Duration.Hours`
  pub hours : ℤ → F

-- What holds of every value, NaN included: it is not below itself.
pub record IsOrdered {F : Type 0} (R : Float F) : Type 0 where
  pub lt_irrefl : (a : F) → R.lt a a ≡ false
  pub le-zero_zero : R.le R.zero R.zero ≡ true

-- Monotone rounding, for values that the premises show not to be NaN. A product of an infinity and
-- zero is NaN, so the laws of products are about finite values.
pub record IsRounded {F : Type 0} (R : Float F) : Type 0 where
  pub le_trans : (a b c : F) → R.le a b ≡ true → R.le b c ≡ true → R.le a c ≡ true
  pub le_of_lt : (a b : F) → R.lt a b ≡ true → R.le a b ≡ true
  pub not-lt_of_le : (a b : F) → R.le a b ≡ true → R.lt b a ≡ false
  -- A product with a factor between 0 and 1 stays between 0 and the other factor.
  pub mul_range :
      (a b : F)
      → R.is_finite a ≡ true
      → R.le R.zero a ≡ true
      → R.le R.zero b ≡ true
      → R.le b R.one ≡ true
      → (R.le R.zero (R.mul a b) ≡ true) × (R.le (R.mul a b) a ≡ true)
  pub add-zero_range :
      (a : F)
      → R.le R.zero a ≡ true
      → (R.le R.zero (R.add a R.zero) ≡ true) × (R.le (R.add a R.zero) a ≡ true)
  -- Powers of a base in (0, 1].
  pub pow_range :
      (d t : F)
      → R.lt R.zero d ≡ true
      → R.le d R.one ≡ true
      → R.le R.zero t ≡ true
      → (R.le R.zero (R.pow d t) ≡ true) × (R.le (R.pow d t) R.one ≡ true)
  -- The saturating curve of a positive number.
  pub curve_range :
      (x : F)
      → R.lt R.zero x ≡ true
      → (R.le R.zero (R.sub R.one (R.exp (R.neg x))) ≡ true)
        × (R.le (R.sub R.one (R.exp (R.neg x))) R.one ≡ true)
  -- A negative duration is a negative number of hours, any other is not.
  pub hours_pos : (n : ℕ) → R.le R.zero (R.hours (pos n)) ≡ true
  pub hours_negsuc : (n : ℕ) → R.lt (R.hours (negsuc n)) R.zero ≡ true
