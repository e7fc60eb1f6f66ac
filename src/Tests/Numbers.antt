-- ===== src/Tests/Numbers.antt =====
-- Integers in the place of floating-point numbers: everything is rounded to a whole number.
use baseline_integrity.Base.{
  ℕ, zero, suc, ◌+◌, ◌*◌, ◌/◌, ◌≡◌, refl, true, false, Bool, ltb, leb, arith,
}
use baseline_integrity.Base.Int.{ℤ, pos, negsuc}
use baseline_integrity.Float.{Float, IsOrdered, IsRounded}

abbrev pub lt_int : ℤ → ℤ → Bool
lt_int (pos a) (pos b) = ltb a b
lt_int (pos a) (negsuc b) = false
lt_int (negsuc a) (pos b) = true
lt_int (negsuc a) (negsuc b) = ltb b a

abbrev pub le_int : ℤ → ℤ → Bool
le_int (pos a) (pos b) = leb a b
le_int (pos a) (negsuc b) = false
le_int (negsuc a) (pos b) = true
le_int (negsuc a) (negsuc b) = leb b a

abbrev pub neg_int : ℤ → ℤ
neg_int (pos zero) = pos zero
neg_int (pos (suc n)) = negsuc n
neg_int (negsuc n) = pos (suc n)

abbrev pub minus : ℕ → ℕ → ℤ
minus a zero = pos a
minus zero (suc b) = negsuc b
minus (suc a) (suc b) = minus a b

abbrev pub add_int : ℤ → ℤ → ℤ
add_int (pos a) (pos b) = pos (a + b)
add_int (pos a) (negsuc b) = minus a (suc b)
add_int (negsuc a) (pos b) = minus b (suc a)
add_int (negsuc a) (negsuc b) = negsuc (suc (a + b))

abbrev pub mul_int : ℤ → ℤ → ℤ
mul_int (pos a) (pos b) = pos (a * b)
mul_int (pos a) (negsuc b) = neg_int (pos (a * suc b))
mul_int (negsuc a) (pos b) = neg_int (pos (suc a * b))
mul_int (negsuc a) (negsuc b) = pos (suc a * suc b)

abbrev pub exp_int : ℤ → ℤ
exp_int (pos n) = pos (suc n)
exp_int (negsuc n) = pos 0

abbrev pub hours_int : ℤ → ℤ
hours_int (pos n) = pos (n / 3_600_000_000_000)
hours_int (negsuc n) = negsuc (n / 3_600_000_000_000)

abbrev pub div_int : ℤ → ℤ → ℤ
div_int a (pos (suc zero)) = a
div_int (pos a) (pos (suc b)) = pos (a / suc b)
div_int a b = pos 0

abbrev pub whole : Float ℤ
whole = record {
  zero = pos 0;
  one = pos 1;
  add = add_int;
  sub = λ a b. add_int a (neg_int b);
  mul = mul_int;
  div = div_int;
  pow = λ d t. d;
  neg = neg_int;
  exp = exp_int;
  lt = lt_int;
  le = le_int;
  is_finite = λ a. true;
  of_uint64 = pos;
  hours = hours_int;
}

irrefl : (a : ℤ) → lt_int a a ≡ false
irrefl (pos a) = ground arith
irrefl (negsuc a) = ground arith

pub whole-IsOrdered : IsOrdered whole
whole-IsOrdered = record { lt_irrefl = irrefl; le-zero_zero = refl }

trans : (a b c : ℤ) → le_int a b ≡ true → le_int b c ≡ true → le_int a c ≡ true
trans (pos a) (pos b) (pos c) h k = ground arith
trans (pos a) (pos b) (negsuc c) h k = ground arith
trans (pos a) (negsuc b) c h k = ground arith
trans (negsuc a) (pos b) (pos c) h k = ground arith
trans (negsuc a) (pos b) (negsuc c) h k = ground arith
trans (negsuc a) (negsuc b) (pos c) h k = ground arith
trans (negsuc a) (negsuc b) (negsuc c) h k = ground arith

of_lt : (a b : ℤ) → lt_int a b ≡ true → le_int a b ≡ true
of_lt (pos a) (pos b) h = ground arith
of_lt (pos a) (negsuc b) h = ground arith
of_lt (negsuc a) (pos b) h = refl
of_lt (negsuc a) (negsuc b) h = ground arith

not_lt : (a b : ℤ) → le_int a b ≡ true → lt_int b a ≡ false
not_lt (pos a) (pos b) h = ground arith
not_lt (pos a) (negsuc b) h = ground arith
not_lt (negsuc a) (pos b) h = refl
not_lt (negsuc a) (negsuc b) h = ground arith

scaled :
    (a b : ℤ)
    → le_int (pos 0) a ≡ true
    → le_int (pos 0) b ≡ true
    → le_int b (pos 1) ≡ true
    → (le_int (pos 0) (mul_int a b) ≡ true) × (le_int (mul_int a b) a ≡ true)
scaled (pos a) (pos zero) h k l = ground arith
scaled (pos a) (pos (suc zero)) h k l = ground arith
scaled (pos a) (pos (suc (suc b))) h k l = ground arith
scaled (pos a) (negsuc b) h k l = ground arith
scaled (negsuc a) b h k l = ground arith

unmoved :
    (a : ℤ)
    → le_int (pos 0) a ≡ true
    → (le_int (pos 0) (add_int a (pos 0)) ≡ true) × (le_int (add_int a (pos 0)) a ≡ true)
unmoved (pos a) h = ground arith
unmoved (negsuc a) h = ground arith

curve :
    (x : ℤ)
    → lt_int (pos 0) x ≡ true
    → (le_int (pos 0) (add_int (pos 1) (neg_int (exp_int (neg_int x)))) ≡ true)
      × (le_int (add_int (pos 1) (neg_int (exp_int (neg_int x)))) (pos 1) ≡ true)
curve (pos zero) h = ground arith
curve (pos (suc n)) h = (refl, refl)
curve (negsuc n) h = ground arith

pub whole-IsRounded : IsRounded whole
whole-IsRounded = record {
  le_trans = trans;
  le_of_lt = of_lt;
  not-lt_of_le = not_lt;
  mul_range = λ a b f h k l. scaled a b h k l;
  add-zero_range = unmoved;
  pow_range = λ d t p q r. (of_lt (pos 0) d p, q);
  curve_range = curve;
  hours_pos = λ n. ground arith;
  hours_negsuc = λ n. refl;
}
