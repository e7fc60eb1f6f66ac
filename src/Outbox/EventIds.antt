-- ===== src/Outbox/EventIds.antt =====
-- `NewEventID`: what an id says of the instant that it was made at.
use baseline_integrity.Base.{
  ℕ, zero, suc, ◌+◌, ◌-◌, ◌*◌, ◌/◌, ◌%◌, ◌^◌, ◌<◌, ◌≤◌, ◌≡◌, ◌∙◌, refl, sym, ap, Bool, true, not,
  some, [], ◌∷◌, ◌++◌, all, Text, codes, cut, decimal, decimal_digits, ◌==◌, ltb, arith, inl, inr,
  Bool-cases,
}
use baseline_integrity.Base.Result.{ok}
use baseline_integrity.Proto.{unix_epoch}
use baseline_integrity.Os.{World, time_now}
use baseline_integrity.Outbox.{unix_nano, print_int64, new_event_id}

-- The number that digits stand for, behind a number that is already read.
abbrev value_of : ℕ → Text → ℕ
value_of v [] = v
value_of v (c ∷ s) = value_of (10 * v + (c - 48)) s

abbrev ten_to : ℕ → ℕ
ten_to zero = 1
ten_to (suc n) = 10 * ten_to n

-- The fuel is enough: no digit is lost.
value_of-decimal_digits :
    (fuel n : ℕ) (acc : Text)
    → n < ten_to fuel
    → value_of 0 (decimal_digits fuel n acc) ≡ value_of n acc
unfolding decimal_digits
value_of-decimal_digits zero n acc h = let none_left : n ≡ 0 = omega arith in rw none_left refl
value_of-decimal_digits (suc fuel) n acc h = elim (Bool-cases (ltb n 10)) [
  | inl last ↦ rw last (ap (λ v. value_of v acc) (omega arith))
  | inr more ↦ rw more (
      value_of-decimal_digits fuel (n / 10) ((48 + n % 10) ∷ acc) (omega arith)
      ∙ ap (λ v. value_of v acc) (omega arith))
]

value_of-decimal : (n : ℕ) → n < ten_to 20 → value_of 0 (decimal n) ≡ n
unfolding decimal
value_of-decimal n h = value_of-decimal_digits 20 n [] h

abbrev is_not_bar : ℕ → Bool
is_not_bar c = not (c == 95)

decimal_digits-bar :
    (fuel n : ℕ) (acc : Text)
    → all is_not_bar acc ≡ true
    → all is_not_bar (decimal_digits fuel n acc) ≡ true
unfolding decimal_digits all
decimal_digits-bar zero n acc h = h
decimal_digits-bar (suc fuel) n acc h =
    ground (arith, decimal_digits-bar fuel (n / 10) ((48 + n % 10) ∷ acc))

decimal-bar : (n : ℕ) → all is_not_bar (decimal n) ≡ true
unfolding decimal all
decimal-bar n = decimal_digits-bar 20 n [] refl

cut-bar : (s t : Text) → all is_not_bar s ≡ true → cut 95 (s ++ 95 ∷ t) ≡ some (s, t)
unfolding cut all
cut-bar [] t h = ground arith
cut-bar (c ∷ s) t h = ground (arith, cut-bar s t)

-- The instant that a call would read.
abbrev pub instant : World → ℕ
instant w = w.clock w.reads

-- From 1970 on and below 2 ^ 63 nanoseconds after it, the 64 bits are the nanoseconds since 1970.
print-unix_nano :
    (t : ℕ)
    → unix_epoch ≤ t
    → t < unix_epoch + 9_223_372_036_854_775_808
    → print_int64 (unix_nano t) ≡ decimal (t - unix_epoch)
print-unix_nano t since below =
    let exact : unix_nano t ≡ t - unix_epoch = omega arith in
    let positive : ltb (t - unix_epoch) (2 ^ 63) ≡ true = ground arith in rw (exact, positive) refl

-- Two events with the same id were named at the same nanosecond, whatever the instances and the
-- matches are, for readings from 1970 on and below 2 ^ 63 nanoseconds after it (the instants whose
-- `UnixNano` is in range): the fuel of the digits is enough, and the first bar ends them.
pub new_event_id-instant :
    (i m i' m' id : Text) (w w' : World)
    → unix_epoch ≤ instant w
    → unix_epoch ≤ instant w'
    → instant w < unix_epoch + 9_223_372_036_854_775_808
    → instant w' < unix_epoch + 9_223_372_036_854_775_808
    → (new_event_id i m w).0 ≡ ok id
    → (new_event_id i' m' w').0 ≡ ok id
    → instant w ≡ instant w'
unfolding new_event_id time_now
new_event_id-instant i m i' m' id w w' since since' below below' e e' =
    let n = instant w - unix_epoch in
    let n' = instant w' - unix_epoch in
    let rest = i ++ (codes "_" ++ m) in
    let rest' = i' ++ (codes "_" ++ m') in
    let cut_here = cut-bar (decimal n) rest (decimal-bar n) in
    let cut_there = cut-bar (decimal n') rest' (decimal-bar n') in
    let same : decimal n ++ 95 ∷ rest ≡ decimal n' ++ 95 ∷ rest' = ground (
      arith,
      e,
      e',
      print-unix_nano (instant w) since below,
      print-unix_nano (instant w') since' below',
    ) in
    let digits : decimal n ≡ decimal n' = cc (cut_here, cut_there, same) in
    let value = value_of-decimal n (omega arith) in
    let value' = value_of-decimal n' (omega arith) in
    let equal : n ≡ n' = sym value ∙ ap (value_of 0) digits ∙ value' in omega (arith, equal)
