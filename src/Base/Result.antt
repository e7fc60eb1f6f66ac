-- ===== src/Base/Result.antt =====
-- What a Go function returns beside its value: an error, or nil. A panic is an error that no
-- caller of this program recovers from.
use Prim.Native.String.{String}
use mathlib.Core.Path.{◌≡◌, refl}
use mathlib.Core.Logic.{◌⊎◌, inl, inr}
use mathlib.Core.Bool.{Bool, true, false}
use mathlib.Core.Option.{Option, none, some}

pub data Code : Type 0 where
  internal invalid_argument : Code

pub data Error : Type 0 where
  -- what the operating system reports
  not_exist exist is_dir not_dir not_empty fault : Error
  -- the sentinels `outbox.ErrNoPending` and `worker.ErrRetryLater`
  no_pending retry_later : Error
  -- `errors.New`, `fmt.Errorf` with `%w`, `status.Error`, a panic
  message : String → Error
  wrap : String → Error → Error
  status : Code → String → Error
  panicked : Error

pub data Result {ℓ} (A : Type ℓ) : Type ℓ where
  ok : A → Result A
  err : Error → Result A

-- `if c { return ..., e }`
abbrev pub fail_if : Bool → Error → Result (Unit {0})
fail_if true e = err e
fail_if false e = ok tt

infixl 5 ◌>>=◌ ◌>>◌
abbrev pub ◌>>=◌ {ℓ κ} : {A : Type ℓ} {B : Type κ} → Result A → (A → Result B) → Result B
ok value >>= next = next value
err e >>= next = err e

abbrev pub ◌>>◌ {ℓ} : {B : Type ℓ} → Result (Unit {0}) → Result B → Result B
first >> second = first >>= λ u. second

abbrev pub or_err {ℓ} : {A : Type ℓ} → Option A → Error → Result A
or_err none e = err e
or_err (some a) e = ok a

-- `fmt.Errorf("...: %w", err)` and the like, on the error path only.
abbrev pub on_err {ℓ} : {A : Type ℓ} → (Error → Error) → Result A → Result A
on_err f (ok a) = ok a
on_err f (err e) = err (f e)

-- `errors.Is(e, ErrNoPending)`, `errors.Is(e, ErrRetryLater)`, `errors.Is(e, os.ErrNotExist)` and
-- `errors.Is(e, os.ErrExist)` look through what `%w` wraps.
unfoldable pub is_no_pending : Error → Bool
is_no_pending no_pending = true
is_no_pending (wrap s e) = is_no_pending e
is_no_pending _ = false

-- A panic, which takes the process with it.
unfoldable pub is_panicked : Error → Bool
is_panicked panicked = true
is_panicked (wrap s e) = is_panicked e
is_panicked _ = false

unfoldable pub is_retry_later : Error → Bool
is_retry_later retry_later = true
is_retry_later (wrap s e) = is_retry_later e
is_retry_later _ = false

unfoldable pub is_not_exist : Error → Bool
is_not_exist not_exist = true
is_not_exist (wrap s e) = is_not_exist e
is_not_exist _ = false

unfoldable pub is_exist : Error → Bool
is_exist exist = true
is_exist (wrap s e) = is_exist e
is_exist _ = false

abbrev pub is_ok {ℓ} : {A : Type ℓ} → Result A → Bool
is_ok (ok a) = true
is_ok (err e) = false

pub is_ok-some {ℓ} : {A : Type ℓ} (m : Result A) → is_ok m ≡ true → (a : A) × (m ≡ ok a)
is_ok-some (ok a) h = (a, refl)
is_ok-some (err e) h = cc

pub Result-cases {ℓ} :
    {A : Type ℓ} (m : Result A) → ((a : A) × (m ≡ ok a)) ⊎ ((e : Error) × (m ≡ err e))
Result-cases (ok a) = inl (a, refl)
Result-cases (err e) = inr (e, refl)
