-- ===== src/Errors.antt =====
-- Error values: what errors.New, fmt.Errorf and github.com/pkg/errors.Wrap build, and the errors
-- that carry an event (pkg/events/events.go).
use controlled_job.Base.{String, Option, none, some, str_append, ◌≡◌, refl, ◌⊎◌, inl, inr}

pub data Error : Type 0 where
  message : String → Error
  -- errors.Wrap of an error that is not nil
  wrap : Error → String → Error
  -- ErrorWithEvent, whose field err is itself a wrapped error
  with_event : Error → String → Error

pub data Result {ℓ} (A : Type ℓ) : Type ℓ where
  ok : A → Result A
  err : Error → Result A

infixl 5 ◌>>=◌
abbrev pub ◌>>=◌ {ℓ κ} : {A : Type ℓ} {B : Type κ} → Result A → (A → Result B) → Result B
ok a >>= f = f a
err e >>= f = err e

-- The results of a call that may panic; `none` is the panic.
abbrev pub Run {ℓ} : Type ℓ → Type ℓ
Run A = Option (Result A)

abbrev pub then_run {ℓ κ} : {A : Type ℓ} {B : Type κ} → Run A → (A → Run B) → Run B
then_run none f = none
then_run (some (ok a)) f = f a
then_run (some (err e)) f = some (err e)

-- `errors.Wrap(err, text)` of the error of a call, returned at once.
abbrev pub wrap_run {ℓ} : {A : Type ℓ} → String → Run A → Run A
wrap_run m none = none
wrap_run m (some (ok a)) = some (ok a)
wrap_run m (some (err e)) = some (err (wrap e m))

-- err.Error()
unfoldable pub error_text : Error → String
error_text (message m) = m
error_text (wrap e m) = str_append m (str_append ": " (error_text e))
error_text (with_event e ev) = error_text e

unfoldable pub wrap_error : Error → String → String → Error
wrap_error e event m = with_event (wrap e m) event

-- errors.As with a target of type *ErrorWithEvent, and Event() of what it finds. The outermost
-- error with an event answers; an ErrorWithEvent does not unwrap.
unfoldable pub event_of : Error → Option String
event_of (message m) = none
event_of (wrap e m) = event_of e
event_of (with_event e ev) = some ev

pub Result-cases {ℓ} :
    {A : Type ℓ} (r : Result A) → ((a : A) × (r ≡ ok a)) ⊎ ((e : Error) × (r ≡ err e))
Result-cases (ok a) = inl (a, refl)
Result-cases (err e) = inr (e, refl)

pub Run-cases {ℓ} :
    {A : Type ℓ} (r : Run A)
    → (r ≡ none) ⊎ ((e : Error) × (r ≡ some (err e))) ⊎ ((a : A) × (r ≡ some (ok a)))
Run-cases none = inl refl
Run-cases (some (err e)) = inr (inl (e, refl))
Run-cases (some (ok a)) = inr (inr (a, refl))
