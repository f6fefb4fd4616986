-- ===== src/Base/Results.antt =====
-- Errors as values. `panic` is a run-time panic of the Go program, such as a method call on a nil
-- pointer: it is no error value and passes every handler.
use Prim.Native.String.{String, ◌++◌}
use mathlib.Core.Bool.{Bool, true, false}
use mathlib.Core.Path.{◌≡◌, refl}
use mathlib.Core.List.{List, ◌++◌ as append}
use native.Mathlib.Omega.{arith}
use mathlib.Core.Logic.{◌⊎◌, inl, inr}

-- `errorf` holds the text that `fmt.Errorf` builds, `wrap p e` is `fmt.Errorf("p: %w", e)`, and
-- `stop_streaming` is the sentinel `errStopStreaming` of executor.go.
pub data Error : Type 0 where
  errorf : String → Error
  wrap : String → Error → Error
  stop_streaming : Error

-- `err.Error()`
abbrev pub error_text : Error → String
error_text (errorf s) = s
error_text (wrap p e) = p ++ ": " ++ error_text e
error_text stop_streaming = "stop streaming"

-- `errors.Is(err, errStopStreaming)` looks through the wrapping.
abbrev pub is_stop : Error → Bool
is_stop (errorf s) = false
is_stop (wrap p e) = is_stop e
is_stop stop_streaming = true

pub data Result (E : Type 0) (A : Type 0) : Type 0 where
  ok : A → Result E A
  err : E → Result E A
  panic : Result E A

infixl 10 ◌>>=◌ ◌>>◌
abbrev pub ◌>>=◌ : {E A B : Type 0} → Result E A → (A → Result E B) → Result E B
ok a >>= f = f a
err e >>= f = err e
panic >>= f = panic

abbrev pub ◌>>◌ : {E A B : Type 0} → Result E A → Result E B → Result E B
m >> k = m >>= λ _. k

-- `fmt.Errorf("p: %w", err)` where there is an error
abbrev pub wrap_err : {A : Type 0} → String → Result Error A → Result Error A
wrap_err p (ok a) = ok a
wrap_err p (err e) = err (wrap p e)
wrap_err p panic = panic

-- What has been done to the outside, in order, and what comes next where there is no error.
infixl 10 ◌then_on◌
abbrev pub ◌then_on◌ :
    {Act A B : Type 0}
    → List Act × Result Error A
    → (A → List Act × Result Error B)
    → List Act × Result Error B
(acts, ok a) then_on f = (append acts (f a).0, (f a).1)
(acts, err e) then_on f = (acts, err e)
(acts, panic) then_on f = (acts, panic)

module _ {E A : Type 0} where
  -- To split on a computed result and keep the equation.
  pub Result-cases :
      (r : Result E A) → ((a : A) × (r ≡ ok a)) ⊎ (((e : E) × (r ≡ err e)) ⊎ (r ≡ panic))
  Result-cases (ok a) = inl (a, refl)
  Result-cases (err e) = inr (inl (e, refl))
  Result-cases panic = inr (inr refl)

-- What a chain that succeeds has gone through.
pub bind-ok :
    {E A B : Type 0} (m : Result E A) (f : A → Result E B) (b : B)
    → m >>= f ≡ ok b
    → (a : A) × (m ≡ ok a) × (f a ≡ ok b)
bind-ok (ok a) f b h = (a, refl, h)
bind-ok (err e) f b h = ground (arith, h)
bind-ok panic f b h = ground (arith, h)

pub wrap_err-ok :
    {A : Type 0} (p : String) (r : Result Error A) (a : A) → wrap_err p r ≡ ok a → r ≡ ok a
wrap_err-ok p (ok x) a h = h
wrap_err-ok p (err e) a h = ground (arith, h)
wrap_err-ok p panic a h = ground (arith, h)

-- A result that is no panic.
abbrev pub NoPanic : {E A : Type 0} → Result E A → Type 0
NoPanic (ok a) = Unit {0}
NoPanic (err e) = Unit {0}
NoPanic panic = ⊥

module _ {E A : Type 0} where
  pub never_panics : (r : Result E A) → ¬ (r ≡ panic) → NoPanic r
  never_panics (ok a) h = tt
  never_panics (err e) h = tt
  never_panics panic h = h refl

  pub NoPanic-ne : (r : Result E A) → NoPanic r → ¬ (r ≡ panic)
  NoPanic-ne (ok a) h e = ground (arith, e)
  NoPanic-ne (err x) h e = ground (arith, e)
  NoPanic-ne panic h e = h

module _ {E A B : Type 0} where
  pub bind-NoPanic :
      (m : Result E A) (f : A → Result E B)
      → NoPanic m
      → ((a : A) → NoPanic (f a))
      → NoPanic (m >>= f)
  bind-NoPanic (ok a) f p h = h a
  bind-NoPanic (err e) f p h = tt
  bind-NoPanic panic f p h = p
