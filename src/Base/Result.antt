-- ===== src/Base/Result.antt =====
-- Go's errors, and functions that change a state and may return an error. The state stands beside
-- the error too: what was written before a failure stays written.
use Prim.Native.String.{String}
use mathlib.Core.Path.{◌≡◌, refl}
use mathlib.Core.Logic.{◌⊎◌, inl, inr}

-- `errors.New(msg)` and `fmt.Errorf(context + ": %w", err)`; `driver` is an error that the
-- database driver returns, and `panic` a run-time panic that unwinds the caller.
pub data Error : Type 0 where
  driver panic : Error
  error : String → Error
  wrap : String → Error → Error

pub data Result {ℓ} (A : Type ℓ) : Type ℓ where
  ok : A → Result A
  err : Error → Result A

pub Result-cases {ℓ} :
    {A : Type ℓ} (r : Result A) → ((a : A) × (r ≡ ok a)) ⊎ ((e : Error) × (r ≡ err e))
Result-cases (ok a) = inl (a, refl)
Result-cases (err e) = inr (e, refl)

abbrev pub Exec : Type 0 → Type 0 → Type 0
Exec S A = S → Result A × S

module _ {A : Type 0} where
  abbrev wrap_err : String → Result A → Result A
  wrap_err msg (ok a) = ok a
  wrap_err msg (err e) = err (wrap msg e)

  abbrev recover : (Error → A) → Result A → A
  recover f (ok a) = a
  recover f (err e) = f e

module _ {S A : Type 0} where
  abbrev pub pure : A → Exec S A
  pure a s = (ok a, s)

  abbrev pub raise : Error → Exec S A
  raise e s = (err e, s)

  -- `if err != nil { return fmt.Errorf(msg + ": %w", err) }`
  abbrev pub wrapping : String → Exec S A → Exec S A
  wrapping msg m s = let (r, s') = m s in (wrap_err msg r, s')

  -- A caller that goes on after an error.
  abbrev pub catching : (Error → A) → Exec S A → S → A × S
  catching f m s = let (r, s') = m s in (recover f r, s')

module _ {S A B : Type 0} where
  abbrev pub continue : Result A → (A → Exec S B) → Exec S B
  continue (ok a) f s = f a s
  continue (err e) f s = (err e, s)

  infixl 10 ◌>>=◌ ◌>>◌
  abbrev pub ◌>>=◌ : Exec S A → (A → Exec S B) → Exec S B
  ◌>>=◌ m f s = let (r, s') = m s in continue r f s'

  abbrev pub ◌>>◌ : Exec S A → Exec S B → Exec S B
  m >> n = m >>= λ _. n

-- An error is no value.
pub err_not_ok : {A : Type 0} (e : Error) (a : A) → err e ≡ ok a → ⊥
err_not_ok e a h = cc
