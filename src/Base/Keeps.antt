-- ===== src/Base/Keeps.antt =====
-- Invariants of functions that change a state and may return an error: one rule for each way in
-- which such a function is put together.

use mathlib.Core.Bool.{Bool, true, false}
use signalwatch.Base.Tests.{if◌then◌else◌}
use signalwatch.Base.Result.{Error, Result, ok, err, Exec, pure, raise, wrapping, continue, ◌>>=◌}
use Prim.Native.String.{String}

-- `P` holds after `m` where it held before, also where `m` returns an error.
pub record Keeps {S A : Type 0} (P : S → Type 0) (m : Exec S A) : Type 0 where
  pub after : (s : S) → P s → P (m s).1

module _ {S A : Type 0} {P : S → Type 0} where
  pub Keeps-pure : (a : A) → Keeps P (pure a)
  Keeps-pure a = record { after = λ s h. h }

  pub Keeps-raise : (e : Error) → Keeps P (raise {A = A} e)
  Keeps-raise e = record { after = λ s h. h }

  pub Keeps-wrapping : (msg : String) (m : Exec S A) → Keeps P m → Keeps P (wrapping msg m)
  Keeps-wrapping msg m k = record { after = k.after }

  pub Keeps-if : (b : Bool) (m n : Exec S A) → Keeps P m → Keeps P n → Keeps P (if b then m else n)
  Keeps-if true m n km kn = km
  Keeps-if false m n km kn = kn

module _ {S A B : Type 0} {P : S → Type 0} where
  Keeps-continue :
      (r : Result A) (f : A → Exec S B) (s : S)
      → ((a : A) → Keeps P (f a))
      → P s
      → P (continue r f s).1
  Keeps-continue (ok a) f s k h = (k a).after s h
  Keeps-continue (err e) f s k h = h

  pub Keeps-bind :
      (m : Exec S A) (f : A → Exec S B) → Keeps P m → ((a : A) → Keeps P (f a)) → Keeps P (m >>= f)
  Keeps-bind m f km kf = record {
    after = λ s h. Keeps-continue (m s).0 f (m s).1 kf (km.after s h);
  }

pub ruleset keeps_rules = (Keeps-pure, Keeps-raise, Keeps-wrapping, Keeps-if, Keeps-bind)
