-- ===== src/Input/Configs.antt =====
-- What the constructors of the stream inputs accept: what the four proofs share.
pub mod KafkaConfig
pub mod BrokerConfigs
use Prim.Native.String.{◌++◌ as ◌<>◌}
use signalwatch.Base.{
  Bool, true, false, String, ◌==◌, ◌≡◌, refl, ap, ◌∙◌, List, [], ◌∷◌, Option, none, some,
  if◌then◌else◌, Bool-cases, inl, inr, arith, eq_iff,
}
use signalwatch.Base.Int.{ℤ, pos, eqb_ℤ, leb_ℤ}
use signalwatch.Base.Result.{Result, ok, err, Result-cases}
use signalwatch.Input.Kafka
use signalwatch.Input.Kafka.{cons_ok, or_default}
use signalwatch.Input.Pubsub
use signalwatch.Input.Pubsub.{or_text}
use signalwatch.Input.Rabbitmq
use signalwatch.Input.Sqs

-- Where the result is a value, the constructor accepts it and leaves it as it is.
abbrev pub Settles : {A : Type 0} → (A → Result A) → Result A → Type 0
Settles f (ok a) = f a ≡ ok a
Settles f (err e) = Unit

abbrev pub NonEmpty : {A : Type 0} → Result (List A) → Type 0
NonEmpty (ok []) = ⊥
NonEmpty (ok (a ∷ more)) = Unit
NonEmpty (err e) = Unit

pub cons_ok-NonEmpty : {A : Type 0} (a : A) (r : Result (List A)) → NonEmpty (cons_ok a r)
cons_ok-NonEmpty a (ok rest) = tt
cons_ok-NonEmpty a (err e) = tt

pub or_default_twice :
    (d n : ℤ) → eqb_ℤ d (pos 0) ≡ false → or_default d (or_default d n) ≡ or_default d n
or_default_twice d n nonzero = elim (Bool-cases (eqb_ℤ n (pos 0))) [
  | inl z ↦ simp (z, nonzero) refl
  | inr z ↦ simp (z) refl
]

pub or_text_twice : (d s : String) → or_text d (or_text d s) ≡ or_text d s
or_text_twice d s = elim (Bool-cases (s == "")) [
  | inl empty ↦ ground (arith, empty)
  | inr full ↦ simp (full) refl
]

pub timeout_twice :
    (d n : ℤ)
    → leb_ℤ d (pos 0) ≡ false
    → let t = if leb_ℤ n (pos 0) then d else n in (if leb_ℤ t (pos 0) then d else t) ≡ t
timeout_twice d n positive = elim (Bool-cases (leb_ℤ n (pos 0))) [
  | inl low ↦ simp (low, positive) refl
  | inr high ↦ simp (high) refl
]
