-- ===== src/Api/Reply.antt =====
-- `writeJSON`, `writeError` and `decodeJSON` of internal/api/api.go: what a handler answers.
use signalwatch.Base.{◌≡◌, refl, subst, inl, inr, ℕ, String, Option, none, some}
use signalwatch.Base.Result.{Error, Result, ok, err, error, Exec, Result-cases}

-- A status with a body, with the text of an error, or with neither.
pub data Reply (A : Type 0) : Type 0 where
  sent : ℕ → A → Reply A
  failed : ℕ → Error → Reply A
  bare : ℕ → Reply A

unfoldable pub status : {A : Type 0} → Reply A → ℕ
status (sent code body) = code
status (failed code e) = code
status (bare code) = code

-- 404 where there is no row.
abbrev pub or_missing : {A B : Type 0} → String → (A → B) → Option A → Reply B
or_missing what f none = failed 404 (error what)
or_missing what f (some a) = sent 200 (f a)

-- A handler works on a state and always answers.
abbrev pub Handling : Type 0 → Type 0 → Type 0
Handling S A = S → Reply A × S

module _ {S A : Type 0} where
  abbrev pub answer : Reply A → Handling S A
  answer r s = (r, s)

module _ {S P A : Type 0} where
  -- Goes on with a value, or answers an error with the given status.
  abbrev pub given : ℕ → Result P → (P → Handling S A) → Handling S A
  given code (ok p) f s = f p s
  given code (err e) f s = (failed code e, s)

  -- Goes on with what a call of the store returns, or answers its error with the given status.
  abbrev pub calling : ℕ → Exec S P → (P → Handling S A) → Handling S A
  calling code m f s = let (r, s') = m s in given code r f s'

-- What holds of the reply and the state a handler ends with.
module _ {S P A : Type 0} (Q : Reply A × S → Type 0) where
  pub calling_cases :
      (code : ℕ) (m : Exec S P) (f : P → Handling S A) (s : S)
      → ((p : P) → (m s).0 ≡ ok p → Q (f p (m s).1))
      → ((e : Error) → (m s).0 ≡ err e → Q (failed code e, (m s).1))
      → Q (calling code m f s)
  calling_cases code m f s good bad = elim (Result-cases (m s).0) [
    | inl (p, e) ↦ simp (e) (good p e)
    | inr (x, e) ↦ simp (e) (bad x e)
  ]

  pub given_cases :
      (code : ℕ) (r : Result P) (f : P → Handling S A) (s : S)
      → ((p : P) → r ≡ ok p → Q (f p s))
      → ((e : Error) → Q (failed code e, s))
      → Q (given code r f s)
  given_cases code (ok p) f s good bad = good p refl
  given_cases code (err e) f s good bad = bad e

-- A promise about every reply with a body, and about every failure.
module _ {S A : Type 0} where
  abbrev pub Sends : (A → S → Type 0) → Reply A × S → Type 0
  Sends P (sent code a, s) = P a s
  Sends P (failed code e, s) = Unit
  Sends P (bare code, s) = Unit

  abbrev pub Fails : (S → Type 0) → Reply A × S → Type 0
  Fails P (sent code a, s) = Unit
  Fails P (failed code e, s) = P s
  Fails P (bare code, s) = Unit

  pub of_Sends :
      (P : A → S → Type 0) (x : Reply A × S) (code : ℕ) (a : A)
      → Sends P x
      → x.0 ≡ sent code a
      → P a x.1
  of_Sends P (sent c b, s) code a h e = subst (λ a. P a s) (sent_injective c code b a e) h
    where
      sent_injective : (c d : ℕ) (b a : A) → sent c b ≡ sent d a → b ≡ a
      sent_injective c d b a e = cc
  of_Sends P (failed c x, s) code a h e = absurd (cc)
  of_Sends P (bare c, s) code a h e = absurd (cc)
