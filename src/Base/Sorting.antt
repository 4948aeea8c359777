-- ===== src/Base/Sorting.antt =====
-- What a search finds in a sorted table.
use mathlib.Core.Path.{◌≡◌, refl, ◌∙◌}
use mathlib.Core.Bool.{Bool, true, false}
use mathlib.Core.Option.{none}
use mathlib.Core.List.{List, [], ◌∷◌}
use mathlib.Core.Logic.{inl, inr}
use native.Mathlib.Omega.{arith}
use signalwatch.Base.Tests.{if◌then◌else◌, Bool-cases}
use signalwatch.Base.Lists.{find, any, insert_by, sort_by, find-none}

module _ {A : Type 0} where
  -- At most one element passes the test.
  abbrev pub AtMostOne : (A → Bool) → List A → Type 0
  AtMostOne p [] = Unit
  AtMostOne p (x ∷ xs) = (p x ≡ true → any p xs ≡ false) × AtMostOne p xs

  find-insert_by :
      (le : A → A → Bool) (p : A → Bool) (a : A) (xs : List A)
      → (p a ≡ true → find p xs ≡ none)
      → find p (insert_by le a xs) ≡ find p (a ∷ xs)
  unfolding find insert_by
  find-insert_by le p a [] only = refl
  find-insert_by le p a (x ∷ xs) only = elim (Bool-cases (p x)) [
    | inl hit ↦ ground (arith, only, hit)
    | inr miss ↦
        ground (arith, miss, only, find-insert_by le p a xs (λ h. ground (arith, miss, only h)))
  ]

  pub find-sort_by :
      (le : A → A → Bool) (p : A → Bool) (xs : List A)
      → AtMostOne p xs
      → find p (sort_by le xs) ≡ find p xs
  unfolding find sort_by
  find-sort_by le p [] one = refl
  find-sort_by le p (x ∷ xs) one =
      find-insert_by le p x (sort_by le xs)
        (λ h. find-sort_by le p xs one.1 ∙ find-none p xs (one.0 h))
      ∙ ground (arith, find-sort_by le p xs one.1)

  any-insert_by :
      (le : A → A → Bool) (p : A → Bool) (a : A) (xs : List A)
      → any p (insert_by le a xs) ≡ any p (a ∷ xs)
  unfolding any insert_by
  any-insert_by le p a [] = refl
  any-insert_by le p a (x ∷ xs) = ground (arith, any-insert_by le p a xs)

  pub any-sort_by :
      (le : A → A → Bool) (p : A → Bool) (xs : List A) → any p (sort_by le xs) ≡ any p xs
  unfolding any sort_by
  any-sort_by le p [] = refl
  any-sort_by le p (x ∷ xs) =
      any-insert_by le p x (sort_by le xs) ∙ ground (arith, any-sort_by le p xs)

  insert_by-AtMostOne :
      (le : A → A → Bool) (p : A → Bool) (a : A) (xs : List A)
      → AtMostOne p (a ∷ xs)
      → AtMostOne p (insert_by le a xs)
  unfolding any insert_by
  insert_by-AtMostOne le p a [] h = h
  insert_by-AtMostOne le p a (x ∷ xs) h =
      let rest = insert_by-AtMostOne le p a xs (λ hit. ground (arith, h.0 hit), h.1.1) in
      elim (le a x) as (λ b. AtMostOne p (if b then a ∷ x ∷ xs else x ∷ insert_by le a xs)) [
        | true ↦ h
        | false ↦ (λ hit. any-insert_by le p a xs ∙ ground (arith, hit, h.0, h.1.0), rest)
      ]

  pub sort_by-AtMostOne :
      (le : A → A → Bool) (p : A → Bool) (xs : List A)
      → AtMostOne p xs
      → AtMostOne p (sort_by le xs)
  unfolding sort_by
  sort_by-AtMostOne le p [] h = h
  sort_by-AtMostOne le p (x ∷ xs) h =
      insert_by-AtMostOne le p x (sort_by le xs)
        (λ hit. any-sort_by le p xs ∙ h.0 hit, sort_by-AtMostOne le p xs h.1)
