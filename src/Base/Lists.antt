-- ===== src/Base/Lists.antt =====
-- Lists read as tables: selection, search, update and deletion by a Boolean test, a predicate on
-- every element, and the number of elements.
use Prim.Native.Nat.{ℕ, zero, suc}
use mathlib.Core.Path.{◌≡◌, refl}
use mathlib.Core.Logic.{◌↔◌, ◌≢◌, ◌⊎◌, inl, inr}
use mathlib.Core.Bool.{Bool, true, false, not, ◌&&◌}
use mathlib.Core.Option.{Option, none, some}
use mathlib.Core.List.{List, [], ◌∷◌, ◌++◌, map}
use native.Mathlib.Omega.{arith}
use signalwatch.Base.Tests.{if◌then◌else◌}

module _ {ℓ} {A : Type ℓ} where
  abbrev pub length : List A → ℕ
  length [] = 0
  length (x ∷ xs) = suc (length xs)

  abbrev pub take : ℕ → List A → List A
  take zero xs = []
  take (suc n) [] = []
  take (suc n) (x ∷ xs) = x ∷ take n xs

  -- The elements that pass the test, in order.
  unfoldable pub select : (A → Bool) → List A → List A
  select p [] = []
  select p (x ∷ xs) = let rest = select p xs in if p x then x ∷ rest else rest

  -- The first element that passes the test.
  unfoldable pub find : (A → Bool) → List A → Option A
  find p [] = none
  find p (x ∷ xs) = let rest = find p xs in if p x then some x else rest

  unfoldable pub any : (A → Bool) → List A → Bool
  any p [] = false
  any p (x ∷ xs) = let rest = any p xs in if p x then true else rest

  -- `f` at every element that passes the test.
  unfoldable pub update_where : (A → Bool) → (A → A) → List A → List A
  update_where p f [] = []
  update_where p f (x ∷ xs) = (if p x then f x else x) ∷ update_where p f xs

  -- `a` in place of the first element that passes the test, or at the end.
  unfoldable pub upsert_by : (A → Bool) → A → List A → List A
  upsert_by p a [] = a ∷ []
  upsert_by p a (x ∷ xs) = let rest = upsert_by p a xs in if p x then a ∷ xs else x ∷ rest

  -- A sort by insertion: stable, so ties keep the order of the list.
  unfoldable pub insert_by : (A → A → Bool) → A → List A → List A
  insert_by le a [] = a ∷ []
  insert_by le a (x ∷ xs) = let rest = insert_by le a xs in if le a x then a ∷ x ∷ xs else x ∷ rest

  unfoldable pub sort_by : (A → A → Bool) → List A → List A
  unfolding insert_by
  sort_by le [] = []
  sort_by le (x ∷ xs) = insert_by le x (sort_by le xs)

  abbrev pub All {κ} : (A → Type κ) → List A → Type κ
  All P [] = Unit
  All P (x ∷ xs) = P x × All P xs

-- Membership by recursion, which the tactics read.
abbrev pub Elem : {A : Type 0} → A → List A → Type 0
Elem a [] = ⊥
Elem a (x ∷ xs) = (a ≡ x) ⊎ Elem a xs

-- What a search finds in a table after a row is put in, changed or removed.
module _ {A : Type 0} where
  pub find-upsert_by_hit :
      (p q : A → Bool) (a : A) (xs : List A)
      → ((x : A) → q x ≡ p x)
      → p a ≡ true
      → find p (upsert_by q a xs) ≡ some a
  unfolding find upsert_by
  find-upsert_by_hit p q a [] same hit = rw hit
  find-upsert_by_hit p q a (x ∷ xs) same hit =
      ground (arith, same x, find-upsert_by_hit p q a xs same hit)

  pub find-upsert_by_miss :
      (p q : A → Bool) (a : A) (xs : List A)
      → ((x : A) → q x ≡ true → p x ≡ false)
      → p a ≡ false
      → find p (upsert_by q a xs) ≡ find p xs
  unfolding find upsert_by
  find-upsert_by_miss p q a [] apart miss = rw miss
  find-upsert_by_miss p q a (x ∷ xs) apart miss =
      ground (arith, apart x, find-upsert_by_miss p q a xs apart miss)

  pub find-append :
      (p : A → Bool) (xs ys : List A)
      → find p (xs ++ ys) ≡ (elim (find p xs) [ none ↦ find p ys | some x ↦ some x ])
  unfolding find
  find-append p [] ys = refl
  find-append p (x ∷ xs) ys = ground (arith, find-append p xs ys)

  pub find-none : (p : A → Bool) (xs : List A) → any p xs ≡ false → find p xs ≡ none
  unfolding find any
  find-none p [] h = refl
  find-none p (x ∷ xs) h = ground (arith, find-none p xs)

  pub find_found : (p : A → Bool) (xs : List A) → any p xs ≡ true → (a : A) × (find p xs ≡ some a)
  unfolding find any
  find_found p [] h = cc
  find_found p (x ∷ xs) h =
      elim (p x)
          as (λ b.
            ((if b then true else any p xs) ≡ true)
            → (a : A) × ((if b then some x else find p xs) ≡ some a)) [
              | true ↦ λ e. (x, refl)
              | false ↦ λ e. find_found p xs e
            ]
        h

  pub find-update_where_hit :
      (p : A → Bool) (f : A → A) (xs : List A)
      → ((x : A) → p (f x) ≡ p x)
      → find p (update_where p f xs) ≡ (elim (find p xs) [ none ↦ none | some x ↦ some (f x) ])
  unfolding find update_where
  find-update_where_hit p f [] same = refl
  find-update_where_hit p f (x ∷ xs) same =
      ground (arith, same x, find-update_where_hit p f xs same)

  abbrev pub changed_where : (A → Bool) → (A → A) → Option A → Option A
  changed_where q f none = none
  changed_where q f (some x) = some (if q x then f x else x)

  pub find-update_where :
      (p q : A → Bool) (f : A → A) (xs : List A)
      → ((x : A) → p (f x) ≡ p x)
      → find p (update_where q f xs) ≡ changed_where q f (find p xs)
  unfolding find update_where
  find-update_where p q f [] same = refl
  find-update_where p q f (x ∷ xs) same = ground (arith, same x, find-update_where p q f xs same)

  pub find-update_where_miss :
      (p q : A → Bool) (f : A → A) (xs : List A)
      → ((x : A) → p (f x) ≡ p x)
      → ((x : A) → q x ≡ true → p x ≡ false)
      → find p (update_where q f xs) ≡ find p xs
  unfolding find update_where
  find-update_where_miss p q f [] same apart = refl
  find-update_where_miss p q f (x ∷ xs) same apart =
      ground (arith, same x, apart x, find-update_where_miss p q f xs same apart)

  pub update_where_none :
      (p : A → Bool) (f : A → A) (xs : List A) → any p xs ≡ false → update_where p f xs ≡ xs
  unfolding any update_where
  update_where_none p f [] h = refl
  update_where_none p f (x ∷ xs) h = ground (arith, update_where_none p f xs)

  pub find-select_hit : (p : A → Bool) (xs : List A) → find p (select (λ x. not (p x)) xs) ≡ none
  unfolding find select
  find-select_hit p [] = refl
  find-select_hit p (x ∷ xs) = ground (arith, find-select_hit p xs)

  pub find-select_miss :
      (p q : A → Bool) (xs : List A)
      → ((x : A) → q x ≡ true → p x ≡ false)
      → find p (select (λ x. not (q x)) xs) ≡ find p xs
  unfolding find select
  find-select_miss p q [] apart = refl
  find-select_miss p q (x ∷ xs) apart = ground (arith, apart x, find-select_miss p q xs apart)

  pub find-append_hit :
      (p : A → Bool) (a : A) (xs : List A)
      → any p xs ≡ false
      → p a ≡ true
      → find p (xs ++ a ∷ []) ≡ some a
  unfolding find any
  find-append_hit p a [] new hit = rw hit
  find-append_hit p a (x ∷ xs) new hit = ground (arith, find-append_hit p a xs)

  pub find-append_miss :
      (p : A → Bool) (a : A) (xs : List A) → p a ≡ false → find p (xs ++ a ∷ []) ≡ find p xs
  unfolding find
  find-append_miss p a [] miss = rw miss
  find-append_miss p a (x ∷ xs) miss = ground (arith, find-append_miss p a xs miss)

  -- Exactly the elements that pass are selected.
  pub Elem-select :
      (p : A → Bool) (a : A) (xs : List A) → Elem a (select p xs) ↔ (Elem a xs × (p a ≡ true))
  unfolding select
  Elem-select p a [] = (λ h. absurd h, λ h. absurd h.0)
  Elem-select p a (x ∷ xs) = ground (arith, Elem-select p a xs)

  pub Elem-append_left : (a : A) (xs ys : List A) → Elem a xs → Elem a (xs ++ ys)
  Elem-append_left a [] ys h = absurd h
  Elem-append_left a (x ∷ xs) ys (inl e) = inl e
  Elem-append_left a (x ∷ xs) ys (inr m) = inr (Elem-append_left a xs ys m)

  pub Elem-append_right : (a : A) (xs ys : List A) → Elem a ys → Elem a (xs ++ ys)
  Elem-append_right a [] ys h = h
  Elem-append_right a (x ∷ xs) ys h = inr (Elem-append_right a xs ys h)

  pub Elem-append_cases : (a : A) (xs ys : List A) → Elem a (xs ++ ys) → Elem a xs ⊎ Elem a ys
  Elem-append_cases a [] ys h = inr h
  Elem-append_cases a (x ∷ xs) ys (inl e) = inl (inl e)
  Elem-append_cases a (x ∷ xs) ys (inr m) = elim (Elem-append_cases a xs ys m) [
    | inl l ↦ inl (inr l)
    | inr r ↦ inr r
  ]

  -- A row that is found passes the test and stands in the table.
  pub find_sound :
      (p : A → Bool) (a : A) (xs : List A) → find p xs ≡ some a → Elem a xs × (p a ≡ true)
  unfolding find
  find_sound p a [] h = cc
  find_sound p a (x ∷ xs) h = ground (arith, find_sound p a xs)

module _ {A : Type 0} where
  pub any-append :
      (p : A → Bool) (xs ys : List A) → any p (xs ++ ys) ≡ (if any p xs then true else any p ys)
  unfolding any
  any-append p [] ys = refl
  any-append p (x ∷ xs) ys = ground (arith, any-append p xs ys)

pub any-map :
    {A B : Type 0} (f : A → B) (p : B → Bool) (xs : List A)
    → any p (map f xs) ≡ any (λ x. p (f x)) xs
unfolding any
any-map f p [] = refl
any-map f p (x ∷ xs) = ground (arith, any-map f p xs)

module _ {A : Type 0} where
  pub select-select :
      (p q : A → Bool) (xs : List A) → select p (select q xs) ≡ select (λ x. q x && p x) xs
  unfolding select
  select-select p q [] = refl
  select-select p q (x ∷ xs) = ground (arith, select-select p q xs)

  pub select-cong :
      (p q : A → Bool) (xs : List A) → ((x : A) → p x ≡ q x) → select p xs ≡ select q xs
  unfolding select
  select-cong p q [] h = refl
  select-cong p q (x ∷ xs) h = ground (arith, h x, select-cong p q xs h)

  -- A test of the projections of the selected elements.
  pub any-map-select :
      {B : Type 0} (t : B → Bool) (f : A → B) (p : A → Bool) (xs : List A)
      → any t (map f (select p xs)) ≡ any (λ x. p x && t (f x)) xs
  unfolding any select
  any-map-select t f p [] = refl
  any-map-select t f p (x ∷ xs) = ground (arith, any-map-select t f p xs)

  pub select-true : (p : A → Bool) (xs : List A) → ((x : A) → p x ≡ true) → select p xs ≡ xs
  unfolding select
  select-true p [] h = refl
  select-true p (x ∷ xs) h = ground (arith, h x, select-true p xs h)

  pub select-not_of_none :
      (p : A → Bool) (xs : List A) → select p xs ≡ [] → select (λ x. not (p x)) xs ≡ xs
  unfolding select
  select-not_of_none p [] h = refl
  select-not_of_none p (x ∷ xs) h = ground (arith, select-not_of_none p xs)

pub nil_of_map-nil : {A B : Type 0} (f : A → B) (xs : List A) → map f xs ≡ [] → xs ≡ []
nil_of_map-nil f [] h = refl
nil_of_map-nil f (x ∷ xs) h = cc

module _ {A : Type 0} (le : A → A → Bool) where
  insert_by-ne-nil : (a : A) (xs : List A) → insert_by le a xs ≢ []
  unfolding insert_by
  insert_by-ne-nil a [] = λ h. cc
  insert_by-ne-nil a (x ∷ xs) = λ h. ground arith

  pub nil_of_sort_by-nil : (xs : List A) → sort_by le xs ≡ [] → xs ≡ []
  nil_of_sort_by-nil [] h = refl
  nil_of_sort_by-nil (x ∷ xs) h = absurd (insert_by-ne-nil x (sort_by le xs) (unfold sort_by in h))

pub All-Elem : {A : Type 0} (P : A → Type 0) (a : A) (xs : List A) → All P xs → Elem a xs → P a
All-Elem P a [] h m = absurd m
All-Elem P a (x ∷ xs) h (inl e) = rw e h.0
All-Elem P a (x ∷ xs) h (inr m) = All-Elem P a xs h.1 m
