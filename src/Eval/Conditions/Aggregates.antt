-- ===== src/Eval/Conditions/Aggregates.antt =====
-- What the five aggregates of a window are, apart from the loops that compute them.
use signalwatch.Base.{
  Bool, true, false, ◌≡◌, ◌⊎◌, refl, sym, subst, ◌∙◌, ap, ap₂, List, [], ◌∷◌, map, Option, none,
  some, inl, inr, Bool-cases, arith, if◌then◌else◌,
}
use signalwatch.Base.Lists.{All, Elem, length}
use signalwatch.Base.Pages.{length-map}
use signalwatch.Rule.Condition.{Float64, FloatOps, Agg, avg, sum, min, max, count}
use signalwatch.Eval.Window.{
  Sample, sum_from, min_from, max_from, avg_over, sum_over, min_over, max_over, count_over,
}
use signalwatch.Eval.Conditions.{Runtime, aggregate}

abbrev pub values : List Sample → List Float64
values ss = map (λ s. s.value) ss

-- An order of floats that is strict; `less` of IEEE 754 is one, NaN included.
abbrev pub IsStrict : (Float64 → Float64 → Bool) → Type 0
IsStrict less =
    ((a : Float64) → less a a ≡ false)
    × ((a b c : Float64) → less a b ≡ true → less b c ≡ true → less a c ≡ true)

-- A value of the list that none of its values is less than.
abbrev pub IsLeast : (Float64 → Float64 → Bool) → List Float64 → Float64 → Type 0
IsLeast less xs m = Elem m xs × All (λ x. less x m ≡ false) xs

-- The sum from the left.
unfoldable pub total : (Float64 → Float64 → Float64) → Float64 → List Float64 → Float64
total plus acc [] = acc
total plus acc (x ∷ xs) = total plus (plus acc x) xs

-- The least value so far, over the rest of a list.
unfoldable least : (Float64 → Float64 → Bool) → Float64 → List Float64 → Float64
least less m [] = m
least less m (x ∷ xs) = least less (if less x m then x else m) xs

module _ (less : Float64 → Float64 → Bool) (strict : IsStrict less) where
  -- The least value is the first one or less than it.
  least_le :
      (m : Float64) (xs : List Float64) → (least less m xs ≡ m) ⊎ (less (least less m xs) m ≡ true)
  unfolding least
  least_le m [] = inl refl
  least_le m (x ∷ xs) = elim (Bool-cases (less x m)) [
    | inr kept ↦ simp (kept) (least_le m xs)
    | inl lower ↦ simp (lower) (elim (least_le x xs) [
      | inl e ↦ inr (ap (λ r. less r m) e ∙ lower)
      | inr l ↦ inr (strict.1 (least less x xs) x m l lower)
    ])
  ]

  -- What is not less than the first value is not less than the least one.
  least_not_above :
      (y m : Float64) (xs : List Float64) → less y m ≡ false → less y (least less m xs) ≡ false
  least_not_above y m xs not_less = elim (least_le m xs) [
    | inl e ↦ ap (less y) e ∙ not_less
    | inr l ↦ elim (Bool-cases (less y (least less m xs))) [
      | inr kept ↦ kept
      | inl lower ↦ absurd (cc_of y m xs not_less (strict.1 y (least less m xs) m lower l))
    ]
  ]
    where
      cc_of : (y m : Float64) (xs : List Float64) → less y m ≡ false → less y m ≡ true → ⊥
      cc_of y m xs a b = ground (arith, a, b)

  least-IsLeast : (m : Float64) (xs : List Float64) → IsLeast less (m ∷ xs) (least less m xs)
  unfolding least
  least-IsLeast m [] = (inl refl, (strict.0 m, tt))
  least-IsLeast m (x ∷ xs) = elim (Bool-cases (less x m)) [
    | inl lower ↦
        let (own, all) = least-IsLeast x xs in
        let low : less m (least less x xs) ≡ false = least_not_above m x xs (asym x m lower) in
        let step : least less m (x ∷ xs) ≡ least less x xs = simp (lower) refl in
        subst (IsLeast less (m ∷ x ∷ xs)) (sym step) (inr own, (low, all))
    | inr kept ↦
        let (own, all) = least-IsLeast m xs in
        let step : least less m (x ∷ xs) ≡ least less m xs = simp (kept) refl in
        subst (IsLeast less (m ∷ x ∷ xs)) (sym step)
          (around (least less m xs) m x xs own, (all.0, (least_not_above x m xs kept, all.1)))
  ]
    where
      asym : (x m : Float64) → less x m ≡ true → less m x ≡ false
      asym x m lower = elim (Bool-cases (less m x)) [
        | inr kept ↦ kept
        | inl back ↦ absurd (ground (arith, strict.0 m, strict.1 m x m back lower))
      ]

      around : (a m x : Float64) (xs : List Float64) → Elem a (m ∷ xs) → Elem a (m ∷ x ∷ xs)
      around a m x xs (inl e) = inl e
      around a m x xs (inr e) = inr (inr e)

module _ (fl : FloatOps) where
  sum_from-total :
      (acc : Float64) (ss : List Sample) → sum_from fl acc ss ≡ total fl.plus acc (values ss)
  unfolding total
  sum_from-total acc [] = refl
  sum_from-total acc (s ∷ ss) = sum_from-total (fl.plus acc s.value) ss

  min_from-least : (m : Float64) (ss : List Sample) → min_from fl m ss ≡ least fl.lt m (values ss)
  unfolding least
  min_from-least m [] = refl
  min_from-least m (s ∷ ss) = min_from-least (if fl.lt s.value m then s.value else m) ss

  max_from-least :
      (m : Float64) (ss : List Sample) → max_from fl m ss ≡ least (λ a b. fl.lt b a) m (values ss)
  unfolding least
  max_from-least m [] = refl
  max_from-least m (s ∷ ss) = max_from-least (if fl.lt m s.value then s.value else m) ss

  -- The answer of an aggregate: a count is always there, the others need a sample.
  abbrev pub IsAggregate : Agg → List Float64 → Option Float64 → Type 0
  IsAggregate count xs o = o ≡ some (fl.of_int (length xs))
  IsAggregate (Agg.invalid s) xs o = o ≡ none
  IsAggregate avg [] o = o ≡ none
  IsAggregate sum [] o = o ≡ none
  IsAggregate min [] o = o ≡ none
  IsAggregate max [] o = o ≡ none
  IsAggregate avg (x ∷ xs) o =
      o ≡ some (fl.divide (total fl.plus fl.zero_float (x ∷ xs)) (fl.of_int (length (x ∷ xs))))
  IsAggregate sum (x ∷ xs) o = o ≡ some (total fl.plus fl.zero_float (x ∷ xs))
  IsAggregate min (x ∷ xs) o = (m : Float64) × (o ≡ some m) × IsLeast fl.lt (x ∷ xs) m
  IsAggregate max (x ∷ xs) o = (m : Float64) × (o ≡ some m) × IsLeast (λ a b. fl.lt b a) (x ∷ xs) m

module _ (rt : Runtime) where
  -- Each aggregate is what its name says of the values of the samples.
  pub aggregate-IsAggregate :
      (agg : Agg) (ss : List Sample)
      → IsStrict rt.floats.lt
      → IsAggregate rt.floats agg (values ss) (aggregate rt agg ss)
  unfolding aggregate avg_over sum_over min_over max_over count_over
  aggregate-IsAggregate count ss strict =
      ap (λ n. some (rt.floats.of_int n)) (sym (length-map (λ s. s.value) ss))
  aggregate-IsAggregate (Agg.invalid s) ss strict = refl
  aggregate-IsAggregate avg [] strict = refl
  aggregate-IsAggregate sum [] strict = refl
  aggregate-IsAggregate min [] strict = refl
  aggregate-IsAggregate max [] strict = refl
  aggregate-IsAggregate avg (s ∷ ss) strict =
      ap₂ (λ x n. some (rt.floats.divide x (rt.floats.of_int n)))
        (sum_from-total rt.floats rt.floats.zero_float (s ∷ ss))
        (sym (length-map (λ s. s.value) (s ∷ ss)))
  aggregate-IsAggregate sum (s ∷ ss) strict =
      ap some (sum_from-total rt.floats rt.floats.zero_float (s ∷ ss))
  aggregate-IsAggregate min (s ∷ ss) strict = (
    least rt.floats.lt s.value (values ss),
    ap some (min_from-least rt.floats s.value ss),
    least-IsLeast rt.floats.lt strict s.value (values ss),
  )
  aggregate-IsAggregate max (s ∷ ss) strict = (
    least (λ a b. rt.floats.lt b a) s.value (values ss),
    ap some (max_from-least rt.floats s.value ss),
    least-IsLeast (λ a b. rt.floats.lt b a) (strict.0, λ a b c x y. strict.1 c b a y x) s.value
        (values ss),
  )
