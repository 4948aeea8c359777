-- ===== src/Eval/Scheduled/Due.antt =====
-- Which rules one wake-up of the scheduled evaluator evaluates.
use signalwatch.Base.{
  ◌||◌, Bool, true, false, String, ◌==◌, ◌≡◌, refl, ◌∙◌, ap, List, [], ◌∷◌, arith, eq_iff, inl, inr,
  Bool-cases, if◌then◌else◌,
}
use signalwatch.Base.Lists.{any, select}
use signalwatch.Base.Int.{leb_ℤ}
use signalwatch.Base.Time.{Time, is_zero, sub as elapsed}
use signalwatch.Eval.Cache.{Cache, CompiledRule, has_rule, scheduled}
use signalwatch.Eval.Scheduled.{Sources, Last, is_due, note, eval_one, eval_due, wake}
use signalwatch.Dispatcher.World.{World, Env}

-- Evaluations one after the other.
unfoldable pub eval_all : Env → Sources → List CompiledRule → Time → World → World
eval_all env src [] now w = w
eval_all env src (cr ∷ crs) now w = eval_all env src crs now (eval_one env src cr now w)

-- The ids of the rules are distinct.
abbrev pub Distinct : List CompiledRule → Type 0
Distinct [] = Unit
Distinct (cr ∷ crs) = (any (has_rule cr.rule.id) crs ≡ false) × Distinct crs

-- A rule is due if it was never evaluated, or its schedule is no longer than the time since then.
abbrev pub due : Last → Time → CompiledRule → Bool
due last now cr =
    is_zero (last cr.rule.id) || leb_ℤ cr.rule.schedule (elapsed now (last cr.rule.id))

-- The test of the loop.
is_due-due :
    (last : Last) (now : Time) (cr : CompiledRule) → is_due cr.rule last now ≡ due last now cr
is_due-due last now cr = ground arith

-- A rule that is noted does not matter to whether others are due.
note_apart :
    (id j : String) (now : Time) (last : Last) → (j == id) ≡ false → note id now last j ≡ last j
note_apart id j now last apart = rw apart refl

due-note :
    (id : String) (now : Time) (last : Last) (crs : List CompiledRule)
    → any (has_rule id) crs ≡ false
    → select (due (note id now last) now) crs ≡ select (due last now) crs
unfolding select any
due-note id now last [] apart = refl
due-note id now last (cr ∷ crs) apart = elim (Bool-cases (has_rule id cr)) [
  | inl hit ↦ ground (arith, hit)
  | inr miss ↦ simp (note_apart id cr.rule.id now last miss) (
      ap (λ rest. if due last now cr then cr ∷ rest else rest)
        (due-note id now last crs (ground (arith, miss))))
]

merged :
    (a id : String) (t u : Time) (rest : Bool)
    → (if rest then t else if id == a then t else u)
      ≡ (if (if a == id then true else rest) then t else u)
merged a id t u true = ground (arith, eq_iff id a, eq_iff a id)
merged a id t u false = ground (arith, eq_iff id a, eq_iff a id)

module _ (env : Env) (src : Sources) where
  eval_due-world :
      (crs : List CompiledRule) (now : Time) (last : Last) (w : World)
      → Distinct crs
      → (eval_due env src crs now (last, w)).1 ≡ eval_all env src (select (due last now) crs) now w
  unfolding eval_due eval_all select
  eval_due-world [] now last w apart = refl
  eval_due-world (cr ∷ crs) now last w apart = elim (Bool-cases (due last now cr)) [
    | inl h ↦
        simp (h, is_due-due last now cr ∙ h)
          (eval_due-world crs now (note cr.rule.id now last) (eval_one env src cr now w) apart.1
            ∙ ap (λ l. eval_all env src l now (eval_one env src cr now w))
                (due-note cr.rule.id now last crs apart.0))
    | inr h ↦ simp (h, is_due-due last now cr ∙ h) (eval_due-world crs now last w apart.1)
  ]

  eval_due-last :
      (crs : List CompiledRule) (now : Time) (last : Last) (w : World) (id : String)
      → Distinct crs
      → (eval_due env src crs now (last, w)).0 id
        ≡ (if any (has_rule id) (select (due last now) crs) then now else last id)
  unfolding eval_due any select
  eval_due-last [] now last w id apart = refl
  eval_due-last (cr ∷ crs) now last w id apart = elim (Bool-cases (due last now cr)) [
    | inl h ↦
        simp (h, is_due-due last now cr ∙ h)
          (eval_due-last crs now (note cr.rule.id now last) (eval_one env src cr now w) id apart.1
            ∙ ap (λ l. if any (has_rule id) l then now else note cr.rule.id now last id)
                (due-note cr.rule.id now last crs apart.0)
            ∙ merged cr.rule.id id now (last id) (any (has_rule id) (select (due last now) crs)))
    | inr h ↦ simp (h, is_due-due last now cr ∙ h) (eval_due-last crs now last w id apart.1)
  ]

  -- A wake-up evaluates each scheduled rule whose schedule has elapsed, or that was never evaluated,
  -- once and in order, and no other; it notes the time for exactly the rules that it evaluates. The
  -- ids of the scheduled rules are distinct.
  pub wake_exact :
      (cache : Cache) (now : Time) (last : Last) (w : World)
      → Distinct (scheduled cache)
      → let run = select (due last now) (scheduled cache) in
        ((wake env src cache now (last, w)).1 ≡ eval_all env src run now w)
        × ((id : String)
            → (wake env src cache now (last, w)).0 id
              ≡ (if any (has_rule id) run then now else last id))
  unfolding wake
  wake_exact cache now last w apart = (
    eval_due-world (scheduled cache) now last w apart,
    λ id. eval_due-last (scheduled cache) now last w id apart,
  )
