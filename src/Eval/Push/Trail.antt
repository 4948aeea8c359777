-- ===== src/Eval/Push/Trail.antt =====
-- What the push evaluator ticks, and the audit trail under it.
use signalwatch.Base.{
  ◌&&◌, ◌==◌, not, refl, ap, ◌∙◌, ℕ, Bool, String, ◌≡◌, List, [], ◌∷◌, none, inl, inr, Bool-cases,
}
use signalwatch.Base.Lists.{select}
use signalwatch.Base.Result.{Result, ok, err}
use signalwatch.Base.Time.{Time, Duration}
use signalwatch.Rule.Model.{Rule}
use signalwatch.Eval.Cache.{CompiledRule, by_input, on_schedule}
use signalwatch.Eval.Conditions.{Runtime, eval}
use signalwatch.Eval.Push.{Arrival, Push, settle_push, push_one, push_rules, push_record, push_all}
use signalwatch.Dispatcher.World.{World, Env}
use signalwatch.Dispatcher.Deliver.Audit.{IsAudited}
use signalwatch.Dispatcher.Tick.{tick}
use signalwatch.Dispatcher.Tick.Trail.{tick-IsAudited}

module _ (env : Env) (injective : (m n : ℕ) → env.new_id m ≡ env.new_id n → m ≡ n)
    (rt : Runtime) where
  settle_push-IsAudited :
      (r : Rule) (now : Time) (out : Result (Bool × String)) (w : World)
      → IsAudited env w
      → IsAudited env (settle_push env rt r now out w)
  settle_push-IsAudited r now (err e) w h = h
  settle_push-IsAudited r now (ok (triggered, value)) w h =
      (tick-IsAudited env injective r triggered value now).after w h

  push_one-IsAudited :
      (a : Arrival) (cr : CompiledRule) (w : World)
      → IsAudited env w
      → IsAudited env (push_one env rt a cr w)
  unfolding push_one
  push_one-IsAudited a cr w h = elim (Bool-cases (on_schedule cr.rule.condition)) [
    | inl e ↦ simp e h
    | inr e ↦ simp e (
        settle_push-IsAudited cr.rule (a.tick_at cr.rule.id) (eval rt cr.compiled none a.fields) w
          h)
  ]

  push_rules-IsAudited :
      (a : Arrival) (crs : List CompiledRule) (w : World)
      → IsAudited env w
      → IsAudited env (push_rules env rt a crs w)
  unfolding push_rules
  push_rules-IsAudited a [] w h = h
  push_rules-IsAudited a (cr ∷ crs) w h =
      push_rules-IsAudited a crs (push_one env rt a cr w) (push_one-IsAudited a cr w h)

  -- The rules that a record is for: enabled, of its input, and not on a schedule.
  abbrev pub is_for : Arrival → CompiledRule → Bool
  is_for a cr =
      cr.rule.enabled && cr.rule.input_ref == a.input_ref && not (on_schedule cr.rule.condition)

  -- What a rule does with the outcome of its condition: a `Tick`, but nothing after an error.
  abbrev pub ticked : Arrival → Rule → Result (Bool × String) → World → World
  ticked a r (err e) w = w
  ticked a r (ok (triggered, value)) w = (tick env r triggered value (a.tick_at r.id) w).1

  unfoldable pub ticked_rules : Arrival → List CompiledRule → World → World
  ticked_rules a [] w = w
  ticked_rules a (cr ∷ crs) w =
      ticked_rules a crs (ticked a cr.rule (eval rt cr.compiled none a.fields) w)

  -- Each record ticks the rules that it is for, in the order of the cache.
  unfoldable pub ticked_all : List Arrival → World → World
  ticked_all [] w = w
  ticked_all (a ∷ rest) w = ticked_all rest (ticked_rules a (select (is_for a) a.cache) w)

  settle_push-ticked :
      (a : Arrival) (r : Rule) (out : Result (Bool × String)) (w : World)
      → settle_push env rt r (a.tick_at r.id) out w ≡ ticked a r out w
  settle_push-ticked a r (err e) w = refl
  settle_push-ticked a r (ok (triggered, value)) w = refl

  push_rules-ticked :
      (a : Arrival) (crs : List CompiledRule) (w : World)
      → push_rules env rt a (by_input a.input_ref crs) w ≡ ticked_rules a (select (is_for a) crs) w
  unfolding push_rules push_one by_input ticked_rules select
  push_rules-ticked a [] w = refl
  push_rules-ticked a (cr ∷ crs) w =
      let out = eval rt cr.compiled none a.fields in
      let same = settle_push-ticked a cr.rule out w in
      elim (Bool-cases (cr.rule.input_ref == a.input_ref)) [
        | inr other ↦ elim (Bool-cases cr.rule.enabled) [
          | inl on ↦ simp (other, on) (push_rules-ticked a crs w)
          | inr off ↦ simp (other, off) (push_rules-ticked a crs w)
        ]
        | inl own ↦ elim (Bool-cases cr.rule.enabled) [
          | inr off ↦ simp (own, off) (push_rules-ticked a crs w)
          | inl on ↦ elim (Bool-cases (on_schedule cr.rule.condition)) [
            | inl timed ↦ simp (own, on, timed) (push_rules-ticked a crs w)
            | inr free ↦
                simp (own, on, free)
                  (push_rules-ticked a crs _ ∙ ap (ticked_rules a (select (is_for a) crs)) same)
          ]
        ]
      ]

  push_all-ticked :
      (span : Duration) (arrivals : List Arrival) (p : Push)
      → (push_all env rt span arrivals p).world ≡ ticked_all arrivals p.world
  unfolding push_all push_record ticked_all
  push_all-ticked span [] p = refl
  push_all-ticked span (a ∷ rest) p =
      push_all-ticked span rest (push_record env rt span a p)
      ∙ ap (ticked_all rest) (push_rules-ticked a a.cache p.world)

  world-IsAudited :
      (span : Duration) (arrivals : List Arrival) (p : Push)
      → IsAudited env p.world
      → IsAudited env (push_all env rt span arrivals p).world
  unfolding push_all push_record
  world-IsAudited span [] p h = h
  world-IsAudited span (a ∷ rest) p h =
      world-IsAudited span rest (push_record env rt span a p)
        (push_rules-IsAudited a (by_input a.input_ref a.cache) p.world h)

  -- Over any records that the push evaluator takes, each record ticks exactly the enabled rules of
  -- its input that are not on a schedule, once and in the order of the cache, with the outcome of
  -- their conditions on the record, and no rule whose condition returns an error; and the
  -- notification rows stay the calls of `Send`, one for one and in order. The database does not fail,
  -- and minted ids are distinct and new.
  pub push_all-IsAudited :
      (span : Duration) (arrivals : List Arrival) (p : Push)
      → IsAudited env p.world
      → ((push_all env rt span arrivals p).world ≡ ticked_all arrivals p.world)
        × IsAudited env (push_all env rt span arrivals p).world
  push_all-IsAudited span arrivals p h =
      (push_all-ticked span arrivals p, world-IsAudited span arrivals p h)
