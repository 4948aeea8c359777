-- ===== src/Api/Handlers/Rules/Laws.antt =====
-- What the check of a rule says of its creation.
use signalwatch.Base.{
  true, false, String, ◌==◌, ◌≡◌, refl, arith, some, if◌then◌else◌, Bool-cases, inl, inr,
}
use signalwatch.Base.Lists.{any}
use signalwatch.Base.Result.{Error, ok, err, Result-cases}
use signalwatch.Base.Time.{Time}
use signalwatch.Rule.Condition.{Condition, Libraries, compile}
use signalwatch.Rule.Model.{Rule, validate}
use signalwatch.Rule.Wire.{Json}
use signalwatch.Store.Db.{IsQuiet, exec_checked-quiet}
use signalwatch.Store.Rules
use signalwatch.Engine.{Engine, on_store, on_cache, compile_and_cache, create}
use signalwatch.Engine.Calls.{store-create}
use signalwatch.Engine.Rows.{is_ok}
use signalwatch.Api.Reply.{status}
use signalwatch.Api.Handlers.Subscriptions.{Seconds}
use signalwatch.Api.Handlers.Rules.{
  Payload, to_rule, with_condition, decode_condition, validate_rule, create_rule,
}

module _ (lib : Libraries) where
  compile_and_cache-is_ok :
      (r : Rule) (c : Condition) (e : Engine)
      → r.condition ≡ some c
      → is_ok (compile_and_cache lib r e).0 ≡ is_ok (compile lib c)
  unfolding compile_and_cache on_cache
  compile_and_cache-is_ok r c e set = elim (Result-cases (compile lib c)) [
    | inl (k, good) ↦ rw (set, good) refl
    | inr (x, bad) ↦ rw (set, bad) refl
  ]

  -- Where the store takes the rule, its creation succeeds if it is valid and, where it is enabled,
  -- its condition compiles.
  create-is_ok :
      (now : Time) (r : Rule) (c : Condition) (e : Engine)
      → IsQuiet e.db
      → any (Rules.has_id r.id) e.db.rules ≡ false
      → r.condition ≡ some c
      → is_ok (create lib now r e).0 ≡ (
          if is_ok (validate r) then (if r.enabled then is_ok (compile lib c) else true) else false)
  unfolding create on_store
  create-is_ok now r c e quiet new set = elim (Result-cases (validate r)) [
    | inr (x, bad) ↦ simp (bad) refl
    | inl (u, good) ↦ elim (Bool-cases r.enabled) [
      | inl on ↦
          simp
            (
              good,
              store-create lib now r c e.db set,
              exec_checked-quiet _ _ e.db quiet,
              new,
              on,
              compile_and_cache-is_ok _ c _ set,
            )
            refl
      | inr off ↦
          simp
            (good, store-create lib now r c e.db set, exec_checked-quiet _ _ e.db quiet, new, off)
            refl
    ]
  ]

module _ {Raw : Type 0} (json : Json Raw) (sec : Seconds) (lib : Libraries) where
  -- The status of a creation.
  create_status :
      (now : Time) (fresh : String) (p : Payload Raw) (c : Condition) (e : Engine)
      → decode_condition json sec p.condition ≡ ok c
      → status (create_rule json sec lib now fresh (ok p) e).0
        ≡ (if is_ok (create lib now (with_condition json sec fresh p c) e).0 then 201 else 400)
  unfolding create_rule to_rule status
  create_status now fresh p c e set =
      let r = with_condition json sec fresh p c in
      elim (Result-cases (create lib now r e).0) [
        | inl (u, good) ↦ simp (set, good) refl
        | inr (x, bad) ↦ simp (set, bad) refl
      ]

  validate_status :
      (fresh : String) (p : Payload Raw) (c : Condition) (e : Engine)
      → decode_condition json sec p.condition ≡ ok c
      → status (validate_rule json sec lib fresh (ok p) e).0 ≡ (
          if is_ok (validate (with_condition json sec fresh p c))
          then (if is_ok (compile lib c) then 200 else 400)
          else 400)
  unfolding validate_rule to_rule status with_condition
  validate_status fresh p c e set =
      let r = with_condition json sec fresh p c in
      elim (Result-cases (validate r)) [
        | inr (x, bad) ↦ simp (set, bad) refl
        | inl (u, good) ↦ elim (Result-cases (compile lib c)) [
          | inl (k, fine) ↦ simp (set, good, fine) refl
          | inr (x, bad) ↦ simp (set, good, bad) refl
        ]
      ]

  undecoded :
      (now : Time) (fresh : String) (p : Payload Raw) (x : Error) (e : Engine)
      → decode_condition json sec p.condition ≡ err x
      → (status (validate_rule json sec lib fresh (ok p) e).0 ≡ 400)
        × (status (create_rule json sec lib now fresh (ok p) e).0 ≡ 400)
  unfolding validate_rule create_rule to_rule status
  undecoded now fresh p x e bad = (simp (bad) refl, simp (bad) refl)

  -- The check of a rule foretells its creation. Where the check answers 200, creating the same body
  -- answers 201; and where the rule is enabled, creating it answers 201 only if the check answers
  -- 200. No stored rule has the id, and the database does not fail.
  pub validate_foretells_create :
      (now : Time) (fresh : String) (p : Payload Raw) (e : Engine)
      → IsQuiet e.db
      → any (Rules.has_id (if p.id == "" then fresh else p.id)) e.db.rules ≡ false
      → let checked = status (validate_rule json sec lib fresh (ok p) e).0 in
        let made = status (create_rule json sec lib now fresh (ok p) e).0 in
        (checked ≡ 200 → made ≡ 201) × (p.enabled ≡ true → made ≡ 201 → checked ≡ 200)
  unfolding with_condition
  validate_foretells_create now fresh p e quiet new =
      elim (Result-cases (decode_condition json sec p.condition)) [
        | inr (x, bad) ↦ let both = undecoded now fresh p x e bad in ground (arith, both)
        | inl (c, set) ↦
            let r = with_condition json sec fresh p c in
            ground (
              arith,
              create_status now fresh p c e set,
              validate_status fresh p c e set,
              create-is_ok lib now r c e quiet new refl,
            )
      ]
