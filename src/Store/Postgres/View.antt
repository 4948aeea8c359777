-- ===== src/Store/Postgres/View.antt =====
-- A Postgres database read as a SQLite one, and what it means that two operations do the same.
use signalwatch.Base.{
  Bool, ◌≡◌, refl, sym, subst, ap, ◌∙◌, List, [], ◌∷◌, ◌++◌, map, Option, none, some, Bool-cases,
  inl, inr, arith, zero, suc, ℕ,
}
use signalwatch.Base.Lists.{find, select, upsert_by, insert_by, sort_by, take}
use signalwatch.Base.Result.{Result, ok, err, Exec, continue, ◌>>=◌}
use signalwatch.Store.Db
use signalwatch.Store.Db.{text_of, fault}
use signalwatch.Store.Postgres.Db as Pg

abbrev pub plain_notification : Pg.NotificationRow → Db.NotificationRow
plain_notification r = record {
  id = r.id;
  incident_id = r.incident_id;
  subscription_id = r.subscription_id;
  subscriber_id = r.subscriber_id;
  channel = r.channel;
  address = r.address;
  kind = r.kind;
  sent_at = r.sent_at;
  status = r.status;
  failure = text_of r.failure;
}

abbrev pub plain_live_state : Pg.LiveStateRow → Db.LiveStateRow
plain_live_state r = record {
  rule_id = r.rule_id;
  state = r.state;
  triggered_at = r.triggered_at;
  last_eval_at = r.last_eval_at;
  last_value = text_of r.last_value;
  last_error = text_of r.last_error;
  incident_id = r.incident_id;
}

-- The tables of a Postgres database, a NULL text read as the empty one.
abbrev pub view : Pg.Db → Db.Db
view db = record {
  rules = db.rules;
  subscribers = db.subscribers;
  subscriptions = db.subscriptions;
  incidents = db.incidents;
  notifications = map plain_notification db.notifications;
  live_states = map plain_live_state db.live_states;
  sub_states = db.sub_states;
  api_tokens = db.api_tokens;
  faults = db.faults;
}

-- The same value, or an error on both sides, whose texts may differ.
abbrev pub Agrees : {A : Type 0} → Result A → Result A → Type 0
Agrees (ok a) (ok b) = a ≡ b
Agrees (err e) (err x) = Unit
Agrees (ok a) (err x) = ⊥
Agrees (err e) (ok b) = ⊥

-- From every database, the two operations return the same and leave the same tables.
abbrev pub Refines : {A : Type 0} → Exec Pg.Db A → Exec Db.Db A → Type 0
Refines m n = (db : Pg.Db) → Agrees (m db).0 (n (view db)).0 × (view (m db).1 ≡ (n (view db)).1)

module _ {A : Type 0} where
  pub query-Refines :
      (f : Pg.Db → A) (g : Db.Db → A)
      → ((db : Pg.Db) → f db ≡ g (view db))
      → Refines (Pg.query f) (Db.query g)
  unfolding Pg.query Db.query
  query-Refines f g same db = elim (Bool-cases (fault db.faults)) [
    | inl e ↦ simp (e) (tt, refl)
    | inr e ↦ simp (e) (same db, refl)
  ]

pub exec-Refines :
    (f : Pg.Db → Pg.Db) (g : Db.Db → Db.Db)
    → ((db : Pg.Db) → view (f db) ≡ g (view db))
    → Refines (Pg.exec f) (Db.exec g)
unfolding Pg.exec Db.exec
exec-Refines f g same db = elim (Bool-cases (fault db.faults)) [
  | inl e ↦ simp (e) (tt, refl)
  | inr e ↦ simp (e) (refl, same (Pg.tick db))
]

pub exec_checked-Refines :
    (p : Pg.Db → Bool) (q : Db.Db → Bool) (f : Pg.Db → Pg.Db) (g : Db.Db → Db.Db)
    → ((db : Pg.Db) → p db ≡ q (view db))
    → ((db : Pg.Db) → view (f db) ≡ g (view db))
    → Refines (Pg.exec_checked p f) (Db.exec_checked q g)
unfolding Pg.exec_checked Db.exec_checked
exec_checked-Refines p q f g accepts same db = elim (Bool-cases (fault db.faults)) [
  | inl e ↦ simp (e) (tt, refl)
  | inr e ↦ elim (Bool-cases (p db)) [
    | inl held ↦ simp (e, held, sym (accepts db) ∙ held) (refl, same (Pg.tick db))
    | inr broken ↦ simp (e, broken, sym (accepts db) ∙ broken) (tt, refl)
  ]
]

-- Searches, selections and sorts by what a map keeps.
module _ {A B : Type 0} (f : A → B) where
  abbrev pub mapped : Option A → Option B
  mapped none = none
  mapped (some a) = some (f a)

  pub find-map : (p : B → Bool) (xs : List A) → find p (map f xs) ≡ mapped (find (λ x. p (f x)) xs)
  unfolding find
  find-map p [] = refl
  find-map p (x ∷ xs) = ground (arith, find-map p xs)

  pub select-map :
      (p : B → Bool) (xs : List A) → select p (map f xs) ≡ map f (select (λ x. p (f x)) xs)
  unfolding select
  select-map p [] = refl
  select-map p (x ∷ xs) = ground (arith, select-map p xs)

  pub upsert_by-map :
      (p : B → Bool) (a : A) (xs : List A)
      → upsert_by p (f a) (map f xs) ≡ map f (upsert_by (λ x. p (f x)) a xs)
  unfolding upsert_by
  upsert_by-map p a [] = refl
  upsert_by-map p a (x ∷ xs) = ground (arith, upsert_by-map p a xs)

  insert_by-map :
      (le : B → B → Bool) (a : A) (xs : List A)
      → insert_by le (f a) (map f xs) ≡ map f (insert_by (λ x y. le (f x) (f y)) a xs)
  unfolding insert_by
  insert_by-map le a [] = refl
  insert_by-map le a (x ∷ xs) = ground (arith, insert_by-map le a xs)

  pub sort_by-map :
      (le : B → B → Bool) (xs : List A)
      → sort_by le (map f xs) ≡ map f (sort_by (λ x y. le (f x) (f y)) xs)
  unfolding sort_by
  sort_by-map le [] = refl
  sort_by-map le (x ∷ xs) =
      ap (insert_by le (f x)) (sort_by-map le xs)
      ∙ insert_by-map le x (sort_by (λ x y. le (f x) (f y)) xs)

  pub take-map : (n : ℕ) (xs : List A) → take n (map f xs) ≡ map f (take n xs)
  take-map zero xs = refl
  take-map (suc n) [] = refl
  take-map (suc n) (x ∷ xs) = ap (λ l. f x ∷ l) (take-map n xs)

  pub map-append : (xs ys : List A) → map f (xs ++ ys) ≡ map f xs ++ map f ys
  map-append [] ys = refl
  map-append (x ∷ xs) ys = ap (λ l. f x ∷ l) (map-append xs ys)

pub map-map :
    {A B C : Type 0} (g : B → C) (f : A → B) (xs : List A)
    → map g (map f xs) ≡ map (λ x. g (f x)) xs
map-map g f [] = refl
map-map g f (x ∷ xs) = ap (λ l. g (f x) ∷ l) (map-map g f xs)

-- Equal orders sort alike.
module _ {A : Type 0} (le lf : A → A → Bool) (same : (a b : A) → le a b ≡ lf a b) where
  insert_by-cong : (a : A) (xs : List A) → insert_by le a xs ≡ insert_by lf a xs
  unfolding insert_by
  insert_by-cong a [] = refl
  insert_by-cong a (x ∷ xs) = ground (arith, same a x, insert_by-cong a xs)

  pub sort_by-cong : (xs : List A) → sort_by le xs ≡ sort_by lf xs
  unfolding sort_by
  sort_by-cong [] = refl
  sort_by-cong (x ∷ xs) = insert_by-cong x (sort_by le xs) ∙ ap (insert_by lf x) (sort_by-cong xs)

module _ {A B : Type 0} (f : A → Exec Pg.Db B) (g : A → Exec Db.Db B) where
  continue-Refines :
      (r r' : Result A) (s : Pg.Db) (s' : Db.Db)
      → ((a : A) → Refines (f a) (g a))
      → Agrees r r'
      → view s ≡ s'
      → Agrees (continue r f s).0 (continue r' g s').0
        × (view (continue r f s).1 ≡ (continue r' g s').1)
  continue-Refines (ok a) (ok b) s s' k same e =
      subst (λ t. Agrees (f a s).0 (g b t).0 × (view (f a s).1 ≡ (g b t).1)) e
        (subst (λ c. Agrees (f a s).0 (g c (view s)).0 × (view (f a s).1 ≡ (g c (view s)).1)) same
          (k a s))
  continue-Refines (err x) (err y) s s' k same e = (tt, e)
  continue-Refines (ok a) (err y) s s' k same e = absurd same
  continue-Refines (err x) (ok b) s s' k same e = absurd same

  pub bind-Refines :
      (m : Exec Pg.Db A) (n : Exec Db.Db A)
      → Refines m n
      → ((a : A) → Refines (f a) (g a))
      → Refines (m >>= f) (n >>= g)
  bind-Refines m n h k db =
      continue-Refines (m db).0 (n (view db)).0 (m db).1 (n (view db)).1 k (h db).0 (h db).1
