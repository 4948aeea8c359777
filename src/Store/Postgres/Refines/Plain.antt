-- ===== src/Store/Postgres/Refines/Plain.antt =====
-- The repositories whose tables are the same in Postgres and in SQLite.
use signalwatch.Base.{
  Bool, String, ◌==◌, ◌≡◌, refl, ap, List, ◌++◌, map, Option-cases, Bool-cases, inl, inr,
}
use Prim.Native.String.{compare}
use text.Mathlib.Text.{is_le}
use signalwatch.Base.Int.{ℤ}
use signalwatch.Base.Result.{pure, ◌>>=◌}
use signalwatch.Base.Time.{Time}
use signalwatch.Rule.Model.{Rule}
use signalwatch.Subscriber.{Labels, Subscriber, Subscription, IncidentSubState}
use signalwatch.Auth.Token.{Token}
use signalwatch.Base.Lists.{select}
use signalwatch.Store.Db
use signalwatch.Store.Db.{SubscriptionRow}
use signalwatch.Store.Postgres.Db as Pg
use signalwatch.Store.Rules
use signalwatch.Store.Subscribers
use signalwatch.Store.Subscriptions
use signalwatch.Store.SubStates
use signalwatch.Store.Tokens
use signalwatch.Store.Postgres.Rules as PgRules
use signalwatch.Store.Postgres.Subscribers as PgSubscribers
use signalwatch.Store.Postgres.Subscriptions as PgSubscriptions
use signalwatch.Store.Postgres.SubStates as PgSubStates
use signalwatch.Store.Postgres.Tokens as PgTokens
use signalwatch.Store.Postgres.View.{
  Refines, query-Refines, exec-Refines, exec_checked-Refines, bind-Refines, sort_by-cong,
}

create_rule-Refines : (now : Time) (x : Rule) → Refines (PgRules.create now x) (Rules.create now x)
unfolding PgRules.create Rules.create PgRules.created_row Rules.created_row
create_rule-Refines now x db = elim (Option-cases x.condition) [
  | inl nil ↦ rw nil (tt, refl)
  | inr (c, set) ↦ rw set (exec_checked-Refines _ _ _ _ (λ db. refl) (λ db. refl) db)
]

update_rule-Refines : (now : Time) (x : Rule) → Refines (PgRules.update now x) (Rules.update now x)
unfolding PgRules.update Rules.update PgRules.updated_row Rules.updated_row
update_rule-Refines now x db = elim (Option-cases x.condition) [
  | inl nil ↦ rw nil (tt, refl)
  | inr (c, set) ↦ rw set (exec-Refines _ _ (λ db. refl) db)
]

-- The repository of rules.
pub rules-Refines :
    (now : Time) (x : Rule) (id ref : String)
    → Refines (PgRules.create now x) (Rules.create now x)
      × Refines (PgRules.update now x) (Rules.update now x)
      × Refines (PgRules.delete id) (Rules.delete id)
      × Refines (PgRules.get id) (Rules.get id)
      × Refines (PgRules.list_by_input ref) (Rules.list_by_input ref)
unfolding PgRules.delete Rules.delete PgRules.get Rules.get PgRules.list_by_input
    Rules.list_by_input PgRules.of_row Rules.of_row
rules-Refines now x id ref = (
  create_rule-Refines now x,
  update_rule-Refines now x,
  exec-Refines _ _ (λ db. refl),
  query-Refines _ _ (λ db. refl),
  query-Refines _ _ (λ db. refl),
)

-- The repository of subscribers.
pub subscribers-Refines :
    (now : Time) (x : Subscriber) (id : String)
    → Refines (PgSubscribers.create now x) (Subscribers.create now x)
      × Refines (PgSubscribers.update now x) (Subscribers.update now x)
      × Refines (PgSubscribers.delete id) (Subscribers.delete id)
      × Refines (PgSubscribers.get id) (Subscribers.get id)
unfolding PgSubscribers.create Subscribers.create PgSubscribers.update Subscribers.update
    PgSubscribers.delete Subscribers.delete PgSubscribers.get Subscribers.get
    PgSubscribers.created_row Subscribers.created_row PgSubscribers.of_row Subscribers.of_row
subscribers-Refines now x id = (
  exec_checked-Refines _ _ _ _ (λ db. refl) (λ db. refl),
  exec-Refines _ _ (λ db. refl),
  exec-Refines _ _ (λ db. refl),
  query-Refines _ _ (λ db. refl),
)

list_for_rule-Refines :
    (rule : String) (labels : Labels)
    → Refines (PgSubscriptions.list_for_rule rule labels) (Subscriptions.list_for_rule rule labels)
unfolding PgSubscriptions.list_for_rule Subscriptions.list_for_rule PgSubscriptions.of_row
    Subscriptions.of_row
list_for_rule-Refines rule labels =
    let named : List SubscriptionRow → List Subscription =
      λ rows. map Subscriptions.of_row (select (Subscriptions.for_rule rule) rows) in
    let unnamed : List SubscriptionRow → List Subscription =
      λ rows. map Subscriptions.of_row (select Subscriptions.by_labels rows) in
    let join : List Subscription → List Subscription → List Subscription =
      λ out all. out ++ select (λ s. Subscriptions.match_labels s.label_selector labels) all in
    bind-Refines (λ out. Pg.query (λ db. unnamed db.subscriptions) >>= (λ all. pure (join out all)))
      (λ out. Db.query (λ db. unnamed db.subscriptions) >>= (λ all. pure (join out all)))
      (Pg.query (λ db. named db.subscriptions)) (Db.query (λ db. named db.subscriptions))
      (query-Refines _ _ (λ db. refl))
      (λ out.
        bind-Refines (λ all. pure (join out all)) (λ all. pure (join out all))
          (Pg.query (λ db. unnamed db.subscriptions)) (Db.query (λ db. unnamed db.subscriptions))
          (query-Refines _ _ (λ db. refl)) (λ all db. (refl, refl)))

-- The repository of subscriptions.
pub subscriptions-Refines :
    (now : Time) (x : Subscription) (id rule : String) (labels : Labels)
    → Refines (PgSubscriptions.create now x) (Subscriptions.create now x)
      × Refines (PgSubscriptions.update now x) (Subscriptions.update now x)
      × Refines (PgSubscriptions.delete id) (Subscriptions.delete id)
      × Refines (PgSubscriptions.get id) (Subscriptions.get id)
      × Refines
          (PgSubscriptions.list_for_rule rule labels)
          (Subscriptions.list_for_rule rule labels)
unfolding PgSubscriptions.create Subscriptions.create PgSubscriptions.update Subscriptions.update
    PgSubscriptions.delete Subscriptions.delete PgSubscriptions.get Subscriptions.get
    PgSubscriptions.list_for_rule Subscriptions.list_for_rule PgSubscriptions.created_row
    Subscriptions.created_row PgSubscriptions.of_row Subscriptions.of_row
subscriptions-Refines now x id rule labels = (
  exec_checked-Refines _ _ _ _ (λ db. refl) (λ db. refl),
  exec_checked-Refines _ _ _ _ (λ db. refl) (λ db. refl),
  exec-Refines _ _ (λ db. refl),
  query-Refines _ _ (λ db. refl),
  list_for_rule-Refines rule labels,
)

-- The repository of delivery states.
pub sub_states-Refines :
    (s : IncidentSubState) (incident subscription : String)
    → Refines (PgSubStates.upsert s) (SubStates.upsert s)
      × Refines (PgSubStates.get incident subscription) (SubStates.get incident subscription)
      × Refines (PgSubStates.list_for_incident incident) (SubStates.list_for_incident incident)
unfolding PgSubStates.upsert SubStates.upsert PgSubStates.get SubStates.get
    PgSubStates.list_for_incident SubStates.list_for_incident PgSubStates.to_row SubStates.to_row
    PgSubStates.of_row SubStates.of_row
sub_states-Refines s incident subscription =
    (exec-Refines _ _ (λ db. refl), query-Refines _ _ (λ db. refl), query-Refines _ _ (λ db. refl))

create_token-Refines :
    (now : Time) (t : Token) → Refines (PgTokens.create now t) (Tokens.create now t)
unfolding PgTokens.create Tokens.create PgTokens.created_row Tokens.created_row
create_token-Refines now t db = elim (Bool-cases (t.token_hash == "")) [
  | inl empty ↦ simp (empty) (tt, refl)
  | inr full ↦ simp (full) (exec_checked-Refines _ _ _ _ (λ db. refl) (λ db. refl) db)
]

-- The repository of tokens.
pub tokens-Refines :
    (now : Time) (t : Token) (id hash : String) (ts : ℤ)
    → Refines (PgTokens.create now t) (Tokens.create now t)
      × Refines (PgTokens.get id) (Tokens.get id)
      × Refines (PgTokens.get_by_hash hash) (Tokens.get_by_hash hash)
      × Refines PgTokens.list Tokens.list
      × Refines (PgTokens.revoke id) (Tokens.revoke id)
      × Refines (PgTokens.touch_last_used id ts) (Tokens.touch_last_used id ts)
      × Refines (PgTokens.delete id) (Tokens.delete id)
unfolding PgTokens.get Tokens.get PgTokens.get_by_hash Tokens.get_by_hash PgTokens.list Tokens.list
    PgTokens.revoke Tokens.revoke PgTokens.touch_last_used Tokens.touch_last_used PgTokens.delete
    Tokens.delete PgTokens.of_row Tokens.of_row
tokens-Refines now t id hash ts = (
  create_token-Refines now t,
  query-Refines _ _ (λ db. refl),
  query-Refines _ _ (λ db. refl),
  query-Refines _ _ (λ db. refl),
  exec-Refines _ _ (λ db. refl),
  exec-Refines _ _ (λ db. refl),
  exec-Refines _ _ (λ db. refl),
)

-- The lists in the order of a text, where the collation is that of the bytes.
pub lists-Refines :
    (collates : String → String → Bool)
    → ((a b : String) → collates a b ≡ is_le (compare a b))
    → Refines (PgRules.list collates) Rules.list
      × Refines (PgSubscribers.list collates) Subscribers.list
      × Refines (PgSubscriptions.list collates) Subscriptions.list
unfolding PgRules.list Rules.list PgSubscribers.list Subscribers.list PgSubscriptions.list
    Subscriptions.list PgRules.of_row Rules.of_row PgSubscribers.of_row Subscribers.of_row
    PgSubscriptions.of_row Subscriptions.of_row
lists-Refines collates same = (
  query-Refines _ _ (λ db.
      ap (map Rules.of_row) (sort_by-cong _ Rules.by_name (λ a b. same a.name b.name) db.rules)),
  query-Refines _ _ (λ db.
      ap (map Subscribers.of_row)
        (sort_by-cong _ Subscribers.by_name (λ a b. same a.name b.name) db.subscribers)),
  query-Refines _ _ (λ db.
      ap (map Subscriptions.of_row)
        (sort_by-cong _ Subscriptions.by_id (λ a b. same a.id b.id) db.subscriptions)),
)
