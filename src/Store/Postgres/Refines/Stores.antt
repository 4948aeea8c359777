-- ===== src/Store/Postgres/Refines/Stores.antt =====
-- The Postgres store beside the SQLite store.
use signalwatch.Base.{String, ◌≡◌, Bool}
use Prim.Native.String.{compare}
use text.Mathlib.Text.{is_le}
use signalwatch.Base.Int.{ℤ}
use signalwatch.Base.Time.{Time}
use signalwatch.Rule.Model.{Rule}
use signalwatch.Rule.State.{LiveState}
use signalwatch.Auth.Token.{Token}
use signalwatch.Subscriber.{
  Labels, Subscriber, Subscription, Incident, IncidentSubState, Notification,
}
use signalwatch.Store.Rules
use signalwatch.Store.Subscribers
use signalwatch.Store.Subscriptions
use signalwatch.Store.Incidents
use signalwatch.Store.Notifications
use signalwatch.Store.LiveStates
use signalwatch.Store.SubStates
use signalwatch.Store.Tokens
use signalwatch.Store.Postgres.Rules as PgRules
use signalwatch.Store.Postgres.Subscribers as PgSubscribers
use signalwatch.Store.Postgres.Subscriptions as PgSubscriptions
use signalwatch.Store.Postgres.Incidents as PgIncidents
use signalwatch.Store.Postgres.Notifications as PgNotifications
use signalwatch.Store.Postgres.LiveStates as PgLiveStates
use signalwatch.Store.Postgres.SubStates as PgSubStates
use signalwatch.Store.Postgres.Tokens as PgTokens
use signalwatch.Store.Postgres.View.{Refines}
use signalwatch.Store.Postgres.Refines.Plain.{
  rules-Refines, subscribers-Refines, subscriptions-Refines, sub_states-Refines, tokens-Refines,
  lists-Refines,
}
use signalwatch.Store.Postgres.Refines.Nullable.{live_states-Refines, notifications-Refines}
use signalwatch.Store.Postgres.Refines.Purge.{incidents-Refines}

-- The bytes decide the order of texts.
abbrev pub IsBytewise : (String → String → Bool) → Type 0
IsBytewise collates = (a b : String) → collates a b ≡ is_le (compare a b)

abbrev pub RulesRefine : (String → String → Bool) → Type 0
RulesRefine collates =
    (now : Time) (x : Rule) (id ref : String)
    → Refines (PgRules.create now x) (Rules.create now x)
      × Refines (PgRules.update now x) (Rules.update now x)
      × Refines (PgRules.delete id) (Rules.delete id)
      × Refines (PgRules.get id) (Rules.get id)
      × Refines (PgRules.list_by_input ref) (Rules.list_by_input ref)
      × Refines (PgRules.list collates) Rules.list

abbrev pub SubscribersRefine : (String → String → Bool) → Type 0
SubscribersRefine collates =
    (now : Time) (x : Subscriber) (id : String)
    → Refines (PgSubscribers.create now x) (Subscribers.create now x)
      × Refines (PgSubscribers.update now x) (Subscribers.update now x)
      × Refines (PgSubscribers.delete id) (Subscribers.delete id)
      × Refines (PgSubscribers.get id) (Subscribers.get id)
      × Refines (PgSubscribers.list collates) Subscribers.list

abbrev pub SubscriptionsRefine : (String → String → Bool) → Type 0
SubscriptionsRefine collates =
    (now : Time) (x : Subscription) (id rule : String) (labels : Labels)
    → Refines (PgSubscriptions.create now x) (Subscriptions.create now x)
      × Refines (PgSubscriptions.update now x) (Subscriptions.update now x)
      × Refines (PgSubscriptions.delete id) (Subscriptions.delete id)
      × Refines (PgSubscriptions.get id) (Subscriptions.get id)
      × Refines (PgSubscriptions.list_for_rule rule labels)
          (Subscriptions.list_for_rule rule labels)
      × Refines (PgSubscriptions.list collates) Subscriptions.list

abbrev pub IncidentsRefine : Type 0
IncidentsRefine =
    (inc : Incident) (id rule : String) (at before limit : ℤ)
    → Refines (PgIncidents.open_incident inc) (Incidents.open_incident inc)
      × Refines (PgIncidents.resolve id at) (Incidents.resolve id at)
      × Refines (PgIncidents.get id) (Incidents.get id)
      × Refines (PgIncidents.list limit) (Incidents.list limit)
      × Refines (PgIncidents.list_for_rule rule limit) (Incidents.list_for_rule rule limit)
      × Refines (PgIncidents.list_resolved_before before) (Incidents.list_resolved_before before)
      × Refines (PgIncidents.delete_resolved_before before)
          (Incidents.delete_resolved_before before)

abbrev pub NotificationsRefine : Type 0
NotificationsRefine =
    (n : Notification) (incident subscription : String) (limit : ℤ)
    → Refines (PgNotifications.record_sent n) (Notifications.record_sent n)
      × Refines (PgNotifications.list_for_incident incident)
          (Notifications.list_for_incident incident)
      × Refines (PgNotifications.list limit) (Notifications.list limit)
      × Refines (PgNotifications.exists_for_subscription subscription)
          (Notifications.exists_for_subscription subscription)

abbrev pub StatesRefine : Type 0
StatesRefine =
    (s : LiveState) (t : IncidentSubState) (id incident subscription : String)
    → Refines (PgLiveStates.upsert s) (LiveStates.upsert s)
      × Refines (PgLiveStates.get id) (LiveStates.get id)
      × Refines PgLiveStates.list LiveStates.list
      × Refines (PgSubStates.upsert t) (SubStates.upsert t)
      × Refines (PgSubStates.get incident subscription) (SubStates.get incident subscription)
      × Refines (PgSubStates.list_for_incident incident) (SubStates.list_for_incident incident)

abbrev pub TokensRefine : Type 0
TokensRefine =
    (now : Time) (t : Token) (id hash : String) (ts : ℤ)
    → Refines (PgTokens.create now t) (Tokens.create now t)
      × Refines (PgTokens.get id) (Tokens.get id)
      × Refines (PgTokens.get_by_hash hash) (Tokens.get_by_hash hash)
      × Refines PgTokens.list Tokens.list
      × Refines (PgTokens.revoke id) (Tokens.revoke id)
      × Refines (PgTokens.touch_last_used id ts) (Tokens.touch_last_used id ts)
      × Refines (PgTokens.delete id) (Tokens.delete id)

-- The Postgres store does what the SQLite store does where the same statements fail. Every operation
-- of the eight repositories, with failures of the driver at the same places, returns what the SQLite
-- one returns, up to the text of an error, on the same tables with each NULL text read as the empty
-- one, and leaves tables that read as those that it leaves; where the driver fails while the ids of a
-- purge are read, both purge with the same first part of them. Texts are ordered by their bytes in
-- Postgres too, rows that a query does not order come in the order of insertion on both sides, and a
-- text that only Postgres refuses counts as a failure of its statement, so that it must fail in both.
pub postgres_refines_sqlite :
    (collates : String → String → Bool)
    → IsBytewise collates
    → RulesRefine collates
      × SubscribersRefine collates
      × SubscriptionsRefine collates
      × IncidentsRefine
      × NotificationsRefine
      × StatesRefine
      × TokensRefine
postgres_refines_sqlite collates bytewise =
    let (rules, subscribers, subscriptions) = lists-Refines collates bytewise in
    (
      λ now x id ref. let (a, b, c, d, e) = rules-Refines now x id ref in (a, b, c, d, e, rules),
      λ now x id. let (a, b, c, d) = subscribers-Refines now x id in (a, b, c, d, subscribers),
      λ now x id rule labels.
          let (a, b, c, d, e) = subscriptions-Refines now x id rule labels in
          (a, b, c, d, e, subscriptions),
      incidents-Refines,
      notifications-Refines,
      λ s t id incident subscription.
          let (a, b, c) = live_states-Refines s id in
          let (d, e, f) = sub_states-Refines t incident subscription in (a, b, c, d, e, f),
      tokens-Refines,
    )
