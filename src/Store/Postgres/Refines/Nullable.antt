-- ===== src/Store/Postgres/Refines/Nullable.antt =====
-- The repositories with texts that are NULL in Postgres where they are empty.
use signalwatch.Base.{
  Bool, not, String, ◌==◌, ◌≡◌, refl, sym, ap, ◌∙◌, [], ◌∷◌, ◌++◌, map, Option, none, some,
}
use signalwatch.Base.Int.{ℤ, leb_ℤ}
use signalwatch.Base.Lists.{any-map, find, select, take, sort_by, upsert_by}
use signalwatch.Rule.State.{LiveState}
use signalwatch.Subscriber.{Notification}
use signalwatch.Store.Db
use signalwatch.Store.Db.{nullable, text_of, text_of-nullable}
use signalwatch.Store.Notifications
use signalwatch.Store.Incidents.{page}
use signalwatch.Store.LiveStates
use signalwatch.Store.Postgres.Db as Pg
use signalwatch.Store.Postgres.Notifications as PgNotifications
use signalwatch.Store.Postgres.LiveStates as PgLiveStates
use signalwatch.Store.Postgres.View.{
  Refines, view, query-Refines, exec-Refines, exec_checked-Refines, plain_notification,
  plain_live_state, mapped, find-map, select-map, upsert_by-map, sort_by-map, take-map, map-append,
  map-map,
}

-- A live state's row, read without its NULLs, is the row of SQLite.
plain_live-to_row : (s : LiveState) → plain_live_state (PgLiveStates.to_row s) ≡ LiveStates.to_row s
unfolding PgLiveStates.to_row LiveStates.to_row
plain_live-to_row s = simp (text_of-nullable s.last_value, text_of-nullable s.last_error) refl

found_live :
    (o : Option Pg.LiveStateRow)
    → PgLiveStates.found o ≡ LiveStates.found (mapped plain_live_state o)
unfolding PgLiveStates.of_row LiveStates.of_row
found_live none = refl
found_live (some r) = refl

-- The repository of live states.
pub live_states-Refines :
    (s : LiveState) (id : String)
    → Refines (PgLiveStates.upsert s) (LiveStates.upsert s)
      × Refines (PgLiveStates.get id) (LiveStates.get id)
      × Refines PgLiveStates.list LiveStates.list
unfolding PgLiveStates.upsert LiveStates.upsert PgLiveStates.get LiveStates.get PgLiveStates.list
    LiveStates.list PgLiveStates.of_row LiveStates.of_row
live_states-Refines s id = (
  exec-Refines _ _ (λ db.
      let rows = map plain_live_state db.live_states in
      ap (λ l. record (view db) { live_states = l })
        (sym (
            upsert_by-map plain_live_state (LiveStates.has_rule s.rule_id) (PgLiveStates.to_row s)
              db.live_states)
          ∙ ap (λ row. upsert_by (LiveStates.has_rule s.rule_id) row rows) (plain_live-to_row s))),
  query-Refines _ _ (λ db.
      found_live (find (PgLiveStates.has_rule id) db.live_states)
      ∙ ap LiveStates.found
          (sym (find-map plain_live_state (LiveStates.has_rule id) db.live_states))),
  query-Refines _ _ (λ db. sym (map-map LiveStates.of_row plain_live_state db.live_states)),
)

plain_note-to_row :
    (n : Notification) → plain_notification (PgNotifications.to_row n) ≡ Notifications.to_row n
unfolding PgNotifications.to_row Notifications.to_row
plain_note-to_row n = simp (text_of-nullable n.failure) refl

-- The repository of notifications.
pub notifications-Refines :
    (n : Notification) (incident subscription : String) (limit : ℤ)
    → Refines (PgNotifications.record_sent n) (Notifications.record_sent n)
      × Refines
          (PgNotifications.list_for_incident incident)
          (Notifications.list_for_incident incident)
      × Refines (PgNotifications.list limit) (Notifications.list limit)
      × Refines
          (PgNotifications.exists_for_subscription subscription)
          (Notifications.exists_for_subscription subscription)
unfolding PgNotifications.record_sent Notifications.record_sent PgNotifications.list_for_incident
    Notifications.list_for_incident PgNotifications.list Notifications.list
    PgNotifications.exists_for_subscription Notifications.exists_for_subscription
    PgNotifications.of_row Notifications.of_row
notifications-Refines n incident subscription limit = (
  exec_checked-Refines _ _ _ _
      (λ db. ap not (sym (any-map plain_notification (λ r. r.id == n.id) db.notifications)))
      (λ db.
        ap (λ l. record (view db) { notifications = l })
          (map-append plain_notification db.notifications (PgNotifications.to_row n ∷ [])
            ∙ ap (λ row. map plain_notification db.notifications ++ row ∷ [])
                (plain_note-to_row n))),
  query-Refines _ _ (λ db.
      let of_incident : Db.NotificationRow → Bool = λ r. r.incident_id == incident in
      let earlier : Db.NotificationRow → Db.NotificationRow → Bool =
        λ a b. leb_ℤ a.sent_at b.sent_at in
      let chosen = select (λ r. of_incident (plain_notification r)) db.notifications in
      sym (
        ap (λ l. map Notifications.of_row (sort_by earlier l))
          (select-map plain_notification of_incident db.notifications)
        ∙ ap (map Notifications.of_row) (sort_by-map plain_notification earlier chosen)
        ∙ map-map Notifications.of_row plain_notification
            (sort_by (λ a b. earlier (plain_notification a) (plain_notification b)) chosen))),
  query-Refines _ _ (λ db.
      let later : Db.NotificationRow → Db.NotificationRow → Bool =
        λ a b. leb_ℤ b.sent_at a.sent_at in
      let sorted =
        sort_by (λ a b. later (plain_notification a) (plain_notification b)) db.notifications in
      sym (
        ap (λ l. map Notifications.of_row (take (page limit) l))
          (sort_by-map plain_notification later db.notifications)
        ∙ ap (map Notifications.of_row) (take-map plain_notification (page limit) sorted)
        ∙ map-map Notifications.of_row plain_notification (take (page limit) sorted))),
  query-Refines _ _ (λ db.
      sym (
        any-map plain_notification (Notifications.for_subscription subscription) db.notifications)),
)
