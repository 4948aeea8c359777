-- ===== src/Store/Postgres/Notifications.antt =====
-- notificationRepo of internal/store/postgres/postgres.go: the audit trail.
use signalwatch.Base.{Bool, not, String, ◌==◌, List, [], ◌∷◌, ◌++◌, map}
use signalwatch.Base.Int.{ℤ, leb_ℤ}
use signalwatch.Base.Lists.{take, any, select, sort_by}
use signalwatch.Base.Result.{Exec}
use signalwatch.Base.Time.{unix_milli, of_unix_milli}
use signalwatch.Subscriber.{Notification}
use signalwatch.Store.Postgres.Db.{Db, NotificationRow, query, exec_checked}
use signalwatch.Store.Incidents.{page}
use signalwatch.Store.Db.{nullable, text_of}

unfoldable pub to_row : Notification → NotificationRow
to_row n = record {
  id = n.id;
  incident_id = n.incident_id;
  subscription_id = n.subscription_id;
  subscriber_id = n.subscriber_id;
  channel = n.channel;
  address = n.address;
  kind = n.kind;
  sent_at = unix_milli n.sent_at;
  status = n.status;
  failure = nullable n.failure;
}

-- `scanNotifications`, one row.
unfoldable pub of_row : NotificationRow → Notification
of_row r = record {
  id = r.id;
  incident_id = r.incident_id;
  subscription_id = r.subscription_id;
  subscriber_id = r.subscriber_id;
  channel = r.channel;
  address = r.address;
  kind = r.kind;
  sent_at = of_unix_milli r.sent_at;
  status = r.status;
  failure = text_of r.failure;
}

-- `Record`: the id is the primary key.
unfoldable pub record_sent : Notification → Exec Db (Unit {0})
record_sent n =
    exec_checked (λ db. not (any (λ r. r.id == n.id) db.notifications))
      (λ db. record db { notifications = db.notifications ++ to_row n ∷ [] })

-- `ListForIncident`: ORDER BY sent_at.
unfoldable pub list_for_incident : String → Exec Db (List Notification)
list_for_incident incident = query λ db. map of_row (
    sort_by (λ a b. leb_ℤ a.sent_at b.sent_at)
      (select (λ r. r.incident_id == incident) db.notifications))

-- `List`: ORDER BY sent_at DESC LIMIT.
unfoldable pub list : ℤ → Exec Db (List Notification)
list limit = query λ db.
    map of_row (take (page limit) (sort_by (λ a b. leb_ℤ b.sent_at a.sent_at) db.notifications))

abbrev pub for_subscription : String → NotificationRow → Bool
for_subscription id r = r.subscription_id == id

-- `ExistsForSubscription`.
unfoldable pub exists_for_subscription : String → Exec Db Bool
exists_for_subscription id = query (λ db. any (for_subscription id) db.notifications)
