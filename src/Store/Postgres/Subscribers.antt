-- ===== src/Store/Postgres/Subscribers.antt =====
-- subscriberRepo of internal/store/postgres/postgres.go. A deleted subscriber takes its subscriptions
-- with it, by ON DELETE CASCADE of the table of subscriptions.
use signalwatch.Base.{
  List, map, Bool, not, String, ◌==◌, [], ◌∷◌, ◌++◌, Option, none, some, if◌then◌else◌,
}
use signalwatch.Base.Lists.{find, any, select, update_where, sort_by}
use signalwatch.Base.Result.{Exec}
use signalwatch.Base.Time.{Time, is_zero, unix_milli, of_unix_milli}
use signalwatch.Subscriber.{Subscriber}
use signalwatch.Store.Postgres.Db.{Db, query, exec, exec_checked}
use signalwatch.Store.Db.{SubscriberRow}

abbrev pub has_id : String → SubscriberRow → Bool
has_id id r = r.id == id

-- `scanSubscriber`.
unfoldable pub of_row : SubscriberRow → Subscriber
of_row r = record {
  id = r.id;
  name = r.name;
  channels = r.channels;
  created_at = of_unix_milli r.created_at;
  updated_at = of_unix_milli r.updated_at;
}

-- The row that `Create` inserts at the time `now`.
unfoldable pub created_row : Time → Subscriber → SubscriberRow
created_row now s = record {
  id = s.id;
  name = s.name;
  channels = s.channels;
  created_at = unix_milli (if is_zero s.created_at then now else s.created_at);
  updated_at = unix_milli now;
}

-- `Create`.
unfoldable pub create : Time → Subscriber → Exec Db (Unit {0})
unfolding created_row
create now s =
    exec_checked (λ db. not (any (has_id s.id) db.subscribers))
      (λ db. record db { subscribers = db.subscribers ++ created_row now s ∷ [] })

-- `Update`.
unfoldable pub update : Time → Subscriber → Exec Db (Unit {0})
update now s = exec λ db. record db {
  subscribers =
      update_where (has_id s.id)
        (λ r. record r { name = s.name; channels = s.channels; updated_at = unix_milli now })
        db.subscribers;
}

-- `Delete`.
unfoldable pub delete : String → Exec Db (Unit {0})
delete id = exec λ db. record db {
  subscribers = select (λ r. not (has_id id r)) db.subscribers;
  subscriptions = select (λ r. not (r.subscriber_id == id)) db.subscriptions;
}

abbrev pub found : Option SubscriberRow → Option Subscriber
found none = none
found (some r) = some (of_row r)

-- `Get`: nil where there is no row.
unfoldable pub get : String → Exec Db (Option Subscriber)
get id = query (λ db. found (find (has_id id) db.subscribers))

abbrev pub by_name : (String → String → Bool) → SubscriberRow → SubscriberRow → Bool
by_name collates a b = collates a.name b.name

-- `List`: ORDER BY name, in the collation of the database.
unfoldable pub list : (String → String → Bool) → Exec Db (List Subscriber)
list collates = query (λ db. map of_row (sort_by (by_name collates) db.subscribers))
