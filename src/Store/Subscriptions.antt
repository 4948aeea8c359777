-- ===== src/Store/Subscriptions.antt =====
-- subscriptionRepo of internal/store/sqlite/sqlite.go, and the match of a label selector.
pub mod Match
use Prim.Native.String.{compare}
use text.Mathlib.Text.{is_le}
use signalwatch.Base.{
  Bool, true, false, not, ◌&&◌, String, ◌==◌, List, [], ◌∷◌, ◌++◌, Option, none, some, map,
  if◌then◌else◌,
}
use signalwatch.Base.Lists.{find, any, select, update_where, sort_by}
use signalwatch.Base.Result.{Result, Exec, ◌>>=◌, pure}
use signalwatch.Base.Time.{Time, is_zero, unix_milli, of_unix_milli}
use signalwatch.Subscriber.{Labels, Subscription}
use signalwatch.Store.Db.{Db, SubscriptionRow, query, exec, exec_checked, nullable, text_of}
use signalwatch.Store.Subscribers

abbrev pub has_id : String → SubscriptionRow → Bool
has_id id r = r.id == id

-- `scanSubscription`.
unfoldable pub of_row : SubscriptionRow → Subscription
of_row r = record {
  id = r.id;
  subscriber_id = r.subscriber_id;
  rule_id = text_of r.rule_id;
  label_selector = r.label_selector;
  dwell = r.dwell_ns;
  repeat_interval = r.repeat_interval_ns;
  notify_on_resolve = r.notify_on_resolve;
  one_shot = r.one_shot;
  channel_filter = r.channel_filter;
  created_at = of_unix_milli r.created_at;
  updated_at = of_unix_milli r.updated_at;
}

-- The row that `Create` inserts at the time `now`.
unfoldable pub created_row : Time → Subscription → SubscriptionRow
created_row now s = record {
  id = s.id;
  subscriber_id = s.subscriber_id;
  rule_id = nullable s.rule_id;
  label_selector = s.label_selector;
  dwell_ns = s.dwell;
  repeat_interval_ns = s.repeat_interval;
  notify_on_resolve = s.notify_on_resolve;
  one_shot = s.one_shot;
  channel_filter = s.channel_filter;
  created_at = unix_milli (if is_zero s.created_at then now else s.created_at);
  updated_at = unix_milli now;
}

-- `Create`: the id is the primary key, and the subscriber must be there.
unfoldable pub create : Time → Subscription → Exec Db (Unit {0})
unfolding created_row
create now s =
    exec_checked
      (λ db.
        not (any (has_id s.id) db.subscriptions)
        && any (Subscribers.has_id s.subscriber_id) db.subscribers)
      (λ db. record db { subscriptions = db.subscriptions ++ created_row now s ∷ [] })

abbrev updated_row : Time → Subscription → SubscriptionRow → SubscriptionRow
updated_row now s r = record r {
  subscriber_id = s.subscriber_id;
  rule_id = nullable s.rule_id;
  label_selector = s.label_selector;
  dwell_ns = s.dwell;
  repeat_interval_ns = s.repeat_interval;
  notify_on_resolve = s.notify_on_resolve;
  one_shot = s.one_shot;
  channel_filter = s.channel_filter;
  updated_at = unix_milli now;
}

-- `Update`: where it changes a row, the subscriber must be there.
unfoldable pub update : Time → Subscription → Exec Db (Unit {0})
update now s =
    exec_checked
      (λ db.
        if any (has_id s.id) db.subscriptions
        then any (Subscribers.has_id s.subscriber_id) db.subscribers
        else true)
      (λ db. record db {
        subscriptions = update_where (has_id s.id) (updated_row now s) db.subscriptions;
      })

-- `Delete`.
unfoldable pub delete : String → Exec Db (Unit {0})
delete id =
    exec λ db. record db { subscriptions = select (λ r. not (has_id id r)) db.subscriptions }

abbrev found : Option SubscriptionRow → Option Subscription
found none = none
found (some r) = some (of_row r)

-- `Get`: nil where there is no row.
unfoldable pub get : String → Exec Db (Option Subscription)
get id = query (λ db. found (find (has_id id) db.subscriptions))

-- `m[key]`: the zero value "" where the key is missing.
unfoldable pub label : String → Labels → String
label key [] = ""
label key ((k, v) ∷ rest) = if k == key then v else label key rest

-- The loop of `matchLabels`.
unfoldable pub all_labels : Labels → Labels → Bool
unfolding label
all_labels [] actual = true
all_labels ((k, v) ∷ selector) actual =
    let rest = all_labels selector actual in if not (label k actual == v) then false else rest

-- `matchLabels`.
unfoldable pub match_labels : Labels → Labels → Bool
unfolding all_labels
match_labels [] actual = false
match_labels (l ∷ selector) actual = all_labels (l ∷ selector) actual

abbrev is_rule : String → Option String → Bool
is_rule rule none = false
is_rule rule (some id) = id == rule

abbrev is_null : Option String → Bool
is_null none = true
is_null (some id) = false

-- `rule_id = ?` and `rule_id IS NULL`.
abbrev pub for_rule : String → SubscriptionRow → Bool
for_rule rule r = is_rule rule r.rule_id

abbrev pub by_labels : SubscriptionRow → Bool
by_labels r = is_null r.rule_id

-- `ListForRule`: the rows of the rule, then those whose selector matches its labels.
unfoldable pub list_for_rule : String → Labels → Exec Db (List Subscription)
list_for_rule rule labels = do
  out ← query (λ db. map of_row (select (for_rule rule) db.subscriptions))
  all ← query (λ db. map of_row (select by_labels db.subscriptions))
  pure (out ++ select (λ s. match_labels s.label_selector labels) all)

abbrev pub by_id : SubscriptionRow → SubscriptionRow → Bool
by_id a b = is_le (compare a.id b.id)

-- `List`: ORDER BY id.
unfoldable pub list : Exec Db (List Subscription)
list = query (λ db. map of_row (sort_by by_id db.subscriptions))
