-- ===== src/Subscriber.antt =====
-- internal/subscriber/subscriber.go: subscribers, subscriptions, incidents and notifications.
use signalwatch.Base.{
  ℕ, Bool, true, false, ◌&&◌, ◌||◌, not, String, ◌==◌, List, [], ◌∷◌, if◌then◌else◌,
}
use signalwatch.Base.Int.{pos, ltb_ℤ}
use signalwatch.Base.Result.{Result, ok, err, error}
use signalwatch.Base.Time.{Time, Duration}

-- A Go `map[string]string`, as an association list.
abbrev pub Labels : Type 0
Labels = List (String × String)

pub record ChannelBinding : Type 0 where
  pub channel : String
  pub address : String

pub record Subscriber : Type 0 where
  pub id : String
  pub name : String
  pub channels : List ChannelBinding
  pub created_at : Time
  pub updated_at : Time

pub record Subscription : Type 0 where
  pub id : String
  pub subscriber_id : String
  pub rule_id : String
  pub label_selector : Labels
  pub dwell : Duration
  pub repeat_interval : Duration
  pub notify_on_resolve : Bool
  pub one_shot : Bool
  pub channel_filter : List String
  pub created_at : Time
  pub updated_at : Time

pub record Incident : Type 0 where
  pub id : String
  pub rule_id : String
  pub triggered_at : Time
  pub resolved_at : Time
  pub last_value : String

pub record IncidentSubState : Type 0 where
  pub incident_id : String
  pub subscription_id : String
  pub last_notified_at : Time
  pub notify_count : ℕ
  pub resolution_sent : Bool

pub data NotificationKind : Type 0 where
  firing repeat resolved : NotificationKind

-- `string(kind)`.
abbrev pub kind_name : NotificationKind → String
kind_name NotificationKind.firing = "firing"
kind_name repeat = "repeat"
kind_name resolved = "resolved"

-- The audit row of one attempted send; `failure` is the field `Error`.
pub record Notification : Type 0 where
  pub id : String
  pub incident_id : String
  pub subscription_id : String
  pub subscriber_id : String
  pub channel : String
  pub address : String
  pub kind : NotificationKind
  pub sent_at : Time
  pub status : String
  pub failure : String

abbrev pub is_empty {ℓ} : {A : Type ℓ} → List A → Bool
is_empty [] = true
is_empty (x ∷ xs) = false

-- `Subscription.Validate`.
unfoldable pub validate : Subscription → Result (Unit {0})
validate s =
    if s.subscriber_id == ""
    then err (error "subscription: subscriber_id required")
    else if s.rule_id == "" && is_empty s.label_selector
    then err (error "subscription: rule_id or label_selector required")
    else if not (s.rule_id == "") && not (is_empty s.label_selector)
    then err (error "subscription: only one of rule_id or label_selector may be set")
    else if ltb_ℤ s.dwell (pos 0) || ltb_ℤ s.repeat_interval (pos 0)
    then err (error "subscription: dwell and repeat_interval must be >= 0")
    else ok tt
