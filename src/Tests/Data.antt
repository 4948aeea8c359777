-- ===== src/Tests/Data.antt =====
-- The concrete inputs that the tests share.
use signalwatch.Base.{ℕ, zero, suc, true, String, ◌≡◌, refl, ap, arith, [], ◌∷◌, none, some}
use signalwatch.Base.Int.{pos}
use signalwatch.Subscriber.{Subscription}
use signalwatch.Rule.Condition.{Condition, Op}
use signalwatch.Rule.Model.{Rule, warning}
use signalwatch.Store.Db.{Db, SubscriberRow, SubscriptionRow}
use signalwatch.Dispatcher.World.{World, Env}

abbrev pub empty_db : Db
empty_db = record {
  rules = [];
  subscribers = [];
  subscriptions = [];
  incidents = [];
  notifications = [];
  live_states = [];
  sub_states = [];
  api_tokens = [];
  faults = [];
}

-- Distinct ids: "x", "xx", "xxx" and so on.
unfoldable pub tally : ℕ → String
tally zero = "x"
tally (suc n) = String.◌∷◌ "x" (tally n)

size : String → ℕ
size String.[] = 0
size (String.◌∷◌ c s) = suc (size s)

size-tally : (n : ℕ) → size (tally n) ≡ suc n
unfolding size tally
size-tally zero = refl
size-tally (suc n) = ap suc (size-tally n)

pub tally-injective : (m n : ℕ) → tally m ≡ tally n → m ≡ n
tally-injective m n h = omega (arith, ap size h, size-tally m, size-tally n)

-- One channel, "ops", which always sends.
abbrev pub env : Env
env = record { configured = λ name. true; send = λ name payload sent. none; new_id = tally }

abbrev pub hot_condition : Condition
hot_condition = Condition.threshold (record { field = "t"; op = Op.gt; value = 0 })

abbrev pub hot : Rule
hot = record {
  id = "hot";
  name = "Too hot";
  description = "";
  enabled = true;
  severity = warning;
  labels = [];
  input_ref = "events";
  condition = some hot_condition;
  schedule = pos 0;
  created_at = pos 0;
  updated_at = pos 0;
}

abbrev pub ann_row : SubscriberRow
ann_row = record {
  id = "ann";
  name = "Ann";
  channels = record { channel = "ops"; address = "ann@example.com" } ∷ [];
  created_at = pos 0;
  updated_at = pos 0;
}

abbrev pub once_row : SubscriptionRow
once_row = record {
  id = "once";
  subscriber_id = "ann";
  rule_id = some "hot";
  label_selector = [];
  dwell_ns = pos 0;
  repeat_interval_ns = pos 0;
  notify_on_resolve = true;
  one_shot = true;
  channel_filter = [];
  created_at = pos 0;
  updated_at = pos 0;
}

abbrev pub once : Subscription
once = record {
  id = "once";
  subscriber_id = "ann";
  rule_id = "hot";
  label_selector = [];
  dwell = pos 0;
  repeat_interval = pos 0;
  notify_on_resolve = true;
  one_shot = true;
  channel_filter = [];
  created_at = pos 0;
  updated_at = pos 0;
}

abbrev pub ann_db : Db
ann_db = record empty_db { subscribers = ann_row ∷ []; subscriptions = once_row ∷ [] }

abbrev pub start : World
start = record { db = ann_db; minted = 0; outbox = [] }
