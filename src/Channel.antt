-- ===== src/Channel.antt =====
-- internal/channel/channel.go: what a channel is asked to send.
use signalwatch.Base.{String, Option}
use signalwatch.Base.Time.{Time}

-- `channel.Notification`.
pub record Payload : Type 0 where
  pub incident_id : String
  pub rule_id : String
  pub rule_name : String
  pub severity : String
  pub description : String
  pub value : String
  pub kind : String
  pub address : String
  pub now : Time
  pub triggered_at : Time

-- One call of `Send`: the channel's name, the payload and the text of the error, if any.
pub record Sent : Type 0 where
  pub channel : String
  pub payload : Payload
  pub outcome : Option String
