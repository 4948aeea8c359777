-- ===== src/Api/Routes.antt =====
-- internal/api/api.go: the route table, and the scope of each route.
use signalwatch.Base.{Bool, true, false, String, List, [], ◌∷◌, ◌++◌, if◌then◌else◌}
use signalwatch.Auth.Token.{Scope, admin, read}

pub data Method : Type 0 where
  get post put delete : Method

-- The methods of `handlers` that `handlerFor` dispatches to.
pub data Handler : Type 0 where
  post_event : Handler
  list_rules create_rule validate_rule get_rule update_rule delete_rule : Handler
  list_subscribers create_subscriber get_subscriber update_subscriber delete_subscriber : Handler
  list_subscriptions create_subscription get_subscription : Handler
  update_subscription delete_subscription : Handler
  list_incidents export_incidents get_incident list_notifications list_states : Handler
  list_tokens issue_token revoke_token : Handler

pub record Route : Type 0 where
  pub method : Method
  pub path : String
  pub scope : Scope
  pub handler : Handler

abbrev route : Method → String → Scope → Handler → Route
route m p s h = record { method = m; path = p; scope = s; handler = h }

-- `gatedRoutes`.
unfoldable pub gated_routes : List Route
gated_routes =
    route post "/v1/events" admin post_event
    ∷ route get "/v1/rules" read list_rules
    ∷ route post "/v1/rules" admin create_rule
    ∷ route post "/v1/rules/validate" admin validate_rule
    ∷ route get "/v1/rules/{id}" read get_rule
    ∷ route put "/v1/rules/{id}" admin update_rule
    ∷ route delete "/v1/rules/{id}" admin delete_rule
    ∷ route get "/v1/subscribers" read list_subscribers
    ∷ route post "/v1/subscribers" admin create_subscriber
    ∷ route get "/v1/subscribers/{id}" read get_subscriber
    ∷ route put "/v1/subscribers/{id}" admin update_subscriber
    ∷ route delete "/v1/subscribers/{id}" admin delete_subscriber
    ∷ route get "/v1/subscriptions" read list_subscriptions
    ∷ route post "/v1/subscriptions" admin create_subscription
    ∷ route get "/v1/subscriptions/{id}" read get_subscription
    ∷ route put "/v1/subscriptions/{id}" admin update_subscription
    ∷ route delete "/v1/subscriptions/{id}" admin delete_subscription
    ∷ route get "/v1/incidents" read list_incidents
    ∷ route get "/v1/incidents/export" read export_incidents
    ∷ route get "/v1/incidents/{id}" read get_incident
    ∷ route get "/v1/notifications" read list_notifications
    ∷ route get "/v1/states" read list_states
    ∷ []

-- `authRoutes`.
unfoldable pub auth_routes : List Route
auth_routes =
    route get "/v1/auth/tokens" admin list_tokens
    ∷ route post "/v1/auth/tokens" admin issue_token
    ∷ route delete "/v1/auth/tokens/{id}" admin revoke_token
    ∷ []

-- The gated routes that `Mount` registers: the token routes only with a token store.
unfoldable pub mounted : Bool → List Route
unfolding gated_routes auth_routes
mounted has_tokens = gated_routes ++ (if has_tokens then auth_routes else [])

abbrev pub is_admin : Scope → Bool
is_admin admin = true
is_admin read = false
is_admin (Scope.other s) = false

-- The scope of the gate that `Mount` puts in front of a route: admin, or else read.
unfoldable pub gate_scope : Route → Scope
gate_scope r = if is_admin r.scope then admin else read
