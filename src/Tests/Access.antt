-- ===== src/Tests/Access.antt =====
-- Requests at the gates.
use signalwatch.Base.{true, false, ◌≡◌, ◌↔◌, inl, refl, [], ◌∷◌, none}
use signalwatch.Base.Int.{pos}
use signalwatch.Base.Lists.{find}
use signalwatch.Auth.Token.{admin, read, has_scope, is_expired}
use signalwatch.Store.Db.{Db, TokenRow, query}
use signalwatch.Store.Tokens
use signalwatch.Api.Gate.{
  Settings, Texts, auth_required, bearer_token, gate, require_auth, check_token, user_path,
  accept_row, require_scope,
}
use signalwatch.Api.Routes.{Method, Route, post, mounted, gated_routes, gate_scope}
use signalwatch.Api.Routes
use signalwatch.Api.Access.{passes, HeaderMayPass, gate_exact, writes_need_admin}
use signalwatch.Tests.Data.{empty_db}

-- A hash that is the text itself, and texts with no space around them.
abbrev pub texts : Texts
texts = record { hash_token = λ s. s; trim_space = λ s. s }

abbrev pub with_tokens : Settings
with_tokens = record { api_token = ""; has_tokens = true }

abbrev boss_row : TokenRow
boss_row = record {
  id = "t1";
  name = "ci";
  token_hash = "sw_boss";
  scopes = admin ∷ [];
  created_at = pos 1;
  expires_at = none;
  last_used_at = none;
  revoked = false;
}

abbrev pub token_db : Db
token_db = record empty_db { api_tokens = boss_row ∷ [] }

gate_exact_example :
    (passes (gate texts with_tokens read (pos 5) "Bearer sw_boss" token_db).0 ≡ true)
    ↔ HeaderMayPass texts with_tokens read (pos 5) (bearer_token texts "Bearer sw_boss") token_db
unfolding auth_required
gate_exact_example = gate_exact texts with_tokens read (pos 5) "Bearer sw_boss" token_db refl refl

abbrev events_route : Route
events_route = record {
  method = post;
  path = "/v1/events";
  scope = admin;
  handler = Routes.post_event;
}

boss_passes :
    passes (gate texts with_tokens (gate_scope events_route) (pos 5) "Bearer sw_boss" token_db).0
    ≡ true
unfolding gate gate_scope require_auth auth_required bearer_token check_token user_path
    Tokens.get_by_hash query find accept_row require_scope has_scope is_expired Tokens.of_row
boss_passes = refl

writes_need_admin_example :
    HeaderMayPass texts with_tokens admin (pos 5) (bearer_token texts "Bearer sw_boss") token_db
unfolding mounted auth_required
writes_need_admin_example =
    writes_need_admin texts with_tokens events_route (pos 5) "Bearer sw_boss" token_db refl refl
      (inl refl) (λ e. cc) boss_passes
