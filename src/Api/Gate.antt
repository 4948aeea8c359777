-- ===== src/Api/Gate.antt =====
-- internal/api/auth.go: `requireAuth` and `requireScope`.
use Prim.Native.String.{len, slice}
use text.Mathlib.Text.{starts_with}
use signalwatch.Base.{
  ℕ, Bool, false, not, ◌&&◌, ◌||◌, String, ◌==◌, [], ◌∷◌, Option, none, some, if◌then◌else◌,
}
use signalwatch.Base.Result.{Error, Result, ok, err, error}
use signalwatch.Base.Time.{Time, zero_time, unix_milli}
use signalwatch.Auth.Token.{Scope, Token, admin, has_scope, is_expired}
use signalwatch.Store.Db.{Db}
use signalwatch.Store.Tokens

-- `mountSettings`: the shared token ("" for none), and whether a token store is configured.
pub record Settings : Type 0 where
  pub api_token : String
  pub has_tokens : Bool

-- `auth.HashToken` (SHA-256 in hexadecimal), and Go's `strings.TrimSpace`.
pub record Texts : Type 0 where
  pub hash_token : String → String
  pub trim_space : String → String

-- What a gate does with a request: it answers, or it hands the request on with the caller's token
-- in the context (none where authentication is off).
pub data Verdict : Type 0 where
  refuse : ℕ → Error → Verdict
  pass : Option Token → Verdict

unfoldable pub auth_required : Settings → Bool
auth_required s = not (s.api_token == "") || s.has_tokens

-- The identity of a caller with the shared token.
unfoldable pub shared_token : Token
shared_token = record {
  id = "shared";
  name = "shared-token (legacy)";
  token_hash = "";
  scopes = admin ∷ [];
  created_at = zero_time;
  expires_at = none;
  last_used_at = none;
  revoked = false;
}

module _ (texts : Texts) where
  open texts use {hash_token, trim_space}

  -- `bearerToken`, of the text of the Authorization header.
  unfoldable pub bearer_token : String → Result String
  bearer_token raw =
      if raw == ""
      then err (error "missing Authorization header")
      else if not (starts_with raw "Bearer ")
      then err (error "authorization scheme must be Bearer")
      else let tok = trim_space (slice raw 7 (len raw)) in
        if tok == "" then err (error "empty bearer token") else ok tok

  -- A row that authenticates at the time `now`.
  abbrev pub is_live : Token → Time → Bool
  is_live t now = not t.revoked && not (is_expired t now)

  -- The per-user path, after the lookup. The update of the time of last use runs beside the
  -- request, and its errors go to the log.
  unfoldable pub accept_row : Time → Option Token → Db → Verdict × Db
  accept_row now none db = (refuse 401 (error "invalid token"), db)
  accept_row now (some t) db =
      if is_live t now
      then (pass (some t), (Tokens.touch_last_used t.id (unix_milli now) db).1)
      else (refuse 401 (error "invalid token"), db)

  abbrev pub after_lookup : Time → Result (Option Token) → Db → Verdict × Db
  after_lookup now (err e) db = (refuse 500 (error "auth lookup failed"), db)
  after_lookup now (ok row) db = accept_row now row db

  unfoldable pub user_path : Time → String → Db → Verdict × Db
  user_path now provided db =
      let (r, db') = Tokens.get_by_hash (hash_token provided) db in after_lookup now r db'

  -- The shared token, then the per-user tokens.
  unfoldable pub check_token : Settings → Time → String → Db → Verdict × Db
  check_token s now provided db =
      if not (s.api_token == "") && provided == s.api_token
      then (pass (some shared_token), db)
      else if s.has_tokens
      then user_path now provided db
      else (refuse 401 (error "invalid token"), db)

  abbrev pub after_bearer : Settings → Time → Result String → Db → Verdict × Db
  after_bearer s now (err e) db = (refuse 401 e, db)
  after_bearer s now (ok provided) db = check_token s now provided db

  -- `requireAuth`, of the Authorization header at the time `now`.
  unfoldable pub require_auth : Settings → Time → String → Db → Verdict × Db
  require_auth s now header db =
      if not (auth_required s) then (pass none, db) else after_bearer s now (bearer_token header) db

-- `requireScope`, of the token in the context.
unfoldable pub require_scope : Scope → Option Token → Verdict
require_scope scope none = pass none
require_scope scope (some t) =
    if not (has_scope t scope) then refuse 403 (error "insufficient scope") else pass (some t)

abbrev pub then_scope : Scope → Verdict → Verdict
then_scope scope (refuse code msg) = refuse code msg
then_scope scope (pass t) = require_scope scope t

-- `readGate` and `writeGate` of `Mount`: the scope check inside the authentication.
unfoldable pub gate : Texts → Settings → Scope → Time → String → Db → Verdict × Db
gate texts s scope now header db =
    let (v, db') = require_auth texts s now header db in (then_scope scope v, db')
