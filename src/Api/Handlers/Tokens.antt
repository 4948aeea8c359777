-- ===== src/Api/Handlers/Tokens.antt =====
-- The handlers of /v1/auth/tokens of internal/api/tokens.go, and `GenerateToken` of
-- internal/auth/token.go.
pub mod Access
pub mod Revoked
use signalwatch.Base.{
  ℕ, Bool, false, String, ◌==◌, List, [], ◌∷◌, map, Option, none, some, if◌then◌else◌,
}
use Prim.Native.String as Text
use signalwatch.Base.Int.{pos, leb_ℤ}
use signalwatch.Base.Result.{Error, Result, ok, err, error, wrap}
use signalwatch.Base.Time.{Time, Duration, add}
use signalwatch.Auth.Token.{Scope, Token, validate_scope}
use signalwatch.Store.Db.{Db}
use signalwatch.Store.Tokens
use signalwatch.Api.Reply.{Reply, sent, failed, bare, Handling, answer, given, calling}

-- `tokenView`: a token without its hash.
pub record View : Type 0 where
  pub id : String
  pub name : String
  pub scopes : List Scope
  pub created_at : Time
  pub expires_at : Option Time
  pub last_used_at : Option Time
  pub revoked : Bool

-- `toTokenView`.
unfoldable pub to_view : Token → View
to_view t = record {
  id = t.id;
  name = t.name;
  scopes = t.scopes;
  created_at = t.created_at;
  expires_at = t.expires_at;
  last_used_at = t.last_used_at;
  revoked = t.revoked;
}

-- `listTokens`.
unfoldable pub list_tokens : Handling Db (List View)
list_tokens = calling 500 Tokens.list λ rows. answer (sent 200 (map to_view rows))

-- `issueTokenRequest`.
pub record IssueRequest : Type 0 where
  pub name : String
  pub scopes : List Scope
  pub expires_in : String

-- `issueTokenResponse`.
pub record Issued : Type 0 where
  pub token : View
  pub secret : String

-- What the handler takes from outside: the two readings of the clock, that of the store, the new
-- id, and `base64.RawURLEncoding` of the random bytes, or the error of `rand.Read`.
pub record Draw : Type 0 where
  pub start : Time
  pub now : Time
  pub stored : Time
  pub id : String
  pub random : Result String

-- The loop over the scopes.
unfoldable pub check_scopes : List Scope → Result (Unit {0})
check_scopes [] = ok tt
check_scopes (s ∷ scopes) = elim (validate_scope s) [ ok u ↦ check_scopes scopes | err e ↦ err e ]

unfoldable pub validate_request : IssueRequest → Result (Unit {0})
unfolding check_scopes
validate_request body = if body.name == "" then err (error "name required") else elim body.scopes [
  | [] ↦ err (error "at least one scope required")
  | s ∷ scopes ↦ check_scopes (s ∷ scopes)
]

unfoldable pub end_after : Time → Result Duration → Result (Option Time)
end_after now (err e) = err (wrap "expires_in" e)
end_after now (ok d) =
    if leb_ℤ d (pos 0) then err (error "expires_in must be positive") else ok (some (add now d))

unfoldable pub new_token : Draw → IssueRequest → String → Option Time → Token
new_token draw body hash expires = record {
  id = draw.id;
  name = body.name;
  token_hash = hash;
  scopes = body.scopes;
  created_at = draw.now;
  expires_at = expires;
  last_used_at = none;
  revoked = false;
}

-- The store's `Create`, and the one reply that holds the secret.
unfoldable pub store_token : Time → Token → String → Handling Db Issued
store_token now tok raw =
    calling 500 (Tokens.create now tok)
      λ _. answer (sent 201 (record { token = to_view tok; secret = raw }))

module _ (hash_token : String → String) (parse_duration : String → Result Duration) where
  -- The end of a token, none for "".
  unfoldable pub expiry : Time → String → Result (Option Time)
  unfolding end_after
  expiry now text = if text == "" then ok none else end_after now (parse_duration text)

  -- `GenerateToken`: the secret and its hash.
  unfoldable pub generate_token : Result String → Result (String × String)
  generate_token (err e) = err e
  generate_token (ok text) = let raw = (Text.◌++◌) "sw_" text in ok (raw, hash_token raw)

  -- `issueToken`.
  unfoldable pub issue_token : Draw → Result IssueRequest → Handling Db Issued
  unfolding store_token new_token
  issue_token draw body = given 400 body λ body. given 400 (validate_request body) λ _.
      given 400 (expiry draw.start body.expires_in) λ expires.
        given 500 (generate_token draw.random)
          λ (raw, hash). store_token draw.stored (new_token draw body hash expires) raw

abbrev pub revoke_found : String → Option Token → Handling Db (Unit {0})
revoke_found id none db = (failed 404 (error "token not found"), db)
revoke_found id (some t) db = calling 500 (Tokens.revoke id) (λ _. answer (bare 204)) db

-- `revokeToken`.
unfoldable pub revoke_token : String → Handling Db (Unit {0})
revoke_token id =
    if id == ""
    then answer (failed 400 (error "id required"))
    else calling 500 (Tokens.get id) (revoke_found id)
