-- ===== src/Store/Postgres/Tokens.antt =====
-- apiTokenRepo of internal/store/postgres/api_tokens.go.
use signalwatch.Base.{
  Bool, true, not, ◌||◌, String, ◌==◌, List, [], ◌∷◌, ◌++◌, Option, none, some, map, if◌then◌else◌,
}
use signalwatch.Base.Int.{ℤ, leb_ℤ}
use signalwatch.Base.Lists.{find, any, select, update_where, sort_by}
use signalwatch.Base.Result.{Exec, raise, error}
use signalwatch.Base.Time.{Time, is_zero, unix_milli, of_unix_milli}
use signalwatch.Auth.Token.{Token}
use signalwatch.Store.Tokens.{nullable_ms, of_nullable_ms}
use signalwatch.Store.Postgres.Db.{Db, query, exec, exec_checked}
use signalwatch.Store.Db.{TokenRow}

-- `scanAPIToken`.
unfoldable pub of_row : TokenRow → Token
of_row r = record {
  id = r.id;
  name = r.name;
  token_hash = r.token_hash;
  scopes = r.scopes;
  created_at = of_unix_milli r.created_at;
  expires_at = of_nullable_ms r.expires_at;
  last_used_at = of_nullable_ms r.last_used_at;
  revoked = r.revoked;
}

unfoldable pub created_row : Time → Token → TokenRow
created_row now t = record {
  id = t.id;
  name = t.name;
  token_hash = t.token_hash;
  scopes = t.scopes;
  created_at = unix_milli (if is_zero t.created_at then now else t.created_at);
  expires_at = nullable_ms t.expires_at;
  last_used_at = nullable_ms t.last_used_at;
  revoked = t.revoked;
}

abbrev pub has_id : String → TokenRow → Bool
has_id id r = r.id == id

abbrev pub has_hash : String → TokenRow → Bool
has_hash h r = r.token_hash == h

-- `Create`: the id is the primary key, and the hash is UNIQUE.
unfoldable pub create : Time → Token → Exec Db (Unit {0})
unfolding created_row
create now t =
    if t.token_hash == ""
    then raise (error "postgres: api_tokens: TokenHash required")
    else exec_checked
        (λ db. not (any (λ r. has_id t.id r || has_hash t.token_hash r) db.api_tokens))
        (λ db. record db { api_tokens = db.api_tokens ++ created_row now t ∷ [] })

abbrev pub found : Option TokenRow → Option Token
found none = none
found (some r) = some (of_row r)

-- `GetByHash`: nil where there is no row.
unfoldable pub get_by_hash : String → Exec Db (Option Token)
get_by_hash h = query (λ db. found (find (has_hash h) db.api_tokens))

-- `Get`.
unfoldable pub get : String → Exec Db (Option Token)
get id = query (λ db. found (find (has_id id) db.api_tokens))

-- `List`: ORDER BY created_at DESC.
unfoldable pub list : Exec Db (List Token)
list = query (λ db. map of_row (sort_by (λ a b. leb_ℤ b.created_at a.created_at) db.api_tokens))

-- `Revoke`.
unfoldable pub revoke : String → Exec Db (Unit {0})
revoke id = exec λ db. record db {
  api_tokens = update_where (has_id id) (λ r. record r { revoked = true }) db.api_tokens;
}

-- `TouchLastUsed`.
unfoldable pub touch_last_used : String → ℤ → Exec Db (Unit {0})
touch_last_used id ts = exec λ db. record db {
  api_tokens = update_where (has_id id) (λ r. record r { last_used_at = some ts }) db.api_tokens;
}

-- `Delete`.
unfoldable pub delete : String → Exec Db (Unit {0})
delete id = exec (λ db. record db { api_tokens = select (λ r. not (has_id id r)) db.api_tokens })
