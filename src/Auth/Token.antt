-- ===== src/Auth/Token.antt =====
-- internal/auth/token.go: scopes, tokens, expiry, and the early look at a bearer text.
use Prim.Native.String.{len, slice}
use text.Mathlib.Text.{starts_with}
use signalwatch.Base.{
  Bool, true, false, not, ◌&&◌, ◌||◌, String, ◌==◌, eq_iff, ◌≡◌, ◌↔◌, arith, List, [], ◌∷◌, Option,
  none, some, leb, if◌then◌else◌,
}
use signalwatch.Base.Result.{Result, ok, err, error}
use signalwatch.Base.Time.{Time, before}

-- `Scope`; `other` is any string that is not one of `ValidScopes`.
pub data Scope : Type 0 where
  admin read : Scope
  other : String → Scope

abbrev pub same_scope : Scope → Scope → Bool
same_scope admin admin = true
same_scope read read = true
same_scope (other s) (other t) = s == t
same_scope admin _ = false
same_scope read _ = false
same_scope (other s) _ = false

pub record Token : Type 0 where
  pub id : String
  pub name : String
  pub token_hash : String
  pub scopes : List Scope
  pub created_at : Time
  pub expires_at : Option Time
  pub last_used_at : Option Time
  pub revoked : Bool

-- `ValidateScope`.
unfoldable pub validate_scope : Scope → Result (Unit {0})
validate_scope admin = ok tt
validate_scope read = ok tt
validate_scope (other s) = err (error "auth: unknown scope")

-- The loop of `HasScope`.
unfoldable pub grants : List Scope → Scope → Bool
grants [] s = false
grants (have ∷ rest) s = same_scope have admin || same_scope have s || grants rest s

-- `Token.HasScope`.
unfoldable pub has_scope : Token → Scope → Bool
unfolding grants
has_scope t s = grants t.scopes s

unfoldable pub expired_at : Option Time → Time → Bool
expired_at none now = false
expired_at (some e) now = not (before now e)

-- `Token.IsExpired`.
unfoldable pub is_expired : Token → Time → Bool
unfolding expired_at
is_expired t now = expired_at t.expires_at now

-- `LooksLikeToken`: the prefix "sw_" and 40 to 60 bytes after it.
unfoldable pub looks_like_token : String → Bool
looks_like_token s =
    if not (starts_with s "sw_")
    then false
    else let body = slice s 3 (len s) in leb 40 (len body) && leb (len body) 60

same_scope_iff_other : (s t : String) → ((s == t) ≡ true) ↔ (Scope.other t ≡ Scope.other s)
same_scope_iff_other s t = ground (arith, eq_iff s t)

-- The comparison of scopes decides their equality.
pub same_scope_iff : (s t : Scope) → (same_scope s t ≡ true) ↔ (t ≡ s)
same_scope_iff admin t = ground arith
same_scope_iff read t = ground arith
same_scope_iff (other s) (other t) = same_scope_iff_other s t
same_scope_iff (other s) _ = ground arith
