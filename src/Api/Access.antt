-- ===== src/Api/Access.antt =====
-- Who gets through the gates.
use signalwatch.Base.{
  Bool, true, false, String, eq_iff, ◌≡◌, ◌≢◌, ◌↔◌, ◌⊎◌, inl, inr, refl, List, [], ◌∷◌, Option,
  none, some, arith,
}
use signalwatch.Base.Int.{◌<ℤ◌}
use signalwatch.Base.Lists.{Elem, All, All-Elem, find}
use signalwatch.Base.Result.{Result, ok, err}
use signalwatch.Base.Time.{Time}
use signalwatch.Auth.Token.{
  Scope, Token, admin, grants, expired_at, same_scope_iff, has_scope, is_expired,
}
use signalwatch.Store.Db.{Db, IsQuiet, query-quiet}
use signalwatch.Store.Tokens
use signalwatch.Api.Gate.{
  Settings, Texts, Verdict, refuse, pass, auth_required, bearer_token, shared_token, require_auth,
  require_scope, after_bearer, check_token, user_path, accept_row, gate, then_scope,
}
use signalwatch.Api.Routes.{Method, get, Route, mounted, gate_scope}

grants_iff :
    (have : List Scope) (s : Scope) → (grants have s ≡ true) ↔ (Elem admin have ⊎ Elem s have)
unfolding grants
grants_iff [] s = (λ h. cc, λ h. elim h [ inl x ↦ absurd x | inr x ↦ absurd x ])
grants_iff (h ∷ have) s =
    ground (arith, same_scope_iff h admin, same_scope_iff h s, grants_iff have s)

-- A token grants a scope exactly if it has that scope or the scope admin.
has_scope_iff :
    (t : Token) (s : Scope) → (has_scope t s ≡ true) ↔ (Elem admin t.scopes ⊎ Elem s t.scopes)
unfolding has_scope
has_scope_iff t s = grants_iff t.scopes s

-- The token does not expire, or its end is still to come.
abbrev pub Lasts : Option Time → Time → Type 0
Lasts none now = Unit
Lasts (some e) now = now <ℤ e

expired_at_iff : (e : Option Time) (now : Time) → (expired_at e now ≡ false) ↔ Lasts e now
unfolding expired_at
expired_at_iff none now = (λ _. tt, λ _. refl)
expired_at_iff (some e) now = ground arith

-- The row that the provided text finds, by its hash.
abbrev pub row_of : Texts → String → Db → Option Token
row_of texts provided db =
    Tokens.found (find (Tokens.has_hash (texts.hash_token provided)) db.api_tokens)

abbrev pub MayAct : Scope → Time → Token → Type 0
MayAct scope now t =
    (t.revoked ≡ false) × Lasts t.expires_at now × (Elem admin t.scopes ⊎ Elem scope t.scopes)

abbrev pub RowMayAct : Scope → Time → Option Token → Type 0
RowMayAct scope now none = ⊥
RowMayAct scope now (some t) = MayAct scope now t

-- The provided text is the shared token, or with a token store it finds a row that is not revoked,
-- not expired and has the scope.
abbrev pub MayPass : Texts → Settings → Scope → Time → String → Db → Type 0
MayPass texts s scope now provided db =
    ((s.api_token ≢ "") × (provided ≡ s.api_token))
    ⊎ ((s.has_tokens ≡ true) × RowMayAct scope now (row_of texts provided db))

abbrev pub passes : Verdict → Bool
passes (refuse code e) = false
passes (pass t) = true

-- The header is well formed, and its text may pass.
abbrev pub HeaderMayPass : Texts → Settings → Scope → Time → Result String → Db → Type 0
HeaderMayPass texts s scope now (err e) db = ⊥
HeaderMayPass texts s scope now (ok provided) db = MayPass texts s scope now provided db

module _ (texts : Texts) (scope : Scope) (now : Time) where
  row_exact :
      (row : Option Token) (db : Db)
      → (passes (then_scope scope (accept_row texts now row db).0) ≡ true) ↔ RowMayAct scope now row
  unfolding accept_row require_scope is_expired
  row_exact none db = (λ h. cc, λ h. absurd h)
  row_exact (some t) db = ground (arith, expired_at_iff t.expires_at now, has_scope_iff t scope)

  user_exact :
      (provided : String) (db : Db)
      → IsQuiet db
      → (passes (then_scope scope (user_path texts now provided db).0) ≡ true)
        ↔ RowMayAct scope now (row_of texts provided db)
  unfolding user_path Tokens.get_by_hash
  user_exact provided db quiet =
      rw (query-quiet _ db quiet) (row_exact (row_of texts provided db) db)

  shared_passes : passes (then_scope scope (pass (some shared_token))) ≡ true
  unfolding require_scope shared_token has_scope grants
  shared_passes = refl

  token_exact :
      (s : Settings) (provided : String) (db : Db)
      → IsQuiet db
      → (passes (then_scope scope (check_token texts s now provided db).0) ≡ true)
        ↔ MayPass texts s scope now provided db
  unfolding check_token
  token_exact s provided db quiet = ground (
    arith,
    user_exact provided db quiet,
    shared_passes,
    eq_iff s.api_token "",
    eq_iff provided s.api_token,
  )

  bearer_exact :
      (s : Settings) (bearer : Result String) (db : Db)
      → IsQuiet db
      → (passes (then_scope scope (after_bearer texts s now bearer db).0) ≡ true)
        ↔ HeaderMayPass texts s scope now bearer db
  bearer_exact s (err e) db quiet = (λ h. cc, λ h. absurd h)
  bearer_exact s (ok provided) db quiet = token_exact s provided db quiet

-- Where authentication is on, the gate of a scope hands a request on exactly if the Authorization
-- header holds a bearer text that is the shared token, or that finds by its hash a token that is
-- not revoked, not expired, and has the scope or the scope admin. The database does not fail.
pub gate_exact :
    (texts : Texts) (s : Settings) (scope : Scope) (now : Time) (header : String) (db : Db)
    → IsQuiet db
    → auth_required s ≡ true
    → (passes (gate texts s scope now header db).0 ≡ true)
      ↔ HeaderMayPass texts s scope now (bearer_token texts header) db
unfolding gate require_auth
gate_exact texts s scope now header db quiet required =
    rw required (bearer_exact texts scope now s (bearer_token texts header) db quiet)

abbrev is_get : Method → Bool
is_get get = true
is_get _ = false

abbrev NeedsAdmin : Route → Type 0
NeedsAdmin r = is_get r.method ≡ false → gate_scope r ≡ admin

routes_need_admin : (has_tokens : Bool) → All NeedsAdmin (mounted has_tokens)
unfolding mounted gate_scope
routes_need_admin true = ground arith
routes_need_admin false = ground arith

-- Every mounted route that is not a GET is closed to a caller without the scope admin. Where
-- authentication is on, such a request gets through only with the shared token, or with a live
-- token that has the scope admin. The database does not fail.
pub writes_need_admin :
    (texts : Texts) (s : Settings) (r : Route) (now : Time) (header : String) (db : Db)
    → IsQuiet db
    → auth_required s ≡ true
    → Elem r (mounted s.has_tokens)
    → r.method ≢ get
    → passes (gate texts s (gate_scope r) now header db).0 ≡ true
    → HeaderMayPass texts s admin now (bearer_token texts header) db
writes_need_admin texts s r now header db quiet required mem write h =
    let only : is_get r.method ≡ false = not_get r.method write in
    let needed =
      All-Elem NeedsAdmin r (mounted s.has_tokens) (routes_need_admin s.has_tokens) mem only in
    (gate_exact texts s admin now header db quiet required).0 (rw needed at h)
  where
    not_get : (m : Method) → m ≢ get → is_get m ≡ false
    not_get get ne = absurd (ne refl)
    not_get _ ne = refl
