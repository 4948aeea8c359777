-- ===== src/Api/Handlers/Tokens/Access.antt =====
-- What a token opens once it is issued, and once it is revoked.
use signalwatch.Base.{
  ℕ, Bool, true, false, not, ◌||◌, String, ◌==◌, eq_refl, ◌≡◌, ◌≢◌, ◌↔◌, ◌⊎◌, inl, inr, refl, sym,
  ap, subst, arith, List, [], ◌∷◌, ◌++◌, Option, none, some, Bool-cases,
}
use signalwatch.Base.Int.{pos, ◌+ℤ◌, int_laws}
use signalwatch.Base.Lists.{Elem, any, find, find-append_hit}
use signalwatch.Base.Result.{Result, ok, err, error, err_not_ok}
use signalwatch.Base.Time.{Time, Duration, of_unix_milli_close}
use signalwatch.Auth.Token.{Scope, Token, admin}
use signalwatch.Store.Db.{Db, TokenRow, IsQuiet, exec_checked-ok}
use signalwatch.Store.Tokens
use signalwatch.Api.Gate.{Settings, Texts, auth_required, bearer_token, gate}
use signalwatch.Api.Access.{passes, Lasts, row_of, RowMayAct, HeaderMayPass, MayPass, gate_exact}
use signalwatch.Api.Reply.{sent, given, calling_cases, given_cases, Sends, of_Sends}
use signalwatch.Api.Handlers.Tokens.{
  Draw, IssueRequest, Issued, issue_token, store_token, generate_token, expiry, validate_request,
  new_token, to_view,
}

-- The gate is passed by the text of a header, which is not the shared token, exactly as its row says.
pub by_row :
    (texts : Texts) (s : Settings) (scope : Scope) (now : Time) (header secret : String) (db : Db)
    → IsQuiet db
    → s.has_tokens ≡ true
    → secret ≢ s.api_token
    → bearer_token texts header ≡ ok secret
    → (passes (gate texts s scope now header db).0 ≡ true)
      ↔ RowMayAct scope now (row_of texts secret db)
by_row texts s scope now header secret db quiet tokens other bearer =
    let exact =
      gate_exact texts s scope now header db quiet
        (unfold auth_required in ground (arith, tokens)) in
    let here : HeaderMayPass texts s scope now (bearer_token texts header) db
        ↔ MayPass texts s scope now secret db =
      rw bearer (λ h. h, λ h. h) in
    (
      λ h. elim (here.0 (exact.0 h)) [ inl l ↦ absurd (other l.1) | inr r ↦ r.1 ],
      λ h. exact.1 (here.1 (inr (tokens, h))),
    )

any-or :
    (p q : TokenRow → Bool) (xs : List TokenRow)
    → any (λ r. p r || q r) xs ≡ false
    → any q xs ≡ false
unfolding any
any-or p q [] h = refl
any-or p q (x ∷ xs) h = ground (arith, any-or p q xs)

-- The row that `Create` leaves is found by its hash.
create_found :
    (now : Time) (tok : Token) (db : Db)
    → IsQuiet db
    → (Tokens.create now tok db).0 ≡ ok tt
    → IsQuiet (Tokens.create now tok db).1
      × (find (Tokens.has_hash tok.token_hash) (Tokens.create now tok db).1.api_tokens
          ≡ some (Tokens.created_row now tok))
unfolding Tokens.create
create_found now tok db quiet h = elim (Bool-cases (tok.token_hash == "")) [
  | inl empty ↦
      absurd (err_not_ok (error "sqlite: api_tokens: TokenHash required") tt (rw empty at h))
  | inr full ↦
      let taken : Db → Bool = λ db.
        not (any (λ r. Tokens.has_id tok.id r || Tokens.has_hash tok.token_hash r) db.api_tokens) in
      let put : Db → Db =
        λ db. record db { api_tokens = db.api_tokens ++ Tokens.created_row now tok ∷ [] } in
      let run = exec_checked-ok taken put db quiet (rw full at h) in
      let new =
        any-or (Tokens.has_id tok.id) (Tokens.has_hash tok.token_hash) db.api_tokens
          (ground (arith, run.0)) in
      let hit =
        find-append_hit (Tokens.has_hash tok.token_hash) (Tokens.created_row now tok) db.api_tokens
          new (eq_refl tok.token_hash) in
      simp (full, run.1) (quiet, hit)
]

-- The state after an issue: the row of the new token is found by the hash of the secret.
record Stored (hash_token : String → String) (body : IssueRequest) (view : Issued) (db : Db)
    : Type 0 where
  quiet : IsQuiet db
  row : TokenRow
  here : find (Tokens.has_hash (hash_token view.secret)) db.api_tokens ≡ some row
  live : row.revoked ≡ false
  scopes : row.scopes ≡ body.scopes
  end : row.expires_at ≡ Tokens.nullable_ms view.token.expires_at

module _ (hash_token : String → String) (parse_duration : String → Result Duration) where
  store_token-Stored :
      (now : Time) (draw : Draw) (body : IssueRequest) (raw : String) (expires : Option Time)
      (db : Db)
      → IsQuiet db
      → Sends
          (Stored hash_token body)
          (store_token now (new_token draw body (hash_token raw) expires) raw db)
  unfolding store_token new_token to_view Tokens.created_row
  store_token-Stored now draw body raw expires db quiet =
      let tok = new_token draw body (hash_token raw) expires in
      calling_cases (Sends (Stored hash_token body)) 500 (Tokens.create now tok) _ db
        (λ u made.
          let (still, here) = create_found now tok db quiet made in
          record {
            quiet = still;
            row = Tokens.created_row now tok;
            here = here;
            live = refl;
            scopes = refl;
            end = refl;
          })
        (λ e fails. tt)

  generated-Stored :
      (draw : Draw) (body : IssueRequest) (random : Result String) (expires : Option Time) (db : Db)
      → IsQuiet db
      → Sends (Stored hash_token body) (
          given 500
            (generate_token hash_token parse_duration random)
            (λ (raw, hash). store_token draw.stored (new_token draw body hash expires) raw)
            db)
  unfolding generate_token
  generated-Stored draw body (ok text) expires db quiet =
      store_token-Stored draw.stored draw body _ expires db quiet
  generated-Stored draw body (err e) expires db quiet = tt

  issue_token-Stored :
      (draw : Draw) (body : IssueRequest) (db : Db)
      → IsQuiet db
      → Sends (Stored hash_token body) (issue_token hash_token parse_duration draw (ok body) db)
  unfolding issue_token
  issue_token-Stored draw body db quiet =
      let P = Sends (Stored hash_token body) in
      given_cases P 400 (validate_request body) _ db
        (λ _ _.
          given_cases P 400 (expiry hash_token parse_duration draw.start body.expires_in) _ db
            (λ expires _. generated-Stored draw body draw.random expires db quiet) (λ _. tt))
        (λ _. tt)

-- A token lasts in its row until less than a millisecond before its end.
Lasts-in_row :
    (end : Option Time) (now : Time)
    → Lasts end (now +ℤ pos 999999)
    → Lasts (Tokens.of_nullable_ms (Tokens.nullable_ms end)) now
Lasts-in_row none now h = tt
Lasts-in_row (some t) now h = grind (int_laws, of_unix_milli_close t)

-- A token that is issued opens exactly what its request asked for. Where the handler answers with
-- a body, the secret in it passes the gate of a scope on the state left behind if and only if that
-- scope or admin is among the scopes of the request, up to a millisecond before the end that the
-- body shows. There is a token store, the secret is not the shared token, and the database does
-- not fail.
pub issued_token_opens :
    (texts : Texts) (parse_duration : String → Result Duration) (s : Settings) (draw : Draw)
    (body : IssueRequest) (code : ℕ) (view : Issued) (scope : Scope) (now : Time) (header : String)
    (db : Db)
    → IsQuiet db
    → s.has_tokens ≡ true
    → let (reply, db') = issue_token texts.hash_token parse_duration draw (ok body) db in
      reply ≡ sent code view
      → view.secret ≢ s.api_token
      → bearer_token texts header ≡ ok view.secret
      → Lasts view.token.expires_at (now +ℤ pos 999999)
      → (passes (gate texts s scope now header db').0 ≡ true)
        ↔ (Elem admin body.scopes ⊎ Elem scope body.scopes)
unfolding Tokens.of_row
issued_token_opens texts parse_duration s draw body code view scope now header db quiet tokens h
      other bearer lasts =
    let (_, db') = issue_token texts.hash_token parse_duration draw (ok body) db in
    let stored =
      of_Sends (Stored texts.hash_token body) _ code view
        (issue_token-Stored texts.hash_token parse_duration draw body db quiet) h in
    let gates = by_row texts s scope now header view.secret db' stored.quiet tokens other bearer in
    let end = Lasts-in_row view.token.expires_at now lasts in
    let row : row_of texts view.secret db' ≡ some (Tokens.of_row stored.row) =
      ap Tokens.found stored.here in
    let has : List Scope → Type 0 = λ scopes. Elem admin scopes ⊎ Elem scope scopes in
    let may : RowMayAct scope now (row_of texts view.secret db') ↔ has body.scopes =
      subst (λ r. RowMayAct scope now r ↔ has body.scopes) (sym row)
        (
          λ h. subst has stored.scopes h.2,
          λ h. (
            stored.live,
            subst (λ e. Lasts (Tokens.of_nullable_ms e) now) (sym stored.end) end,
            subst has (sym stored.scopes) h,
          ),
        ) in
    (λ h. may.0 (gates.0 h), λ h. gates.1 (may.1 h))
