-- ===== src/Api/Handlers/Tokens/Revoked.antt =====
-- What a revocation shuts out.
use signalwatch.Base.{
  true, String, ◌==◌, eq_iff, ◌≡◌, ◌≢◌, ◌↔◌, inl, inr, refl, sym, ap, subst, arith, Option, none,
  some, Bool-cases,
}
use signalwatch.Base.Lists.{find, find-update_where, changed_where, update_where}
use signalwatch.Base.Result.{ok}
use signalwatch.Base.Time.{Time}
use signalwatch.Auth.Token.{Scope, Token}
use signalwatch.Store.Db.{Db, TokenRow, IsQuiet, query-quiet, exec-quiet}
use signalwatch.Store.Tokens
use signalwatch.Api.Gate.{Settings, Texts, bearer_token, gate}
use signalwatch.Api.Access.{passes, row_of, RowMayAct}
use signalwatch.Api.Reply.{Reply, bare, calling_cases}
use signalwatch.Api.Handlers.Tokens.{revoke_token, revoke_found}
use signalwatch.Api.Handlers.Tokens.Access.{by_row}

-- The row is not the one with this id.
abbrev pub HasOtherId : String → Option Token → Type 0
HasOtherId id none = Unit
HasOtherId id (some t) = t.id ≢ id

abbrev revoke_row : TokenRow → TokenRow
revoke_row r = record r { revoked = true }

abbrev revoked_db : String → Db → Db
revoked_db id db = record db {
  api_tokens = update_where (Tokens.has_id id) revoke_row db.api_tokens;
}

module _ (scope : Scope) (now : Time) (id : String) where
  row_after :
      (row : Option TokenRow)
      → RowMayAct scope now (Tokens.found (changed_where (Tokens.has_id id) revoke_row row))
        ↔ (RowMayAct scope now (Tokens.found row) × HasOtherId id (Tokens.found row))
  unfolding Tokens.of_row
  row_after none = (λ h. (h, tt), λ h. h.0)
  row_after (some r) = elim (Bool-cases (r.id == id)) [
    | inl same ↦ simp (same) (λ h. absurd (cc), λ h. absurd (h.1 ((eq_iff r.id id).0 same)))
    | inr apart ↦ simp (apart) (λ h. (h, λ e. ground (arith, eq_iff r.id id)), λ h. h.0)
  ]

  row_revoked :
      (texts : Texts) (secret : String) (db : Db)
      → RowMayAct scope now (row_of texts secret (revoked_db id db))
        ↔ (RowMayAct scope now (row_of texts secret db) × HasOtherId id (row_of texts secret db))
  row_revoked texts secret db =
      let p = Tokens.has_hash (texts.hash_token secret) in
      subst
        (λ r.
          RowMayAct scope now (Tokens.found r)
          ↔ (RowMayAct scope now (row_of texts secret db) × HasOtherId id (row_of texts secret db)))
        (sym (find-update_where p (Tokens.has_id id) revoke_row db.api_tokens (λ x. refl)))
        (row_after (find p db.api_tokens))

  abbrev Revokes : Db → Reply (Unit {0}) × Db → Type 0
  Revokes db x = x.0 ≡ bare 204 → x.1 ≡ revoked_db id db

  found-Revokes :
      (db : Db) (found : Option Token) → IsQuiet db → Revokes db (revoke_found id found db)
  found-Revokes db none quiet = λ h. cc
  found-Revokes db (some t) quiet =
      let run : Tokens.revoke id db ≡ (ok tt, revoked_db id db) =
        unfold Tokens.revoke in exec-quiet _ db quiet in
      calling_cases (Revokes db) 500 (Tokens.revoke id) (λ _. λ db. (bare 204, db)) db
        (λ _ _ _. ap (λ p. p.1) run) (λ e _ h. cc)

  revoke_token-Revokes : (db : Db) → IsQuiet db → Revokes db (revoke_token id db)
  unfolding revoke_token Tokens.get
  revoke_token-Revokes db quiet = elim (Bool-cases (id == "")) [
    | inl empty ↦ simp (empty) (λ h. cc)
    | inr full ↦
        simp (full, query-quiet _ db quiet)
          (found-Revokes db (Tokens.found (find (Tokens.has_id id) db.api_tokens)) quiet)
  ]

-- Revoking a token shuts out exactly that token. Where the handler answers 204, a text that is not
-- the shared token passes the gate of a scope afterwards if and only if it passed before and its
-- row is not the one with the given id. There is a token store, and the database does not fail.
pub revocation_exact :
    (texts : Texts) (s : Settings) (scope : Scope) (now : Time) (header secret id : String)
    (db : Db)
    → IsQuiet db
    → s.has_tokens ≡ true
    → secret ≢ s.api_token
    → bearer_token texts header ≡ ok secret
    → (revoke_token id db).0 ≡ bare 204
    → (passes (gate texts s scope now header (revoke_token id db).1).0 ≡ true) ↔ (
        (passes (gate texts s scope now header db).0 ≡ true)
        × HasOtherId id (row_of texts secret db))
revocation_exact texts s scope now header secret id db quiet tokens other bearer h =
    let done = revoke_token-Revokes scope now id db quiet h in
    let before = by_row texts s scope now header secret db quiet tokens other bearer in
    let after =
      by_row texts s scope now header secret (revoked_db id db) quiet tokens other bearer in
    let row = row_revoked scope now id texts secret db in
    subst
      (λ d. (passes (gate texts s scope now header d).0 ≡ true) ↔ (
        (passes (gate texts s scope now header db).0 ≡ true)
        × HasOtherId id (row_of texts secret db)))
      (sym done)
      (
        λ p. (before.1 (row.0 (after.0 p)).0, (row.0 (after.0 p)).1),
        λ p. after.1 (row.1 (before.0 p.0, p.1)),
      )
