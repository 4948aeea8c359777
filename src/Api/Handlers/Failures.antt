-- ===== src/Api/Handlers/Failures.antt =====
-- What a write that is refused leaves behind.
use signalwatch.Base.{String, ◌==◌, refl, Option, none, some, Bool-cases, inl, inr}
use signalwatch.Base.Result.{Result, Exec}
use signalwatch.Base.Time.{Time, Duration}
use signalwatch.Subscriber.{Subscriber, validate}
use signalwatch.Auth.Token.{Token}
use signalwatch.Store.Db.{Db, query}
use signalwatch.Store.Failure.{
  IsAtomic, exec-IsAtomic, exec_checked-IsAtomic, query-SameTables, SameTables-trans,
}
use signalwatch.Store.Incidents.Atomic.{SameTables}
use signalwatch.Store.Subscribers
use signalwatch.Store.Subscriptions
use signalwatch.Store.Tokens
use signalwatch.Api.Reply.{Reply, Handling, calling, given, calling_cases, given_cases, Fails}
use signalwatch.Api.Handlers.Subscribers.{create_subscriber, update_subscriber, delete_subscriber}
use signalwatch.Api.Handlers.Subscriptions.{
  Seconds, Payload, create_subscription, create_valid, update_subscription, update_valid,
  delete_subscription,
}
use signalwatch.Api.Handlers.Tokens.{
  Draw, IssueRequest, issue_token, store_token, generate_token, expiry, validate_request,
  revoke_token, revoke_found,
}

-- A failed reply leaves the tables as they were.
abbrev pub Unchanged : {A : Type 0} → Db → Reply A × Db → Type 0
Unchanged db = Fails (SameTables db)

module _ {P A : Type 0} (db : Db) where
  -- A handler that calls an atomic operation and then answers.
  called :
      (m : Exec Db P) (f : P → Handling Db A)
      → IsAtomic m
      → ((p : P) → Unchanged db (f p (m db).1))
      → Unchanged db (calling 400 m f db) × Unchanged db (calling 500 m f db)
  called m f atomic rest = (
    calling_cases (Unchanged db) 400 m f db (λ p _. rest p) (atomic db),
    calling_cases (Unchanged db) 500 m f db (λ p _. rest p) (atomic db),
  )

  checked :
      (r : Result P) (f : P → Handling Db A)
      → ((p : P) → Unchanged db (f p db))
      → Unchanged db (given 400 r f db) × Unchanged db (given 500 r f db)
  checked r f rest = (
    given_cases (Unchanged db) 400 r f db (λ p _. rest p) (λ _. refl),
    given_cases (Unchanged db) 500 r f db (λ p _. rest p) (λ _. refl),
  )

create_token-IsAtomic : (now : Time) (t : Token) → IsAtomic (Tokens.create now t)
unfolding Tokens.create
create_token-IsAtomic now t db e = elim (Bool-cases (t.token_hash == "")) [
  | inl empty ↦ simp (empty) (λ _. refl)
  | inr full ↦ simp (full) (exec_checked-IsAtomic _ _ db e)
]

revoke-Unchanged :
    (id : String) (found : Option Token) (db : Db) → Unchanged db (revoke_found id found db)
unfolding Tokens.revoke
revoke-Unchanged id none db = refl
revoke-Unchanged id (some t) db = (called db (Tokens.revoke id) _ (exec-IsAtomic _) (λ _. tt)).1

-- A lookup before a write changes no table.
looked_up :
    {A : Type 0} (db db' : Db) (x : Reply A × Db)
    → SameTables db db'
    → Unchanged db' x
    → Unchanged db x
looked_up db db' (Reply.sent c a, s) same h = tt
looked_up db db' (Reply.failed c e, s) same h = SameTables-trans db db' s same h
looked_up db db' (Reply.bare c, s) same h = tt

module _ (sec : Seconds) (hash_token : String → String)
    (parse_duration : String → Result Duration) where
  subscriptions_unchanged :
      (now : Time) (fresh id : String) (body : Result Payload) (db : Db)
      → Unchanged db (create_subscription sec now fresh body db)
        × Unchanged db (update_subscription sec now fresh id body db)
  unfolding create_subscription create_valid update_subscription update_valid Subscriptions.create
      Subscriptions.update
  subscriptions_unchanged now fresh id body db = (
    (checked db body _ λ p.
        (checked db (validate _) _
          λ _. (called db _ _ (exec_checked-IsAtomic _ _) (λ _. tt)).0).0).0,
    (checked db body _ λ p.
        (checked db (validate _) _
          λ _. (called db _ _ (exec_checked-IsAtomic _ _) (λ _. tt)).0).0).0,
  )

  subscribers_unchanged :
      (now : Time) (fresh id : String) (body : Result Subscriber) (db : Db)
      → Unchanged db (create_subscriber now fresh body db)
        × Unchanged db (update_subscriber now id body db)
        × Unchanged db (delete_subscriber id db)
  unfolding create_subscriber update_subscriber delete_subscriber Subscribers.create
      Subscribers.update Subscribers.delete
  subscribers_unchanged now fresh id body db = (
    (checked db body _ λ s. (called db _ _ (exec_checked-IsAtomic _ _) (λ _. tt)).0).0,
    (checked db body _ λ s. (called db _ _ (exec-IsAtomic _) (λ _. tt)).0).0,
    (called db _ _ (exec-IsAtomic _) (λ _. tt)).1,
  )

  tokens_unchanged :
      (draw : Draw) (body : Result IssueRequest) (id : String) (db : Db)
      → Unchanged db (issue_token hash_token parse_duration draw body db)
        × Unchanged db (revoke_token id db)
  unfolding issue_token store_token revoke_token Tokens.get
  tokens_unchanged draw body id db = (
    (checked db body _ λ b.
        (checked db (validate_request b) _ λ _.
          (checked db (expiry hash_token parse_duration draw.start b.expires_in) _ λ expires.
            (checked db (generate_token hash_token parse_duration draw.random) _ λ p.
              (called db (Tokens.create draw.stored _) _ (create_token-IsAtomic _ _)
                (λ _. tt)).1).1).0).0).0,
    elim (Bool-cases (id == "")) [
      | inl empty ↦ simp (empty) refl
      | inr full ↦ simp (full) (
          calling_cases (Unchanged db) 500 (query _) _ db
            (λ found _. looked_up db _ _ (query-SameTables _ db) (revoke-Unchanged id found _))
            (λ e _. query-SameTables _ db))
    ],
  )

  deletion_unchanged : (id : String) (db : Db) → Unchanged db (delete_subscription id db)
  unfolding delete_subscription Subscriptions.delete
  deletion_unchanged id db = (called db _ _ (exec-IsAtomic _) (λ _. tt)).1

  -- A write of subscribers, subscriptions or tokens that the API refuses leaves every table as it
  -- was, whatever the reason: the body, the check, the token's end or randomness, a constraint or
  -- a failure of the database at any statement.
  pub refused_writes_unchanged :
      (now : Time) (draw : Draw) (fresh id : String) (who : Result Subscriber)
      (what : Result Payload) (asked : Result IssueRequest) (db : Db)
      → Unchanged db (create_subscriber now fresh who db)
        × Unchanged db (update_subscriber now id who db)
        × Unchanged db (delete_subscriber id db)
        × Unchanged db (create_subscription sec now fresh what db)
        × Unchanged db (update_subscription sec now fresh id what db)
        × Unchanged db (delete_subscription id db)
        × Unchanged db (issue_token hash_token parse_duration draw asked db)
        × Unchanged db (revoke_token id db)
  refused_writes_unchanged now draw fresh id who what asked db =
      let (a, b, c) = subscribers_unchanged now fresh id who db in
      let (d, e) = subscriptions_unchanged now fresh id what db in
      let (f, g) = tokens_unchanged draw asked id db in
      (a, b, c, d, e, deletion_unchanged id db, f, g)
