-- ===== src/Lib.antt =====
-- signalwatch is an alerting engine: rules are evaluated over records of inputs, the state
-- machine of a rule opens and resolves incidents, and a dispatcher notifies the subscribers of a
-- rule through channels, with an audit trail of every call. A pruner archives and deletes old
-- incidents, and an HTTP API with tokens is the way in.
--
-- Parts and files:
-- - Base: Boolean tests, tables as lists, the integers, results and the monad of the model,
--   time. A time is a number of nanoseconds since 1970 and may be negative; Go's zero time is
--   the number of that instant. `Sub` saturates as Go's does.
-- - Subscriber (internal/subscriber/subscriber.go): the types and `Validate`.
-- - Rule (internal/rule): `State` is state.go, `Model` and `Condition` are rule.go, condition.go
--   and expression.go, the compile steps included; `Wire` is the JSON form of a condition;
--   `Lifecycle` has the theorems on runs of `Apply`.
-- - Auth (internal/auth/token.go): tokens, scopes and expiry.
-- - Store (internal/store/sqlite): `Db` is the database, one list of typed rows per table, in
--   the order of insertion, with a list of faults: the driver fails at a statement exactly if
--   the next entry says so, and a database with no fault left is called quiet. A list fails as a
--   whole, except that of the ids in `DeleteResolvedBefore`, whose loop is `read_ids`. A fault at
--   the write of a rule stands for an error of `MarshalCondition` too. There is one
--   module per repository, and `Migrate` for the scripts of migrations/. A column of JSON holds
--   the value that is encoded there; a column of milliseconds holds milliseconds.
-- - Store/Postgres (internal/store/postgres): the same repositories on a database whose texts may
--   be NULL; `View` reads such a database as a SQLite one and `Refines` compares the two. The
--   collation, by which Postgres orders texts, is the parameter `collates`.
-- - Store/Mysql (internal/store/mysql/mysql.go): `Migrate` and `splitStatements`, over the
--   parameter `Strings` for Go's package strings, and what a run leaves where a statement fails.
-- - Channel (internal/channel/channel.go): what `Send` is given, and the log of its calls.
-- - Dispatcher (internal/dispatcher/dispatcher.go): `Tick` is `Tick.tick`,
--   `evaluateSubscription` is `Subscription.evaluate`, `deliver` is `Deliver.deliver`; the state
--   is `World`: the database, the number of ids minted and the log of `Send`.
-- - Eval (internal/eval): `Cache` holds the compiled rules, `Window` is window.go, `Conditions`
--   is `Eval` of the compiled conditions, `Push` is the push evaluator, `Scheduled` is the
--   scheduled evaluator: `eval_one` is `evalOne`, and `wake` is one round of the loop of `Run`.
-- - Engine (engine/engine.go): the calls of `ruleAPI` on the store and the cache, and
--   `reloadAll`.
-- - Retention (internal/retention/retention.go), with the calls of `Archive` and which of them failed:
--   `New`, `RunOnce`, and `Start` over the times
--   of its ticks, until its context ends.
-- - Api (internal/api): `Gate` is auth.go, `Routes` the route table of api.go, `Query` the limits
--   and times of requests, `Reply` what a handler answers, and `Handlers` the handlers of api.go
--   and tokens.go, one module per resource. A handler takes the decoded body, or the error of its
--   decoding, and works on the database, or on the engine where it writes rules.
-- - Input (internal/input): `Kafka`, `Pubsub`, `Rabbitmq` and `Sqs` are the stream inputs: `new`
--   is `New`, and the reading loop is a function from the turns of the broker client to the acts
--   of the input and whether it still runs. `Event` is the event input with `Engine.Submit` and
--   `postEvent`, `Scrape` the scrape input, and `Message` what they share.
-- - Tests: runs on concrete data, and an example of each theorem.
--
-- All functions are total: loops run over lists, and no fuel is needed. Outside code is a
-- parameter: `Env` (the configured channels, their answers, the source of ids), `Libraries`
-- (regular expressions, expr-lang, trimming), `FloatOps` and `Conversions` (floats), `Runtime`
-- (the libraries of an evaluation), `Texts` (SHA-256, trimming), `Sources` (the answers of data
-- sources, and for the scheduled evaluator the samples of the windows, which
-- `Conditions.History.bound` reads from the buffers). A reading of the clock is an argument; one
-- `Tick` reads the clock once for the state machine and its deliveries, as the code does.
--
-- Two more records are parameters: `Parsers` (the parsing of numbers, times and durations) and
-- `Json` (encoding/json at the types of a condition, or at the body of a message).
--
-- Not modelled: the repositories of MySQL, the opening of a database and the migration of a
-- Postgres one, network senders and file archives, the clients of the brokers, the helper
-- functions inside expressions, the registry of data sources, the start and the close of the
-- engine's goroutines, tracing and logs, the pages of the UI and the command lines. Goroutines
-- are serial here: the update of a token's last use happens in line. Of the handlers that the
-- Pub/Sub client runs concurrently only the acts of each one are given, in no common order.
pub mod Base
pub mod Subscriber
pub mod Rule
pub mod Auth
pub mod Store
pub mod Channel
pub mod Dispatcher
pub mod Eval
pub mod Engine
pub mod Retention
pub mod Api
pub mod Input
pub mod Tests
