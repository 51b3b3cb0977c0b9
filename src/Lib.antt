-- ===== src/Lib.antt =====
-- motekar-panel: a control panel for one server, in Go. This library models its background jobs,
-- the audit events and settings that belong to them, its passwords, sessions, roles and permission
-- checks, the actions that its agent runs on the server, its migrations, the checks of a host before
-- an installation, and the reading of its configuration and of the system's release.
--
-- The parts and how they interact. A `Queue` (internal/jobs/jobs.go) checks what is enqueued and
-- reported, and calls a `Store`, whose implementation is `SQLStore` (internal/jobs/sqlstore.go)
-- over the tables of services/migrations. A `Worker` (internal/jobs/worker.go) claims jobs from a
-- `RuntimeQueue`, which the queue implements, runs an executor, and reports the outcome. `Retry`
-- and `Cancel` of the store write an audit event (internal/audit) in the same transaction. The
-- service of the web server setting (internal/settings) writes audit events too. A login
-- (internal/auth) stores a session and its event in one transaction; the gate of internal/server
-- asks the session service for the user of a token and the authorizer of internal/rbac whether this
-- user may do what the request is for. The worker's executor (cmd/motekar-panel/main.go) sends a job
-- to the agent (internal/agent), whose registry runs the action of the job's type.
--
-- The files.
--   Base          Go's errors (`Error`, `Result`), methods with state (`Act`), strings (`Text`),
--                 statements and transactions of database/sql (`Sql`), and the properties of
--                 tables that actions keep (`Sql.Keeps`)
--   Schema        the rows of the tables and the CHECKs of services/migrations
--   Json          encoding/json, as the parameter `Codec`
--   Logging       `Redact` of internal/logging/logger.go
--   Audit         `Writer.Record`, and `SQLStore.Write` and `ListRecent` of internal/audit
--   Jobs          the data of internal/jobs/jobs.go, and the two interfaces
--   Jobs.Ident    `newUUID` and `validJobID`
--   Jobs.Finish   `normalizeResult`, `containsSensitiveResultKey`, `safeFailureMessage`
--   Jobs.Queue    the methods of `Queue`: `enqueue` is `Enqueue`, `claim_one` is `ClaimOne`,
--                 `succeed` is `Succeed`, `fail` is `Fail`
--   Jobs.SqlStore the methods of `SQLStore`, under the same names in lower case with underscores;
--                 Claim is the one statement of `ClaimOne`, a definition to each part of it
--   Jobs.SqlStore.Listing `ListRecent` and `ListLogs`
--   Jobs.Worker   `runOnce` as `run_once`, `retryFinalization`, `exponentialBackoff`, and the loop
--                 `RunWithExecutionContext` as `run` over the turns that it is given
--   Settings      `ParseWebServer`, `Select`, `Selected`, and the store's `Get` and `Save`
--   Auth          internal/auth: `Toolkit` has what it calls outside the repository
--   Auth.Password `HashPassword`, `VerifyPassword`, `decodePasswordHash`, `parseParamList`
--   Auth.Session  `Login`, `Logout` and `Validate`; SqlStore has the statements of their store
--   Auth.Bootstrap `CreateFirstAdmin`, and the transaction `CreateAdmin`
--   Rbac          the default roles, `HasPermission`, `RoleByName`, `ValidateDefaults`
--   Rbac.Access   the queries of internal/rbac/sqlstore.go and the `Authorizer`
--   Config        `loadPanel` and `loadAgent` of internal/config
--   Osdetect      `ParseOSRelease` and `CheckSupport` of internal/osdetect
--   Agent         internal/agent. Tokens is `rejectDuplicateJSONKeys`; PayloadType has
--                 `validatePayloadType`, `rejectsRawCommandField` and `validateJSONFieldNames`; Payload
--                 has `decodeActionPayload` and `encodeActionResult`; Actions has `DefineAction` and
--                 the registry
--   Agent.Server  `handleAction` of the agent's server
--   Agent.Transport `ExecuteJob` of the client, and the executor of cmd/motekar-panel/main.go;
--                 Delivered has the agent's server at the other end
--   Database      internal/database/migration.go: `Up` and the statements of its store;
--                 Files has `LoadMigrations`
--   Preflight     `Run` and `Ready` of internal/preflight/preflight.go
--   Server        the gate `RequirePermission` of internal/server/authorization.go; Gate puts the
--                 sessions and the authorizer over one database
--   Tests         concrete inputs
--
-- How Go is modelled. A string is its code points, and `len` counts the bytes of their UTF-8; text
-- that is not UTF-8 is left out. `ToLower` is exact on ASCII and on the two letters that it takes
-- into ASCII; for e-mails it is a parameter. An instant is the number of nanoseconds since the
-- zero time, which is 0. What a clock, a generator of ids or of tokens and `rand.Read` return is
-- an argument. Contexts appear as the Booleans that the code reads of them. `Log` has the two
-- fields that the worker fills. A Go map of ports or of JSON members is the list of its entries,
-- without repeated keys.
--
-- How the database is modelled. The tables are lists of rows. Each statement may fail with the
-- driver's error, as a list of faults says. A transaction that fails at any statement, or at its
-- commit, leaves the tables as they were. The message of a violated constraint is a fixed text.
-- jsonb is taken to print a document as it was given. The claim is one atomic statement on the
-- tables that it finds; what concurrent transactions hold, rows and advisory locks, is the record
-- `Locks`. A claim on a snapshot older than another claim's commit is not in the model. Ids and
-- tokens are compared as the server prints them, in lower case. Whether the server accepts an
-- audit row (its unique id, its user, its address) is the argument `accepts`. What the columns of a
-- session make of a value, its address and its instants, which the server keeps to the microsecond,
-- is `ColumnTypes`; the instants of the other tables are taken to be whole microseconds. The lock
-- that the first administrator's transaction takes makes it one step on the tables that it finds.
--
-- Bounds and fuel. The doubling of the backoff and the retries of a finalisation are recursions on
-- the number of rounds that the code allows, `attempt - 1` and 3. The reading of a JSON document by
-- its tokens has fuel one above their number, and each call uses a token. Decimals are printed
-- with fuel for the digits of the numbers that the code has.
--
-- Not modelled: the other handlers of the HTTP server, the agent's inventory, its socket
-- and the other handlers of its server, the installer, the collector of the preflight
-- and the commands, which are I/O around these parts or stand apart from them.
pub mod Base
pub mod Schema
pub mod Json
pub mod Agent
pub mod Audit
pub mod Auth
pub mod Logging
pub mod Jobs
pub mod Rbac
pub mod Settings
pub mod Config
pub mod Database
pub mod Osdetect
pub mod Preflight
pub mod Server
pub mod Tests
