-- ===== src/Lib.antt =====
-- A model of zhi-file-service-go, a file service: clients upload files in sessions, read them by
-- download URLs and tickets, and administrators manage tenants.
--
-- The parts, and the files that model them (paths from the root of the repository):
-- - Xerrors: pkg/xerrors/errors.go, the error values with their codes and HTTP statuses, and the
--   sentinels of pkg/storage/errors.go. Storage: pkg/storage/types.go. Result is what a Go function
--   that returns a value and an error gives.
-- - Upload: internal/services/upload. Status, Mode and Hash are the types of domain/session_status.go,
--   session_mode.go, content_hash.go and completion_ownership.go. Session, Validation and Lifecycle
--   are domain/session.go: the record, NewSession and Validate, and the methods MarkUploading,
--   AcquireCompletion, MarkCompleted, MarkFailed and Abort. A method takes a session and gives its
--   answer and the session as it leaves it, also where it fails. Lifecycle/Runs and
--   Lifecycle/Ownership run the methods in sequences. Auth is domain/auth_context.go; Parts, Policy
--   and Complete are the functions of app/commands that call no port.
--   Rows, Tables and Statements are the tables of infra/postgres/repositories.go and what its SQL
--   does to them, Repositories its methods, World what every handler acts on: the tables, the
--   providers and the clock, with the transactions. Materialize and Completion are
--   app/commands/complete_upload_session.go, Completion/Commit what its transaction does. Handlers is
--   the other files of app/commands and app/queries, Handlers/Outcomes what they have done when they
--   return, and View is app/view.
-- - Access: internal/services/access. File and Ticket are the domain. Queries is app/queries: a handler
--   is a function of its ports, a record of functions. Request and Issue are
--   app/commands/create_access_ticket.go over Idempotency, the memory store of
--   infra/idempotency/store.go; what concurrent requests do to the store between two calls of a
--   request is a function that the request takes, and its readings of the clock are given with it.
--   Token is infra/token/hmac_ticket_issuer.go. Repositories is
--   infra/postgres/repositories.go, on the tables of Upload/Tables, and Repositories/Deleted joins it
--   with the deletion of the admin service.
-- - Job: internal/services/job. Sessions, Blobs, Usage and Reader are the repositories of
--   infra/postgres/repositories.go by the tables they change, over Maintenance, which has what they
--   share: the choice of a batch and the transaction that asks the storage about each of its rows.
--   Sessions/Composed joins the expiry with the commit of the upload service, Blobs/Writes and
--   Usage/Balanced the statements of all three services that change reference counts and usage. Jobs
--   is app/jobs. Outbox is app/outbox/consumer.go.
-- - Admin: internal/services/admin. Context and Authorization are the administrator of a request, the
--   role matrix and the scopes, Tenant and TenantPolicy are patches and when a change tightens a
--   policy, Guard is app/guard.go. Repositories is infra/postgres/repositories.go, with what its
--   statements do to rows in Repositories/Statements and its lists in Pages. Guard/Granted and
--   TenantPolicy/Tightens describe independently of the code who may change what. Commands and
--   Commands/Handlers are app/commands, Queries is app/queries and app/view; they act on the World of
--   the upload service.
-- - Common has the shared names: tests, lists, integers, texts, times, and the insertion sort that the
--   program writes out in normalizeUploadedParts, with its laws. Examples has the tests.
--
-- The conventions. A string is the list of its Unicode code points. Where the program changes the
-- case of letters or compares without it, the model does so for ASCII letters and for the four other
-- letters whose other case is ASCII; the rest keep their case. A string type with constants is a data
-- type with those and `other`. A time is the nanoseconds since Go's zero time, so earlier instants are
-- not modelled, and UTC() keeps it. The columns of the database keep microseconds; what pgx drops of a
-- time below them is not modelled: a row holds the time as it was given, as it does where the clock's
-- readings are whole microseconds, so that what is said of times in rows is exact for those. int and
-- int64 are integers, and the doubling of a retry's delay wraps around as an int64 does; the sums of
-- sizes, of counts and of a time with a duration are taken without overflow. A pointer that may be nil
-- is an Option, a map that only records what a loop saw is the list of its keys, and the memory
-- store's map is a function. Every loop is a structural recursion, so no fuel is needed.
--
-- The database is a record of lists of rows. A handler is a step on a World that returns a value or an
-- error; every statement and every call of a provider takes the next number, and the environment says
-- by it what the call gives, whether the statement fails, and what other requests have done to the
-- tables before it. Within a transaction they do nothing: the program locks the row of its session
-- with FOR UPDATE, and a statement of a transaction reads no other session.
--
-- The maintenance of the job service is a function of the tables and of a record Database: NOW() and
-- the clock of the process, the rows that another transaction has locked, the statements that fail and
-- the answers of the storage. Where a statement orders rows by a time alone, rows of one time stay in
-- the order of the table. The theorems on the commands of the admin service assume, by a named
-- hypothesis, that no other request writes meanwhile.
--
-- What is a parameter. The ports of Access, the storage providers and the outbox's reader and handlers
-- are records of functions. SHA-256 with its hexadecimal encoding and JSON encoding are functions in
-- the settings of Access.Request; no property of theirs is assumed there. The encodings and the MAC
-- of Access.Token are functions in its settings; that they invert each other and use the characters
-- they document is a named hypothesis of the round trip.
--
-- In the job service what json.Unmarshal says of a payload is a field of Database. In the admin
-- service encoding/json, which error of the database is a unique violation, the order of the
-- database on identifiers and the encoding of cursors are parameters; that cursors are read back as
-- they were written is a named hypothesis.
--
-- What is not modelled: the HTTP transport, the storage providers, Redis, configuration, logging and
-- metrics; the scheduler of the job service with its lock, and the observers. A nil session,
-- context, store or port is not modelled. The SQL of the upload, admin and job services is read as
-- what its statements do to rows; constraints of the schema show as statements that fail, those of
-- unique keys in the admin service as the error that they give.
pub mod Common
pub mod Xerrors
pub mod Result
pub mod Storage
pub mod Upload
pub mod Admin
pub mod Access
pub mod Job
mod Examples
