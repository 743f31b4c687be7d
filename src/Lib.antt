-- ===== src/Lib.antt =====
-- Verification of the CMS back end: the editing and review of content, and what stands around it.
--
-- The program keeps content models, entries of a model, and immutable revisions of an entry. An entry
-- has a draft pointer and at most one published pointer. A caller creates, updates and archives
-- entries, and takes a revision through a review: draft, under review, rejected or published, and
-- unpublished. Each call runs in one database transaction on behalf of a principal, whose permissions
-- come from his roles, and writes an audit event. Administrators manage users, roles and their grants.
-- A configuration namespace has items whose values pass through the same review. A rate limiter stands
-- before the login, and token buckets with limits of concurrency before the API for clients.
--
-- - Prelude: tests, lists, texts, finite maps; the names of the libraries that all files share.
-- - AppError: internal/platform/apperror/error.go, results of fallible code.
-- - Database, Database/Retry: internal/platform/database/transaction.go. A transaction is a function
--   from the tables to a failure or to a value and new tables; `within_tx` commits or rolls back.
-- - Identity: internal/identity/principal.go. Types holds the records, Defs the functions, Normalize and
--   Delegate what is proved of them.
-- - Permission: internal/permission/permission.go. Defs computes a principal from the tables, Grants and
--   Access compare it with what the tables allow.
-- - Audit: internal/audit/audit.go, the event and its row.
-- - Accounts: internal/permission/service.go with its repository.go, and internal/identity/service.go with
--   its repository.go and users.go, on the tables of Permission. Store has the state `AccessDb` and what a
--   call is given, Grants the queries on roles, Checks the checks of a request and of what a caller may
--   pass on, Roles the operations `CreateRole`, `UpdateRole`, `DeleteRole`, `ReplaceUserRoles`,
--   `ReplaceSystemPermissions` and `ReplaceModelPermissions` as transactions, which `role_call` joins.
--   Users is `Get`, Phone `normalizeMainlandPhone`, UserCalls `Create`, `UpdatePhone` and `SetStatus`.
--   Rows and Selection say what the queries read and write, row by row; Escalation what a role call may add
--   to what users are granted; Sound and Calls what all calls keep.
-- - Auth/Limiter: internal/auth/limiter.go.
-- - Schema: internal/schema/types.go, the data of a content model.
-- - Content: internal/content. Types has the rows and the record `Db` of all tables, Repository the
--   queries of repository.go as functions of `Db`, Env what a call is given from outside. References is
--   `lockRelationModels`, `precheckMedia` and internal/asset/references.go. Drafting is `CreateEntry`
--   (`create`), `UpdateEntry` (`update`) and `ArchiveEntry` (`archive`), Workflow is `workflow` with
--   `rebuildUniqueValues`, Workflow/Actions is `Submit`, `Approve`, `Reject` and `Unpublish`, which
--   `perform` joins. Their children say what each step has done where it succeeds. Ending says how a
--   call ends, Review and Drafts what a client may rely on, Unique what the table of unique values holds,
--   Invariant and Valid what every call keeps; Valid/Calls joins all calls to one type, and
--   Valid/Published says how a revision comes to be published.
-- - Client/Protection: internal/client/protection.go, with Server for the requests that run under it, and
--   Bounds, Balance and Requests for what is proved of it. The arithmetic of `float64` on tokens is the
--   record `Arithmetic`, of which nothing is assumed.
-- - Transfer: the escape of formulas in internal/transfer/csv.go.
-- - Config: the service of internal/configuration (service.go and repository.go): namespaces, items, drafts
--   and the review. `config_call` is one call, `run_config_calls` a sequence of them. `UpdateItem` is not
--   modelled.
-- - Tests: concrete runs.
--
-- Tables are functions from a key to a row, and logs are lists. A time is a natural number. Numbers of
-- revisions are unbounded, while the column is an unsigned 32-bit integer. The retry runs at most three
-- attempts, as the source does; no other loop needs a bound, since all recurse on a list.
--
-- What comes from outside of a call is a field of `Env`, `AccountEnv` and `ConfigEnv`: the principal, the
-- clock, the identifiers that are drawn, the answer of the commit, the validation of audit events, the
-- resolution of assets behind the transaction, and the rules of internal/content/validation.go and
-- internal/configuration/validation.go with the checks of a configuration's assets and relations, which
-- are not modelled. Nothing is assumed of any of them.
--
-- Row locks are left out: a transaction is one step on the tables, so that no two interleave. Foreign
-- keys, checks and the unique key on revision numbers are not executed; a primary key that is taken is a
-- failure where the source inserts an entry, a revision, an event or an audit event. Error messages and
-- details, the request's meta data, the referenced assets of an answer and the typed columns of a field
-- value are left out. The lists, the cursors, the import of drafts, the HTTP layer, the public reader,
-- the grants that `GetRole` shows for the built-in role, the published reader of the configuration, the
-- service of assets, transfer jobs, sessions and the front end are not modelled.
mod Prelude
pub mod AppError
pub mod Database
pub mod Identity
pub mod Permission
pub mod Auth
pub mod Schema
pub mod Content
pub mod Client
pub mod Transfer
pub mod Audit
pub mod Accounts
pub mod Config
mod Tests
