-- ===== src/Lib.antt =====
-- openvaultdb-go: a server that gives HTTP access to the records of many databases, each described
-- by a manifest, under grants. This library models the parts of it that decide: who is let in and to
-- what, which keys and records are accepted, what a batch of writes does, what bounds a query, and
-- which terms a source has, and which policies are served.
--
-- The parts and their files
--
-- * Auth/Capability, Auth/Grant (pkg/auth/auth.go): capability strings (`ParseCapability`,
--   `ParseCapabilities`, `String`), grants (`Expired`, `Revoked`, `ValidateIdentity`) and
--   `Principal.Allows`. Auth/Capability/RoundTrip and Lists, and Auth/Grant/Authority prove.
-- * Auth/Store (pkg/auth/store.go): the grant store. `exchange_code` is `ExchangeCode`, `save_locked`
--   `saveLocked`, `lookup_token` `Lookup`, `put_code` `PutCode`; Admin has `CreateGrant`, `ListGrants`
--   and `RevokeGrant`, Open has `OpenStore`. Calls orders them in histories. The other children prove.
-- * Auth/Middleware (pkg/auth/middleware.go): bearer authentication in front of the handlers. It
--   looks tokens up in the store and attaches the principal that `Allows` is asked about.
-- * Core/Key (pkg/core/key.go): segments, `ParseKey`, `RootCollection`, `collectionChains`. The root
--   collection is what a capability scopes; the segments become file names. Paths says what a file
--   system makes of a segment; Safety, Containment and Chains prove.
-- * Schema (pkg/schema/schema.go): Declarations has the schemas and their `Validate`, Decimals
--   `validDecimalText`, Records `ValidateRecord`; Values has the decoded JSON values.
-- * Core/Updates (pkg/core/updates.go): `applyUpdates`, the simulation, and `toDalUpdates`.
-- * Core/Batch (pkg/core/core.go, infer.go, write_guard.go): `validateOps`, which simulates a batch on
--   the stored records with Core/Updates and validates the results with Schema.
-- * Core/Quoting, Core/Collections (pkg/core/collection_names.go): `SQLiteLogicalName`, the names that a
--   manifest declares (`newCollectionNames`) and `adapterKey`. Core/WriteGuard (write_guard.go,
--   query_fields.go): `guardWrite` and what it calls, and `adapterOps`; Opening has what is recorded when
--   a database is opened. A batch that passes goes on, renamed, to Core/Batch. The other children prove.
-- * JoinExec/Guard (pkg/joinexec/guard.go, limits.go, leaf.go, errors.go): the budget, the first
--   failure and the statistics of a joined read; Guard/Reading: the counting reader,
--   with other leaves of the request between its critical sections, and `Collect`.
-- * JoinExec/Query, Names, Walker, Walk, Inspect (pkg/joinexec/walk.go): the inspection of a query before
--   it runs. Query is the tree that dal-go hands over, Names has the name rules, among them its own copy
--   of the one for collections, Walker the state and
--   Walk the walk; Inspect has `checkNames`, `inspectWithNativePostgresFields` and `checkProfile`. What a
--   document reads is what the guard of JoinExec/Guard counts. The children prove.
-- * JoinExec/Aliases (pkg/joinexec/aliases.go): `resolveAliases` on the same tree, after the inspection and
--   before the evaluation; Reads says what a document reads, Replaced and Resolved prove.
-- * PolicyStore (pkg/policystore): Disk is what lies under a store's root, Load has `Load`, `read` and
--   `loadGeneration`, Activate the steps of `Activate`, Controller `Controller` and its leases with
--   what may happen to them. Reading, Effects, Published and Served prove.
-- * Server/Gate, Server/CacheControl (pkg/server/querylimits.go): `normalizeQueryLimits`, the gate
--   (`acquire` and its release functions) and `relationalCacheControl`.
-- * Server/Cors (pkg/server/cors.go): `ParseCORSOrigins`, `AllowedOrigin` and `corsMiddleware`.
-- * License (pkg/license/declaration.go, rights.go): Declaration has `ValidateSPDX`, `ValidateURL` and
--   `Validate`, Rights `Resolve` and `Inventory`.
-- * Base has the shared lists, texts, maps, results and integers; Tests has runs at concrete inputs.
--
-- How the code is modelled
--
-- A Go string is a text of code points, as valid UTF-8 is. A map is an association list whose order
-- stands for the order of a `range`. An instant is a count of nanoseconds, 0 the zero time. A
-- pointer that may be nil is an `Option`; where two maps share an object, they hold places of a
-- heap. An error is a constructor that names its cause; the words of messages are left out. A mutex
-- makes calls atomic: a history is a list of calls. `Next` of a counting reader takes the mutex of its
-- guard up to three times: what other leaves do in between is an input, a list of sections. The clock, the random source and the end of a
-- file operation are inputs of the call that reads them. An int64 that is summed keeps its word: the
-- sum is taken modulo 2 ^ 64 and read as a signed number. `sort.Slice` is a stable insertion sort.
--
-- Loops are structural, but for those over the ancestors of a key: they take as many rounds as the
-- key is deep.
--
-- A query of dal-go is a tree with a constructor for each case that the walk distinguishes,
-- `unknown` for any other, and lists written out as types of their own. A disk of policies is the
-- content of its files, one character for each byte; a rename is atomic, the lock of the owner
-- excludes other publications, and `Faults` says at which `Point` the system, a checkpoint or the
-- context ends a call, so that a theorem for every `Faults` speaks of every interruption. A fault of
-- a read stands for each error of the file system but a missing file. A controller's calls are steps
-- of a relation, in which the lock for writing is taken only when nobody holds it for reading.
--
-- Parameters: `Unicode` has the classes of characters and `Calls` the functions of dal-go that the
-- walk asks; `Access` has SHA-256, the JSON encodings, of which it demands that a pointer is read
-- back, and the policies of dalgo's `access`; the policies are compiled from the bodies just read,
-- where the code has `access` read the files once more. `has_aggregation` is dal-go's test. `hash`
-- is SHA-256 in hexadecimal; `PrincipalRefs` is what the grants use of dalgo's principals; `Keys` is
-- dal-go's `record.Key` with the laws of its constructors; `Floats` is float64 with the operations
-- used; `Mount` has what a batch reads of a database: the answer of `Get`, the text of a key, a
-- value through `encoding/json` and back. `path_escape`, `https_url`, `encode` and `encode_all` are
-- what `net/url` and `encoding/json` answer about source rights.
--
-- Not modelled: the temporary file of a save, `ParseKeyPath` (it needs `url.PathUnescape`), the
-- drivers, the query language and its evaluation, the HTTP handlers, the relational executors, and
-- `Open` of the policy store.
pub mod Base
pub mod Auth
pub mod Core
pub mod JoinExec
pub mod License
pub mod PolicyStore
pub mod Schema
pub mod Server
pub mod Tests
