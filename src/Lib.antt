-- ===== src/Lib.antt =====
-- Verification of the community stack: a local-first store of documents, facts, plans and toolkit
-- knowledge for small communities, which signs every change into an append-only log and hands the
-- records to transports.
--
-- The program. A client sends a request over a local socket (src/adapters/local_api.rs); the use
-- cases (src/application.rs and src/application/) validate it, stage the change on the document
-- engine, have the secure log forge a record of it, and commit the record to the store
-- (src/adapters/sqlite.rs and src/adapters/sqlite/), which in one transaction appends the
-- operation, the document update, the head of the log, an outbox row, the views of facts, plans
-- and toolkit, and the stored response. A transport claims records from the outbox under a lease
-- and acknowledges them. The data types of all this are in src/domain/.
--
-- The model. Domain transcribes src/domain/ (one file per file). Failure is the error value of an
-- operation and its monad. Ports is src/ports.rs: the document engine (loro), the secure log
-- (p2panda) and the hasher are libraries, so they are parameters, records of functions that the
-- definitions take. Store models the repository: Store.Tables has the rows of migrations/ and a
-- database that is a record of lists of rows, Store.Read the queries, Store.Commit the function
-- commit_local, Store.Projection apply_projection and its three kinds of view, Store.Catalog and
-- Store.Plans the queries of toolkit and plans, Store.Outbox claim_outbox and ack_outbox,
-- Store.Documents the change feed, Store.History the histories of commits, claims and
-- acknowledgements, Store.Channel the channel between the callers and the writer thread, which
-- carries an error as its text. A transaction is a function from a database to a new database or
-- an error, and an error leaves the database as it was. Application models the use cases:
-- Application.Validate the validators, Application.Mutate the functions mutate,
-- mutate_in_namespace and mutate_locked, Application.Planning src/application/planning.rs (the put
-- handlers, the views and the grants of the planning profile, with the guard against dependency
-- cycles), Application.Toolkit src/application/toolkit.rs (concepts, tools, assertions, reviews
-- and the evaluation of queries), Application.Dispatch the access control of call_authenticated,
-- Application.Facts the checks of facts (Facts.Schema of a schema that is registered,
-- Facts.Conform of a fact against its schema, with the depth as the levels that are left, Facts
-- itself of the lifecycle). LocalApi models response_for_error and validate_frame_length of
-- src/adapters/local_api.rs. Examples runs the model on a small community. The clock is an
-- argument (now, in milliseconds).
--
-- Representations. A hash of 32 bytes is the number that the bytes write in big-endian order, a
-- byte vector a list of numbers, a text a native string measured in bytes. A JSON value is a data
-- type of its own (Domain.Json), with a finite float as its bit pattern. The texts that serde_json
-- makes of a record and the content hash of a concept are parameters too. A counter of the source
-- that is checked against overflow is checked here against the same bound (2 ^ 32 - 1 for a place
-- in a log, 2 ^ 64 - 1 for a revision). Columns that hold one constant value in this program are
-- left out. Of the constraints of the tables, the keys are modelled, and so are the foreign keys
-- on which a write can fail: a stored response needs a registered application (the registration
-- itself is not modelled, so a history starts from a store with given applications), and the
-- planning and toolkit records need the records that they name. A foreign key on the operation
-- that a transaction has just inserted always holds. That of a grant on its principal, and the
-- bounds of columns that the use cases check more strictly, are left out.
--
-- Fuel. Every loop is structural recursion on a list or, for the search of the planning profile
-- for a dependency cycle, recursion on fuel that is shown to be enough.
--
-- Not modelled. The handlers of facts and schemas beyond their checks, the queries of the fact
-- views and the listing of documents; the parsing and printing of requests, sockets, threads and
-- the cryptography of the libraries; SQLite itself, of which the model uses what the statements
-- mean; the locks of documents, of a community's plans and of its toolkit, which make the reads
-- and the commit of one use case follow one another (a use case is modelled as one uninterrupted
-- step from one database, while the commit repeats its checks); the recovery tools, configuration
-- and the command line; the vendored p2panda-store.
mod Common
pub mod Domain
pub mod Failure
pub mod Ports
pub mod Store
pub mod Application
pub mod LocalApi
pub mod Examples
