-- ===== src/Lib.antt =====
-- Verification of the e-waste platform's backend, the Go service under src/backend.
--
-- A donor creates, edits and submits batches of e-waste; a batch then moves through matching, claim,
-- collection, receipt and treatment. Each command runs in one MySQL transaction, which also records
-- the command under its idempotency key, an audit event, and, when others must hear of it, an event
-- in an outbox. A relay claims outbox events and publishes them to Kafka.
--
-- Files, and the code that they model (paths without the common src/backend/internal/):
--   Common and its children: numbers, texts (as lists of code points), error values and results;
--     Common/Errors has the errors of service/*_errors.go and of package repository.
--   Decimal: strconv.ParseInt and its print, which the weights are read and written with.
--   Store: the tables (model/*.go) as lists of rows, and transactions that roll back on an error;
--     Store/Statements has the statements of repository/batch.go (CreateBatch, UpdateDraft,
--     SubmitDraft, FindCommand, CompleteCommand and the others), Store/Laws what they have done.
--     Store/Directory has the tables that are only read, Store/Allocation those of claims and
--     assignments, and Store/Updates the laws of statements that several repositories share.
--   Actor: ValidateRecyclerActor and ValidateCollectorActor (repository/claim.go, assignment.go).
--   Claim: ClaimWorkflowService.Claim (service/claim.go). Claim/Statements has the statements of
--     repository/claim.go, Claim/Prepare the checks before the transaction, Claim/Transaction the
--     transaction, Claim/Effects what the transaction did, Claim/Capacity the capacity pools,
--     Claim/Replay and Claim/Answers what is answered, Claim/Quiet a claim that runs alone,
--     Claim/Outcome and Claim/Guarantees claims as wholes. What the lease does and what others
--     write between a claim's transactions is an argument (the record Surroundings).
--   Assignment: AssignmentWorkflowService (service/assignment.go). Assignment/Statements has the
--     statements of repository/assignment.go, Assignment/Prepare the checks before the
--     transactions, Assignment/Rows the rows, answers and payloads, Assignment/Transaction the
--     transactions; Assignment/Steps, Backing, Selection, Responses, Effects and Recovery say what
--     each command did, Assignment/Courses writes the rows of a pickup out, which
--     Assignment/Pickups compares with the code's, Assignment/Latest is about the last assignment of a batch,
--     Assignment/Outcome treats the commands as wholes and Assignment/Guarantees what holds between
--     commands.
--   Lifecycle: the life of a batch as an abstract machine; Lifecycle/Refinement and
--     Lifecycle/Histories relate it to the commands of the batch, claim and assignment services.
--   Dto: requests, results and payloads (dto/batch.go, claim.go, assignment.go and the structs of
--     the services).
--   Platform: JSON, SHA-256 and float64, whose code is Go's; the models take them as a parameter.
--   Command: metadata, actor scope, command rows and audit rows (service/batch.go,
--     batch_errors.go).
--   Replay: loadReplay of service/batch.go, claim.go and assignment.go, over the errors of the
--     service; Batch/Replay has those of batches.
--   Batch: BatchService.CreateDraft, EditDraft and Submit (service/batch.go). Batch/Validate has
--     validateDraft and validateStoredBatch, Batch/View the rows, answers and payloads,
--     Batch/Prepare the checks before the transaction; Batch/Effects and Batch/Drafts say what each
--     command did, Batch/Commands treats the commands as wholes, Batch/History and Batch/Protection
--     sequences of them.
--   Treatment: normalizeTreatmentRequest, parseTreatmentCents and formatTreatmentCents
--     (service/treatment.go), on hundredths of a kilogram.
--   Outbox: ClaimPending, MarkPublished, MarkRetry and MarkQuarantined (repository/outbox.go).
--     Outbox/Order has the order of the events, Outbox/Claim what ClaimPending selects,
--     Outbox/Marks what a mark does to the rows, and Outbox/Leases how long a claim keeps its
--     events. How the statements of a mark end is an argument (MarkFault): the database may roll a
--     mark back, lose its answer, or fail to read the row's state.
--   Lease: the leases of lease/redis.go and outbox/lease.go, over an interface that states what
--     their Redis commands do; Lease/Exclusion treats sequences of calls.
--   RateLimit: the limiter of ratelimit/redis.go, over an interface for a Redis counter.
--   Relay: NewRelay's defaults and processOnce (outbox/relay.go).
--
-- Conventions. A time is a number of nanoseconds. A table is a list of rows, the newest first; a
-- transaction runs alone, since the source locks the rows that it reads, and an error gives back the
-- store that it began with. Readings of the clock and generated ids are arguments (the records Call,
-- ClaimCall and AssignmentCall). The origin of time is Go's zero time.
-- The DECIMAL columns of a capacity pool are in hundredths of a kilogram.
-- No loop of the models needs fuel: all run over the lists that they are given.
--
-- Not modelled: HTTP, routing, configuration, logging and telemetry, Kafka and blob storage,
-- which are input and output; the services for matching, receipts, analytics, evidence, audit
-- reads and authentication; RecordTreatment; the column details_json; the CHECK constraints
-- and foreign keys of the tables, and the range of their integer columns (a batch's version is a
-- number without a bound); and the database errors of ClaimPending. Identifiers are compared
-- exactly, whereas the tables' collation ignores case.
pub mod Common
pub mod Decimal
pub mod Treatment
pub mod Store
pub mod Actor
pub mod Claim
pub mod Assignment
pub mod Dto
pub mod Platform
pub mod Command
pub mod Replay
pub mod Batch
pub mod Lifecycle
pub mod Samples
pub mod Outbox
pub mod Relay
pub mod Lease
pub mod RateLimit
