-- ===== src/Lib.antt =====
-- A verification development for GovSec Shield (Prefeitura-antiHack2), the security event platform
-- of a municipality, on its core under src/core: what becomes of a security event from the time it
-- is normalised until it stands as evidence in an incident, and the life of that incident.
--
-- The parts and how they interact. A security event is built from outside data (Event), with its
-- payload masked (Sanitize) and its times checked (Domain). Its ingestion (Ingestion) resolves the
-- asset (Asset), and writes the event (Event.Stored), an audit log and a message for the outbox in
-- one transaction. The correlation handler (Correlation.Handler) loads a stored event, asks every
-- rule (Correlation.Rules) whether the event is eligible, builds a correlation key with a time
-- bucket (Correlation.Key), finds or creates the one active incident of that key and links the
-- event to it as evidence, all through the repositories of one database transaction
-- (Correlation.Store). Events reach it through the transactional outbox (Outbox), from which a
-- dispatcher publishes them, and a consumer (Consumer) that calls the handler for each message.
-- Operators read the incidents and move one along its life cycle (Incident) through routes
-- (Operator), and acknowledge alerts (Alert); the tenants they work for are created, changed and
-- switched off (Tenant). What they may do is decided by tokens (Token), roles and tenants (Access)
-- and, for commands, by a policy engine in front of the command bus (CommandBus).
--
-- Files and code:
--   Prelude and its children: lists, tests and texts over the native numbers and strings; Python's
--     exceptions as values (Prelude.Python); code that mutates an object and may raise, as state
--     passing in which what was written before a raise stays (Prelude.Exec); functions of the
--     standard library whose results are only passed on, as parameters (Prelude.Runtime).
--   Domain: src/core/domain/validation.py.
--   Incident: IncidentStatus, Incident, transition_to, add_evidence of
--     src/core/domain/incidents.py. Its children hold the life cycle as a relation and every outcome
--     of a transition (Transitions), the audit history (History), the tenants (Isolation).
--   Sanitize: sanitize_payload and _sanitize_value of src/core/domain/incidents.py.
--   Event: SecurityEvent and UnresolvedAssetEvent of src/core/domain/incidents.py. Event.Stored: the
--     repositories of security events in src/core/infrastructure/db/repositories.py. Abstract is what
--     they promise, a map from tenant, source and key; Saving, Sequences, Races, Ends and Pages
--     compare both repositories with it, alone and beside other transactions; Fixed has the events
--     that the constructor leaves as they are.
--   Asset: Asset of src/core/domain/incidents.py and its repositories; Resolving has the service's
--     active asset.
--   Ingestion: IngestSecurityEventHandler of src/core/application/handlers.py. Tables has the tables
--     of one transaction and UnitOfWork of src/core/infrastructure/db/unit_of_work.py, Handler the
--     transaction, Outcomes its branches, Described what it stores and answers; Duplicates, Atomicity, Announcing, Refusals and Delivery
--     have the theorems.
--   Correlation.Key: src/core/domain/correlation.py, and _compute_time_bucket of
--     src/core/application/correlation_handler.py.
--   Correlation.Rules: src/core/infrastructure/correlation/rules.py.
--   Correlation.Store: the Postgres repositories of incidents, evidences, events and logs in
--     src/core/infrastructure/db/repositories.py over the tables of
--     src/core/infrastructure/db/models.py. Saving, Updating, Linking, Growth and
--     Tenants say what each keeps; Scalars reads the outcome of a query backwards.
--   Correlation.Handler: src/core/application/correlation_handler.py. Runs, Steps and Loop follow
--     its loop; Replay has its theorems, Redelivery those on an event that comes again, Zero a
--     window of 0, for which every bucket raises ZeroDivisionError.
--   Outbox: src/core/domain/outbox.py and InMemoryOutboxRepository. Claims and Selection say which
--     events a call claims, Marks when an event can be claimed again. Outbox.Message reads the stored
--     payloads and writes the error texts, Outbox.Dispatcher is
--     src/core/application/outbox_dispatcher.py; Settling and Sweep follow a batch event by event.
--     Outbox.Postgres is PostgresOutboxRepository; Agreement and Marking compare the two repositories.
--   Access: src/core/infrastructure/security/rbac.py, SecurityKernel.authorize of
--     src/core/infrastructure/security/kernel.py and src/core/domain/tenant_auth.py; Roles has the
--     hierarchy and the permissions, Tenants the isolation of tenants.
--   CommandBus: src/core/infrastructure/messaging/command_bus.py and dlq.py beside it, and
--     src/core/infrastructure/policies/opa_client.py; Policy has the check of the policy engine,
--     Breaking the circuit breaker, Retrying the attempts and the dead letters.
--   Token: src/core/infrastructure/security/revocation.py, with the two stores behind one record of
--     operations; Token.Jwt: jwt.py beside it, over any store of revocations. Memory and Redis have
--     the theorems on the two stores.
--   Consumer: src/core/infrastructure/messaging/correlation_consumer.py; Delivery says what the
--     delivery of a message does, once and again, and Given which event a message names and which
--     rules it is given to, apart from the code.
--   Operator: the queries of the repositories of incidents, evidences and status history in
--     src/core/infrastructure/db/repositories.py; Routes is
--     src/core/interfaces/rest/incident_routers.py. Counts has the grouped counts, Listing the routes
--     that read, Changing the change of a status. Selected and Asked say what a filter and a listing
--     ask for, apart from the code.
--   Tenant: Tenant of src/core/domain/entities.py and its repositories. Handlers has those of tenants
--     in src/core/application/handlers.py over the operations of a repository, Slugs the laws of a
--     repository, which Memory and Postgres prove of the two, and Calls any sequence of calls.
--   Alert: AlertAcknowledgement of src/core/domain/entities.py, its repositories and
--     AcknowledgeAlertHandler of src/core/application/handlers.py. Once has the laws of a repository
--     and the repeated call, Kept proves the laws of both repositories, Races has two calls at a time.
--   Bus: src/core/infrastructure/messaging/event_bus.py and kafka_event_bus.py beside it; Skipping has
--     the identifiers of events that were published.
--   Correlation.Samples holds a small store; each Examples file runs the code at a concrete input and
--     applies the theorems there.
--
-- Conventions. A UUID is a number that is only compared. An argument has its annotated type, so the
-- isinstance tests pass and are left out, but for the datetimes, which Domain.TimeValue tells apart.
-- A datetime counts microseconds since the epoch and has the offset of its zone in microseconds; the
-- rounding of `timestamp()` to a double is left out (it is exact to the second before 2242). A
-- generator of identifiers gives fresh numbers. The clock stands still within one call. A table is
-- the list of its rows, a query is a filter of it, and a constraint that the database enforces is
-- a test before an insertion; Correlation.Store.Saving.IsConsistent states the constraints, with a
-- ghost function that gives the tenant of each incident identifier for the primary key. A savepoint
-- undoes only the insertion in it. A column with a time zone is read back in UTC, and the row of an
-- event goes through the constructor of SecurityEvent again when it is loaded. The window of the
-- handler is a natural number of seconds, 0 included. Messages of exceptions, logging and metrics are left out.
-- Case mapping, SHA-256, the texts of UUIDs and of instants, and the substitution of the credential
-- pattern are parameters. Times are microseconds since the epoch as natural numbers where only the
-- clock of the process is read (CommandBus, Token).
--
-- No definition runs on fuel: every loop of the code goes over a list, but for the attempts of a
-- command, which count down from the number that the bus is given.
--
-- Not modelled: the routes of tenants, logs, health and login, the command line, the dashboards
-- and the migrations, which only pass data on; the clients of Kafka, Redis, PyJWT, the policy
-- engine and the identity provider themselves, which are parameters; the handler and the lists of
-- raw logs, the repositories of rule versions but for the list of active ones, and the in-memory
-- unit of work; the settings, the metrics and the masking of log records; the asynchronous methods
-- of the token stores, which repeat the blocking ones.
pub mod Prelude
pub mod Domain
pub mod Incident
pub mod Sanitize
pub mod Event
pub mod Correlation
pub mod Outbox
pub mod Access
pub mod Bus
pub mod Asset
pub mod Ingestion
pub mod Operator
pub mod Tenant
pub mod Alert
pub mod CommandBus
pub mod Token
pub mod Consumer
