-- ===== src/Lib.antt =====
-- A verification library of the vps-manager services: a control plane that manages servers, a
-- connector that runs actions on them, and the state that both keep.
--
-- The parts and how they work together:
--   * A request of a user comes with a session token. Access (services/control-plane/internal/auth/
--     auth.go: Sessions.Issue, Authenticate, Revoke, AuthorizeSession, Allowed) says who it is and what
--     the role may do.
--   * Dangerous actions need a second proof. StepUp (services/control-plane/internal/stepup/manager.go:
--     Manager.Issue, Consume, RevokeSession) hands out tickets that are good for one action once.
--   * An action on a server is a job. Jobs (services/control-plane/internal/model/model.go:
--     CanTransition, TransitionJob) has its states.
--   * Store (services/control-plane/internal/store/memory.go, cloudflare.go, cloudflare_execution.go:
--     the methods of Memory) keeps hosts, credentials, jobs, the audit log, workers and their
--     deployments. Audit (services/control-plane/internal/audit/audit.go: SanitizeDetails) takes secrets
--     out of what is logged.
--   * Repository (services/persistence/memory.go and types.go: MemoryRepository and its validation) is
--     the store of several installations. Coordinator (services/persistence/coordinator.go:
--     MemoryCoordinator) has leases, idempotency records and cancellation for its workers.
--   * The control plane signs its requests to the connector. RequestAuth (services/connector-protocol/
--     auth.go: Sign, NewVerifier, Verify) signs and checks them. Ledger (services/connector/service/
--     runbook_ledger.go: claim, complete) lets each runbook job run once.
--   * Runbook (services/runbook/types.go, catalog.go, executor.go: Build, ScopeDigest, Execute) has the
--     catalog of reviewed operations, as plans of sealed steps, and their execution. Connector
--     (services/connector/service/runbook_handler.go, services/connector-protocol/runbook.go) is the
--     connector's handler: it checks a request's signature, binding, approval and keys, claims the job
--     in the ledger, executes the plan and keeps the response. Connector/WebSsh (services/connector/service/
--     webssh.go: newWebSSHManager, createTicket, consumeTicket, writeAll) issues the tickets that the
--     gateway asks it for.
--   * Identity (services/control-plane/internal/identity/assertion.go: NewVerifier, Verify) accepts the
--     signed assertions of the web bridge, each once.
--   * Gateway (services/websshgateway/broker.go, validation.go, types.go, and consumeTicket of
--     websocket.go: Issue, reserveTicket, storeTicket, Close) hands out the tickets of web SSH sessions.
--   * Provider (services/cloudflareprovider/idempotency.go: runIdempotent) keeps which of the provider's
--     operations are in flight or done.
--
-- Base has what the modules share: bytes, Go's maps as association lists, times, results, sorting.
-- Encoding has base64, decimal numbers and joined texts.
--
-- State and operations: a struct is a record, a map a `Table` whose writes drop the old entry, a method
-- a function from the state to the state and its result. Most methods of the source hold one
-- lock from beginning to end, so any interleaving of calls is a sequence of such steps; the theorems on
-- histories are about all such sequences. Errors are values of a type of each component. The clock's
-- answer, the random bytes, SHA-256, HMAC, Ed25519, the verifier of second factors, the SSH library and its
-- sessions, the text of a duration and the decoding of JSON are arguments. An operation that gives up its
-- lock midway (an execution of a runbook or of a provider's operation, the issue of a web SSH ticket) is
-- two or more steps, and the theorems let the steps of others come between them. Some operations are one
-- step here and are not quite that in the source. Sessions.Authenticate reads under one lock and deletes
-- an expired session under a second one; a call that has read a session answers with it even if the
-- session is revoked in between. The verifiers of RequestAuth and Identity read the clock before they take
-- the lock, so that the times of successive steps need not be in order, which the theorems do not
-- assume. The runbook handler takes its place in the channel before it checks a request and gives it
-- back if the request does not go on; here the place is taken when the execution starts, so that in the
-- source a request can also be refused while others are being checked.
-- Texts are lists of bytes. Times are natural numbers of nanoseconds since the zero time, so that 0 is
-- the zero time; durations are integers. Versions count modulo 2 ^ 64. Sums of times are not bounded.
--
-- Fuel: `itoa` has one more than the number, which is enough since each round divides by ten; trimming
-- has the length of the text, since each round drops a byte. All other loops go along a list.
--
-- Where Go iterates over a map, or sorts with equal keys, the order is not fixed there; the model takes
-- that of its table. Copies that only prevent sharing are the values themselves.
--
-- Not modelled: the stores over PostgreSQL and Redis, which are SQL and calls of a server; the HTTP
-- handlers but that of runbooks, the commands, the SSH and web socket connections, the provider clients
-- and the encryption, which are input, output and library calls; the shells that run the commands of
-- the catalog; the origins, URLs and rate limits of the web SSH gateway; the anomaly
-- rules and the snapshot parser.
pub mod Provider
pub mod Base
pub mod Encoding
pub mod StepUp
pub mod Coordinator
pub mod Ledger
pub mod RequestAuth
pub mod Access
pub mod Jobs
pub mod Repository
pub mod Audit
pub mod Store
pub mod Runbook
pub mod Connector
pub mod Identity
pub mod Gateway
