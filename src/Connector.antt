-- ===== src/Connector.antt =====
-- services/connector/service: the connector's handlers for runbooks.
pub mod Bindings
pub mod Approval
pub mod Responses
pub mod Options
pub mod Runbooks
pub mod Digests
pub mod Admission
pub mod Executions
pub mod Bounds
pub mod Places
pub mod WebSsh
mod Tests
