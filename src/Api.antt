-- ===== src/Api.antt =====
-- The HTTP API of pkg/api/handlers.go.
pub mod Reply
pub mod Execute
pub mod Functions
pub mod Executions
pub mod Routing
pub mod Listing
pub mod Serve
pub mod Agents
