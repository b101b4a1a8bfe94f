-- ===== src/HttpServer.antt =====
-- api/internal/httpserver: the adapter, the router, and whom the routes let through.
pub mod Declared
pub mod Logging
pub mod Adapter
pub mod Router
pub mod Access
pub mod Guards
pub mod Ownership
pub mod Contract
pub mod Answers
pub mod Pattern
pub mod Requests
pub mod System
