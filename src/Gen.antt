-- ===== src/Gen.antt =====
-- api/gen: the wire models and the route wrappers that oapi-codegen generated from the OpenAPI
-- document.
pub mod Models
pub mod Errors
pub mod Server
pub mod Wrapper
pub mod Routes
pub mod Client
