-- ===== src/Satellite.antt =====
-- api/internal/satellite: model, repository, service, mapper and HTTP handler.
pub mod Model
pub mod Repository
pub mod Service
pub mod Mapper
pub mod Handler
pub mod Steps
