-- ===== src/Fleetctl.antt =====
-- The development command line tool, under fleetctl/.
pub mod Output
pub mod Runtime
pub mod Secret
pub mod Satellite
pub mod User
pub mod Root
pub mod Commands
