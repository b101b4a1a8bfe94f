-- ===== src/Tests.antt =====
-- Concrete inputs for the modules of the program.
mod Declared
mod Copies
mod Logging
mod Cobra
mod Commands
mod Fixtures
mod Auth
mod Satellites
mod Users
mod Server
mod Startup
mod Operator
mod Fleetctl
mod Remote
