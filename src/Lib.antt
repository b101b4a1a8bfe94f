-- ===== src/Lib.antt =====
-- FleetControl: the control plane's HTTP API (api/), its Kubernetes operator (operator/) and its
-- development command line tool (fleetctl/).
--
-- The API keeps Satellites and users in PostgreSQL. A request goes through chi's router
-- (api/internal/httpserver), the authentication and role middlewares (api/internal/auth), the
-- generated wrappers (api/gen/server.gen.go) and a handler of api/internal/satellite, user, auth,
-- health or docs; the handlers of Satellites and users call a service, which calls a repository.
-- The tool talks to the API through the generated client (api/gen/client.gen.go). The operator sees
-- Satellites as custom resources and does not call the API yet.
--
-- Common: Go's errors (Common/Errors), strings (Common/Text), Boolean tests, and calls on a store,
--   `Action S A = S → Result A × S`, where a write stays when a later call fails.
-- Auth/Principal, Auth/Jwt, Auth/Middleware, Auth/Login: principal.go, jwt.go, middleware.go and
--   handler.go of api/internal/auth. validate is Principal.Validate, validate_claims is
--   Claims.Validate, generate_human_token and parse_human_token are the methods of JWTManager.
-- Http: requests, responses, and handlers as functions of a request and the state of the server.
-- Database: the two tables of api/internal/db/migrations as lists of rows, and one SQL statement as
--   one atomic call of the pool that may be refused before it or lose its reply after it.
--   Database/Table has the lookups, updates and the order of the statements, Database/Pool is
--   Connect of api/internal/db/postgres.go.
-- Satellite, User: model, mapper, repository, service and handler of api/internal/satellite and
--   api/internal/user, by the same names. Steps has what one statement does to a table, Service/Spec what
--   each service promises on a map from ids to Satellites or users, and Handler/Replies what the
--   handlers answer.
-- Gen: api/gen. Models, Server, Wrapper, Errors and Routes are the bodies and the server, where a
--   router is the list of its registrations; Client is the client, with its interfaces and the
--   requests, calls, parsers and response types of every operation (Client/Responses has the types,
--   Client/Parsers the parsers).
-- Config, Health, Docs, Logger: api/internal/config, health and docs, and api/pkg/logger.
-- HttpServer: Adapter is server.go and Router is router.go of api/internal/httpserver. Access is
--   about who gets through, System and Ownership about the database under any sequence of requests,
--   Answers about the statuses of each route, Declared about the values in the bodies, Logging
--   about the request logger in front of it, Contract and Requests about the router, the generated
--   server and the generated client.
-- Startup: api/cmd/server/main.go, up to the call that serves.
-- Operator: Types is operator/api/v1alpha1/satellite_types.go, Controller is Reconcile of
--   operator/internal/controller/satellite_controller.go, over any Kubernetes client. Memory and
--   DeepCopy are zz_generated.deepcopy.go of operator/api/v1alpha1: structs with pointers, in a
--   memory of cells. Manager is operator/cmd/main.go over what Runtime has of controller-runtime,
--   up to the end of the manager's run. In the memory, a pointer, map or slice of an object's
--   metadata is an address of one cell, with the entries in it.
-- Fleetctl: Runtime, Secret and Output are fleetctl/internal; Satellite, User and Root are the
--   bodies of the commands of fleetctl/cmd, and Commands is the tree of them that root.go hands to
--   cobra, with Execute; its flags set the options that every command reads. Satellite/Remote puts
--   the delete command, the generated client, the router and the database together.
-- Tests: concrete inputs.
--
-- Numbers are natural numbers: a UUID is the number of its bytes, with uuid.Nil 0, and an instant
-- is a number of nanoseconds, which the program only compares and adds an hour to. Every loop is a
-- recursion on a list or a text, so no fuel is needed. A nil pointer and a nil error are `none`.
-- Contexts, deferred closes and log durations are left out.
--
-- Parameters stand for the packages outside the repository: golang-jwt, bcrypt, PostgreSQL's
-- failures, generated ids and clock, uuid.Parse and the path binder, JSON, chi's choice of a route,
-- net/http's transport, cobra's reading of a command line, the Kubernetes API, the operating system
-- and the terminal. What is assumed of them is a named hypothesis of the theorem that uses it.
--
-- Not modelled: the execution of the migrations, the construction of the logger by one call of zap,
-- the help texts of the commands, and the end-to-end tests with their helpers, which run other
-- programs.
pub mod Common
pub mod Auth
pub mod Gen
pub mod Http
pub mod Database
pub mod Satellite
pub mod User
pub mod Config
pub mod Health
pub mod Docs
pub mod Logger
pub mod HttpServer
pub mod Startup
pub mod Operator
pub mod Fleetctl
pub mod Tests
