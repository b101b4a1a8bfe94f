-- ===== src/Auth.antt =====
-- api/internal/auth: principals, human tokens, the HTTP middlewares and the login handler.
pub mod Principal
pub mod Jwt
pub mod Middleware
pub mod Login
