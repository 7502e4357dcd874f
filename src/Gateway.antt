-- ===== src/Gateway.antt =====
-- The request gateway: backend/src/gateway.
pub mod Host
pub mod Resolver
pub mod RateLimit
pub mod Cors
pub mod Jwt
pub mod Problems
