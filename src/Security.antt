-- ===== src/Security.antt =====
-- internal/security: credentials, enrollment codes, API keys and the HTTP middleware.
pub mod Hex
pub mod Hmac
pub mod Platform
pub mod Token
pub mod Middleware
pub mod Tls
