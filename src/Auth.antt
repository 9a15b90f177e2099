-- ===== src/Auth.antt =====
-- internal/auth/auth.go: the token check of every call, the lockout of clients, the sessions.
pub mod Base64
pub mod Token
pub mod Signed
pub mod Lockout
pub mod Session
mod Tests
