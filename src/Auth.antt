-- ===== src/Auth.antt =====
-- internal/auth: tokens and passwords, and internal/api/token_session.go: the sessions in memory.
pub mod Passwords
pub mod Token
pub mod RoundTrip
pub mod Sessions
pub mod RedisSessions
pub mod RedisCalls
