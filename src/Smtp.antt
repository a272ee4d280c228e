-- ===== src/Smtp.antt =====
-- internal/smtpserver, and the login of internal/imapserver/backend.go, which it repeats.
pub mod Login
pub mod Local
pub mod Remote
mod Tests
