-- ===== src/Imap.antt =====
-- internal/imapserver: the backend that the IMAP library calls.
pub mod Types
pub mod SeqSet
pub mod Mailbox
pub mod Notify
pub mod Fetch
pub mod User
pub mod Requests
mod Tests
