-- ===== src/Storage.antt =====
-- internal/storage: the four tables behind the `Storage` interface, in SQLite.
pub mod Types
pub mod Engine
pub mod Writer
pub mod Protocol
pub mod Open
pub mod Abstract
pub mod Config
pub mod Mailboxes
pub mod Mails
pub mod Queue
pub mod Calls
pub mod Keys
pub mod Integrity
pub mod Numbering
pub mod Total
pub mod Healthy
pub mod Absence
pub mod Samples
mod Tests
