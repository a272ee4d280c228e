-- ===== src/Sender.antt =====
-- internal/smtpsender/sender.go: the queue of outgoing mail, and its delivery.
pub mod Node
pub mod Delivery
pub mod Queues
pub mod Interleaved
mod Tests
