-- ===== src/Lib.antt =====
-- yggmail: a mail server for the Yggdrasil network, one program with IMAP and SMTP in front of one
-- SQLite database. Mail clients of the owner speak IMAP and SMTP to it on local ports; other nodes
-- deliver mail to it over the overlay, where an address is a public key; mail to other nodes waits
-- in the Outbox, with one queue for each destination.
--
-- The parts, and the files that model them:
-- - Storage: internal/storage. Types has the rows of the four tables (types/types.go and the schemas
--   of sqlite3/table_*.go); Config, Mailboxes, Mails and Queue have a function `…_stmt` for each
--   SQL statement, on the tables, and one for each method of `SQLite3Storage`, on the world;
--   foreign keys act where the schemas say so (delete_mails, rename_rows, move_rows). Writer is
--   `Writer.Do` of sqlite3/sqlite3.go as one call; Protocol is `Do` and `Writer.run` step by step,
--   with any number of callers and goroutines. Open is `NewSQLite3StorageStorage` and the tables'
--   constructors. Calls is the `Storage` interface of storage.go, performed call by call, and
--   Abstract is what its calls on mails come to: a map from a mailbox and an id to a mail.
-- - Imap: internal/imapserver. SeqSet is getIDsFromSeqSet, Mailbox and Fetch are mailbox.go, User is
--   user.go, Notify is notify.go but for NotifyNew, and Requests serves any list of a client's
--   requests.
-- - Sender: internal/smtpsender/sender.go. Node is the state of `Queues`; Delivery is `Queue.run`
--   as one action, Queues is QueueFor, queueFor and manager. Interleaved is the same code as
--   goroutines that take turns: `Point` says where in `run` the goroutine of a queue stands,
--   `advance` is its next call or attempt, and `SenderStep` is a step of any goroutine or of any
--   call of QueueFor.
-- - Smtp: internal/smtpserver. Login is the two backend.go files, Local and Remote are the sessions;
--   Remote also has NotifyNew of internal/imapserver/notify.go.
-- - Utils: internal/utils/address.go, on hexadecimal coding.
-- - Program: cmd/yggmail/main.go from the test of the flags to the start of the transport, with the
--   record of internal/config/config.go. Its `Surroundings` are the parameters: the new key, the
--   passwords typed in, bcrypt, `strings.TrimSpace` and the libraries of the transport. Services has
--   the servers that main starts, with internal/imapserver/imap.go: what is set of them, and the
--   authenticators of AUTH LOGIN.
-- - Transport: internal/transport/yggdrasil.go.
-- - Network: two nodes, of which one sends to the other: how the receiving backend and session answer
--   the commands that `Queue.run` gives, and the limits on the size of a message that main sets; what
--   the SMTP library does at a limit is a parameter.
-- - Exec holds the outcomes of a Go function (a value, an error or a panic) with the state that it
--   leaves, and rules for what an action keeps (Exec.Preserves), that it returns
--   (Exec.Completes) and what it then gives (Exec.Gives). Base holds the shared helpers.
--
-- The state. A `World` is the tables, the Unix time, and `faults`: which of the next calls into the
-- engine fail. A theorem for every world is thus one for every pattern of failures; a healthy world
-- has none. An `Engine` is a parameter with the order in which each statement visits a table where SQL
-- leaves it open, one order for each statement with its arguments; it visits each row once. A `Node`
-- adds the set of running queues and, seen from outside, what the servers have accepted. `Remote` is
-- a parameter that answers each step of each attempt to send.
--
-- Numbers. Ids and sequence numbers are natural numbers; the conversions to uint32 and int32 are
-- written out where the code has them, and a database id is assumed not to outgrow Go's int.
-- The loop of getIDsFromSeqSet counts on uint32, which can go on for ever: `range_ids` takes the
-- room that the memory has for ids, a loop that outgrows it counts as a panic; a range of n ids
-- needs room for n. All other loops run over lists.
--
-- Three states stand beside the world. A `System` of Storage.Protocol is a world with the callers and
-- goroutines of the writer, each at a point of its code, and the channels of the tasks; every task is
-- one step on the world, as the other parts take it. A `Catalogue` of Storage.Open is the
-- relations with their columns that the database file holds while it is opened. `Senders` of
-- Sender.Interleaved is a node with the point that each queue's goroutine is at.
--
-- Not modelled: the libraries of the servers with their goroutines, logs, and the end of the program;
-- `main` is given an open database, and NewSMTPServer of internal/smtpserver/smtp.go is called
-- nowhere. bcrypt, go-message, net/mail's address parser and the rendering of fetched parts are
-- parameters. IMAP sessions and the sender are not interleaved with each other. Network takes the
-- commands of one mail in their order, over connections that do not break.
pub mod Base
pub mod Exec
pub mod Storage
pub mod Utils
pub mod Transport
pub mod Imap
pub mod Sender
pub mod Smtp
pub mod Program
pub mod Network
