-- ===== src/Storage/Samples.antt =====
-- Sample tables for the tests, and an engine that visits rows as they stand.
use mathlib.Core.List.Perm
use yggmail.Base.{ℕ, String, Bool, true, false, List, [], ◌∷◌, str_eq}
use yggmail.Storage.Types.{Mail, MailboxRow, QueueRow, Db, World}
use yggmail.Storage.Engine.{Engine}

abbrev pub plain : Engine
plain = record {
  scan_mails = λ v rows. rows;
  scan_mailboxes = λ v rows. rows;
  scan_queue = λ v rows. rows;
  scan_mails-perm = λ v. Perm.refl;
  scan_mailboxes-perm = λ v. Perm.refl;
  scan_queue-perm = λ v. Perm.refl;
}

-- No call of the engine fails from here on.
abbrev pub healthy : Db → World
healthy db = record { tables = db; faults = []; clock = 1000 }

abbrev pub no_tables : Db
no_tables = record { config = []; mailboxes = []; mails = []; queue = [] }

abbrev pub mailbox_row : String → MailboxRow
mailbox_row name = record { mailbox = name; subscribed = true }

abbrev pub unread : String → ℕ → List ℕ → Mail
unread mailbox id bytes = record {
  mailbox = mailbox;
  id = id;
  mail = bytes;
  date = 1;
  seen = false;
  answered = false;
  flagged = false;
  deleted = false;
}

abbrev pub entry : String → String → ℕ → QueueRow
entry destination mailbox id = record {
  destination = destination;
  mailbox = mailbox;
  id = id;
  mail = "me@yggmail";
  rcpt = "you@yggmail";
}

-- Two mails in the INBOX with a gap between their ids, and one in the Outbox for two hosts.
abbrev pub in_use : Db
in_use = record {
  config = [];
  mailboxes = mailbox_row "INBOX" ∷ mailbox_row "Outbox" ∷ mailbox_row "Work" ∷ [];
  mails = unread "INBOX" 1 (7 ∷ []) ∷ unread "Outbox" 1 (8 ∷ []) ∷ unread "INBOX" 4 (9 ∷ []) ∷ [];
  queue = entry "aa" "Outbox" 1 ∷ entry "bb" "Outbox" 1 ∷ [];
}

-- Names are equal when their texts are.
abbrev pub plain_compare : String → String → Bool
plain_compare = str_eq
