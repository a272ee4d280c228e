-- ===== src/Network.antt =====
-- Two nodes: a mail of one's user on its way to the other. The SMTP library of the receiving node
-- calls its backend for each command of the sending one, in the order in which `Queue.run` gives them:
-- AnonymousLogin, Mail, Rcpt and Data. The overlay names a peer by its public key in hexadecimal.
pub mod Answers
pub mod Queued
pub mod Arrival
mod Tests
use yggmail.Base.{ℕ, String, Bool, true, false, List, Option, ◌&&◌, length, if◌then◌else◌}
use yggmail.Exec.{Result, ok, err, panic, message_error, fail, Exec, Done, lift, ◌>>=◌, ◌>>◌}
use yggmail.Storage.Types.{QueuedMail, World}
use yggmail.Utils.Hex.{encode_hex}
use yggmail.Smtp.Login.{external, anonymous_login}
use yggmail.Smtp.Local.{MessageLib, SessionLocal, local_data}
use yggmail.Smtp.Remote.{SessionRemote, remote_mail, remote_rcpt, Notice, remote_data}
use yggmail.Sender.Node.{Attempt, Node}
use yggmail.Program.Services.{SmtpServer}
use yggmail.Sender.Delivery.{Remote}

abbrev pub is_ok : {A : Type 0} → Result A → Bool
is_ok (ok a) = true
is_ok (err e) = false
is_ok panic = false

-- `public_key` is the receiving node's and `peer` the sending one's; `received` and `now` are the
-- texts of the stamps, and `conns` the IMAP connections.
module _ (public_key peer : List ℕ) (lib : MessageLib) (received now : String)
    (conns : List (Option String)) where
  unfoldable pub open_session : Result SessionRemote
  open_session = elim (anonymous_login external (encode_hex peer) (encode_hex peer)) [
    | ok pks ↦ ok (record { remote_addr = encode_hex peer; public_key = pks; from = "" })
    | err e ↦ err e
    | panic ↦ panic
  ]

  -- The answer to MAIL, which opens the session.
  unfoldable pub greet : String → Result SessionRemote
  greet from = elim open_session [
    | ok s ↦ (elim (remote_mail from s).0 [
      | ok u ↦ ok (remote_mail from s).1
      | err e ↦ err e
      | panic ↦ panic
    ])
    | err e ↦ err e
    | panic ↦ panic
  ]

  -- The receiving server and what the SMTP library does at its limit: whether `limit` lets a message
  -- of `size` bytes through to the backend. The reader of a larger one gives an error.
  module _ (server : SmtpServer) (fits : ℕ → ℕ → Bool) where
    unfoldable pub take_data : List ℕ → Exec World (List Notice)
    take_data bytes =
        if fits server.max_message_bytes (length bytes)
        then remote_data lib received now conns bytes
        else fail message_error

    -- All of it, with what it does to the receiving node.
    unfoldable pub receive : String → String → List ℕ → Exec World (List Notice)
    receive from to bytes = do lift (greet from); lift (remote_rcpt public_key to); take_data bytes

    -- How the receiving node answers an attempt, over a network that works. The outcome of the data
    -- is its last answer, after all of the bytes.
    unfoldable pub answers : World → Remote
    answers w ref bytes = record {
      dial = true;
      client = true;
      hello = true;
      mail = is_ok (greet ref.from);
      rcpt = is_ok (remote_rcpt public_key ref.rcpt);
      start_data = true;
      write = true;
      accept = is_ok (take_data bytes w).0;
    }

-- The data that the user's mail program sends to the local server.
unfoldable pub submit :
    SmtpServer
    → (ℕ → ℕ → Bool)
    → (lib : MessageLib) → String
    → String
    → (String → Result String)
    → List ℕ
    → SessionLocal
    → List ℕ
    → Exec Node Done
submit server fits lib received now parse_mail public_key session r =
    if fits server.max_message_bytes (length r)
    then local_data lib received now parse_mail public_key session r
    else fail message_error
