-- ===== src/Smtp/Remote.antt =====
-- internal/smtpserver/session_remote.go: a session of another node, and the notices of
-- internal/imapserver/notify.go that an incoming mail causes.
pub mod Storing
use yggmail.Base.{
  ℕ, ◌+◌, String, List, [], Option, none, some, map, str_eq, if◌then◌else◌, bytes_eq,
}
use yggmail.Exec.{
  Tried, done, failed, Result, ok, err, panic, wrong_identity, Exec, Done, pure, lift, attempt,
  ◌>>=◌,
}
use yggmail.Storage.Types.{World}
use yggmail.Storage.Mails.{mail_create, mail_count}
use yggmail.Utils.Hex.{encode_hex}
use yggmail.Utils.Address.{parse_address}
use yggmail.Smtp.Local.{MessageLib, or_message_error}

pub record SessionRemote : Type 0 where
  pub remote_addr : String
  pub public_key : List ℕ
  pub from : String

-- `Mail`: the sender's address must be that of the peer.
unfoldable pub remote_from : String → Result (List ℕ) → Exec SessionRemote Done
remote_from from (ok pk) s =
    if str_eq (encode_hex pk) s.remote_addr
    then (ok tt, record s { from = from })
    else (err wrong_identity, s)
remote_from from (err e) s = (err e, s)
remote_from from panic s = (panic, s)

unfoldable pub remote_mail : String → Exec SessionRemote Done
unfolding remote_from
remote_mail from = remote_from from (parse_address from)

-- `Rcpt`: the recipient must be this node.
abbrev checked_to : List ℕ → Result (List ℕ) → Result Done
checked_to public_key (ok pk) = if bytes_eq pk public_key then ok tt else err wrong_identity
checked_to public_key (err e) = err e
checked_to public_key panic = panic

unfoldable pub remote_rcpt : List ℕ → String → Result Done
remote_rcpt public_key to = checked_to public_key (parse_address to)

-- What one IMAP connection is sent: `EXISTS` where the INBOX is selected, `STATUS` elsewhere.
pub data Notice : Type 0 where
  exists : ℕ → Notice
  status : ℕ → ℕ → Notice

-- A connection that has the INBOX selected is told that the mail's id exists; every other one gets
-- the status of the INBOX.
abbrev pub notice : ℕ → ℕ → Option String → Notice
notice id count none = status (id + 1) count
notice id count (some mailbox) = if str_eq mailbox "INBOX" then exists id else status (id + 1) count

-- `NotifyNew`; a connection is given by its selected mailbox.
unfoldable pub notify_new : List (Option String) → ℕ → ℕ → List Notice
notify_new conns id count = map (notice id count) conns

abbrev pub notices : List (Option String) → ℕ → Tried ℕ → List Notice
notices conns id (done count) = notify_new conns id count
notices conns id (failed e) = []

module _ (lib : MessageLib) (received now : String) where
  unfoldable pub stamp_remote : lib.Entity → lib.Entity
  stamp_remote m = lib.add "Delivery-Date" now (lib.add "Received" received m)

  unfoldable pub remote_data : List (Option String) → List ℕ → Exec World (List Notice)
  remote_data conns r = do
    m ← lift (or_message_error (lib.read r))
    bytes ← lift (or_message_error (lib.write (stamp_remote m)))
    id ← mail_create "INBOX" bytes
    count ← attempt (mail_count "INBOX")
    pure (notices conns id count)
