-- ===== src/Network/Arrival.antt =====
-- A mail from the user of one node to that of another.
use yggmail.Base.{
  ℕ, String, Bool, true, false, length, ◌<◌, ◌^◌, ◌∙◌, ◌≡◌, ◌≢◌, refl, ap, List, [], ◌∷◌, Option,
  some, any, str_eq, eq_iff, arith, All,
}
use yggmail.Exec.{Result, ok, ◌>>=◌}
use yggmail.Storage.Types.{QueuedMail, World, is_mailbox}
use yggmail.Storage.Engine.{Engine}
use yggmail.Storage.Mails.{next_id}
use yggmail.Storage.Healthy.{with_mail, arrival}
use yggmail.Storage.Integrity.Operations.{Sound}
use yggmail.Utils.Hex.{encode_hex, IsByte}
use yggmail.Utils.Address.{parse_address}
use yggmail.Smtp.Local.{MessageLib, stamp_local}
use yggmail.Smtp.Remote.{stamp_remote}
use yggmail.Smtp.Remote.Storing.{remote_data_stores}
use yggmail.Sender.Node.{Node}
use yggmail.Sender.Queues.Queuing.{entry_there}
use yggmail.Sender.Queues.{queue_for_server}
use yggmail.Sender.Queues.Queuing.{with_entry, started_world}
use yggmail.Sender.Delivery.{run}
use yggmail.Sender.Delivery.Delivers.{Accepted}
use yggmail.Sender.Delivery.Arrivals.{IsAccepting, run_delivers_this}
use yggmail.Network.{is_ok, take_data, receive, answers, submit}
use yggmail.Program.Start.{Config}
use yggmail.Program.Services.{SmtpServer, local_server, overlay_server}
use yggmail.Network.Answers.{greet_own, rcpt_own, take_data_own, answers_own}
use yggmail.Network.Queued.{is_for, queued, queued-Holds, queued_other, queue_ok, local_data_queues}

-- A node as its user and its peers see it: its keys, the address of its local server, its message
-- library and the texts of its stamps.
pub record Site : Type 1 where
  pub key : List ℕ
  pub private_key : List ℕ
  pub smtpaddr : String
  pub lib : MessageLib
  pub received : String
  pub now : String

abbrev config_of : Site → Config
config_of a = record { public_key = a.key; private_key = a.private_key }

-- The servers of a node, as `main` sets them up.
abbrev pub inner : Site → SmtpServer
inner a = local_server (config_of a) a.smtpaddr

abbrev pub outer : Site → SmtpServer
outer a = overlay_server (config_of a)

-- A message of fewer bytes than the limit is let through.
abbrev pub LetsThrough : (ℕ → ℕ → Bool) → Type 0
LetsThrough fits = (limit size : ℕ) → size < limit → fits limit size ≡ true

taken_when_own :
    (b : Site) (fits : ℕ → ℕ → Bool) (own : List ℕ) (conns : List (Option String))
    (from to : String) (bytes : List ℕ) (w : World)
    → All IsByte own
    → parse_address from ≡ ok own
    → parse_address to ≡ ok b.key
    → is_ok (take_data b.key own b.lib b.received b.now conns (outer b) fits bytes w).0 ≡ true
    → (ref : QueuedMail) → is_for from to ref ≡ true
    → IsAccepting (answers b.key own b.lib b.received b.now conns (outer b) fits w ref bytes)
taken_when_own b fits own conns from to bytes w all p q stores ref h =
    let same_from : ref.from ≡ from = ground (arith, eq_iff from ref.from) in
    let same_to : ref.rcpt ≡ to = ground (arith, eq_iff to ref.rcpt) in
    answers_own b.key own b.lib b.received b.now conns (outer b) fits ref bytes w all
      (rw same_from p) (rw same_to q) stores

delivered :
    (e : Engine) (b : Site) (fits : ℕ → ℕ → Bool) (own : List ℕ) (conns : List (Option String))
    (from to : String) (bytes : List ℕ) (n n' : Node) (w : World)
    → n'.world ≡ queued (encode_hex b.key) from to bytes n.world
    → n.world.faults ≡ []
    → any (λ q. str_eq (encode_hex b.key) q.destination) n.world.tables.queue ≡ false
    → ((ref : QueuedMail)
        → is_for from to ref ≡ true
        → IsAccepting (answers b.key own b.lib b.received b.now conns (outer b) fits w ref bytes))
    → Accepted
        (encode_hex b.key)
        (next_id "Outbox" n.world.tables.mails)
        bytes
        (run e
          (answers b.key own b.lib b.received b.now conns (outer b) fits w)
          (encode_hex b.key)
          n').1
unfolding with_mail with_entry
delivered e b fits own conns from to bytes n n' w q f none_queued takes =
    let d = encode_hex b.key in
    run_delivers_this e (answers b.key own b.lib b.received b.now conns (outer b) fits w) d
      (next_id "Outbox" n.world.tables.mails) bytes (is_for from to) n' (λ ref i t. takes ref t)
      (rw q f) (rw q (queued-Holds d from to bytes n.world))
      (rw q (queued_other d from to bytes n.world none_queued))
      (rw q (
        entry_there d (next_id "Outbox" n.world.tables.mails) from to
          (with_mail n.world (arrival "Outbox" bytes n.world))))

-- A message of less than 2^25 bytes, without and with the stamps of the sending node, from the user
-- of one node to another node arrives: it is taken, a run of the queue that it starts brings it to
-- the other node, and there it is stored in the INBOX with the stamps of both. The SMTP library lets
-- messages below a server's limit through, the sender's address is of the node's own key, the
-- recipient's of the other node's, the keys are different bytes, both read and write the message, the
-- sending node has an Outbox, sound tables and nothing queued for the other node, the other node has
-- an INBOX, and no call of an engine fails.
pub mail_arrives :
    (e : Engine) (a b : Site) (fits : ℕ → ℕ → Bool) (parse_mail : String → Result String)
    (conns : List (Option String)) (from to : String) (r bytes stamped : List ℕ) (m : a.lib.Entity)
    (m' : b.lib.Entity) (n : Node) (w : World)
    → LetsThrough fits
    → length r < 2 ^ 25
    → length bytes < 2 ^ 25
    → All IsByte a.key
    → encode_hex b.key ≢ encode_hex a.key
    → parse_address from ≡ ok a.key
    → parse_mail to ≡ ok to
    → parse_address to ≡ ok b.key
    → a.lib.read r ≡ some m
    → a.lib.write (stamp_local a.lib a.received a.now m) ≡ some bytes
    → b.lib.read bytes ≡ some m'
    → b.lib.write (stamp_remote b.lib b.received b.now m') ≡ some stamped
    → any (is_mailbox "Outbox") n.world.tables.mailboxes ≡ true
    → any (λ q. str_eq (encode_hex b.key) q.destination) n.world.tables.queue ≡ false
    → Sound n.world
    → n.world.faults ≡ []
    → any (is_mailbox "INBOX") w.tables.mailboxes ≡ true
    → w.faults ≡ []
    → let sent =
        submit
          (inner a)
          fits
          a.lib
          a.received
          a.now
          parse_mail
          a.key
          (record { from = from; rcpt = to ∷ [] })
          r
          n in
      let remote = answers b.key a.key b.lib b.received b.now conns (outer b) fits w in
      let received =
        receive b.key a.key b.lib b.received b.now conns (outer b) fits from to bytes w in
      (sent.0 ≡ ok tt)
      × Accepted
          (encode_hex b.key)
          (next_id "Outbox" n.world.tables.mails)
          bytes
          (run e remote (encode_hex b.key) sent.1).1
      × (received.1 ≡ with_mail w (arrival "INBOX" stamped w))
unfolding receive submit local_server overlay_server ◌>>=◌
mail_arrives e a b fits parse_mail conns from to r bytes stamped m m' n w through small small'
      bytes_a ne own p other rd wr rd' wr' outbox none_queued sound h inbox h' =
    let d = encode_hex b.key in
    let id = next_id "Outbox" n.world.tables.mails in
    let left : Node = record n { world = queued d from to bytes n.world } in
    let sent =
      local_data_queues a.lib a.received a.now parse_mail a.key b.key from to r bytes m n rd wr p
        other ne outbox h sound in
    let stores =
      remote_data_stores b.lib b.received b.now conns bytes stamped m' w rd' wr' inbox h' in
    let taken =
      take_data_own b.key a.key b.lib b.received b.now conns (outer b) fits bytes w
        (through (outer b).max_message_bytes (length bytes) small')
      ∙ stores in
    let accepted : is_ok
          (take_data b.key a.key b.lib b.received b.now conns (outer b) fits bytes w).0
        ≡ true =
      rw taken refl in
    rw (through (inner a).max_message_bytes (length r) small) (
      rw sent (
        queue_ok d left,
        delivered e b fits a.key conns from to bytes n (queue_for_server d left).1 w
            (started_world d left) h none_queued
            (taken_when_own b fits a.key conns from to bytes w bytes_a own other accepted),
        rw (greet_own b.key a.key b.lib b.received b.now conns from bytes_a own)
            (rw (rcpt_own b.key to other) (ap (λ z. z.1) taken)),
      ))
