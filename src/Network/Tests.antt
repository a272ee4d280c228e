-- ===== src/Network/Tests.antt =====
-- The theorem on two nodes at sample keys and tables.
use yggmail.Base.{
  ℕ, String, Bool, leb, true, false, ◌≡◌, ◌≢◌, refl, any, str_eq, str_apart, List, [], ◌∷◌, some,
  arith, All,
}
use yggmail.Exec.{ok}
use yggmail.Storage.Types.{is_mailbox, same_mailbox, same_mail, same_entry, same_key, owns}
use yggmail.Storage.Integrity.{IsSound}
use yggmail.Storage.Mails.{next_id}
use yggmail.Storage.Healthy.{with_mail, arrival}
use yggmail.Storage.Samples.{plain, healthy, in_use}
use yggmail.Utils.Hex.{encode_hex, hex_digit, IsByte}
use yggmail.Utils.Address.{address_of, copy_into, key_size}
use yggmail.Utils.Address.Laws.{parse-encode}
use yggmail.Smtp.Local.{MessageLib, stamp_local}
use yggmail.Smtp.Remote.{stamp_remote}
use yggmail.Sender.Node.{Node}
use yggmail.Sender.Delivery.{run}
use yggmail.Sender.Delivery.Delivers.{Accepted}
use yggmail.Network.{answers, receive, submit}
use yggmail.Network.Arrival.{Site, inner, outer, LetsThrough, mail_arrives}

-- A message is its bytes, and a header adds a byte.
abbrev counting : MessageLib
counting = record {
  Entity = List ℕ;
  read = some;
  add = λ key value m. 1 ∷ m;
  has = λ key m. false;
  write = some;
}

-- A node whose key is a byte and 31 zeros.
abbrev site : ℕ → Site
site k = record {
  key = copy_into key_size (k ∷ []);
  private_key = [];
  smtpaddr = "localhost:1025";
  lib = counting;
  received = "from";
  now = "now";
}

-- A limit that counts itself in.
abbrev fits : ℕ → ℕ → Bool
fits limit size = leb size limit

fits-LetsThrough : LetsThrough fits
fits-LetsThrough limit size h = ground arith

abbrev sender : Node
sender = record { world = healthy in_use; running = []; accepted = [] }

in_use-IsSound : IsSound in_use
unfolding same_mailbox same_mail same_entry same_key is_mailbox owns
in_use-IsSound = ground arith

key_bytes : All IsByte (site 2).key
unfolding copy_into
key_bytes = omega arith

differ : encode_hex (site 3).key ≢ encode_hex (site 2).key
unfolding encode_hex hex_digit copy_into
differ = str_apart (encode_hex (site 3).key) (encode_hex (site 2).key) refl

-- The message with the headers of the first node, and with those of both.
abbrev once : List ℕ
once = stamp_local counting "from" "now" (5 ∷ [])

abbrev twice : List ℕ
twice = stamp_remote counting "from" "now" once

nothing_queued : any (λ q. str_eq (encode_hex (site 3).key) q.destination) in_use.queue ≡ false
unfolding encode_hex hex_digit copy_into
nothing_queued = refl

has_outbox : any (is_mailbox "Outbox") in_use.mailboxes ≡ true
unfolding is_mailbox
has_outbox = refl

has_inbox : any (is_mailbox "INBOX") in_use.mailboxes ≡ true
unfolding is_mailbox
has_inbox = refl

abbrev from : String
from = address_of (2 ∷ [])

abbrev to : String
to = address_of (3 ∷ [])

mail_arrives_example :
    let a = site 2 in
    let b = site 3 in
    let sent =
      submit
        (inner a)
        fits
        counting
        "from"
        "now"
        ok
        a.key
        (record { from = from; rcpt = to ∷ [] })
        (5 ∷ [])
        sender in
    let remote = answers b.key a.key counting "from" "now" [] (outer b) fits (healthy in_use) in
    (sent.0 ≡ ok tt)
    × Accepted
        (encode_hex b.key)
        (next_id "Outbox" in_use.mails)
        once
        (run plain remote (encode_hex b.key) sent.1).1
    × ((receive b.key a.key counting "from" "now" [] (outer b) fits from to once (healthy in_use)).1
        ≡ with_mail (healthy in_use) (arrival "INBOX" twice (healthy in_use)))
unfolding stamp_local
mail_arrives_example =
    mail_arrives plain (site 2) (site 3) fits ok [] from to (5 ∷ []) once twice (5 ∷ []) once sender
      (healthy in_use) fits-LetsThrough (omega arith) (omega arith) key_bytes differ
      (parse-encode 2 [] (omega arith)) refl (parse-encode 3 [] (omega arith)) refl refl refl refl
      has_outbox nothing_queued in_use-IsSound refl has_inbox refl
