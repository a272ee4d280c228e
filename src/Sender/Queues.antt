-- ===== src/Sender/Queues.antt =====
-- `QueueFor`, `queueFor` and `manager` of internal/smtpsender/sender.go.
pub mod Queuing
pub mod Entries
pub mod Race
use yggmail.Base.{ℕ, String, List, ◌∷◌, any, str_eq, if◌then◌else◌, pos}
use yggmail.Exec.{Result, ok, Exec, Done, pure, lift, for_each, ◌>>=◌, ◌>>◌}
use yggmail.Storage.Engine.{Engine}
use yggmail.Storage.Mails.{mail_create}
use yggmail.Storage.Queue.{queue_list_destinations, queue_insert_destination_for_id}
use yggmail.Utils.Hex.{encode_hex}
use yggmail.Utils.Address.{parse_address}
use yggmail.Sender.Node.{Node, stored}

-- `LoadOrStore` and `CompareAndSwap(false, true)`: the goroutine is started where the flag was not
-- set. That is `Delivery.run`, which takes its steps later.
unfoldable pub queue_for_server : String → Exec Node Done
queue_for_server server n =
    (ok tt, if any (str_eq server) n.running then n else record n { running = server ∷ n.running })

unfoldable pub start_all : List String → Exec Node Done
unfolding queue_for_server
start_all destinations = for_each destinations queue_for_server

-- `manager`, which the timer calls each minute; an error ends the round.
unfoldable pub manager : Engine → Exec Node Done
manager e = do destinations ← stored (queue_list_destinations e); start_all destinations

-- `parse_mail` is `mail.ParseAddress` of net/mail, as far as the address that it finds.
module _ (parse_mail : String → Result String) (public_key : List ℕ) where
  unfoldable pub queue_recipient : ℕ → String → String → Exec Node Done
  queue_recipient pid from rcpt = do
    addr ← lift (parse_mail rcpt)
    pk ← lift (parse_address addr)
    if str_eq (encode_hex pk) (encode_hex public_key) then pure tt else (do
      stored (queue_insert_destination_for_id (encode_hex pk) (pos pid) from rcpt)
      queue_for_server (encode_hex pk))

  unfoldable pub queue_for : String → List String → List ℕ → Exec Node Done
  queue_for from rcpts content = do
    pid ← stored (mail_create "Outbox" content)
    for_each rcpts (queue_recipient pid from)

  -- `QueueFor` among the other goroutines: `meanwhile` is what they do to the tables between two
  -- recipients. No lock is held there.
  unfoldable pub queue_for_amid : (Node → Node) → String → List String → List ℕ → Exec Node Done
  queue_for_amid meanwhile from rcpts content = do
    pid ← stored (mail_create "Outbox" content)
    for_each rcpts (λ rcpt. queue_recipient pid from rcpt >>= λ _. λ n. (ok tt, meanwhile n))
