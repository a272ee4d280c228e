-- ===== src/Sender/Node.antt =====
-- What the senders share: the storage, the destinations with a running queue, and, seen from
-- outside, the mails that remote servers have accepted.
use yggmail.Base.{ℕ, String, Bool, List}
use yggmail.Exec.{Result, Exec}
use yggmail.Storage.Types.{World}

pub record Delivered : Type 0 where
  pub destination : String
  pub id : ℕ
  pub from : String
  pub rcpt : String
  pub mail : List ℕ

-- `running` holds the keys of `Queues.queues` whose `running` flag is set.
pub record Node : Type 0 where
  pub world : World
  pub running : List String
  pub accepted : List Delivered

-- How the other side and the network answer one attempt to send, step by step. `accept` is the
-- answer to the end of the data, which the client reads when the writer is closed.
pub record Attempt : Type 0 where
  pub dial : Bool
  pub client : Bool
  pub hello : Bool
  pub mail : Bool
  pub rcpt : Bool
  pub start_data : Bool
  pub write : Bool
  pub accept : Bool

abbrev with_world : {A : Type 0} → Node → Result A × World → Result A × Node
with_world n (r, w) = (r, record n { world = w })

-- A call of the storage.
unfoldable pub stored : {A : Type 0} → Exec World A → Exec Node A
stored m n = with_world n (m n.world)
