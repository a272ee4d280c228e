-- ===== src/Smtp/Local.antt =====
-- internal/smtpserver/session_local.go: a session of the node's own user.
use yggmail.Base.{ℕ, String, Bool, List, [], ◌∷◌, ◌++◌, Option, none, some, if◌then◌else◌, bytes_eq}
use yggmail.Exec.{Result, ok, err, panic, wrong_identity, message_error, Exec, Done, lift, ◌>>=◌}
use yggmail.Utils.Address.{parse_address}
use yggmail.Sender.Node.{Node}
use yggmail.Sender.Queues.{queue_for}

pub record SessionLocal : Type 0 where
  pub from : String
  pub rcpt : List String

-- The parts of go-message that the sessions call.
pub record MessageLib : Type 1 where
  pub Entity : Type 0
  pub read : List ℕ → Option Entity
  pub add : String → String → Entity → Entity
  pub has : String → Entity → Bool
  pub write : Entity → Option (List ℕ)

abbrev pub or_message_error : {A : Type 0} → Option A → Result A
or_message_error none = err message_error
or_message_error (some a) = ok a

-- `Mail` clears the recipients before it checks the sender.
unfoldable pub checked_from : List ℕ → String → Result (List ℕ) → Exec SessionLocal Done
checked_from public_key from (ok pk) s =
    if bytes_eq pk public_key then (ok tt, record s { from = from }) else (err wrong_identity, s)
checked_from public_key from (err e) s = (err e, s)
checked_from public_key from panic s = (panic, s)

unfoldable pub local_mail : List ℕ → String → Exec SessionLocal Done
unfolding checked_from
local_mail public_key from s =
    checked_from public_key from (parse_address from) (record s { rcpt = [] })

unfoldable pub local_rcpt : String → Exec SessionLocal Done
local_rcpt to s = (ok tt, record s { rcpt = s.rcpt ++ to ∷ [] })

unfoldable pub local_reset : Exec SessionLocal Done
local_reset s = (ok tt, record { from = ""; rcpt = [] })

-- `received` and `now` are the texts that `fmt.Sprintf` and the clock give.
module _ (lib : MessageLib) (received now : String) where
  unfoldable pub stamp_local : lib.Entity → lib.Entity
  stamp_local m =
      let m' = lib.add "Received" received m in
      if lib.has "Date" m' then m' else lib.add "Date" now m'

  unfoldable pub local_data :
      (String → Result String) → List ℕ → SessionLocal → List ℕ → Exec Node Done
  local_data parse_mail public_key s r = do
    m ← lift (or_message_error (lib.read r))
    bytes ← lift (or_message_error (lib.write (stamp_local m)))
    queue_for parse_mail public_key s.from s.rcpt bytes
