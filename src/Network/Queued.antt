-- ===== src/Network/Queued.antt =====
-- The first node after its user has sent a mail to the other.
use yggmail.Base.{
  ℕ, String, Bool, true, false, not, ◌&&◌, ◌≡◌, ◌≢◌, refl, ◌∙◌, List, [], ◌∷◌, some, any,
  any-append, any-false_of_All, any_mono_false, str_eq, eq_refl, ◌==◌, bytes_eq, bytes_eq_iff,
  arith, pos,
}
use yggmail.Exec.{Result, ok, ◌>>=◌}
use yggmail.Storage.Types.{Mail, QueuedMail, QueueRow, World, is_mailbox, is_mail}
use yggmail.Storage.Mails.{next_id}
use yggmail.Storage.Queue.{to_queued_mail}
use yggmail.Storage.Healthy.{with_mail, arrival}
use yggmail.Storage.Absence.{fresh}
use yggmail.Storage.Integrity.Operations.{Sound}
use yggmail.Utils.Hex.{encode_hex}
use yggmail.Utils.Address.{parse_address}
use yggmail.Smtp.Local.{MessageLib, stamp_local, local_data}
use yggmail.Sender.Node.{Node}
use yggmail.Sender.Queues.{queue_for_server}
use yggmail.Sender.Queues.Queuing.{new_entry, with_entry, queue_for_one}
use yggmail.Sender.Delivery.Arrivals.{Holds}

-- The test that an entry is the one for this mail.
abbrev pub is_for : String → String → QueuedMail → Bool
is_for from rcpt ref = str_eq from ref.from && str_eq rcpt ref.rcpt

-- The tables of the sending node with the new mail and its entry.
abbrev pub queued : String → String → String → List ℕ → World → World
queued d from rcpt bytes w =
    with_entry (with_mail w (arrival "Outbox" bytes w))
      (new_entry d (next_id "Outbox" w.tables.mails) from rcpt)

pub queued-Holds :
    (d from rcpt : String) (bytes : List ℕ) (w : World)
    → Holds (next_id "Outbox" w.tables.mails) bytes (queued d from rcpt bytes w).tables
unfolding Holds with_mail arrival with_entry new_entry is_mail
queued-Holds d from rcpt bytes w =
    let new = arrival "Outbox" bytes w in
    let here : Mail → Bool = is_mail "Outbox" (pos (next_id "Outbox" w.tables.mails)) in
    let other : Mail → Bool = λ m. here m && not (bytes_eq bytes m.mail) in
    let free : any here w.tables.mails ≡ false =
      any-false_of_All here w.tables.mails (fresh "Outbox" w.tables.mails) in
    let none_other : any other w.tables.mails ≡ false =
      any_mono_false other here w.tables.mails (λ m e. ground arith) free in
    (
      any-append here w.tables.mails (new ∷ []) ∙ rw free (ground arith),
      any-append other w.tables.mails (new ∷ [])
          ∙ rw (none_other, (bytes_eq_iff bytes bytes).1 refl) (ground arith),
    )

pub queued_other :
    (d from rcpt : String) (bytes : List ℕ) (w : World)
    → any (λ q. str_eq d q.destination) w.tables.queue ≡ false
    → any
        (λ q.
          str_eq d q.destination
          && (next_id "Outbox" w.tables.mails == q.id && not (is_for from rcpt (to_queued_mail q))))
        (queued d from rcpt bytes w).tables.queue
      ≡ false
unfolding with_mail arrival with_entry new_entry
queued_other d from rcpt bytes w h =
    let p : QueueRow → Bool = λ q.
      str_eq d q.destination
      && (next_id "Outbox" w.tables.mails == q.id && not (is_for from rcpt (to_queued_mail q))) in
    any-append p w.tables.queue (new_entry d (next_id "Outbox" w.tables.mails) from rcpt ∷ [])
    ∙ rw
        (
          any_mono_false p (λ q. str_eq d q.destination) w.tables.queue (λ q e. ground arith) h,
          eq_refl from,
          eq_refl rcpt,
        )
        (ground arith)

pub queue_ok : (d : String) (n : Node) → (queue_for_server d n).0 ≡ ok tt
unfolding queue_for_server
queue_ok d n = refl

pub local_data_queues :
    (lib : MessageLib) (received now : String) (parse_mail : String → Result String)
    (own other : List ℕ) (from to : String) (r bytes : List ℕ) (m : lib.Entity) (n : Node)
    → lib.read r ≡ some m
    → lib.write (stamp_local lib received now m) ≡ some bytes
    → parse_mail to ≡ ok to
    → parse_address to ≡ ok other
    → encode_hex other ≢ encode_hex own
    → any (is_mailbox "Outbox") n.world.tables.mailboxes ≡ true
    → n.world.faults ≡ []
    → Sound n.world
    → local_data lib received now parse_mail own (record { from = from; rcpt = to ∷ [] }) r n
      ≡ queue_for_server
          (encode_hex other)
          (record n { world = queued (encode_hex other) from to bytes n.world })
unfolding local_data ◌>>=◌
local_data_queues lib received now parse_mail own other from to r bytes m n a b p q ne o h s =
    rw a (rw b (queue_for_one parse_mail own from to to other bytes n p q ne o h s))
