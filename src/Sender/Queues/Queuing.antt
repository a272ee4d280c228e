-- ===== src/Sender/Queues/Queuing.antt =====
-- What `QueueFor` leaves for a recipient at another node.
use yggmail.Base.{
  Bool-cases, inl, inr, str_eq, eq_refl, ℕ, String, true, false, ◌≡◌, ◌≢◌, refl, ◌∙◌, any,
  any-append, List, [], ◌∷◌, ◌++◌, arith, str_ne, pos, any-false_of_All,
}
use yggmail.Exec.{err, unique, Result, ok, for_each, ◌>>=◌}
use yggmail.Storage.Types.{World, QueueRow, is_mailbox, is_mail}
use yggmail.Storage.Queue.{queue_insert_stmt, queue_insert_destination_for_id, is_entry}
use yggmail.Storage.Mails.{next_id}
use yggmail.Storage.Integrity.Operations.{Sound}
use yggmail.Storage.Absence.{no_mail_no_entry, fresh}
use yggmail.Storage.Healthy.{writer_do_healthy, with_mail, arrival, mail_create_lem}
use yggmail.Utils.Hex.{encode_hex}
use yggmail.Utils.Address.{parse_address}
use yggmail.Sender.Node.{Node, stored}
use yggmail.Sender.Queues.{queue_recipient, queue_for, queue_for_server}

-- The entry for one recipient of a new mail.
unfoldable pub new_entry : String → ℕ → String → String → QueueRow
new_entry host id from rcpt = record {
  destination = host;
  mailbox = "Outbox";
  id = id;
  mail = from;
  rcpt = rcpt;
}

unfoldable pub with_entry : World → QueueRow → World
with_entry w q = record w { tables = record w.tables { queue = w.tables.queue ++ q ∷ [] } }

-- Starting a queue leaves the tables alone.
pub started_world : (d : String) (n : Node) → (queue_for_server d n).1.world ≡ n.world
unfolding queue_for_server
started_world d n = elim (Bool-cases (any (str_eq d) n.running)) [
  | inl e ↦ rw e refl
  | inr e ↦ rw e refl
]

pub insert_new :
    (host : String) (id : ℕ) (from rcpt : String) (w : World)
    → any (is_entry host "Outbox" (pos id)) w.tables.queue ≡ false
    → any (is_mail "Outbox" (pos id)) w.tables.mails ≡ true
    → w.faults ≡ []
    → queue_insert_destination_for_id host (pos id) from rcpt w
      ≡ (ok tt, with_entry w (new_entry host id from rcpt))
unfolding queue_insert_destination_for_id queue_insert_stmt with_entry new_entry
insert_new host id from rcpt w p q h =
    writer_do_healthy (queue_insert_stmt host "Outbox" (pos id) from rcpt) tt w h
    ∙ rw (p, q, queue_insert_stmt) refl

pub mail_there :
    (bytes : List ℕ) (w : World)
    → any
        (is_mail "Outbox" (pos (next_id "Outbox" w.tables.mails)))
        (with_mail w (arrival "Outbox" bytes w)).tables.mails
      ≡ true
unfolding with_mail is_mail arrival
mail_there bytes w = ground (
  arith,
  any-append (is_mail "Outbox" (pos (next_id "Outbox" w.tables.mails))) w.tables.mails
      (arrival "Outbox" bytes w ∷ []),
)

pub entry_there :
    (host : String) (id : ℕ) (from rcpt : String) (w : World)
    → any
        (is_entry host "Outbox" (pos id))
        (with_entry w (new_entry host id from rcpt)).tables.queue
      ≡ true
unfolding with_entry new_entry is_entry
entry_there host id from rcpt w = ground (
  arith,
  eq_refl host,
  any-append (is_entry host "Outbox" (pos id)) w.tables.queue (new_entry host id from rcpt ∷ []),
)

insert_again :
    (host : String) (id : ℕ) (from first rcpt : String) (w : World)
    → w.faults ≡ []
    → queue_insert_destination_for_id host
        (pos id)
        from
        rcpt
        (with_entry w (new_entry host id from first))
      ≡ (err unique, with_entry w (new_entry host id from first))
unfolding queue_insert_destination_for_id queue_insert_stmt with_entry new_entry is_entry
insert_again host id from first rcpt w h =
    let taken = entry_there host id from first w in
    writer_do_healthy (queue_insert_stmt host "Outbox" (pos id) from rcpt) tt
      (with_entry w (new_entry host id from first)) h
    ∙ rw (taken, queue_insert_stmt) refl

module _ (parse_mail : String → Result String) (public_key : List ℕ) where
  -- A mail for one recipient at another node is stored in the Outbox, one entry of the queue of that
  -- node is stored for it, and the queue is started, where the address can be read, the Outbox
  -- exists, the tables are sound, and no call of the engine fails.
  pub queue_for_one :
      (from rcpt addr : String) (pk content : List ℕ) (n : Node)
      → parse_mail rcpt ≡ ok addr
      → parse_address addr ≡ ok pk
      → encode_hex pk ≢ encode_hex public_key
      → any (is_mailbox "Outbox") n.world.tables.mailboxes ≡ true
      → n.world.faults ≡ []
      → Sound n.world
      → queue_for parse_mail public_key from (rcpt ∷ []) content n
        ≡ queue_for_server (encode_hex pk) (record n {
          world =
              with_entry
                (with_mail n.world (arrival "Outbox" content n.world))
                (new_entry (encode_hex pk) (next_id "Outbox" n.world.tables.mails) from rcpt);
        })
  unfolding queue_for queue_recipient queue_for_server for_each stored ◌>>=◌ with_mail
  queue_for_one from rcpt addr pk content n p q ne known h s =
      let unused =
        no_mail_no_entry (encode_hex pk) "Outbox" (next_id "Outbox" n.world.tables.mails)
          n.world.tables s
          (any-false_of_All _ n.world.tables.mails (fresh "Outbox" n.world.tables.mails)) in
      rw
        (
          mail_create_lem "Outbox" content n.world known h,
          p,
          q,
          str_ne _ _ ne,
          insert_new (encode_hex pk) (next_id "Outbox" n.world.tables.mails) from rcpt
              (with_mail n.world (arrival "Outbox" content n.world)) unused
              (mail_there content n.world) h,
        )
        refl

  -- A mail for two recipients at one other node ends with the error that the queue's primary key is
  -- taken, where the addresses can be read, the Outbox exists, the tables are sound, and no call of
  -- the engine fails.
  pub queue_for_two :
      (from first second addr addr' : String) (pk content : List ℕ) (n : Node)
      → parse_mail first ≡ ok addr
      → parse_mail second ≡ ok addr'
      → parse_address addr ≡ ok pk
      → parse_address addr' ≡ ok pk
      → encode_hex pk ≢ encode_hex public_key
      → any (is_mailbox "Outbox") n.world.tables.mailboxes ≡ true
      → n.world.faults ≡ []
      → Sound n.world
      → (queue_for parse_mail public_key from (first ∷ second ∷ []) content n).0 ≡ err unique
  unfolding queue_for queue_recipient queue_for_server for_each stored ◌>>=◌ with_mail
  queue_for_two from first second addr addr' pk content n p p' q q' ne known h s =
      let id = next_id "Outbox" n.world.tables.mails in
      let unused =
        no_mail_no_entry (encode_hex pk) "Outbox" id n.world.tables s
          (any-false_of_All _ n.world.tables.mails (fresh "Outbox" n.world.tables.mails)) in
      let one =
        insert_new (encode_hex pk) id from first
          (with_mail n.world (arrival "Outbox" content n.world)) unused (mail_there content n.world)
          h in
      let two =
        insert_again (encode_hex pk) id from first second
          (with_mail n.world (arrival "Outbox" content n.world)) h in
      elim (Bool-cases (any (str_eq (encode_hex pk)) n.running)) [
        | inl r ↦
            rw
              (
                mail_create_lem "Outbox" content n.world known h,
                p,
                q,
                str_ne _ _ ne,
                one,
                r,
                p',
                q',
                str_ne _ _ ne,
                two,
              )
              refl
        | inr r ↦
            rw
              (
                mail_create_lem "Outbox" content n.world known h,
                p,
                q,
                str_ne _ _ ne,
                one,
                r,
                p',
                q',
                str_ne _ _ ne,
                two,
              )
              refl
      ]
