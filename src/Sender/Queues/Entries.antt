-- ===== src/Sender/Queues/Entries.antt =====
-- The entries of a new mail, before and after a run of the queue of its first recipient.
use yggmail.Base.{
  ℕ, String, Bool, true, false, not, ◌&&◌, ◌≡◌, ◌≢◌, refl, ◌∙◌, any, any-append, any-false_of_All,
  any_mono_false, List, [], ◌∷◌, str_eq, eq_refl, str_ne, pos, int_eq, arith,
}
use yggmail.Exec.{ok, err, foreign_key}
use yggmail.Exec.Preserves.{kept_at}
use yggmail.Storage.Types.{QueueRow, World, is_mailbox, is_mail}
use yggmail.Storage.Engine.{Engine}
use yggmail.Storage.Mails.{next_id}
use yggmail.Storage.Queue.{is_entry, queue_insert_stmt, queue_insert_destination_for_id}
use yggmail.Storage.Integrity.Operations
use yggmail.Storage.Integrity.Operations.{Sound}
use yggmail.Storage.Absence.{no_mail_no_entry, fresh}
use yggmail.Storage.Healthy.{writer_do_healthy, with_mail, arrival, mail_create_lem}
use yggmail.Sender.Node.{Node}
use yggmail.Sender.Queues.Queuing.{new_entry, with_entry, insert_new, mail_there, entry_there}
use yggmail.Sender.Delivery.{Remote, run}
use yggmail.Sender.Delivery.Kept
use yggmail.Sender.Delivery.Calls.{Healthy, calls-Healthy, calls-Sound}
use yggmail.Sender.Delivery.Taking.{IsTaking}
use yggmail.Sender.Delivery.Removal.{Alone, run_removes}
use yggmail.Storage.Types.{QueuedMail}

no_entries :
    (id : ℕ) (rows : List QueueRow)
    → ((d : String) → any (is_entry d "Outbox" (pos id)) rows ≡ false)
    → any (λ q. str_eq "Outbox" q.mailbox && int_eq (pos id) q.id) rows ≡ false
unfolding is_entry
no_entries id [] h = refl
no_entries id (q ∷ rows) h =
    ground
      (arith, eq_refl q.destination, h q.destination, no_entries id rows (λ d. ground (arith, h d)))

-- A mail that is gone takes no entry.
insert_orphan :
    (host : String) (id : ℕ) (from rcpt : String) (w : World)
    → any (is_mail "Outbox" (pos id)) w.tables.mails ≡ false
    → w.faults ≡ []
    → Sound w
    → queue_insert_destination_for_id host (pos id) from rcpt w ≡ (err foreign_key, w)
unfolding queue_insert_destination_for_id queue_insert_stmt
insert_orphan host id from rcpt w gone h s =
    writer_do_healthy (queue_insert_stmt host "Outbox" (pos id) from rcpt) tt w h
    ∙ rw (no_mail_no_entry host "Outbox" id w.tables s gone, gone, queue_insert_stmt) refl

-- The tables with a new mail and the entry for its first recipient.
module _ (host from first : String) (content : List ℕ) (w : World) where
  abbrev id : ℕ
  id = next_id "Outbox" w.tables.mails

  abbrev stored_world : World
  stored_world = with_mail w (arrival "Outbox" content w)

  abbrev pub queued_world : World
  queued_world = with_entry stored_world (new_entry host id from first)

  unused :
      Sound w → (d : String) → any (is_entry d "Outbox" (pos id)) stored_world.tables.queue ≡ false
  unfolding with_mail
  unused s d =
      no_mail_no_entry d "Outbox" id w.tables s
        (any-false_of_All _ w.tables.mails (fresh "Outbox" w.tables.mails))

  pub inserted :
      w.faults ≡ []
      → Sound w
      → queue_insert_destination_for_id host (pos id) from first stored_world
        ≡ (ok tt, queued_world)
  unfolding with_mail
  inserted h s = insert_new host id from first stored_world (unused s host) (mail_there content w) h

  queued-Sound :
      any (is_mailbox "Outbox") w.tables.mailboxes ≡ true
      → w.faults ≡ []
      → Sound w
      → Sound queued_world
  queued-Sound known h s =
      kept_at (Operations.queue_insert_destination_for_id-Sound host (pos id) from first)
        (inserted h s)
        (kept_at (Operations.mail_create-Sound "Outbox" content)
          (mail_create_lem "Outbox" content w known h) s)

  queued-Alone : Sound w → Alone host id queued_world.tables
  unfolding Alone with_entry new_entry
  queued-Alone s =
      let p : QueueRow → Bool = λ q.
        (str_eq "Outbox" q.mailbox && int_eq (pos id) q.id) && not (str_eq host q.destination) in
      any-append p stored_world.tables.queue (new_entry host id from first ∷ [])
      ∙ rw
          (
            any_mono_false p (λ q. str_eq "Outbox" q.mailbox && int_eq (pos id) q.id)
                stored_world.tables.queue (λ q t. ground arith)
                (no_entries id stored_world.tables.queue (unused s)),
            eq_refl host,
          )
          (ground arith)

  -- The entry for a second recipient, at a third node.
  pub inserted_next :
      (other second : String)
      → other ≢ host
      → w.faults ≡ []
      → Sound w
      → queue_insert_destination_for_id other (pos id) from second queued_world
        ≡ (ok tt, with_entry queued_world (new_entry other id from second))
  unfolding with_mail with_entry new_entry is_entry
  inserted_next other second ne h s =
      let free : any (is_entry other "Outbox" (pos id)) queued_world.tables.queue ≡ false =
        any-append (is_entry other "Outbox" (pos id)) stored_world.tables.queue
          (new_entry host id from first ∷ [])
        ∙ rw (unused s other, str_ne other host ne) (ground arith) in
      insert_new other id from second queued_world free (mail_there content w) h

-- What a run of the first recipient's queue leaves of the new mail, and of an entry for another.
module _ (e : Engine) (remote : Remote) (host from first : String) (content : List ℕ) (w : World)
    (taking : (ref : QueuedMail) (bytes : List ℕ) → IsTaking (remote ref bytes))
    (known : any (is_mailbox "Outbox") w.tables.mailboxes ≡ true) (h : w.faults ≡ [])
    (s : Sound w) where
  pub removed :
      (n : Node)
      → n.world ≡ queued_world host from first content w
      → any
          (is_mail "Outbox" (pos (next_id "Outbox" w.tables.mails)))
          (run e remote host n).1.world.tables.mails
        ≡ false
  unfolding with_mail with_entry
  removed n q =
      let alone : Alone host (next_id "Outbox" w.tables.mails) n.world.tables =
        rw q (queued-Alone host from first content w s) in
      let there =
        entry_there host (next_id "Outbox" w.tables.mails) from first
          (with_mail w (arrival "Outbox" content w)) in
      run_removes e remote host (next_id "Outbox" w.tables.mails) n taking (rw q h) alone
        (rw q there)

  pub orphaned :
      (other second : String) (n : Node)
      → n.world ≡ queued_world host from first content w
      → queue_insert_destination_for_id other
          (pos (next_id "Outbox" w.tables.mails))
          from
          second
          (run e remote host n).1.world
        ≡ (err foreign_key, (run e remote host n).1.world)
  unfolding Healthy with_mail with_entry
  orphaned other second n q =
      let sound : Sound n.world = rw q (queued-Sound host from first content w known h s) in
      insert_orphan other (next_id "Outbox" w.tables.mails) from second
        (run e remote host n).1.world (removed n q)
        ((Kept.run-Kept e (calls-Healthy e) remote host).from_state n (rw q h))
        ((Kept.run-Kept e (calls-Sound e) remote host).from_state n sound)
