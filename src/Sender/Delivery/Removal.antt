-- ===== src/Sender/Delivery/Removal.antt =====
-- What becomes of the mail itself once its last entry is settled.
use yggmail.Base.{
  ℕ, String, Bool, true, false, not, ◌&&◌, ◌≡◌, refl, List, [], ◌∷◌, any, any_mono_false,
  any-filter-false, filter, update_if, count_if, str_eq, arith, pos, int_eq, ℤ,
}
use yggmail.Exec.{for_each, attempt, ◌>>=◌}
use yggmail.Exec.Preserves.{Preserves-bind, Preserves-pure, Preserves-for_each}
use yggmail.Exec.Completes.{Completes-for_each, bind-returns}
use yggmail.Storage.Types.{Mail, QueuedMail, QueueRow, Db, World, is_mail, in_mailbox, delete_mails}
use yggmail.Storage.Engine.{Engine}
use yggmail.Storage.Queue.{queue_select_is_message_pending_send}
use yggmail.Storage.Healthy.{statement_healthy, writer_do_healthy}
use yggmail.Storage.Mails.{
  mail_select, mail_delete, mail_expunge, delete_mail_stmt, expunge_mail_stmt,
}
use yggmail.Storage.Queue.{
  is_entry, queue_mail_ids_for_destination, queue_delete_destination_for_id,
  delete_destination_stmt, queue_pending_stmt,
}
use yggmail.Storage.Queue.Sorting.{entry_is_read}
use yggmail.Storage.Integrity.Rules.{
  OnTables, Preserves-statement, Preserves-writer_do, Preserves-read,
}
use yggmail.Sender.Node.{Node, stored}
use yggmail.Sender.Delivery.{Remote, settle_entry, deliver_ref, stop_running, run}
use yggmail.Sender.Delivery.Stops.{deliver_ref-Completes}
use yggmail.Sender.Delivery.Kept
use yggmail.Sender.Delivery.Kept.{Kept, OnWorld}
use yggmail.Sender.Delivery.Calls.{Healthy, calls-Healthy}
use yggmail.Sender.Delivery.Taking.{IsTaking}
use yggmail.Sender.Delivery.Kept.{rounds_of, Kept_both}
use yggmail.Sender.Delivery.Settling.{Settles, find_mail-none, refs_of, run-refs, rounds_settle}

-- The queue holds this mail of the Outbox for no other destination.
unfoldable pub Alone : String → ℕ → Db → Type 0
Alone d id db =
    any (λ q. (str_eq "Outbox" q.mailbox && int_eq (pos id) q.id) && not (str_eq d q.destination))
      db.queue
    ≡ false

-- The mail of the Outbox, where it is there, is marked as deleted.
unfoldable pub Marked : ℕ → Db → Type 0
Marked id db = any (λ m. is_mail "Outbox" (pos id) m && not m.deleted) db.mails ≡ false

marked_all :
    (a : String) (i : ℤ) (id : ℕ) (rows : List Mail)
    → any (λ m. is_mail "Outbox" (pos id) m && not m.deleted) rows ≡ false
    → any
        (λ m. is_mail "Outbox" (pos id) m && not m.deleted)
        (update_if (is_mail a i) (λ m. record m { deleted = true }) rows)
      ≡ false
unfolding is_mail
marked_all a i id [] h = refl
marked_all a i id (m ∷ rows) h = ground (arith, marked_all a i id rows)

pub marked_now :
    (id : ℕ) (rows : List Mail)
    → any
        (λ m. is_mail "Outbox" (pos id) m && not m.deleted)
        (update_if (is_mail "Outbox" (pos id)) (λ m. record m { deleted = true }) rows)
      ≡ false
unfolding is_mail
marked_now id [] = refl
marked_now id (m ∷ rows) = ground (arith, marked_now id rows)

calls-Alone : (e : Engine) (d : String) (id : ℕ) → Kept e (OnTables (Alone d id))
unfolding queue_mail_ids_for_destination mail_select queue_delete_destination_for_id
    queue_select_is_message_pending_send mail_delete mail_expunge Alone delete_destination_stmt
    expunge_mail_stmt delete_mails
calls-Alone e d id = record {
  ids = λ c. Preserves-read (Alone d id) _ (λ db. refl);
  select = λ a i. Preserves-read (Alone d id) _ (λ db. ground arith);
  forget = λ c i.
      Preserves-writer_do (Alone d id) tt _
        (Preserves-statement (Alone d id) _ (λ db. any-filter-false _ _ db.queue));
  pending = λ a i.
      Preserves-bind _ _ (Preserves-read (Alone d id) _ (λ db. refl)) (λ count. Preserves-pure _);
  delete =
      λ a i. Preserves-writer_do (Alone d id) tt _ (Preserves-statement (Alone d id) _ (λ db h. h));
  expunge = λ a.
      Preserves-writer_do (Alone d id) tt _
        (Preserves-statement (Alone d id) _ (λ db. any-filter-false _ _ db.queue));
}

calls-Marked : (e : Engine) (id : ℕ) → Kept e (OnTables (Marked id))
unfolding queue_mail_ids_for_destination mail_select queue_delete_destination_for_id
    queue_select_is_message_pending_send mail_delete mail_expunge Marked delete_mail_stmt
    delete_destination_stmt expunge_mail_stmt delete_mails
calls-Marked e id = record {
  ids = λ c. Preserves-read (Marked id) _ (λ db. refl);
  select = λ a i. Preserves-read (Marked id) _ (λ db. ground arith);
  forget =
      λ c i. Preserves-writer_do (Marked id) tt _ (Preserves-statement (Marked id) _ (λ db h. h));
  pending = λ a i.
      Preserves-bind _ _ (Preserves-read (Marked id) _ (λ db. refl)) (λ count. Preserves-pure _);
  delete = λ a i.
      Preserves-writer_do (Marked id) tt _
        (Preserves-statement (Marked id) _ (λ db. marked_all a i id db.mails));
  expunge = λ a.
      Preserves-writer_do (Marked id) tt _
        (Preserves-statement (Marked id) _ (λ db. any-filter-false _ _ db.mails));
}

pub count_none :
    (rows : List QueueRow) (p : QueueRow → Bool) → any p rows ≡ false → count_if p rows ≡ 0
count_none [] p h = refl
count_none (q ∷ rows) p h = ground (arith, count_none rows p)

none_else :
    (d : String) (id : ℕ) (rows : List QueueRow)
    → any
        (λ q. (str_eq "Outbox" q.mailbox && int_eq (pos id) q.id) && not (str_eq d q.destination))
        rows
      ≡ false
    → any
        (λ q. str_eq "Outbox" q.mailbox && int_eq (pos id) q.id)
        (filter (λ q. not (is_entry d "Outbox" (pos id) q)) rows)
      ≡ false
unfolding is_entry
none_else d id [] h = refl
none_else d id (q ∷ rows) h = ground (arith, none_else d id rows)

-- The last entry of a mail being settled marks the mail.
settle_entry-Marked :
    (d : String) (id : ℕ) (w : World)
    → Healthy w
    → Alone d id w.tables
    → Marked id (settle_entry d id w).1.tables
unfolding settle_entry queue_delete_destination_for_id queue_select_is_message_pending_send
    mail_delete Healthy Alone Marked delete_destination_stmt delete_mail_stmt queue_pending_stmt
    ◌>>=◌
settle_entry-Marked d id w h a =
    let forgotten : World = record w {
      tables = (delete_destination_stmt d "Outbox" (pos id) w.tables).1;
    } in
    rw
      (
        writer_do_healthy (delete_destination_stmt d "Outbox" (pos id)) tt w h,
        statement_healthy (queue_pending_stmt "Outbox" (pos id)) forgotten h,
        count_none forgotten.tables.queue (λ q. str_eq "Outbox" q.mailbox && int_eq (pos id) q.id)
            (none_else d id w.tables.queue a),
        writer_do_healthy (delete_mail_stmt "Outbox" (pos id)) tt forgotten h,
      )
      (marked_now id w.tables.mails)

settles-Marked :
    (e : Engine) (remote : Remote) (d : String) (id : ℕ)
    → Settles e remote d id (λ w. Healthy w × Alone d id w.tables) (OnTables (Marked id))
unfolding Marked
settles-Marked e remote d id = record {
  during = rounds_of (Kept_both (calls-Healthy e) (calls-Alone e d id));
  keeps = rounds_of (calls-Marked e id);
  healthy = λ w i. i.0;
  settled = λ w i. settle_entry-Marked d id w i.0 i.1;
  missing = λ w i q.
      any_mono_false _ (is_mail "Outbox" (pos id)) w.tables.mails (λ m t. ground arith)
        (find_mail-none e remote d id w.tables q);
}

pub none_kept :
    (id : ℕ) (rows : List Mail)
    → any (λ m. is_mail "Outbox" (pos id) m && not m.deleted) rows ≡ false
    → any (is_mail "Outbox" (pos id)) (filter (λ m. not (in_mailbox "Outbox" m && m.deleted)) rows)
      ≡ false
unfolding is_mail in_mailbox
none_kept id [] h = refl
none_kept id (m ∷ rows) h = ground (arith, none_kept id rows)

-- No mail of the Outbox has this id.
unfoldable pub Removed : ℕ → Db → Type 0
Removed id db = any (is_mail "Outbox" (pos id)) db.mails ≡ false

run_end-Removed :
    (e : Engine) (remote : Remote) (d : String) (id : ℕ) (n : Node)
    → Healthy n.world
    → Marked id n.world.tables
    → Removed id
        ((attempt (stored (mail_expunge "Outbox")) >>= λ _. stop_running e remote d)
          n).1.world.tables
unfolding mail_expunge stop_running stored Healthy Marked Removed expunge_mail_stmt delete_mails
    ◌>>=◌
run_end-Removed e remote d id n h m =
    rw (writer_do_healthy (expunge_mail_stmt "Outbox") tt n.world h)
      (none_kept id n.world.tables.mails m)

-- A run of the queue of the only destination that a mail of the Outbox still has an entry for
-- removes the mail, where no call of the engine fails and the remote server takes every step up to
-- the end of the data.
pub run_removes :
    (e : Engine) (remote : Remote) (d : String) (id : ℕ) (n : Node)
    → ((ref : QueuedMail) (bytes : List ℕ) → IsTaking (remote ref bytes))
    → n.world.faults ≡ []
    → Alone d id n.world.tables
    → any (is_entry d "Outbox" (pos id)) n.world.tables.queue ≡ true
    → any (is_mail "Outbox" (pos id)) (run e remote d n).1.world.tables.mails ≡ false
unfolding Healthy Removed refs_of
run_removes e remote d id n taking h a q =
    let refs = refs_of e remote d n.world.tables in
    let completes =
      Completes-for_each refs (deliver_ref e remote d) (deliver_ref-Completes e remote d) in
    let rounds = for_each refs (deliver_ref e remote d) n in
    let marked =
      rounds_settle e remote d id (settles-Marked e remote d id) taking refs n (h, a)
        (entry_is_read e d id n.world.tables q) in
    let healthy =
      Preserves-for_each refs (deliver_ref e remote d)
        (Kept.deliver_ref-Kept e (rounds_of (calls-Healthy e)) remote d) in
    rw (run-refs e remote d n h, bind-returns _ _ completes n)
      (run_end-Removed e remote d id rounds.1 (healthy.from_state n h) marked)
