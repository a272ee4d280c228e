-- ===== src/Sender/Delivery/Calls.antt =====
-- What a run of a queue keeps: the health of the engine, the constraints of the tables, and the
-- absence of an entry.
use yggmail.Base.{
  ℕ, String, Bool, false, ◌≡◌, refl, List, [], ◌∷◌, pos, any, arith, any-filter-false,
}
use yggmail.Exec.{Result, Exec}
use yggmail.Exec.Preserves.{Preserves, Preserves-bind, Preserves-pure}
use yggmail.Storage.Types.{Db, World, delete_mails}
use yggmail.Storage.Engine.{Engine}
use yggmail.Storage.Writer.{statement, writer_do}
use yggmail.Storage.Mails.{mail_select, mail_delete, mail_expunge, expunge_mail_stmt}
use yggmail.Storage.Queue.{
  queue_mail_ids_for_destination, queue_delete_destination_for_id,
  queue_select_is_message_pending_send, is_entry, delete_destination_stmt,
}
use yggmail.Storage.Integrity.Rules.{
  OnTables, Preserves-statement, Preserves-writer_do, Preserves-read,
}
use yggmail.Storage.Integrity.Operations
use yggmail.Storage.Integrity.Operations.{Sound}
use yggmail.Sender.Delivery.Kept.{Kept}

-- No later call into the engine fails.
unfoldable pub Healthy : World → Type 0
Healthy w = w.faults ≡ []

module _ {A : Type 0} where
  statement_faults :
      (faults : List Bool) (w : World) (sql : Db → Result A × Db)
      → faults ≡ []
      → Healthy (statement sql (record w { faults = faults })).1
  unfolding statement Healthy
  statement_faults [] w sql h = refl
  statement_faults (b ∷ rest) w sql h = cc

  statement-Healthy : (sql : Db → Result A × Db) → Preserves Healthy (statement sql)
  unfolding Healthy
  statement-Healthy sql = record { from_state = λ w h. statement_faults w.faults w sql h }

  writer_faults :
      (faults : List Bool) (w : World) (initial : A) (f : Exec World A)
      → Preserves Healthy f
      → faults ≡ []
      → Healthy (writer_do initial f (record w { faults = faults })).1
  unfolding writer_do Healthy
  writer_faults [] w initial f k h = k.from_state (record w { faults = [] }) refl
  writer_faults (b ∷ rest) w initial f k h = cc

  writer_do-Healthy :
      (initial : A) (sql : Db → Result A × Db)
      → Preserves Healthy (writer_do initial (statement sql))
  unfolding Healthy
  writer_do-Healthy initial sql = record {
    from_state = λ w h. writer_faults w.faults w initial (statement sql) (statement-Healthy sql) h;
  }

pub calls-Healthy : (e : Engine) → Kept e Healthy
unfolding queue_mail_ids_for_destination mail_select queue_delete_destination_for_id
    queue_select_is_message_pending_send mail_delete mail_expunge
calls-Healthy e = record {
  ids = λ d. statement-Healthy _;
  select = λ a i. statement-Healthy _;
  forget = λ d i. writer_do-Healthy tt _;
  pending = λ a i. Preserves-bind _ _ (statement-Healthy _) (λ count. Preserves-pure _);
  delete = λ a i. writer_do-Healthy tt _;
  expunge = λ a. writer_do-Healthy tt _;
}

pub calls-Sound : (e : Engine) → Kept e Sound
calls-Sound e = record {
  ids = Operations.queue_mail_ids_for_destination-Sound e;
  select = Operations.mail_select-Sound e;
  forget = Operations.queue_delete_destination_for_id-Sound;
  pending = Operations.queue_select_is_message_pending_send-Sound;
  delete = Operations.mail_delete-Sound;
  expunge = Operations.mail_expunge-Sound;
}

-- The queue holds no entry for the destination and this mail of the Outbox.
unfoldable pub Absent : String → ℕ → Db → Type 0
Absent d id db = any (is_entry d "Outbox" (pos id)) db.queue ≡ false

pub calls-Absent : (e : Engine) (d : String) (id : ℕ) → Kept e (OnTables (Absent d id))
unfolding queue_mail_ids_for_destination mail_select queue_delete_destination_for_id
    queue_select_is_message_pending_send mail_delete mail_expunge Absent delete_destination_stmt
    expunge_mail_stmt delete_mails
calls-Absent e d id = record {
  ids = λ c. Preserves-read (Absent d id) _ (λ db. refl);
  select = λ a i. Preserves-read (Absent d id) _ (λ db. ground arith);
  forget = λ c i.
      Preserves-writer_do (Absent d id) tt _
        (Preserves-statement (Absent d id) _ (λ db. any-filter-false _ _ db.queue));
  pending = λ a i.
      Preserves-bind _ _ (Preserves-read (Absent d id) _ (λ db. refl)) (λ count. Preserves-pure _);
  delete = λ a i.
      Preserves-writer_do (Absent d id) tt _ (Preserves-statement (Absent d id) _ (λ db h. h));
  expunge = λ a.
      Preserves-writer_do (Absent d id) tt _
        (Preserves-statement (Absent d id) _ (λ db. any-filter-false _ _ db.queue));
}
