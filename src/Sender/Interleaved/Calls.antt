-- ===== src/Sender/Interleaved/Calls.antt =====
-- Calls of the storage, and a mail that waits for its destination.
use yggmail.Base.{
  ℕ, String, Bool, true, false, ◌&&◌, ◌≡◌, refl, ◌∙◌, List, [], ◌∷◌, ◌++◌, ℤ, pos, any, any-append,
  update_if, ◌==◌, ==_iff, arith, inl, inr, Bool-cases, if◌then◌else◌,
}
use yggmail.Exec.{Result, ok, Done}
use yggmail.Exec.Preserves.{Preserves, Preserves-bind, Preserves-pure}
use yggmail.Storage.Types.{Mail, QueueRow, Db, is_mail, is_mailbox}
use yggmail.Storage.Engine.{Engine}
use yggmail.Storage.Mails.{
  mail_create, mail_select, mail_delete, insert_mail_stmt, delete_mail_stmt,
}
use yggmail.Storage.Queue.{
  is_entry, queue_mail_ids_for_destination, queue_insert_destination_for_id, queue_insert_stmt,
  queue_select_is_message_pending_send, queue_pending_stmt,
}
use yggmail.Storage.Integrity.Rules.{Preserves-statement, Preserves-writer_do, Preserves-read}
use yggmail.Sender.Delivery.Outcomes.{Queued, Waits}

module _ (e : Engine) (d : String) (id : ℕ) where
  unmarked :
      (k : ℕ) (rows : List Mail)
      → (id == k) ≡ false
      → any (λ m. is_mail "Outbox" (pos id) m && m.deleted) rows ≡ false
      → any
          (λ m. is_mail "Outbox" (pos id) m && m.deleted)
          (update_if (is_mail "Outbox" (pos k)) (λ m. record m { deleted = true }) rows)
        ≡ false
  unfolding is_mail
  unmarked k [] ne h = refl
  unmarked k (m ∷ rows) ne h = ground (arith, ==_iff id m.id, ==_iff k m.id, unmarked k rows ne)

  pub delete-Waits :
      (k : ℕ) → (id == k) ≡ false → Preserves (Waits e d id) (mail_delete "Outbox" (pos k))
  unfolding mail_delete delete_mail_stmt Queued
  delete-Waits k ne =
      Preserves-writer_do (Queued d id) tt _
        (Preserves-statement (Queued d id) _ (λ db p. (p.0, unmarked k db.mails ne p.1)))

  pub create-Waits : (bytes : List ℕ) → Preserves (Waits e d id) (mail_create "Outbox" bytes)
  unfolding mail_create insert_mail_stmt Queued
  create-Waits bytes = record {
    from_state = λ w.
        (Preserves-writer_do (Queued d id) 0 _ (
            Preserves-statement (Queued d id) (insert_mail_stmt "Outbox" bytes w.clock) λ db p.
              elim (Bool-cases (any (is_mailbox "Outbox") db.mailboxes)) [
                | inl t ↦ rw t (
                  p.0,
                  any-append (λ m. is_mail "Outbox" (pos id) m && m.deleted) db.mails _
                      ∙ rw p.1 (ground arith),
                )
                | inr f ↦ rw f p
              ])).from_state
          w;
  }

  inserted :
      (b c : Bool) (db : Db) (q : QueueRow) (x y : Result Done × Db)
      → x.1 ≡ db
      → y.1 ≡ db
      → Queued d id db
      → Queued d id
          (if b then x else if c then (ok tt, record db { queue = db.queue ++ q ∷ [] }) else y).1
  unfolding Queued
  inserted true c db q x y f g p = rw f p
  inserted false true db q x y f g p =
      (any-append (is_entry d "Outbox" (pos id)) db.queue (q ∷ []) ∙ rw p.0 (ground arith), p.1)
  inserted false false db q x y f g p = rw g p

  pub insert-Waits :
      (h : String) (k : ℕ) (from rcpt : String)
      → Preserves (Waits e d id) (queue_insert_destination_for_id h (pos k) from rcpt)
  unfolding queue_insert_destination_for_id queue_insert_stmt
  insert-Waits h k from rcpt = Preserves-writer_do (Queued d id) tt _ (
      Preserves-statement (Queued d id) _ (λ db p.
        inserted (any (is_entry h "Outbox" (pos k)) db.queue)
          (any (is_mail "Outbox" (pos k)) db.mails) db _ _ _ refl refl p))

  pub ids-Waits : (h : String) → Preserves (Waits e d id) (queue_mail_ids_for_destination e h)
  unfolding queue_mail_ids_for_destination
  ids-Waits h = Preserves-read (Queued d id) _ (λ db. refl)

  pub select-Waits : (i : ℤ) → Preserves (Waits e d id) (mail_select e "Outbox" i)
  unfolding mail_select
  select-Waits i = Preserves-read (Queued d id) _ (λ db. ground arith)

  pub pending-Waits :
      (i : ℤ) → Preserves (Waits e d id) (queue_select_is_message_pending_send "Outbox" i)
  unfolding queue_select_is_message_pending_send queue_pending_stmt
  pending-Waits i =
      Preserves-bind _ _ (Preserves-read (Queued d id) _ (λ db. refl)) (λ count. Preserves-pure _)
