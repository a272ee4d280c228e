-- ===== src/Storage/Total.antt =====
-- No call of the storage panics.
use yggmail.Base.{String, ◌≢◌, Bool, true, false, List, [], ◌∷◌, ℤ, arith}
use yggmail.Exec.{Result, panic, Exec}
use yggmail.Exec.Completes.{NeverPanics, NeverPanics-bind, NeverPanics-pure}
use yggmail.Storage.Types.{Db, World}
use yggmail.Storage.Engine.{Engine}
use yggmail.Storage.Writer.{statement, writer_do}
use yggmail.Storage.Mails.{mail_select, mail_delete, mail_expunge}
use yggmail.Storage.Queue.{
  queue_mail_ids_for_destination, queue_delete_destination_for_id,
  queue_select_is_message_pending_send,
}

module _ {A : Type 0} where
  statement_calm :
      (faults : List Bool) (w : World) (sql : Db → Result A × Db)
      → ((db : Db) → (sql db).0 ≢ panic)
      → (statement sql (record w { faults = faults })).0 ≢ panic
  unfolding statement
  statement_calm [] w sql h = h w.tables
  statement_calm (true ∷ rest) w sql h = λ q. cc
  statement_calm (false ∷ rest) w sql h = h w.tables

  pub NeverPanics-statement :
      (sql : Db → Result A × Db) → ((db : Db) → (sql db).0 ≢ panic) → NeverPanics (statement sql)
  NeverPanics-statement sql h = record { at_state = λ w. statement_calm w.faults w sql h }

  writer_calm :
      (faults : List Bool) (w : World) (initial : A) (f : Exec World A)
      → NeverPanics f
      → (writer_do initial f (record w { faults = faults })).0 ≢ panic
  unfolding writer_do
  writer_calm [] w initial f h = h.at_state (record w { faults = [] })
  writer_calm (true ∷ rest) w initial f h = λ q. cc
  writer_calm (false ∷ rest) w initial f h = h.at_state (record w { faults = rest })

  pub NeverPanics-writer_do :
      (initial : A) (f : Exec World A) → NeverPanics f → NeverPanics (writer_do initial f)
  NeverPanics-writer_do initial f h = record { at_state = λ w. writer_calm w.faults w initial f h }

pub mail_select-NeverPanics : (e : Engine) (a : String) (i : ℤ) → NeverPanics (mail_select e a i)
unfolding mail_select
mail_select-NeverPanics e a i = NeverPanics-statement _ (λ db. ground arith)

pub mail_delete-NeverPanics : (a : String) (i : ℤ) → NeverPanics (mail_delete a i)
unfolding mail_delete
mail_delete-NeverPanics a i = NeverPanics-writer_do tt _ (NeverPanics-statement _ (λ db q. cc))

pub mail_expunge-NeverPanics : (a : String) → NeverPanics (mail_expunge a)
unfolding mail_expunge
mail_expunge-NeverPanics a = NeverPanics-writer_do tt _ (NeverPanics-statement _ (λ db q. cc))

pub queue_mail_ids_for_destination-NeverPanics :
    (e : Engine) (a : String) → NeverPanics (queue_mail_ids_for_destination e a)
unfolding queue_mail_ids_for_destination
queue_mail_ids_for_destination-NeverPanics e a = NeverPanics-statement _ (λ db q. cc)

pub queue_delete_destination_for_id-NeverPanics :
    (a : String) (i : ℤ) → NeverPanics (queue_delete_destination_for_id a i)
unfolding queue_delete_destination_for_id
queue_delete_destination_for_id-NeverPanics a i =
    NeverPanics-writer_do tt _ (NeverPanics-statement _ (λ db q. cc))

pub queue_select_is_message_pending_send-NeverPanics :
    (a : String) (i : ℤ) → NeverPanics (queue_select_is_message_pending_send a i)
unfolding queue_select_is_message_pending_send
queue_select_is_message_pending_send-NeverPanics a i =
    NeverPanics-bind _ _ (NeverPanics-statement _ (λ db q. cc)) (λ count. NeverPanics-pure _)

pub ruleset storage_calm = (
  mail_select-NeverPanics, mail_delete-NeverPanics, mail_expunge-NeverPanics,
  queue_mail_ids_for_destination-NeverPanics, queue_delete_destination_for_id-NeverPanics,
  queue_select_is_message_pending_send-NeverPanics,
)
