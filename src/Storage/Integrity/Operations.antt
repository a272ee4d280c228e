-- ===== src/Storage/Integrity/Operations.antt =====
-- Every call of the `Storage` interface keeps the tables sound, whichever calls of the engine fail.
use yggmail.Base.{ℕ, String, refl, Bool, List, [], ◌∷◌, ℤ, arith}
use yggmail.Exec.{Tried, done, failed, Result}
use yggmail.Exec.Preserves.{
  Preserves, Preserves-bind, Preserves-pure, Preserves-attempt, preserves_rules,
}
use yggmail.Storage.Types.{Db, World}
use yggmail.Storage.Engine.{Engine}
use yggmail.Storage.Writer.{statement, writer_do}
use yggmail.Storage.Config.{
  value_or_empty, config_get, config_set, config_set_password, config_try_password,
}
use yggmail.Storage.Mailboxes.{
  mailbox_list, mailbox_select, mailbox_create, mailbox_rename, mailbox_delete, mailbox_subscribe,
}
use yggmail.Storage.Mails.{
  mail_create, mail_select, mail_search, mail_next_id, mail_id_for_seq, mail_unseen,
  mail_update_flags, mail_delete, mail_expunge, mail_count, mail_move, insert_mail_stmt,
}
use yggmail.Storage.Queue.{
  queue_list_destinations, queue_mail_ids_for_destination, queue_insert_destination_for_id,
  queue_delete_destination_for_id, queue_select_is_message_pending_send,
}
use yggmail.Storage.Integrity.{IsSound}
use yggmail.Storage.Integrity.Mailboxes.{
  mailboxes_create_stmt-IsSound, mailboxes_delete_stmt-IsSound, mailboxes_subscribe_stmt-IsSound,
}
use yggmail.Storage.Integrity.Rename.{mailboxes_rename_stmt-IsSound}
use yggmail.Storage.Integrity.Mails.{
  insert_mail_stmt-IsSound, update_mail_flags_stmt-IsSound, delete_mail_stmt-IsSound,
  expunge_mail_stmt-IsSound,
}
use yggmail.Storage.Integrity.Move.{move_mail_stmt-IsSound}
use yggmail.Storage.Integrity.Queue.{
  queue_insert_stmt-IsSound, delete_destination_stmt-IsSound, config_set_stmt-IsSound,
}
use yggmail.Storage.Calls.{Call, perform, perform_all}
use yggmail.Storage.Integrity.Rules.{
  OnTables, Preserves-statement, Preserves-writer_do, Preserves-read,
}

abbrev pub Sound : World → Type 0
Sound = OnTables IsSound

-- A write through `Writer.Do`.
Sound-write :
    {A : Type 0} (initial : A) (sql : Db → Result A × Db)
    → ((db : Db) → IsSound db → IsSound (sql db).1)
    → Preserves Sound (writer_do initial (statement sql))
Sound-write initial sql keeps =
    Preserves-writer_do IsSound initial (statement sql) (Preserves-statement IsSound sql keeps)

pub mail_move-Sound : (a : String) (i : ℤ) (b : String) → Preserves Sound (mail_move a i b)
unfolding mail_move
mail_move-Sound a i b = Sound-write tt _ (move_mail_stmt-IsSound b a i)

pub mail_expunge-Sound : (a : String) → Preserves Sound (mail_expunge a)
unfolding mail_expunge
mail_expunge-Sound a = Sound-write tt _ (expunge_mail_stmt-IsSound a)

pub mail_delete-Sound : (a : String) (i : ℤ) → Preserves Sound (mail_delete a i)
unfolding mail_delete
mail_delete-Sound a i = Sound-write tt _ (delete_mail_stmt-IsSound a i)

pub mail_update_flags-Sound :
    (a : String) (i : ℤ) (s r f d : Bool) → Preserves Sound (mail_update_flags a i s r f d)
unfolding mail_update_flags
mail_update_flags-Sound a i s r f d = Sound-write tt _ (update_mail_flags_stmt-IsSound s r f d a i)

pub mail_create-Sound : (a : String) (bytes : List ℕ) → Preserves Sound (mail_create a bytes)
unfolding mail_create
mail_create-Sound a bytes = record {
  from_state = λ w.
      let keeps =
        Sound-write 0 (insert_mail_stmt a bytes w.clock)
          (insert_mail_stmt-IsSound a bytes w.clock) in
      keeps.from_state w;
}

pub mail_select-Sound : (e : Engine) (a : String) (i : ℤ) → Preserves Sound (mail_select e a i)
unfolding mail_select
mail_select-Sound e a i = Preserves-read IsSound _ (λ db. ground arith)

pub mail_id_for_seq-Sound :
    (e : Engine) (a : String) (n : ℕ) → Preserves Sound (mail_id_for_seq e a n)
unfolding mail_id_for_seq
mail_id_for_seq-Sound e a n = Preserves-read IsSound _ (λ db. ground arith)

pub mail_next_id-Sound : (a : String) → Preserves Sound (mail_next_id a)
unfolding mail_next_id
mail_next_id-Sound a = Preserves-read IsSound _ (λ db. refl)

pub mail_unseen-Sound : (a : String) → Preserves Sound (mail_unseen a)
unfolding mail_unseen
mail_unseen-Sound a = Preserves-read IsSound _ (λ db. refl)

pub mail_count-Sound : (a : String) → Preserves Sound (mail_count a)
unfolding mail_count
mail_count-Sound a = Preserves-read IsSound _ (λ db. refl)

pub mail_search-Sound : (a : String) → Preserves Sound (mail_search a)
unfolding mail_search
mail_search-Sound a =
    Preserves-bind _ _ (Preserves-read IsSound _ (λ db. refl)) (λ ids. search preserves_rules)

pub mailbox_create-Sound : (a : String) → Preserves Sound (mailbox_create a)
unfolding mailbox_create
mailbox_create-Sound a = Sound-write tt _ (mailboxes_create_stmt-IsSound a)

pub mailbox_rename-Sound : (a b : String) → Preserves Sound (mailbox_rename a b)
unfolding mailbox_rename
mailbox_rename-Sound a b = Sound-write tt _ (mailboxes_rename_stmt-IsSound a b)

pub mailbox_delete-Sound : (a : String) → Preserves Sound (mailbox_delete a)
unfolding mailbox_delete
mailbox_delete-Sound a = Sound-write tt _ (mailboxes_delete_stmt-IsSound a)

pub mailbox_subscribe-Sound : (a : String) (b : Bool) → Preserves Sound (mailbox_subscribe a b)
unfolding mailbox_subscribe
mailbox_subscribe-Sound a b = Sound-write tt _ (mailboxes_subscribe_stmt-IsSound b a)

pub mailbox_list-Sound : (e : Engine) (b : Bool) → Preserves Sound (mailbox_list e b)
unfolding mailbox_list
mailbox_list-Sound e b = Preserves-read IsSound _ (λ db. refl)

pub mailbox_select-Sound : (a : String) → Preserves Sound (mailbox_select a)
unfolding mailbox_select
mailbox_select-Sound a =
    Preserves-bind _ _ (Preserves-read IsSound _ (λ db. ground arith)) (λ got. Preserves-pure _)

value_or_empty-Sound : (r : Tried String) → Preserves Sound (value_or_empty r)
value_or_empty-Sound (done value) = search preserves_rules
value_or_empty-Sound (failed e) = search preserves_rules

pub config_get-Sound : (a : String) → Preserves Sound (config_get a)
unfolding config_get
config_get-Sound a =
    Preserves-bind _ _ (Preserves-attempt _ (Preserves-read IsSound _ (λ db. ground arith)))
      value_or_empty-Sound

pub config_set-Sound : (a b : String) → Preserves Sound (config_set a b)
unfolding config_set
config_set-Sound a b = Sound-write tt _ (config_set_stmt-IsSound a b)

pub config_try_password-Sound :
    (c : String → String → Bool) (a : String) → Preserves Sound (config_try_password c a)
unfolding config_try_password
config_try_password-Sound c a = search (preserves_rules, config_get-Sound)

pub queue_list_destinations-Sound : (e : Engine) → Preserves Sound (queue_list_destinations e)
unfolding queue_list_destinations
queue_list_destinations-Sound e = Preserves-read IsSound _ (λ db. refl)

pub queue_mail_ids_for_destination-Sound :
    (e : Engine) (a : String) → Preserves Sound (queue_mail_ids_for_destination e a)
unfolding queue_mail_ids_for_destination
queue_mail_ids_for_destination-Sound e a = Preserves-read IsSound _ (λ db. refl)

pub queue_insert_destination_for_id-Sound :
    (a : String) (i : ℤ) (from rcpt : String)
    → Preserves Sound (queue_insert_destination_for_id a i from rcpt)
unfolding queue_insert_destination_for_id
queue_insert_destination_for_id-Sound a i from rcpt =
    Sound-write tt _ (queue_insert_stmt-IsSound a "Outbox" i from rcpt)

pub queue_delete_destination_for_id-Sound :
    (a : String) (i : ℤ) → Preserves Sound (queue_delete_destination_for_id a i)
unfolding queue_delete_destination_for_id
queue_delete_destination_for_id-Sound a i =
    Sound-write tt _ (delete_destination_stmt-IsSound a "Outbox" i)

pub queue_select_is_message_pending_send-Sound :
    (a : String) (i : ℤ) → Preserves Sound (queue_select_is_message_pending_send a i)
unfolding queue_select_is_message_pending_send
queue_select_is_message_pending_send-Sound a i =
    Preserves-bind _ _ (Preserves-read IsSound _ (λ db. refl)) (λ count. Preserves-pure _)

module _ (e : Engine) (compare : String → String → Bool) where
  perform-Sound : (c : Call) (w : World) → Sound w → Sound (perform e compare c w)
  unfolding perform
  perform-Sound (Call.config_get key) w h = (config_get-Sound key).from_state w h
  perform-Sound (Call.config_set key value) w h = (config_set-Sound key value).from_state w h
  perform-Sound (Call.config_set_password hash) w h =
      unfold config_set_password in (config_set-Sound "password" hash).from_state w h
  perform-Sound (Call.config_try_password password) w h =
      (config_try_password-Sound compare password).from_state w h
  perform-Sound (Call.mailbox_select name) w h = (mailbox_select-Sound name).from_state w h
  perform-Sound (Call.mailbox_list b) w h = (mailbox_list-Sound e b).from_state w h
  perform-Sound (Call.mailbox_create name) w h = (mailbox_create-Sound name).from_state w h
  perform-Sound (Call.mailbox_rename old new) w h = (mailbox_rename-Sound old new).from_state w h
  perform-Sound (Call.mailbox_delete name) w h = (mailbox_delete-Sound name).from_state w h
  perform-Sound (Call.mailbox_subscribe name b) w h =
      (mailbox_subscribe-Sound name b).from_state w h
  perform-Sound (Call.mail_create a bytes) w h = (mail_create-Sound a bytes).from_state w h
  perform-Sound (Call.mail_select a i) w h = (mail_select-Sound e a i).from_state w h
  perform-Sound (Call.mail_search a) w h = (mail_search-Sound a).from_state w h
  perform-Sound (Call.mail_next_id a) w h = (mail_next_id-Sound a).from_state w h
  perform-Sound (Call.mail_id_for_seq a n) w h = (mail_id_for_seq-Sound e a n).from_state w h
  perform-Sound (Call.mail_unseen a) w h = (mail_unseen-Sound a).from_state w h
  perform-Sound (Call.mail_update_flags a i s r f d) w h =
      (mail_update_flags-Sound a i s r f d).from_state w h
  perform-Sound (Call.mail_delete a i) w h = (mail_delete-Sound a i).from_state w h
  perform-Sound (Call.mail_expunge a) w h = (mail_expunge-Sound a).from_state w h
  perform-Sound (Call.mail_count a) w h = (mail_count-Sound a).from_state w h
  perform-Sound (Call.mail_move a i b) w h = (mail_move-Sound a i b).from_state w h
  perform-Sound Call.queue_list_destinations w h = (queue_list_destinations-Sound e).from_state w h
  perform-Sound (Call.queue_mail_ids_for_destination a) w h =
      (queue_mail_ids_for_destination-Sound e a).from_state w h
  perform-Sound (Call.queue_insert_destination_for_id a i from rcpt) w h =
      (queue_insert_destination_for_id-Sound a i from rcpt).from_state w h
  perform-Sound (Call.queue_delete_destination_for_id a i) w h =
      (queue_delete_destination_for_id-Sound a i).from_state w h
  perform-Sound (Call.queue_select_is_message_pending_send a i) w h =
      (queue_select_is_message_pending_send-Sound a i).from_state w h
  perform-Sound (Call.wait seconds) w h = h

  -- From tables that meet the constraints of their schemas, any calls of the storage interface, at
  -- any times and whichever calls of the engine fail, lead to tables that meet them: primary keys
  -- are unique, each mail is in a mailbox that exists, each queue entry belongs to a mail that
  -- exists, and ids begin at 1.
  pub perform_all-Sound :
      (calls : List Call) (w : World) → Sound w → Sound (perform_all e compare calls w)
  unfolding perform_all
  perform_all-Sound [] w h = h
  perform_all-Sound (c ∷ cs) w h =
      perform_all-Sound cs (perform e compare c w) (perform-Sound c w h)
