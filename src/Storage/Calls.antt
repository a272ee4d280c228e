-- ===== src/Storage/Calls.antt =====
-- internal/storage/storage.go: the calls of the `Storage` interface, as `SQLite3Storage` takes them.
use yggmail.Base.{ℕ, ◌+◌, String, Bool, List, [], ◌∷◌, ℤ}
use yggmail.Exec.{Exec}
use yggmail.Storage.Types.{World}
use yggmail.Storage.Engine.{Engine}
use yggmail.Storage.Config
use yggmail.Storage.Mailboxes
use yggmail.Storage.Mails
use yggmail.Storage.Queue

pub data Call : Type 0 where
  config_get config_set_password config_try_password : String → Call
  config_set : String → String → Call
  mailbox_select mail_next_id mail_unseen mailbox_create mailbox_delete : String → Call
  mail_id_for_seq : String → ℕ → Call
  mailbox_list : Bool → Call
  mailbox_rename : String → String → Call
  mailbox_subscribe : String → Bool → Call
  mail_create : String → List ℕ → Call
  mail_select mail_delete : String → ℤ → Call
  mail_search mail_expunge mail_count : String → Call
  mail_update_flags : String → ℤ → Bool → Bool → Bool → Bool → Call
  mail_move : String → ℤ → String → Call
  queue_list_destinations : Call
  queue_mail_ids_for_destination : String → Call
  queue_insert_destination_for_id : String → ℤ → String → String → Call
  queue_delete_destination_for_id queue_select_is_message_pending_send : String → ℤ → Call
  -- Time passes between two calls.
  wait : ℕ → Call

after : {A : Type 0} → Exec World A → World → World
after m w = (m w).1

-- The world after a call; its results are the subject of other modules.
module _ (e : Engine) (compare : String → String → Bool) where
  unfoldable pub perform : Call → World → World
  unfolding after
  perform (config_get key) = after (Config.config_get key)
  perform (config_set key value) = after (Config.config_set key value)
  perform (config_set_password hash) = after (Config.config_set_password hash)
  perform (config_try_password password) = after (Config.config_try_password compare password)
  perform (mailbox_select name) = after (Mailboxes.mailbox_select name)
  perform (mailbox_list only_subscribed) = after (Mailboxes.mailbox_list e only_subscribed)
  perform (mailbox_create name) = after (Mailboxes.mailbox_create name)
  perform (mailbox_rename old new) = after (Mailboxes.mailbox_rename old new)
  perform (mailbox_delete name) = after (Mailboxes.mailbox_delete name)
  perform (mailbox_subscribe name subscribed) = after (Mailboxes.mailbox_subscribe name subscribed)
  perform (mail_create mailbox bytes) = after (Mails.mail_create mailbox bytes)
  perform (mail_select mailbox id) = after (Mails.mail_select e mailbox id)
  perform (mail_search mailbox) = after (Mails.mail_search mailbox)
  perform (mail_next_id mailbox) = after (Mails.mail_next_id mailbox)
  perform (mail_id_for_seq mailbox seq) = after (Mails.mail_id_for_seq e mailbox seq)
  perform (mail_unseen mailbox) = after (Mails.mail_unseen mailbox)
  perform (mail_update_flags mailbox id s a f d) =
      after (Mails.mail_update_flags mailbox id s a f d)
  perform (mail_delete mailbox id) = after (Mails.mail_delete mailbox id)
  perform (mail_expunge mailbox) = after (Mails.mail_expunge mailbox)
  perform (mail_count mailbox) = after (Mails.mail_count mailbox)
  perform (mail_move mailbox id destination) = after (Mails.mail_move mailbox id destination)
  perform queue_list_destinations = after (Queue.queue_list_destinations e)
  perform (queue_mail_ids_for_destination destination) =
      after (Queue.queue_mail_ids_for_destination e destination)
  perform (queue_insert_destination_for_id destination id from rcpt) =
      after (Queue.queue_insert_destination_for_id destination id from rcpt)
  perform (queue_delete_destination_for_id destination id) =
      after (Queue.queue_delete_destination_for_id destination id)
  perform (queue_select_is_message_pending_send mailbox id) =
      after (Queue.queue_select_is_message_pending_send mailbox id)
  perform (wait seconds) = λ w. record w { clock = w.clock + seconds }

  unfoldable pub perform_all : List Call → World → World
  unfolding perform
  perform_all [] w = w
  perform_all (c ∷ cs) w = perform_all cs (perform c w)
