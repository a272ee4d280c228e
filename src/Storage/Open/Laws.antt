-- ===== src/Storage/Open/Laws.antt =====
-- What opening the database gives.
use yggmail.Base.{◌≡◌, refl, ap, List, [], ◌∷◌, Option, none, some, String, ◌⊎◌, inl, inr}
use yggmail.Exec.{ok, for_each, ◌>>=◌}
use yggmail.Storage.Open.{
  Relation, config, mailboxes, mails, inboxes, queue, schema, or_new, columns_of, config_get,
  config_set, mailboxes_list, mailboxes_list_subscribed, mailboxes_select, mailboxes_create,
  mailboxes_delete, mailboxes_rename, mailboxes_subscribe, select_mails_stmt, select_mail_stmt,
  select_mail_next_id_stmt, select_id_for_seq_stmt, search_mail_stmt, insert_mail_stmt,
  update_mail_flags_stmt, delete_mail_stmt, expunge_mail_stmt, select_mail_count_stmt,
  select_mail_unseen_stmt, move_mail_stmt, queue_select_destinations_stmt,
  queue_select_ids_for_destination_stmt, queue_insert_destination_for_id_stmt,
  delete_destination_for_id_stmt, queue_select_is_message_pending_send_stmt, Catalogue,
  with_relation, create, exec_schema, prepare, TableConfig, TableMailboxes, TableMails, TableQueue,
  Sqlite3Storage, new_table_config, new_table_mailboxes, new_table_mails, new_table_queue,
  new_sqlite3_storage,
}

abbrev bound_config : TableConfig
bound_config = record { get = config_get; set = config_set }

abbrev bound_mailboxes : TableMailboxes
bound_mailboxes = record {
  list_mailboxes = mailboxes_list;
  list_mailboxes_subscribed = mailboxes_list_subscribed;
  select_mailboxes = mailboxes_select;
  create_mailbox = mailboxes_create;
  delete_mailbox = mailboxes_delete;
  rename_mailbox = mailboxes_rename;
  subscribe_mailbox = mailboxes_subscribe;
}

abbrev bound_mails : TableMails
bound_mails = record {
  select_mails = select_mails_stmt;
  select_mail = select_mail_stmt;
  select_mail_next_id = select_mail_next_id_stmt;
  select_id_for_seq = select_id_for_seq_stmt;
  search_mail = search_mail_stmt;
  create_mail = insert_mail_stmt;
  update_mail_flags = update_mail_flags_stmt;
  delete_mail = delete_mail_stmt;
  expunge_mail = expunge_mail_stmt;
  count_mails = select_mail_count_stmt;
  count_unseen_mails = select_mail_unseen_stmt;
  move_mail = move_mail_stmt;
}

abbrev bound_queue : TableQueue
bound_queue = record {
  queue_select_destinations = queue_select_destinations_stmt;
  queue_select_ids_for_destination = queue_select_ids_for_destination_stmt;
  queue_insert_destination_for_id = queue_insert_destination_for_id_stmt;
  queue_delete_id_for_destination = delete_destination_for_id_stmt;
  queue_select_is_message_pending_send = queue_select_is_message_pending_send_stmt;
}

-- Every statement stands where the methods of its table look for it.
abbrev pub bound : Sqlite3Storage
bound = record {
  table_config = bound_config;
  table_mailboxes = bound_mailboxes;
  table_mails = bound_mails;
  table_queue = bound_queue;
}

abbrev calm : (Relation → Option (List String)) → Catalogue
calm rel = record { relations = rel; faults = [] }

-- The relation is not there, or has the columns of its schema.
abbrev pub FitsAt : (Relation → Option (List String)) → Relation → Type 0
FitsAt rel r = (rel r ≡ none) ⊎ (rel r ≡ some (schema r))

module _ (rel : Relation → Option (List String)) where
  new_table_config_healthy :
      FitsAt rel config
      → new_table_config (calm rel) ≡ (ok bound_config, with_relation config (calm rel))
  unfolding new_table_config exec_schema for_each create prepare ◌>>=◌
  new_table_config_healthy (inl q) = rw q refl
  new_table_config_healthy (inr q) = rw q refl

  new_table_mailboxes_healthy :
      FitsAt rel mailboxes
      → new_table_mailboxes (calm rel) ≡ (ok bound_mailboxes, with_relation mailboxes (calm rel))
  unfolding new_table_mailboxes exec_schema for_each create prepare ◌>>=◌
  new_table_mailboxes_healthy (inl q) = rw q refl
  new_table_mailboxes_healthy (inr q) = rw q refl

  new_table_mails_healthy :
      FitsAt rel mails
      → new_table_mails (calm rel)
        ≡ (ok bound_mails, with_relation inboxes (with_relation mails (calm rel)))
  unfolding new_table_mails exec_schema for_each create prepare ◌>>=◌
  new_table_mails_healthy (inl q) = rw q refl
  new_table_mails_healthy (inr q) = rw q refl

  new_table_queue_healthy :
      FitsAt rel queue
      → new_table_queue (calm rel) ≡ (ok bound_queue, with_relation queue (calm rel))
  unfolding new_table_queue exec_schema for_each create prepare ◌>>=◌
  new_table_queue_healthy (inl q) = rw q refl
  new_table_queue_healthy (inr q) = rw q refl

or_new-FitsAt :
    (rel : Relation → Option (List String)) (r : Relation)
    → FitsAt rel r
    → or_new (rel r) (schema r) ≡ schema r
or_new-FitsAt rel r (inl q) = rw q refl
or_new-FitsAt rel r (inr q) = rw q refl

-- The file when the four constructors are done.
abbrev complete : (Relation → Option (List String)) → Catalogue
complete rel = with_relation queue (
    with_relation inboxes
      (with_relation mails (with_relation mailboxes (with_relation config (calm rel)))))

complete-columns :
    (rel : Relation → Option (List String)) (r : Relation)
    → ((q : Relation) → FitsAt rel q)
    → columns_of r (complete rel) ≡ some (schema r)
complete-columns rel config fits = ap some (or_new-FitsAt rel config (fits config))
complete-columns rel mailboxes fits = ap some (or_new-FitsAt rel mailboxes (fits mailboxes))
complete-columns rel mails fits = ap some (or_new-FitsAt rel mails (fits mails))
complete-columns rel inboxes fits =
    ap (λ c. some ("seq" ∷ c)) (or_new-FitsAt rel mails (fits mails))
complete-columns rel queue fits = ap some (or_new-FitsAt rel queue (fits queue))

-- Where no call of the engine fails and each table that is already there has the columns of its
-- schema, opening a database, be it empty, gives the storage with every statement in its place, and
-- the four tables and the view are then there with their columns.
pub open_healthy :
    (rel : Relation → Option (List String))
    → ((q : Relation) → FitsAt rel q)
    → let p = new_sqlite3_storage (ok tt) (record { relations = rel; faults = [] }) in
      (p.0 ≡ ok bound) × ((r : Relation) → columns_of r p.1 ≡ some (schema r))
unfolding new_sqlite3_storage ◌>>=◌
open_healthy rel fits = rw (new_table_config_healthy rel (fits config)) (
    rw (new_table_mailboxes_healthy _ (fits mailboxes)) (
      rw (new_table_mails_healthy _ (fits mails))
        (rw (new_table_queue_healthy _ (fits queue)) (refl, λ r. complete-columns rel r fits))))
