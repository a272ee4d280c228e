-- ===== src/Storage/Open.antt =====
-- How the database is opened: `NewSQLite3StorageStorage` of internal/storage/sqlite3/sqlite3.go and
-- the constructors of the four tables, `NewTable…` of table_*.go. The fields `db` and `writer`, the
-- same in every table, are left out.
pub mod Laws
mod Tests
use yggmail.Base.{
  Bool, true, false, List, [], ◌∷◌, if◌then◌else◌, Option, none, some, String, str_eq, any, ◌&&◌,
}
use yggmail.Exec.{
  Result, ok, err, engine_fault, not_found, Exec, Done, pure, fail, lift, for_each, ◌>>=◌, ◌>>◌,
}

-- The tables, and the view `inboxes`.
pub data Relation : Type 0 where
  config mailboxes mails inboxes queue : Relation

-- The texts of statements, by their constants.
pub data Statement : Type 0 where
  config_get config_set : Statement
  mailboxes_list mailboxes_list_subscribed mailboxes_select mailboxes_create mailboxes_delete
        mailboxes_rename mailboxes_subscribe :
      Statement
  select_mails_stmt select_mail_stmt select_mail_next_id_stmt select_id_for_seq_stmt
        search_mail_stmt insert_mail_stmt update_mail_flags_stmt delete_mail_stmt expunge_mail_stmt
        select_mail_count_stmt select_mail_unseen_stmt move_mail_stmt :
      Statement
  queue_select_destinations_stmt queue_select_ids_for_destination_stmt
        queue_insert_destination_for_id_stmt delete_destination_for_id_stmt
        queue_select_is_message_pending_send_stmt :
      Statement

-- The relation that a statement names.
abbrev pub names : Statement → Relation
names config_get = config
names config_set = config
names mailboxes_list = mailboxes
names mailboxes_list_subscribed = mailboxes
names mailboxes_select = mailboxes
names mailboxes_create = mailboxes
names mailboxes_delete = mailboxes
names mailboxes_rename = mailboxes
names mailboxes_subscribe = mailboxes
names select_mails_stmt = inboxes
names select_mail_stmt = inboxes
names select_mail_next_id_stmt = mails
names select_id_for_seq_stmt = inboxes
names search_mail_stmt = mails
names insert_mail_stmt = mails
names update_mail_flags_stmt = mails
names delete_mail_stmt = mails
names expunge_mail_stmt = mails
names select_mail_count_stmt = mails
names select_mail_unseen_stmt = mails
names move_mail_stmt = mails
names queue_select_destinations_stmt = queue
names queue_select_ids_for_destination_stmt = queue
names queue_insert_destination_for_id_stmt = queue
names delete_destination_for_id_stmt = queue
names queue_select_is_message_pending_send_stmt = queue

-- The columns that the schemas give the tables. The view has those of `mails` and a number.
abbrev pub schema : Relation → List String
schema config = "key" ∷ "value" ∷ []
schema mailboxes = "mailbox" ∷ "subscribed" ∷ []
schema mails =
    "mailbox" ∷ "id" ∷ "mail" ∷ "datetime" ∷ "seen" ∷ "answered" ∷ "flagged" ∷ "deleted" ∷ []
schema inboxes =
    "seq" ∷ "mailbox" ∷ "id" ∷ "mail" ∷ "datetime" ∷ "seen" ∷ "answered" ∷ "flagged" ∷ "deleted"
    ∷ []
schema queue = "destination" ∷ "mailbox" ∷ "id" ∷ "mail" ∷ "rcpt" ∷ []

-- The columns that a statement names.
abbrev pub uses : Statement → List String
uses config_get = "value" ∷ "key" ∷ []
uses config_set = "key" ∷ "value" ∷ []
uses mailboxes_list = "mailbox" ∷ []
uses mailboxes_list_subscribed = "mailbox" ∷ "subscribed" ∷ []
uses mailboxes_select = "mailbox" ∷ []
uses mailboxes_create = "mailbox" ∷ []
uses mailboxes_delete = "mailbox" ∷ []
uses mailboxes_rename = "mailbox" ∷ []
uses mailboxes_subscribe = "subscribed" ∷ "mailbox" ∷ []
uses select_mails_stmt = "mailbox" ∷ "id" ∷ []
uses select_mail_stmt =
    "seq" ∷ "id" ∷ "mail" ∷ "datetime" ∷ "seen" ∷ "answered" ∷ "flagged" ∷ "deleted" ∷ "mailbox"
    ∷ []
uses select_mail_next_id_stmt = "id" ∷ "mailbox" ∷ []
uses select_id_for_seq_stmt = "id" ∷ "mailbox" ∷ "seq" ∷ []
uses search_mail_stmt = "id" ∷ "mailbox" ∷ []
uses insert_mail_stmt = "mailbox" ∷ "id" ∷ "mail" ∷ "datetime" ∷ []
uses update_mail_flags_stmt = "seen" ∷ "answered" ∷ "flagged" ∷ "deleted" ∷ "mailbox" ∷ "id" ∷ []
uses delete_mail_stmt = "deleted" ∷ "mailbox" ∷ "id" ∷ []
uses expunge_mail_stmt = "mailbox" ∷ "deleted" ∷ []
uses select_mail_count_stmt = "mailbox" ∷ []
uses select_mail_unseen_stmt = "mailbox" ∷ "seen" ∷ []
uses move_mail_stmt = "mailbox" ∷ "id" ∷ []
uses queue_select_destinations_stmt = "destination" ∷ []
uses queue_select_ids_for_destination_stmt = "id" ∷ "mail" ∷ "rcpt" ∷ "destination" ∷ []
uses queue_insert_destination_for_id_stmt = "destination" ∷ "mailbox" ∷ "id" ∷ "mail" ∷ "rcpt" ∷ []
uses delete_destination_for_id_stmt = "destination" ∷ "mailbox" ∷ "id" ∷ []
uses queue_select_is_message_pending_send_stmt = "mailbox" ∷ "id" ∷ []

-- The relations in the file with their columns, and which of the next calls into the engine fail. Of
-- the view only whether it is there is read here.
pub record Catalogue : Type 0 where
  pub relations : Relation → Option (List String)
  pub faults : List Bool

abbrev on_catalogue : {A : Type 0} → List Bool → (Catalogue → A) → (Catalogue → A) → Catalogue → A
on_catalogue [] works fails d = works d
on_catalogue (b ∷ rest) works fails d =
    let d' = record d { faults = rest } in if b then fails d' else works d'

abbrev pub same : Relation → Relation → Bool
same config config = true
same mailboxes mailboxes = true
same mails mails = true
same inboxes inboxes = true
same queue queue = true
same _ _ = false

-- What is there already stays as it is.
abbrev pub or_new : Option (List String) → List String → List String
or_new none columns = columns
or_new (some old) columns = old

abbrev pub with_relation : Relation → Catalogue → Catalogue
with_relation r d = record d {
  relations = λ q. if same q r then some (or_new (d.relations r) (schema r)) else d.relations q;
}

-- `CREATE … IF NOT EXISTS`
unfoldable pub create : Relation → Exec Catalogue Done
create r d = on_catalogue d.faults (λ v. (ok tt, with_relation r v)) (λ v. (err engine_fault, v)) d

-- `db.Exec` of a schema runs its statements one after another.
unfoldable pub exec_schema : List Relation → Exec Catalogue Done
exec_schema relations = for_each relations create

-- The view is a number and all columns of the mails; it is of no use without them.
abbrev numbered : Option (List String) → Option (List String) → Option (List String)
numbered (some view) (some columns) = some ("seq" ∷ columns)
numbered _ _ = none

abbrev pub columns_of : Relation → Catalogue → Option (List String)
columns_of inboxes d = numbered (d.relations inboxes) (d.relations mails)
columns_of r d = d.relations r

abbrev pub covers : List String → List String → Bool
covers columns [] = true
covers columns (c ∷ used) = any (str_eq c) columns && covers columns used

abbrev pub can_bind : Statement → Option (List String) → Bool
can_bind sql none = false
can_bind sql (some columns) = covers columns (uses sql)

-- `db.Prepare`, which refuses a statement on a relation that is not there or does not have all of the
-- columns that the statement names.
unfoldable pub prepare : Statement → Exec Catalogue Statement
prepare sql d =
    on_catalogue d.faults
      (λ v. if can_bind sql (columns_of (names sql) v) then (ok sql, v) else (err not_found, v))
      (λ v. (err engine_fault, v)) d

pub record TableConfig : Type 0 where
  pub get : Statement
  pub set : Statement

unfoldable pub new_table_config : Exec Catalogue TableConfig
new_table_config = do
  exec_schema (config ∷ [])
  get ← prepare config_get
  set ← prepare config_set
  pure (record { get = get; set = set })

pub record TableMailboxes : Type 0 where
  pub list_mailboxes : Statement
  pub list_mailboxes_subscribed : Statement
  pub select_mailboxes : Statement
  pub create_mailbox : Statement
  pub delete_mailbox : Statement
  pub rename_mailbox : Statement
  pub subscribe_mailbox : Statement

unfoldable pub new_table_mailboxes : Exec Catalogue TableMailboxes
new_table_mailboxes = do
  exec_schema (mailboxes ∷ [])
  list_mailboxes ← prepare mailboxes_list
  list_mailboxes_subscribed ← prepare mailboxes_list_subscribed
  select_mailboxes ← prepare mailboxes_select
  create_mailbox ← prepare mailboxes_create
  delete_mailbox ← prepare mailboxes_delete
  rename_mailbox ← prepare mailboxes_rename
  subscribe_mailbox ← prepare mailboxes_subscribe
  pure (record {
    list_mailboxes = list_mailboxes;
    list_mailboxes_subscribed = list_mailboxes_subscribed;
    select_mailboxes = select_mailboxes;
    create_mailbox = create_mailbox;
    delete_mailbox = delete_mailbox;
    rename_mailbox = rename_mailbox;
    subscribe_mailbox = subscribe_mailbox;
  })

pub record TableMails : Type 0 where
  pub select_mails : Statement
  pub select_mail : Statement
  pub select_mail_next_id : Statement
  pub select_id_for_seq : Statement
  pub search_mail : Statement
  pub create_mail : Statement
  pub update_mail_flags : Statement
  pub delete_mail : Statement
  pub expunge_mail : Statement
  pub count_mails : Statement
  pub count_unseen_mails : Statement
  pub move_mail : Statement

unfoldable pub new_table_mails : Exec Catalogue TableMails
new_table_mails = do
  exec_schema (mails ∷ inboxes ∷ [])
  select_mails ← prepare select_mails_stmt
  select_mail ← prepare select_mail_stmt
  select_mail_next_id ← prepare select_mail_next_id_stmt
  select_id_for_seq ← prepare select_id_for_seq_stmt
  search_mail ← prepare search_mail_stmt
  create_mail ← prepare insert_mail_stmt
  update_mail_flags ← prepare update_mail_flags_stmt
  delete_mail ← prepare delete_mail_stmt
  expunge_mail ← prepare expunge_mail_stmt
  count_mails ← prepare select_mail_count_stmt
  count_unseen_mails ← prepare select_mail_unseen_stmt
  move_mail ← prepare move_mail_stmt
  pure (record {
    select_mails = select_mails;
    select_mail = select_mail;
    select_mail_next_id = select_mail_next_id;
    select_id_for_seq = select_id_for_seq;
    search_mail = search_mail;
    create_mail = create_mail;
    update_mail_flags = update_mail_flags;
    delete_mail = delete_mail;
    expunge_mail = expunge_mail;
    count_mails = count_mails;
    count_unseen_mails = count_unseen_mails;
    move_mail = move_mail;
  })

pub record TableQueue : Type 0 where
  pub queue_select_destinations : Statement
  pub queue_select_ids_for_destination : Statement
  pub queue_insert_destination_for_id : Statement
  pub queue_delete_id_for_destination : Statement
  pub queue_select_is_message_pending_send : Statement

unfoldable pub new_table_queue : Exec Catalogue TableQueue
new_table_queue = do
  exec_schema (queue ∷ [])
  queue_select_destinations ← prepare queue_select_destinations_stmt
  queue_select_ids_for_destination ← prepare queue_select_ids_for_destination_stmt
  queue_insert_destination_for_id ← prepare queue_insert_destination_for_id_stmt
  queue_delete_id_for_destination ← prepare delete_destination_for_id_stmt
  queue_select_is_message_pending_send ← prepare queue_select_is_message_pending_send_stmt
  pure (record {
    queue_select_destinations = queue_select_destinations;
    queue_select_ids_for_destination = queue_select_ids_for_destination;
    queue_insert_destination_for_id = queue_insert_destination_for_id;
    queue_delete_id_for_destination = queue_delete_id_for_destination;
    queue_select_is_message_pending_send = queue_select_is_message_pending_send;
  })

pub record Sqlite3Storage : Type 0 where
  pub table_config : TableConfig
  pub table_mailboxes : TableMailboxes
  pub table_mails : TableMails
  pub table_queue : TableQueue

-- `opened` is the result of `sql.Open`.
unfoldable pub new_sqlite3_storage : Result Done → Exec Catalogue Sqlite3Storage
new_sqlite3_storage opened = do
  lift opened
  table_config ← new_table_config
  table_mailboxes ← new_table_mailboxes
  table_mails ← new_table_mails
  table_queue ← new_table_queue
  pure (record {
    table_config = table_config;
    table_mailboxes = table_mailboxes;
    table_mails = table_mails;
    table_queue = table_queue;
  })
