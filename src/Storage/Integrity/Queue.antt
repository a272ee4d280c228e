-- ===== src/Storage/Integrity/Queue.antt =====
-- The statements of table_queue.go and table_config.go keep the tables sound.
use yggmail.Base.{
  String, ◌≡◌, true, arith, any, Bool-cases, inl, inr, any_mono, any_mono_false, All-append,
  All-filter, Unique-filter, Unique-append_one, any-filter_gone, eq_iff, str_eq, ℤ, pos, negsuc,
}
use yggmail.Storage.Types.{Mail, QueueRow, ConfigRow, Db, same_entry, same_key, is_mail, owns}
use yggmail.Storage.Queue.{is_entry, queue_insert_stmt, delete_destination_stmt}
use yggmail.Storage.Config.{config_set_stmt}
use yggmail.Storage.Integrity.{IsSound}

same_entry→is_entry :
    (q row : QueueRow)
    → same_entry q row ≡ true
    → is_entry row.destination row.mailbox (pos row.id) q ≡ true
unfolding same_entry is_entry
same_entry→is_entry q row h = ground (
  arith,
  eq_iff q.destination row.destination,
  eq_iff row.destination q.destination,
  eq_iff q.mailbox row.mailbox,
  eq_iff row.mailbox q.mailbox,
)

is_mail→owns : (q : QueueRow) (m : Mail) → is_mail q.mailbox (pos q.id) m ≡ true → owns m q ≡ true
unfolding is_mail owns
is_mail→owns q m h = ground (arith, eq_iff q.mailbox m.mailbox, eq_iff m.mailbox q.mailbox)

same_key_sym : (a b : ConfigRow) → same_key a b ≡ true → str_eq b.key a.key ≡ true
unfolding same_key
same_key_sym a b h = ground (arith, eq_iff a.key b.key, eq_iff b.key a.key)

pub queue_insert_stmt-IsSound :
    (destination mailbox : String) (id : ℤ) (from rcpt : String) (db : Db)
    → IsSound db
    → IsSound (queue_insert_stmt destination mailbox id from rcpt db).1
unfolding queue_insert_stmt
queue_insert_stmt-IsSound destination mailbox (negsuc k) from rcpt db s = s
queue_insert_stmt-IsSound destination mailbox (pos id) from rcpt db s =
    elim (Bool-cases (any (is_entry destination mailbox (pos id)) db.queue)) [
      | inl taken ↦ rw taken s
      | inr free ↦ elim (Bool-cases (any (is_mail mailbox (pos id)) db.mails)) [
        | inr dangling ↦ rw (free, dangling) s
        | inl known ↦
            rw (free, known)
              (record {
                config_keys = s.config_keys;
                mailbox_keys = s.mailbox_keys;
                mail_keys = s.mail_keys;
                entry_keys = Unique-append_one same_entry db.queue _ s.entry_keys (
                    any_mono_false (λ q. same_entry q row) (is_entry destination mailbox (pos id))
                      db.queue (λ q. same_entry→is_entry q row) free);
                mail_refs = s.mail_refs;
                entry_refs = All-append _ db.queue _ s.entry_refs (
                  any_mono (is_mail mailbox (pos id)) (λ m. owns m row) db.mails (is_mail→owns row)
                      known,
                  tt,
                );
                ids = s.ids;
              })
      ]
    ]
  where
    row : QueueRow
    row = record { destination = destination; mailbox = mailbox; id = id; mail = from; rcpt = rcpt }

pub delete_destination_stmt-IsSound :
    (destination mailbox : String) (id : ℤ) (db : Db)
    → IsSound db
    → IsSound (delete_destination_stmt destination mailbox id db).1
unfolding delete_destination_stmt
delete_destination_stmt-IsSound destination mailbox id db s = record {
  config_keys = s.config_keys;
  mailbox_keys = s.mailbox_keys;
  mail_keys = s.mail_keys;
  entry_keys = Unique-filter same_entry _ db.queue s.entry_keys;
  mail_refs = s.mail_refs;
  entry_refs = All-filter _ _ _ db.queue (λ q _ h. h) s.entry_refs;
  ids = s.ids;
}

pub config_set_stmt-IsSound :
    (key value : String) (db : Db) → IsSound db → IsSound (config_set_stmt key value db).1
unfolding config_set_stmt
config_set_stmt-IsSound key value db s = record {
  config_keys = Unique-append_one same_key _ _ (Unique-filter same_key _ db.config s.config_keys) (
      any_mono_false (λ r. same_key r row) (λ r. str_eq key r.key) _ (λ r. same_key_sym r row)
        (any-filter_gone (λ r. str_eq key r.key) db.config));
  mailbox_keys = s.mailbox_keys;
  mail_keys = s.mail_keys;
  entry_keys = s.entry_keys;
  mail_refs = s.mail_refs;
  entry_refs = s.entry_refs;
  ids = s.ids;
}
  where
    row : ConfigRow
    row = record { key = key; value = value }
