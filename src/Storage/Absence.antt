-- ===== src/Storage/Absence.antt =====
-- Where a mailbox has no mail of an id, the queue has no entry for it, and no mail has the next id.
use yggmail.Base.{
  ℕ, String, ◌≡◌, false, any, arith, any_mono, any-false_of_All, All, All-mono, not_true, eq_iff,
  List, pos,
}
use yggmail.Storage.Types.{Mail, Db, is_mail, owns}
use yggmail.Storage.Keys.{is_mail_iff, in_mailbox_iff}
use yggmail.Storage.Mails.{next_id}
use yggmail.Storage.Queue.{is_entry}
use yggmail.Storage.Integrity.{IsSound}
use yggmail.Storage.Integrity.Mails.{id-lt-next_id}

pub no_mail_no_entry :
    (d name : String) (id : ℕ) (db : Db)
    → IsSound db
    → any (is_mail name (pos id)) db.mails ≡ false
    → any (is_entry d name (pos id)) db.queue ≡ false
unfolding is_entry owns is_mail
no_mail_no_entry d name id db s none_here = any-false_of_All _ db.queue (
    All-mono _ _ db.queue
      (λ r owned. not_true _ λ found. cc (
        none_here,
        any_mono _ (is_mail name (pos id)) db.mails
            (λ m o.
              ground
                (arith, eq_iff m.mailbox r.mailbox, eq_iff name r.mailbox, eq_iff name m.mailbox))
            owned,
      ))
      s.entry_refs)

pub fresh :
    (name : String) (ms : List Mail) → All (λ m. is_mail name (pos (next_id name ms)) m ≡ false) ms
fresh name ms =
    All-mono _ _ ms
      (λ m below. not_true _ λ t.
        let (a, b) = (is_mail_iff name (next_id name ms) m).0 t in
        let lt = below ((in_mailbox_iff name m).1 a) in omega (arith, b, lt))
      (id-lt-next_id name ms)
