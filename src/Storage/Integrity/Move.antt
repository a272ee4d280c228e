-- ===== src/Storage/Integrity/Move.antt =====
-- `moveMailStmt` keeps the tables sound: a mail that moves, with its queue entries, takes a free key.
use yggmail.Base.{
  String, ◌≡◌, Bool, true, false, not, not_true, ◌&&◌, arith, str_eq, eq_iff, any, All, Bool-cases,
  inl, inr, any_mono, All-mono, All-of_any-false, All-update_if, Unique-update_if, any-update_if,
  if◌then◌else◌, ℤ, pos, negsuc, int_eq,
}
use yggmail.Storage.Types.{Mail, QueueRow, Db, same_mail, same_entry, is_mailbox, is_mail, owns}
use yggmail.Storage.Mails.{move_rows, move_mail_stmt}
use yggmail.Storage.Integrity.{IsSound}

abbrev names : String → ℤ → QueueRow → Bool
names mailbox id q = str_eq mailbox q.mailbox && int_eq id q.id

module _ (to from : String) (id : ℤ) where
  abbrev moved_mail : Mail → Mail
  moved_mail m = if is_mail from id m then record m { mailbox = to } else m

  abbrev moved_entry : QueueRow → QueueRow
  moved_entry q = if names from id q then record q { mailbox = to } else q

mails_apart :
    (to from : String) (id : ℤ) (x y : Mail)
    → is_mail to id x ≡ false
    → is_mail to id y ≡ false
    → same_mail (moved_mail to from id x) (moved_mail to from id y) ≡ true
    → same_mail x y ≡ true
unfolding same_mail is_mail
mails_apart to from (negsuc k) x y px py h = ground arith
mails_apart to from (pos k) x y px py h = ground (
  arith,
  eq_iff from x.mailbox,
  eq_iff from y.mailbox,
  eq_iff to x.mailbox,
  eq_iff to y.mailbox,
  eq_iff x.mailbox to,
  eq_iff x.mailbox y.mailbox,
)

entries_apart :
    (to from : String) (id : ℤ) (x y : QueueRow)
    → names to id x ≡ false
    → names to id y ≡ false
    → same_entry (moved_entry to from id x) (moved_entry to from id y) ≡ true
    → same_entry x y ≡ true
unfolding same_entry
entries_apart to from (negsuc k) x y px py h = ground arith
entries_apart to from (pos k) x y px py h = ground (
  arith,
  eq_iff from x.mailbox,
  eq_iff from y.mailbox,
  eq_iff to x.mailbox,
  eq_iff to y.mailbox,
  eq_iff x.mailbox to,
  eq_iff x.mailbox y.mailbox,
)

mail_follows :
    (to from : String) (id : ℤ) (q : QueueRow) (m : Mail)
    → owns m q ≡ true
    → owns (moved_mail to from id m) (moved_entry to from id q) ≡ true
unfolding owns is_mail
mail_follows to from (negsuc k) q m h = ground arith
mail_follows to from (pos k) q m h =
    ground (
      arith,
      eq_iff m.mailbox q.mailbox,
      eq_iff from m.mailbox,
      eq_iff from q.mailbox,
      eq_iff to to,
    )

owner_named :
    (to : String) (id : ℤ) (q : QueueRow) (m : Mail)
    → names to id q ≡ true
    → owns m q ≡ true
    → is_mail to id m ≡ true
unfolding owns is_mail
owner_named to (negsuc k) q m h e = ground arith
owner_named to (pos k) q m h e =
    ground (arith, eq_iff m.mailbox q.mailbox, eq_iff to m.mailbox, eq_iff to q.mailbox)

module _ (to from : String) (id : ℤ) (db : Db) (s : IsSound db)
    (free : any (is_mail to id) db.mails ≡ false)
    (home : any (is_mailbox to) db.mailboxes ≡ true) where
  entries_elsewhere : All (λ q. names to id q ≡ false) db.queue
  entries_elsewhere = All-mono _ _ db.queue elsewhere s.entry_refs
    where
      elsewhere : (q : QueueRow) → any (λ m. owns m q) db.mails ≡ true → names to id q ≡ false
      elsewhere q h = not_true _ λ e.
          cc (
            free,
            any_mono (λ m. owns m q) (is_mail to id) db.mails (λ m. owner_named to id q m e) h,
          )

  mail_home :
      (m : Mail)
      → any (is_mailbox m.mailbox) db.mailboxes ≡ true
      → any (is_mailbox (moved_mail to from id m).mailbox) db.mailboxes ≡ true
  mail_home m h = elim (Bool-cases (is_mail from id m)) [ inl e ↦ rw e home | inr e ↦ rw e h ]

  move_rows-IsSound : IsSound (move_rows to from id db)
  unfolding move_rows
  move_rows-IsSound = record {
    config_keys = s.config_keys;
    mailbox_keys = s.mailbox_keys;
    mail_keys =
        Unique-update_if _ same_mail (is_mail from id) _ db.mails (mails_apart to from id)
          (All-of_any-false _ db.mails free) s.mail_keys;
    entry_keys =
        Unique-update_if _ same_entry (names from id) (λ q. record q { mailbox = to }) db.queue
          (entries_apart to from id) entries_elsewhere s.entry_keys;
    mail_refs = All-update_if _ _ (is_mail from id) _ db.mails mail_home s.mail_refs;
    entry_refs =
        All-update_if _ _ (names from id) _ db.queue
          (λ q h. any-update_if (is_mail from id) _ _ _ db.mails (mail_follows to from id q) h)
          s.entry_refs;
    ids = All-update_if _ _ (is_mail from id) _ db.mails (λ m h. ground arith) s.ids;
  }

pub move_mail_stmt-IsSound :
    (to from : String) (id : ℤ) (db : Db) → IsSound db → IsSound (move_mail_stmt to from id db).1
unfolding move_mail_stmt
move_mail_stmt-IsSound to from id db s =
    elim (Bool-cases (any (is_mail from id) db.mails && not (str_eq to from))) [
      | inr stays ↦ rw stays s
      | inl moves ↦ elim (Bool-cases (any (is_mail to id) db.mails)) [
        | inl taken ↦ rw (moves, taken) s
        | inr free ↦ elim (Bool-cases (any (is_mailbox to) db.mailboxes)) [
          | inl home ↦ rw (moves, free, home) (move_rows-IsSound to from id db s free home)
          | inr homeless ↦ rw (moves, free, homeless) s
        ]
      ]
    ]
