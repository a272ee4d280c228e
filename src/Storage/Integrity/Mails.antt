-- ===== src/Storage/Integrity/Mails.antt =====
-- The statements of table_mails.go keep the tables sound.
use yggmail.Base.{
  ℕ, ◌≤◌, ◌<◌, String, ◌≡◌, refl, Bool, true, false, List, [], ◌∷◌, Option, none, some, arith,
  eq_iff, any, All, update_if, Bool-cases, inl, inr, any-false_of_All, any-append, All-mono,
  All-append, All-of, All-update_if, Unique-append_one, Unique-update_if, any-update_if,
  if◌then◌else◌, ℤ,
}
use yggmail.Storage.Types.{Mail, QueueRow, Db, same_mail, is_mailbox, in_mailbox, is_mail, owns}
use yggmail.Storage.Mails.{
  max_id, next_id, insert_mail_stmt, update_mail_flags_stmt, delete_mail_stmt, expunge_mail_stmt,
}
use yggmail.Storage.Integrity.{IsSound}
use yggmail.Storage.Integrity.Cascade.{delete_mails-IsSound}

-- `max_id` bounds the ids of its mailbox: none where it is empty.
AtMost : Option ℕ → ℕ → Type 0
AtMost none n = ⊥
AtMost (some k) n = n ≤ k

next_id-cons_le :
    (mailbox : String) (m : Mail) (ms : List Mail) → next_id mailbox ms ≤ next_id mailbox (m ∷ ms)
unfolding next_id max_id
next_id-cons_le mailbox m ms = ground arith

next_id-cons_lt :
    (mailbox : String) (m : Mail) (ms : List Mail)
    → in_mailbox mailbox m ≡ true
    → m.id < next_id mailbox (m ∷ ms)
unfolding next_id max_id
next_id-cons_lt mailbox m ms h = ground arith

-- Every id of a mailbox lies below the next one.
pub id-lt-next_id :
    (mailbox : String) (ms : List Mail)
    → All (λ m. in_mailbox mailbox m ≡ true → m.id < next_id mailbox ms) ms
id-lt-next_id mailbox [] = tt
id-lt-next_id mailbox (m ∷ ms) = (
  next_id-cons_lt mailbox m ms,
  All-mono _ _ ms (λ x h e. omega (arith, h e, next_id-cons_le mailbox m ms))
      (id-lt-next_id mailbox ms),
)

pub next_id_pos : (mailbox : String) (ms : List Mail) → 1 ≤ next_id mailbox ms
unfolding next_id
next_id_pos mailbox ms = ground arith

fresh_key :
    (m row : Mail) → (in_mailbox row.mailbox m ≡ true → m.id < row.id) → same_mail m row ≡ false
unfolding same_mail in_mailbox
fresh_key m row h = ground (arith, eq_iff m.mailbox row.mailbox, eq_iff row.mailbox m.mailbox)

pub insert_mail_stmt-IsSound :
    (mailbox : String) (bytes : List ℕ) (now : ℕ) (db : Db)
    → IsSound db
    → IsSound (insert_mail_stmt mailbox bytes now db).1
unfolding insert_mail_stmt
insert_mail_stmt-IsSound mailbox bytes now db s =
    elim (Bool-cases (any (is_mailbox mailbox) db.mailboxes)) [
      | inr missing ↦ rw missing s
      | inl known ↦ rw known (record {
        config_keys = s.config_keys;
        mailbox_keys = s.mailbox_keys;
        mail_keys = Unique-append_one same_mail db.mails _ s.mail_keys (
            any-false_of_All _ db.mails
              (All-mono _ _ db.mails (λ m. fresh_key m _) (id-lt-next_id mailbox db.mails)));
        entry_keys = s.entry_keys;
        mail_refs = All-append _ db.mails _ s.mail_refs (known, tt);
        entry_refs = All-mono _ _ db.queue (λ q h. rw any-append (rw h refl)) s.entry_refs;
        ids = All-append _ db.mails _ s.ids (next_id_pos mailbox db.mails, tt);
      })
    ]

-- An update that keeps `mailbox` and `id`.
module _ (p : Mail → Bool) (f : Mail → Mail) (mailbox_kept : (m : Mail) → (f m).mailbox ≡ m.mailbox)
    (id_kept : (m : Mail) → (f m).id ≡ m.id) where
  mailbox_of : (m : Mail) → (if p m then f m else m).mailbox ≡ m.mailbox
  mailbox_of m = ground (arith, mailbox_kept m)

  id_of : (m : Mail) → (if p m then f m else m).id ≡ m.id
  id_of m = ground (arith, id_kept m)

  owner_kept : (q : QueueRow) (m : Mail) → owns m q ≡ true → owns (if p m then f m else m) q ≡ true
  unfolding owns
  owner_kept q m e = rw (mailbox_of m, id_of m) e

  merges_none :
      (x y : Mail)
      → same_mail (if p x then f x else x) (if p y then f y else y) ≡ true
      → same_mail x y ≡ true
  unfolding same_mail
  merges_none x y h = ground (arith, mailbox_kept x, mailbox_kept y, id_kept x, id_kept y)

  update_mails-IsSound :
      (db : Db) → IsSound db → IsSound (record db { mails = update_if p f db.mails })
  update_mails-IsSound db s = record {
    config_keys = s.config_keys;
    mailbox_keys = s.mailbox_keys;
    mail_keys =
        Unique-update_if (λ _. Unit {0}) same_mail p f db.mails (λ x y _ _. merges_none x y)
          (All-of _ db.mails (λ _. tt)) s.mail_keys;
    entry_keys = s.entry_keys;
    mail_refs = All-update_if _ _ p f db.mails (λ m h. rw (mailbox_of m) h) s.mail_refs;
    entry_refs =
        All-mono _ _ db.queue
          (λ q h. any-update_if p (λ m. owns m q) (λ m. owns m q) f db.mails (owner_kept q) h)
          s.entry_refs;
    ids = All-update_if _ _ p f db.mails (λ m h. rw (id_of m) h) s.ids;
  }

pub update_mail_flags_stmt-IsSound :
    (seen answered flagged deleted : Bool) (mailbox : String) (id : ℤ) (db : Db)
    → IsSound db
    → IsSound (update_mail_flags_stmt seen answered flagged deleted mailbox id db).1
unfolding update_mail_flags_stmt
update_mail_flags_stmt-IsSound seen answered flagged deleted mailbox id =
    update_mails-IsSound (is_mail mailbox id) _ (λ m. refl) (λ m. refl)

pub delete_mail_stmt-IsSound :
    (mailbox : String) (id : ℤ) (db : Db) → IsSound db → IsSound (delete_mail_stmt mailbox id db).1
unfolding delete_mail_stmt
delete_mail_stmt-IsSound mailbox id =
    update_mails-IsSound (is_mail mailbox id) _ (λ m. refl) (λ m. refl)

pub expunge_mail_stmt-IsSound :
    (mailbox : String) (db : Db) → IsSound db → IsSound (expunge_mail_stmt mailbox db).1
unfolding expunge_mail_stmt
expunge_mail_stmt-IsSound mailbox = delete_mails-IsSound _
