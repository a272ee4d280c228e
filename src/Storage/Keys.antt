-- ===== src/Storage/Keys.antt =====
-- What the tests on keys decide. With these lemmas the tests can stay shut.
use yggmail.Base.{ℕ, String, ◌≡◌, ◌↔◌, true, arith, eq_iff, ℤ, pos}
use yggmail.Storage.Types.{
  Mail, MailboxRow, QueueRow, ConfigRow, same_mailbox, same_mail, same_entry, same_key, is_mailbox,
  in_mailbox, is_mail, owns,
}

pub same_mailbox_iff : (a b : MailboxRow) → (same_mailbox a b ≡ true) ↔ (a.mailbox ≡ b.mailbox)
unfolding same_mailbox
same_mailbox_iff a b = eq_iff a.mailbox b.mailbox

pub same_key_iff : (a b : ConfigRow) → (same_key a b ≡ true) ↔ (a.key ≡ b.key)
unfolding same_key
same_key_iff a b = eq_iff a.key b.key

pub is_mailbox_iff :
    (name : String) (r : MailboxRow) → (is_mailbox name r ≡ true) ↔ (name ≡ r.mailbox)
unfolding is_mailbox
is_mailbox_iff name r = eq_iff name r.mailbox

pub in_mailbox_iff : (name : String) (m : Mail) → (in_mailbox name m ≡ true) ↔ (name ≡ m.mailbox)
unfolding in_mailbox
in_mailbox_iff name m = eq_iff name m.mailbox

pub same_mail_iff :
    (a b : Mail) → (same_mail a b ≡ true) ↔ ((a.mailbox ≡ b.mailbox) × (a.id ≡ b.id))
unfolding same_mail
same_mail_iff a b = ground (arith, eq_iff a.mailbox b.mailbox)

pub is_mail_iff :
    (name : String) (n : ℕ) (m : Mail)
    → (is_mail name (pos n) m ≡ true) ↔ ((name ≡ m.mailbox) × (n ≡ m.id))
unfolding is_mail
is_mail_iff name n m = ground (arith, eq_iff name m.mailbox)

-- A test with any integer finds the mailbox's mail of that id.
pub is_mail-pos :
    (name : String) (i : ℤ) (m : Mail)
    → is_mail name i m ≡ true
    → (name ≡ m.mailbox) × (i ≡ pos m.id)
unfolding is_mail
is_mail-pos name i m h = ground (arith, eq_iff name m.mailbox)

pub owns_iff :
    (m : Mail) (q : QueueRow) → (owns m q ≡ true) ↔ ((m.mailbox ≡ q.mailbox) × (m.id ≡ q.id))
unfolding owns
owns_iff m q = ground (arith, eq_iff m.mailbox q.mailbox)

pub same_entry_iff :
    (a b : QueueRow)
    → (same_entry a b ≡ true)
      ↔ ((a.destination ≡ b.destination) × (a.mailbox ≡ b.mailbox) × (a.id ≡ b.id))
unfolding same_entry
same_entry_iff a b = ground (arith, eq_iff a.destination b.destination, eq_iff a.mailbox b.mailbox)
