-- ===== src/Storage/Healthy.antt =====
-- Statements, and the storing of a mail, where the engine does not fail.
use yggmail.Base.{ℕ, String, ◌≡◌, refl, ◌∙◌, Bool, true, false, any, List, [], ◌∷◌, ◌++◌}
use yggmail.Exec.{ok, Result}
use yggmail.Storage.Types.{Mail, Db, World, is_mailbox}
use yggmail.Storage.Mails.{mail_create, insert_mail_stmt, next_id}
use yggmail.Storage.Writer.{statement, writer_do}

module _ {A : Type 0} (sql : Db → Result A × Db) where
  statement_on :
      (faults : List Bool) (w : World)
      → faults ≡ []
      → statement sql (record w { faults = faults })
        ≡ ((sql w.tables).0, record w { tables = (sql w.tables).1; faults = faults })
  unfolding statement
  statement_on [] w h = refl
  statement_on (b ∷ rest) w h = cc

  pub statement_healthy :
      (w : World)
      → w.faults ≡ []
      → statement sql w ≡ ((sql w.tables).0, record w { tables = (sql w.tables).1 })
  statement_healthy w h = statement_on w.faults w h

  writer_on :
      (initial : A) (faults : List Bool) (w : World)
      → faults ≡ []
      → writer_do initial (statement sql) (record w { faults = faults })
        ≡ ((sql w.tables).0, record w { tables = (sql w.tables).1; faults = faults })
  unfolding statement writer_do
  writer_on initial [] w h = refl
  writer_on initial (b ∷ rest) w h = cc

  pub writer_do_healthy :
      (initial : A) (w : World)
      → w.faults ≡ []
      → writer_do initial (statement sql) w
        ≡ ((sql w.tables).0, record w { tables = (sql w.tables).1 })
  writer_do_healthy initial w h = writer_on initial w.faults w h

-- The world with one more mail.
unfoldable pub with_mail : World → Mail → World
with_mail w m = record w { tables = record w.tables { mails = w.tables.mails ++ m ∷ [] } }

-- The mail as `MailCreate` stores it: no flag is set.
unfoldable pub arrival : String → List ℕ → World → Mail
arrival name bytes w = record {
  mailbox = name;
  id = next_id name w.tables.mails;
  mail = bytes;
  date = w.clock;
  seen = false;
  answered = false;
  flagged = false;
  deleted = false;
}

pub mail_create_lem :
    (name : String) (bytes : List ℕ) (w : World)
    → any (is_mailbox name) w.tables.mailboxes ≡ true
    → w.faults ≡ []
    → mail_create name bytes w
      ≡ (ok (next_id name w.tables.mails), with_mail w (arrival name bytes w))
unfolding mail_create insert_mail_stmt with_mail arrival
mail_create_lem name bytes w q h =
    writer_do_healthy (insert_mail_stmt name bytes w.clock) 0 w h ∙ rw (q, insert_mail_stmt) refl
