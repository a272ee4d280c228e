-- ===== src/Imap/User/Renaming.antt =====
-- `RenameMailbox` passes the old name where the statement has the new one.
use yggmail.Base.{
  String, true, false, ◌≡◌, ◌≢◌, refl, sym, ◌∙◌, any, List, [], ◌∷◌, arith, str_ne, update_if,
  eq_refl,
}
use yggmail.Exec.{ok}
use yggmail.Storage.Types.{World, Db, MailboxRow, is_mailbox}
use yggmail.Storage.Mailboxes.{mailbox_rename, mailboxes_rename_stmt, rename_rows}
use yggmail.Storage.Healthy.{writer_do_healthy}
use yggmail.Imap.User.{rename_mailbox, is_protected}

renamed :
    (existing_name new_name : String) (w : World)
    → is_protected existing_name ≡ false
    → w.faults ≡ []
    → rename_mailbox existing_name new_name w ≡ (
      (mailboxes_rename_stmt existing_name new_name w.tables).0,
      record w { tables = (mailboxes_rename_stmt existing_name new_name w.tables).1 },
    )
unfolding rename_mailbox mailbox_rename
renamed existing_name new_name w p h =
    rw p (writer_do_healthy (mailboxes_rename_stmt existing_name new_name) tt w h)

-- To rename a mailbox to a name that no mailbox has is reported as done and changes nothing, where
-- the mailbox is not protected and no call of the engine fails.
pub rename_mailbox-fresh :
    (existing_name new_name : String) (w : World)
    → is_protected existing_name ≡ false
    → any (is_mailbox new_name) w.tables.mailboxes ≡ false
    → w.faults ≡ []
    → rename_mailbox existing_name new_name w ≡ (ok tt, w)
unfolding mailboxes_rename_stmt
rename_mailbox-fresh existing_name new_name w p q h =
    renamed existing_name new_name w p h ∙ rw (q, mailboxes_rename_stmt) refl

gone :
    (from to : String) (rows : List MailboxRow)
    → to ≢ from
    → any (is_mailbox from) (update_if (is_mailbox from) (λ r. record r { mailbox = to }) rows)
      ≡ false
unfolding is_mailbox
gone from to [] h = refl
gone from to (r ∷ rows) h = ground (arith, gone from to rows h, str_ne from to (λ e. h (sym e)))

moves :
    (existing_name new_name : String) (db : Db)
    → any (is_mailbox existing_name) db.mailboxes ≡ false
    → any (is_mailbox new_name) db.mailboxes ≡ true
    → existing_name ≢ new_name
    → mailboxes_rename_stmt existing_name new_name db
      ≡ (ok tt, rename_rows existing_name new_name db)
unfolding mailboxes_rename_stmt
moves existing_name new_name db q r n =
    rw (r, q, str_ne existing_name new_name n, mailboxes_rename_stmt) refl

arrived :
    (from to : String) (rows : List MailboxRow)
    → any (is_mailbox from) rows ≡ true
    → any (is_mailbox to) (update_if (is_mailbox from) (λ r. record r { mailbox = to }) rows) ≡ true
unfolding is_mailbox
arrived from to [] h = cc
arrived from to (r ∷ rows) h = ground (arith, arrived from to rows, eq_refl to)

-- To "rename" a mailbox that does not exist renames the mailbox of the new name to the old one,
-- where the old name is not protected and no call of the engine fails: even the INBOX is then gone.
pub rename_mailbox-reversed :
    (existing_name new_name : String) (w : World)
    → is_protected existing_name ≡ false
    → any (is_mailbox existing_name) w.tables.mailboxes ≡ false
    → any (is_mailbox new_name) w.tables.mailboxes ≡ true
    → existing_name ≢ new_name
    → w.faults ≡ []
    → ((rename_mailbox existing_name new_name w).0 ≡ ok tt)
      × (any (is_mailbox new_name) (rename_mailbox existing_name new_name w).1.tables.mailboxes
          ≡ false)
      × (any (is_mailbox existing_name) (rename_mailbox existing_name new_name w).1.tables.mailboxes
          ≡ true)
unfolding rename_rows
rename_mailbox-reversed existing_name new_name w p q r n h =
    rw (renamed existing_name new_name w p h, moves existing_name new_name w.tables q r n)
      (
        refl,
        gone new_name existing_name w.tables.mailboxes n,
        arrived new_name existing_name w.tables.mailboxes r,
      )
