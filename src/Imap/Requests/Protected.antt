-- ===== src/Imap/Requests/Protected.antt =====
-- The mailboxes that the backend protects.
use yggmail.Base.{
  ◌⊎◌, inl, inr, ℕ, String, Bool, true, false, ◌≡◌, refl, List, [], ◌∷◌, Option, ℤ, any, arith,
  any-append, any-update_if, any-filter_others, any-false_of_All, All-of, ◌&&◌, not_true,
  &&-eq-true,
}
use yggmail.Exec.{Result}
use yggmail.Exec.Preserves.{Preserves, Preserves-bind, Preserves-pure, preserves_rules}
use yggmail.Storage.Types.{World, Db, MailboxRow, is_mailbox, delete_mails}
use yggmail.Storage.Engine.{Engine}
use yggmail.Storage.Keys.{is_mailbox_iff}
use yggmail.Storage.Writer.{statement, writer_do}
use yggmail.Storage.Mailboxes
use yggmail.Storage.Mails
use yggmail.Storage.Queue
use yggmail.Storage.Integrity.Rules.{
  OnTables, Preserves-statement, Preserves-writer_do, Preserves-read,
}
use yggmail.Imap.Types.{FetchItem}
use yggmail.Imap.User.{is_protected}
use yggmail.Imap.Requests.{Request, serve, serve_all}
use yggmail.Imap.Requests.Kept
use yggmail.Imap.Requests.Invariants.{is_rename, serve-Kept}

-- A mailbox of this name exists.
unfoldable pub Exists : String → Db → Type 0
Exists name db = any (is_mailbox name) db.mailboxes ≡ true

module _ (name : String) where
  write :
      {A : Type 0} (initial : A) (sql : Db → Result A × Db)
      → ((db : Db) → Exists name db → Exists name (sql db).1)
      → Preserves (OnTables (Exists name)) (writer_do initial (statement sql))
  write initial sql keeps =
      Preserves-writer_do (Exists name) initial _ (Preserves-statement (Exists name) sql keeps)

  create-Exists :
      (a : String) (db : Db) → Exists name db → Exists name (Mailboxes.mailboxes_create_stmt a db).1
  unfolding Mailboxes.mailboxes_create_stmt Exists
  create-Exists a db h = ground (
    arith,
    any-append (is_mailbox name) db.mailboxes (record { mailbox = a; subscribed = true } ∷ []),
  )

  subscribe-Exists :
      (b : Bool) (a : String) (db : Db)
      → Exists name db
      → Exists name (Mailboxes.mailboxes_subscribe_stmt b a db).1
  unfolding Mailboxes.mailboxes_subscribe_stmt Exists is_mailbox
  subscribe-Exists b a db h =
      any-update_if (is_mailbox a) (is_mailbox name) (is_mailbox name)
        (λ r. record r { subscribed = b }) db.mailboxes (λ r q. ground arith) h

  apart :
      (a : String)
      → is_protected name ≡ true
      → is_protected a ≡ false
      → (r : MailboxRow) → (is_mailbox a r && is_mailbox name r) ≡ false
  apart a p q r = not_true _ λ e.
      let (x, y) = &&-eq-true (is_mailbox a r) (is_mailbox name r) e in
      cc (p, q, (is_mailbox_iff a r).0 x, (is_mailbox_iff name r).0 y)

  delete-Exists :
      (a : String) (db : Db)
      → is_protected name ≡ true
      → is_protected a ≡ false
      → Exists name db
      → Exists name (Mailboxes.mailboxes_delete_stmt a db).1
  unfolding Mailboxes.mailboxes_delete_stmt Exists delete_mails
  delete-Exists a db p q h =
      any-filter_others (is_mailbox a) (is_mailbox name) db.mailboxes h
        (any-false_of_All _ db.mailboxes (All-of _ db.mailboxes (apart a p q)))

  move-Exists :
      (to from : String) (i : ℤ) (db : Db)
      → Exists name db
      → Exists name (Mails.move_mail_stmt to from i db).1
  unfolding Mails.move_mail_stmt Exists Mails.move_rows
  move-Exists to from i db h = ground arith

  insert-Exists :
      (a : String) (bytes : List ℕ) (t : ℕ) (db : Db)
      → Exists name db
      → Exists name (Mails.insert_mail_stmt a bytes t db).1
  unfolding Mails.insert_mail_stmt Exists
  insert-Exists a bytes t db h = ground arith

  create_mail-Exists :
      (a : String) (bytes : List ℕ) → Preserves (OnTables (Exists name)) (Mails.mail_create a bytes)
  unfolding Mails.mail_create
  create_mail-Exists a bytes = record {
    from_state = λ w h.
        let keeps =
          write 0 (Mails.insert_mail_stmt a bytes w.clock) (insert-Exists a bytes w.clock) in
        keeps.from_state w h;
  }

  abbrev reads :
      {A : Type 0} (sql : Db → Result A × Db)
      → ((db : Db) → (sql db).1 ≡ db)
      → Preserves (OnTables (Exists name)) (statement sql)
  reads sql same = Preserves-read (Exists name) sql same

  search-Exists : (a : String) → Preserves (OnTables (Exists name)) (Mails.mail_search a)
  unfolding Mails.mail_search
  search-Exists a = Preserves-bind _ _ (reads _ (λ db. refl)) (λ ids. search preserves_rules)

  select-Exists : (a : String) → Preserves (OnTables (Exists name)) (Mailboxes.mailbox_select a)
  unfolding Mailboxes.mailbox_select
  select-Exists a = Preserves-bind _ _ (reads _ (λ db. ground arith)) (λ got. Preserves-pure _)

  calls-Exists : (e : Engine) → is_protected name ≡ true → Kept.Kept e (OnTables (Exists name))
  unfolding Mailboxes.mailbox_list Mailboxes.mailbox_create Mailboxes.mailbox_delete
      Mailboxes.mailbox_subscribe Mails.mail_select Mails.mail_next_id Mails.mail_id_for_seq
      Mails.mail_unseen Mails.mail_update_flags Mails.mail_expunge Mails.mail_count Mails.mail_move
      Queue.queue_delete_destination_for_id Exists Mails.expunge_mail_stmt delete_mails
  calls-Exists e p = record {
    mailbox_list = λ b. reads _ (λ db. refl);
    mailbox_select = select-Exists;
    mailbox_create = λ a. write tt _ (create-Exists a);
    mailbox_delete = λ a q. write tt _ (λ db. delete-Exists a db p q);
    mailbox_subscribe = λ a b. write tt _ (subscribe-Exists b a);
    mail_create = create_mail-Exists;
    mail_select = λ a i. reads _ (λ db. ground arith);
    mail_search = search-Exists;
    mail_next_id = λ a. reads _ (λ db. refl);
    mail_id_for_seq = λ a n. reads _ (λ db. ground arith);
    mail_unseen = λ a. reads _ (λ db. refl);
    mail_update_flags = λ a i s r f d. write tt _ (λ db h. h);
    mail_expunge = λ a. write tt _ (λ db h. h);
    mail_count = λ a. reads _ (λ db. refl);
    mail_move = λ a i b. write tt _ (move-Exists b a i);
    queue_delete_destination_for_id = λ a i. write tt _ (λ db h. h);
  }

  protected : (name ≡ "INBOX") ⊎ (name ≡ "Outbox") → is_protected name ≡ true
  unfolding is_protected
  protected (inl e) = rw e refl
  protected (inr e) = rw e refl

  -- The INBOX and the Outbox, where they exist, outlive every IMAP session in which no mailbox is
  -- renamed, whichever calls of the engine fail.
  pub serve_all-Exists :
      (e : Engine) (render : FetchItem → List ℕ → Option (List ℕ)) (rs : List Request) (w : World)
      → (name ≡ "INBOX") ⊎ (name ≡ "Outbox")
      → any is_rename rs ≡ false
      → Exists name w.tables
      → Exists name (serve_all e render rs w).tables
  unfolding serve_all
  serve_all-Exists e render [] w p q h = h
  serve_all-Exists e render (r ∷ rs) w p q h =
      let step =
        serve-Kept e render (calls-Exists e (protected p)) r (λ t. absurd (ground arith)) in
      serve_all-Exists e render rs (serve e render r w).1 p (ground arith) (step.from_state w h)
