-- ===== src/Smtp/Remote/Storing.antt =====
-- What the data of a remote session comes to in the INBOX.
use yggmail.Base.{
  ℕ, String, true, ◌≡◌, refl, any, List, [], ◌∷◌, Option, some, count_if, map, ◌+◌, ◌++◌, Bool,
  arith,
}
use yggmail.Exec.{ok, ◌>>=◌}
use yggmail.Storage.Types.{World, Mail, Db, is_mailbox, in_mailbox}
use yggmail.Storage.Mails.{mail_create, mail_count, select_mail_count_stmt, next_id}
use yggmail.Storage.Writer.{writer_do, statement}
use yggmail.Storage.Healthy.{statement_healthy, with_mail, arrival, mail_create_lem}
use yggmail.Smtp.Local.{MessageLib}
use yggmail.Smtp.Remote.{notice, notify_new, remote_data, stamp_remote}

count_if-last :
    (p : Mail → Bool) (m : Mail) (ms : List Mail)
    → p m ≡ true
    → count_if p (ms ++ m ∷ []) ≡ count_if p ms + 1
count_if-last p m [] h = rw h refl
count_if-last p m (x ∷ ms) h = ground (arith, count_if-last p m ms h)

one_more :
    (bytes : List ℕ) (w : World)
    → count_if (in_mailbox "INBOX") (with_mail w (arrival "INBOX" bytes w)).tables.mails
      ≡ count_if (in_mailbox "INBOX") w.tables.mails + 1
unfolding with_mail arrival in_mailbox
one_more bytes w = count_if-last (in_mailbox "INBOX") (arrival "INBOX" bytes w) w.tables.mails refl

module _ (lib : MessageLib) (received now : String) where
  pub remote_data_stores :
      (conns : List (Option String)) (r bytes : List ℕ) (m : lib.Entity) (w : World)
      → lib.read r ≡ some m
      → lib.write (stamp_remote lib received now m) ≡ some bytes
      → any (is_mailbox "INBOX") w.tables.mailboxes ≡ true
      → w.faults ≡ []
      → remote_data lib received now conns r w ≡ (
        ok (
            map
              (notice
                (next_id "INBOX" w.tables.mails)
                (count_if (in_mailbox "INBOX") w.tables.mails + 1))
              conns),
        with_mail w (arrival "INBOX" bytes w),
      )
  unfolding remote_data ◌>>=◌ mail_count select_mail_count_stmt with_mail notify_new
  remote_data_stores conns r bytes m w p q t h =
      rw
        (
          p,
          q,
          mail_create_lem "INBOX" bytes w t h,
          statement_healthy (select_mail_count_stmt "INBOX") (with_mail w (arrival "INBOX" bytes w))
              h,
          one_more bytes w,
        )
        refl

  -- Where the transaction cannot begin, the data of a remote session is reported as taken and the
  -- tables stay as they were.
  pub remote_data_drops :
      (conns : List (Option String)) (r bytes : List ℕ) (m : lib.Entity) (db : Db) (clock : ℕ)
      → lib.read r ≡ some m
      → lib.write (stamp_remote lib received now m) ≡ some bytes
      → remote_data lib received now conns r
          (record { tables = db; faults = true ∷ []; clock = clock })
        ≡ (
          ok (notify_new conns 0 (count_if (in_mailbox "INBOX") db.mails)),
          record { tables = db; faults = []; clock = clock },
        )
  unfolding remote_data ◌>>=◌ mail_create mail_count select_mail_count_stmt writer_do statement
  remote_data_drops conns r bytes m db clock p q = rw (p, q) refl
