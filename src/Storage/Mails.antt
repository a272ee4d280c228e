-- ===== src/Storage/Mails.antt =====
-- internal/storage/sqlite3/table_mails.go
use yggmail.Base.{
  ℕ, ◌+◌, ◌^◌, String, Bool, true, false, List, [], ◌∷◌, ◌++◌, Option, none, some, ◌&&◌, not, map,
  any, filter, find, count_if, update_if, ltb, leb, ◌==◌, str_eq, if◌then◌else◌, ℤ, int_eq,
}
use yggmail.Exec.{
  Result, ok, err, no_rows, unique, foreign_key, out_of_range, Exec, Done, pure, fail, ◌>>=◌,
}
use yggmail.Storage.Types.{Mail, Db, World, is_mailbox, in_mailbox, is_mail, delete_mails}
use yggmail.Storage.Engine.{Engine, MailsVisit, by_id, by_seq}
use yggmail.Storage.Writer.{statement, writer_do}

-- `MAX(id)` over a mailbox; NULL where it is empty.
unfoldable pub max_id : String → List Mail → Option ℕ
max_id mailbox [] = none
max_id mailbox (m ∷ ms) =
    let rest = max_id mailbox ms in
    if in_mailbox mailbox m
    then some (elim rest [ none ↦ m.id | some k ↦ if leb k m.id then m.id else k ])
    else rest

-- `IFNULL(MAX(id)+1,1)`
unfoldable pub next_id : String → List Mail → ℕ
unfolding max_id
next_id mailbox mails = elim (max_id mailbox mails) [ none ↦ 1 | some k ↦ k + 1 ]

-- `selectMailNextID`
unfoldable pub select_mail_next_id : String → Db → Result ℕ × Db
unfolding next_id
select_mail_next_id mailbox db = (ok (next_id mailbox db.mails), db)

-- `insertMailStmt`; the flags have their defaults. The foreign key asks for the mailbox.
unfoldable pub insert_mail_stmt : String → List ℕ → ℕ → Db → Result ℕ × Db
unfolding next_id
insert_mail_stmt mailbox bytes datetime db =
    let id = next_id mailbox db.mails in
    let row : Mail = record {
      mailbox = mailbox;
      id = id;
      mail = bytes;
      date = datetime;
      seen = false;
      answered = false;
      flagged = false;
      deleted = false;
    } in
    if any (is_mailbox mailbox) db.mailboxes
    then (ok id, record db { mails = db.mails ++ row ∷ [] })
    else (err foreign_key, db)

-- The view `inboxes`: a mailbox's rows in the order of the visit, numbered from `seq`.
unfoldable pub number_rows : ℕ → List Mail → List (ℕ × Mail)
number_rows seq [] = []
number_rows seq (m ∷ ms) = (seq, m) ∷ number_rows (seq + 1) ms

unfoldable pub inbox : Engine → MailsVisit → String → Db → List (ℕ × Mail)
unfolding number_rows
inbox e visit mailbox db = number_rows 1 (filter (in_mailbox mailbox) (e.scan_mails visit db.mails))

-- `selectMailStmt`
unfoldable pub select_mail_stmt : Engine → String → ℤ → Db → Result (ℕ × Mail) × Db
unfolding inbox
select_mail_stmt e mailbox id db =
    elim (find (λ r. int_eq id r.1.id) (inbox e (by_id mailbox id) mailbox db)) [
      | none ↦ (err no_rows, db)
      | some r ↦ (ok r, db)
    ]

-- `selectIDForSeqStmt`
unfoldable pub select_id_for_seq_stmt : Engine → String → ℕ → Db → Result ℕ × Db
unfolding inbox
select_id_for_seq_stmt e mailbox seq db =
    elim (find (λ r. seq == r.0) (inbox e (by_seq mailbox seq) mailbox db)) [
      | none ↦ (err no_rows, db)
      | some r ↦ (ok r.1.id, db)
    ]

-- `ORDER BY id`
insert_id : ℕ → List ℕ → List ℕ
insert_id n [] = n ∷ []
insert_id n (k ∷ ks) = if leb n k then n ∷ k ∷ ks else k ∷ insert_id n ks

unfoldable pub sort_ids : List ℕ → List ℕ
unfolding insert_id
sort_ids [] = []
sort_ids (n ∷ ns) = insert_id n (sort_ids ns)

-- `searchMailStmt`
unfoldable pub search_mail_stmt : String → Db → Result (List ℕ) × Db
unfolding sort_ids
search_mail_stmt mailbox db =
    (ok (sort_ids (map (λ (m : Mail). m.id) (filter (in_mailbox mailbox) db.mails))), db)

-- `selectMailCountStmt`
unfoldable pub select_mail_count_stmt : String → Db → Result ℕ × Db
select_mail_count_stmt mailbox db = (ok (count_if (in_mailbox mailbox) db.mails), db)

-- `selectMailUnseenStmt`
unfoldable pub select_mail_unseen_stmt : String → Db → Result ℕ × Db
select_mail_unseen_stmt mailbox db =
    (ok (count_if (λ m. in_mailbox mailbox m && not m.seen) db.mails), db)

-- `updateMailFlagsStmt`
unfoldable pub update_mail_flags_stmt :
    Bool → Bool → Bool → Bool → String → ℤ → Db → Result Done × Db
update_mail_flags_stmt seen answered flagged deleted mailbox id db = (
  ok tt,
  record db {
    mails =
        update_if (is_mail mailbox id)
          (λ m. record m { seen = seen; answered = answered; flagged = flagged; deleted = deleted })
          db.mails;
  },
)

-- `deleteMailStmt`
unfoldable pub delete_mail_stmt : String → ℤ → Db → Result Done × Db
delete_mail_stmt mailbox id db = (
  ok tt,
  record db { mails = update_if (is_mail mailbox id) (λ m. record m { deleted = true }) db.mails },
)

-- `expungeMailStmt`
unfoldable pub expunge_mail_stmt : String → Db → Result Done × Db
unfolding delete_mails
expunge_mail_stmt mailbox db = (ok tt, delete_mails (λ m. in_mailbox mailbox m && m.deleted) db)

-- The row of `moveMailStmt`, with ON UPDATE CASCADE to its queue entries.
unfoldable pub move_rows : String → String → ℤ → Db → Db
move_rows to from id db = record db {
  mails = update_if (is_mail from id) (λ m. record m { mailbox = to }) db.mails;
  queue =
      update_if (λ q. str_eq from q.mailbox && int_eq id q.id) (λ q. record q { mailbox = to })
        db.queue;
}

-- `moveMailStmt`. The primary key is checked where the row changes, the foreign key at the end.
unfoldable pub move_mail_stmt : String → String → ℤ → Db → Result Done × Db
unfolding move_rows
move_mail_stmt to from id db =
    if any (is_mail from id) db.mails && not (str_eq to from)
    then if any (is_mail to id) db.mails
      then (err unique, db)
      else if any (is_mailbox to) db.mailboxes
      then (ok tt, move_rows to from id db)
      else (err foreign_key, db)
    else (ok tt, db)

-- `time.Now().Unix()` is the world's clock.
unfoldable pub mail_create : String → List ℕ → Exec World ℕ
unfolding insert_mail_stmt
mail_create mailbox bytes w = writer_do 0 (statement (insert_mail_stmt mailbox bytes w.clock)) w

unfoldable pub mail_select : Engine → String → ℤ → Exec World (ℕ × Mail)
unfolding select_mail_stmt
mail_select e mailbox id = statement (select_mail_stmt e mailbox id)

-- `rows.Scan` into a `uint32` refuses a value that does not fit.
abbrev fits_uint32 : ℕ → Bool
fits_uint32 id = ltb id (2 ^ 32)

unfoldable pub mail_search : String → Exec World (List ℕ)
unfolding search_mail_stmt ◌>>=◌
mail_search mailbox = do
  ids ← statement (search_mail_stmt mailbox)
  if any (λ id. not (fits_uint32 id)) ids then fail out_of_range else pure ids

unfoldable pub mail_next_id : String → Exec World ℕ
unfolding select_mail_next_id
mail_next_id mailbox = statement (select_mail_next_id mailbox)

unfoldable pub mail_id_for_seq : Engine → String → ℕ → Exec World ℕ
unfolding select_id_for_seq_stmt
mail_id_for_seq e mailbox seq = statement (select_id_for_seq_stmt e mailbox seq)

unfoldable pub mail_unseen : String → Exec World ℕ
unfolding select_mail_unseen_stmt
mail_unseen mailbox = statement (select_mail_unseen_stmt mailbox)

unfoldable pub mail_update_flags : String → ℤ → Bool → Bool → Bool → Bool → Exec World Done
unfolding update_mail_flags_stmt
mail_update_flags mailbox id seen answered flagged deleted =
    writer_do tt (statement (update_mail_flags_stmt seen answered flagged deleted mailbox id))

unfoldable pub mail_delete : String → ℤ → Exec World Done
unfolding delete_mail_stmt
mail_delete mailbox id = writer_do tt (statement (delete_mail_stmt mailbox id))

unfoldable pub mail_expunge : String → Exec World Done
unfolding expunge_mail_stmt
mail_expunge mailbox = writer_do tt (statement (expunge_mail_stmt mailbox))

unfoldable pub mail_count : String → Exec World ℕ
unfolding select_mail_count_stmt
mail_count mailbox = statement (select_mail_count_stmt mailbox)

unfoldable pub mail_move : String → ℤ → String → Exec World Done
unfolding move_mail_stmt
mail_move mailbox id destination = writer_do tt (statement (move_mail_stmt destination mailbox id))
