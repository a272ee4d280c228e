-- ===== src/Storage/Abstract/Calls.antt =====
-- The calls on mails, and the map.
use yggmail.Base.{ℕ, ◌≡◌, []}
use yggmail.Exec.{Result, ok, err, panic, Done, pure, resume, ◌>>=◌}
use yggmail.Storage.Types.{Db, World}
use yggmail.Storage.Mails.{
  mail_create, mail_update_flags, mail_delete, mail_expunge, mail_move, insert_mail_stmt,
  update_mail_flags_stmt, delete_mail_stmt, expunge_mail_stmt, move_mail_stmt,
}
use yggmail.Storage.Healthy.{writer_do_healthy}
use yggmail.Storage.Integrity.{IsSound}
use yggmail.Storage.Abstract.{
  Mails, look, MailCall, create, update_flags, delete, expunge, move, run, Refined,
}
use yggmail.Storage.Abstract.Move.{with_zero, move_look}
use yggmail.Storage.Abstract.Refines.{insert_look, update_look, delete_look, expunge_look}

-- A call without an id, from what its statement does.
zeroed :
    (c : MailCall) (w : World) (s : Mails) (p : Result Done × Db)
    → Refined c w.clock s (look p.1) (with_zero p.0)
    → let r = resume {B = ℕ} (λ u. pure 0) (p.0, record w { tables = p.1 }) in
      Refined c w.clock s (look r.1.tables) r.0
unfolding ◌>>=◌
zeroed c w s (ok u, db) h = h
zeroed c w s (err e, db) h = h
zeroed c w s (panic, db) h = h

-- Where no call of the engine fails and the tables are sound, a call that stores, flags, deletes,
-- expunges or moves mails changes the map from mailboxes and ids to mails as `effect` says, at every
-- mailbox and id, and a new mail gets an id that was free; a call that gives an error leaves the map
-- as it is.
pub run_refines :
    (c : MailCall) (w : World)
    → IsSound w.tables
    → w.faults ≡ []
    → Refined c w.clock (look w.tables) (look (run c w).1.tables) (run c w).0
unfolding run mail_create mail_update_flags mail_delete mail_expunge mail_move
    update_mail_flags_stmt delete_mail_stmt expunge_mail_stmt ◌>>=◌
run_refines (create name bytes) w s f =
    rw (writer_do_healthy (insert_mail_stmt name bytes w.clock) 0 w f)
      (insert_look name bytes w.clock w.tables)
run_refines (update_flags name i a b c d) w s f =
    rw (writer_do_healthy (update_mail_flags_stmt a b c d name i) tt w f) (
      zeroed (update_flags name i a b c d) w (look w.tables)
        (update_mail_flags_stmt a b c d name i w.tables)
        (tt, λ n k. update_look name i a b c d w.tables n k w.clock))
run_refines (delete name i) w s f = rw (writer_do_healthy (delete_mail_stmt name i) tt w f) (
    zeroed (delete name i) w (look w.tables) (delete_mail_stmt name i w.tables)
      (tt, λ n k. delete_look name i w.tables n k w.clock))
run_refines (expunge name) w s f = rw (writer_do_healthy (expunge_mail_stmt name) tt w f) (
    zeroed (expunge name) w (look w.tables) (expunge_mail_stmt name w.tables)
      (tt, λ n k. expunge_look name w.tables n k w.clock s))
run_refines (move name i to) w s f =
    rw (writer_do_healthy (move_mail_stmt to name i) tt w f)
      (zeroed (move name i to) w (look w.tables) _ (move_look name i to w.tables w.clock))
