-- ===== src/Sender/Delivery/Settling.antt =====
-- What a run of a queue brings about for the mail of one of its entries, where the other side takes
-- the mail.
use yggmail.Base.{
  ℕ, ◌+◌, String, Bool, true, false, Bool-cases, ◌==◌, ==_iff, ◌≡◌, refl, sym, ◌∙◌, inl, inr, List,
  [], ◌∷◌, Option, none, some, pos, int_eq, map, str_eq, any, filter, find, arith, any-perm,
  Option-cases,
}
use yggmail.Exec.{ok, err, no_rows, done, failed, attempt, for_each, ◌>>=◌}
use yggmail.Exec.Preserves.{Preserves-for_each, bind-from, attempt-from, preserves_rules}
use yggmail.Storage.Types.{Mail, QueuedMail, Db, World, is_mail, in_mailbox}
use yggmail.Storage.Engine.{Engine, by_id, entries}
use yggmail.Storage.Writer.{statement}
use yggmail.Storage.Mails.{mail_expunge, mail_select, select_mail_stmt, inbox, number_rows}
use yggmail.Storage.Queue.{
  queue_mail_ids_for_destination, queue_select_ids_for_destination_stmt, sort_desc, to_queued_mail,
}
use yggmail.Sender.Node.{Node, Attempt, stored}
use yggmail.Sender.Delivery.{
  Remote, send, deliver_found, deliver_ref, run, settle_entry, stop_running,
}
use yggmail.Exec.Completes.{for_each-cons}
use yggmail.Sender.Delivery.Taking.{IsTaking, passed_all}
use yggmail.Sender.Delivery.Stops.{deliver_ref-Completes}
use yggmail.Sender.Delivery.Kept
use yggmail.Sender.Delivery.Kept.{OnWorld, Rounds}
use yggmail.Sender.Delivery.Calls.{Healthy}

find-none :
    (a : String) (id s : ℕ) (ms : List Mail)
    → find (λ r. int_eq (pos id) r.1.id) (number_rows s (filter (in_mailbox a) ms)) ≡ none
    → any (is_mail a (pos id)) ms ≡ false
unfolding number_rows is_mail in_mailbox
find-none a id s [] h = refl
find-none a id s (m ∷ ms) h = ground (arith, find-none a id s ms, find-none a id (s + 1) ms)

module _ (e : Engine) (remote : Remote) (d : String) where
  -- What `MailSelect` finds in a healthy world, and what that says where it finds nothing.
  unfoldable pub find_mail : ℕ → Db → Option (ℕ × Mail)
  find_mail id db =
      find (λ r. int_eq (pos id) r.1.id) (inbox e (by_id "Outbox" (pos id)) "Outbox" db)

  -- A mail that is not found is not there.
  pub find_mail-none :
      (id : ℕ) (db : Db) → find_mail id db ≡ none → any (is_mail "Outbox" (pos id)) db.mails ≡ false
  unfolding find_mail inbox
  find_mail-none id db q =
      sym (
        any-perm (is_mail "Outbox" (pos id)) (e.scan_mails-perm (by_id "Outbox" (pos id)) db.mails))
      ∙ find-none "Outbox" id 1 (e.scan_mails (by_id "Outbox" (pos id)) db.mails) q

  selects :
      (faults : List Bool) (w : World) (id : ℕ) (o : Option (ℕ × Mail))
      → faults ≡ []
      → find_mail id w.tables ≡ o
      → mail_select e "Outbox" (pos id) (record w { faults = faults })
        ≡ (elim o [ none ↦ err no_rows | some r ↦ ok r ], record w { faults = faults })
  unfolding mail_select statement select_mail_stmt find_mail
  selects [] w id none h q = rw (q, select_mail_stmt) refl
  selects [] w id (some r) h q = rw (q, select_mail_stmt) refl
  selects (b ∷ rest) w id o h q = cc

  pub deliver_ref-found :
      (ref : QueuedMail) (n : Node) (o : Option (ℕ × Mail))
      → Healthy n.world
      → find_mail ref.id n.world.tables ≡ o
      → deliver_ref e remote d ref n
        ≡ deliver_found remote d ref (elim o [ none ↦ failed no_rows | some r ↦ done r ]) n
  unfolding deliver_ref stored Healthy ◌>>=◌
  deliver_ref-found ref n none h q = rw (selects n.world.faults n.world ref.id none h q) refl
  deliver_ref-found ref n (some r) h q =
      rw (selects n.world.faults n.world ref.id (some r) h q) refl

  unfoldable pub refs_of : Db → List QueuedMail
  refs_of db =
      map to_queued_mail
        (sort_desc (filter (λ r. str_eq d r.destination) (e.scan_queue (entries d) db.queue)))

  ids_found :
      (faults : List Bool) (w : World)
      → faults ≡ []
      → queue_mail_ids_for_destination e d (record w { faults = faults })
        ≡ (ok (refs_of w.tables), record w { faults = faults })
  unfolding queue_mail_ids_for_destination statement queue_select_ids_for_destination_stmt refs_of
  ids_found [] w h = refl
  ids_found (b ∷ rest) w h = cc

  pub run-refs :
      (n : Node)
      → Healthy n.world
      → run e remote d n
        ≡ (for_each (refs_of n.world.tables) (deliver_ref e remote d) >>= λ _.
              attempt (stored (mail_expunge "Outbox")) >>= λ _. stop_running e remote d)
            n
  unfolding run stored Healthy ◌>>=◌
  run-refs n h = rw (ids_found n.world.faults n.world h) refl

-- `I` holds while the entry is worked on. Settling the entry brings `P` about, and so does its mail
-- being gone.
pub record Settles (e : Engine) (remote : Remote) (d : String) (id : ℕ) (I P : World → Type 0)
    : Type 0 where
  pub during : Rounds e I
  pub keeps : Rounds e P
  pub healthy : (w : World) → I w → Healthy w
  pub settled : (w : World) → I w → P (settle_entry d id w).1
  pub missing : (w : World) → I w → find_mail e remote d id w.tables ≡ none → P w

module _ (e : Engine) (remote : Remote) (d : String) (id : ℕ) {I P : World → Type 0}
    (h : Settles e remote d id I P)
    (taking : (ref : QueuedMail) (bytes : List ℕ) → IsTaking (remote ref bytes)) where
  send-settles :
      (a : Attempt) (ref : QueuedMail) (bytes : List ℕ) (n : Node)
      → IsTaking a
      → ref.id ≡ id
      → I n.world
      → OnWorld P (send a d ref bytes n).1
  unfolding send stored
  send-settles a ref bytes n taken q i = passed_all (OnWorld P) a _ n taken (
      bind-from (OnWorld P) _ _ n (λ result. search (preserves_rules, Kept.accept_mail-Kept P))
        (attempt-from (OnWorld P) _ n (rw q (h.settled n.world i))))

  found_taken :
      (ref : QueuedMail) (r : ℕ × Mail) (n : Node)
      → ref.id ≡ id
      → I n.world
      → OnWorld P (deliver_found remote d ref (done r) n).1
  unfolding deliver_found
  found_taken ref (seq, m) n q i =
      bind-from (OnWorld P) _ _ n (λ result. search preserves_rules)
        (attempt-from (OnWorld P) _ n
          (send-settles (remote ref m.mail) ref m.mail n (taking ref m.mail) q i))

  deliver_ref-settles :
      (ref : QueuedMail) (n : Node)
      → ref.id ≡ id
      → I n.world
      → OnWorld P (deliver_ref e remote d ref n).1
  deliver_ref-settles ref n q i =
      let found = deliver_ref-found e remote d ref n in
      let missed = Kept.deliver_found-Kept e h.keeps remote d ref (failed no_rows) in
      elim (Option-cases (find_mail e remote d ref.id n.world.tables)) [
        | inl f ↦
            rw (found none (h.healthy n.world i) f)
              (missed.from_state n (h.missing n.world i (rw (← q) f)))
        | inr (r, f) ↦ rw (found (some r) (h.healthy n.world i) f) (found_taken ref r n q i)
      ]

  pub rounds_settle :
      (refs : List QueuedMail) (n : Node)
      → I n.world
      → any (λ (r : QueuedMail). id == r.id) refs ≡ true
      → OnWorld P (for_each refs (deliver_ref e remote d) n).1
  rounds_settle [] n i q = cc
  rounds_settle (ref ∷ refs) n i q =
      let during = Kept.deliver_ref-Kept e h.during remote d ref in
      let rest =
        Preserves-for_each refs (deliver_ref e remote d)
          (Kept.deliver_ref-Kept e h.keeps remote d) in
      rw (for_each-cons ref refs (deliver_ref e remote d) n (deliver_ref-Completes e remote d ref))
        (elim (Bool-cases (id == ref.id)) [
          | inl t ↦ rest.from_state _ (deliver_ref-settles ref n (sym ((==_iff id ref.id).0 t)) i)
          | inr t ↦
              rounds_settle refs (deliver_ref e remote d ref n).1 (during.from_state n i)
                (ground arith)
        ])
