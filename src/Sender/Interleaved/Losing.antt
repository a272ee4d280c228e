-- ===== src/Sender/Interleaved/Losing.antt =====
-- `QueueFor` between the two halves of a settlement: the entries of a mail have been counted, and
-- the mail is not yet deleted.
use yggmail.Base.{
  ℕ, String, Bool, true, false, ◌≡◌, ◌≢◌, refl, sym, List, [], ◌∷◌, pos, any, filter, ◌++◌, str_eq,
  str_ne, int_eq, ◌&&◌, arith,
}
use yggmail.Exec.{ok, ◌>>=◌}
use yggmail.Exec.Preserves.{kept_at}
use yggmail.Storage.Types.{QueuedMail, QueueRow, World, is_mail, delete_mails}
use yggmail.Storage.Engine.{Engine}
use yggmail.Storage.Healthy.{statement_healthy, writer_do_healthy}
use yggmail.Storage.Mails.{mail_delete, mail_expunge, delete_mail_stmt, expunge_mail_stmt}
use yggmail.Storage.Queue.{
  is_entry, queue_insert_destination_for_id, queue_select_is_message_pending_send,
  queue_pending_stmt,
}
use yggmail.Storage.Absence.{no_mail_no_entry}
use yggmail.Storage.Integrity.Operations
use yggmail.Storage.Integrity.Operations.{Sound}
use yggmail.Sender.Node.{Node, Attempt, Delivered, stored}
use yggmail.Sender.Queues.Queuing.{new_entry, with_entry, insert_new}
use yggmail.Sender.Delivery.{Remote, accept_mail}
use yggmail.Sender.Delivery.Removal.{marked_now, none_kept, count_none}
use yggmail.Sender.Interleaved.{
  counting, deleting, expunging, stopping, advance, Senders, SenderSteps,
}
use yggmail.Sender.Interleaved.Attempting.{Runs, one, more, stop}
use yggmail.Sender.Interleaved.Alone.{arrives}

-- The world after the mail is marked and the Outbox expunged.
abbrev cleared : ℕ → World → World
cleared id w = (mail_expunge "Outbox" (mail_delete "Outbox" (pos id) w).1).1

cleared-Sound : (id : ℕ) (w : World) → Sound w → Sound (cleared id w)
cleared-Sound id w s =
    (Operations.mail_expunge-Sound "Outbox").from_state _
      ((Operations.mail_delete-Sound "Outbox" (pos id)).from_state w s)

mail_delete_lem :
    (id : ℕ) (w : World)
    → w.faults ≡ []
    → mail_delete "Outbox" (pos id) w
      ≡ (ok tt, record w { tables = (delete_mail_stmt "Outbox" (pos id) w.tables).1 })
unfolding mail_delete delete_mail_stmt
mail_delete_lem id w h = writer_do_healthy (delete_mail_stmt "Outbox" (pos id)) tt w h

mail_expunge_lem :
    (w : World)
    → w.faults ≡ []
    → mail_expunge "Outbox" w
      ≡ (ok tt, record w { tables = (expunge_mail_stmt "Outbox" w.tables).1 })
unfolding mail_expunge expunge_mail_stmt
mail_expunge_lem w h = writer_do_healthy (expunge_mail_stmt "Outbox") tt w h

cleared-gone :
    (id : ℕ) (w : World)
    → w.faults ≡ []
    → any
        (is_mail "Outbox" (pos id))
        (mail_expunge "Outbox" (mail_delete "Outbox" (pos id) w).1).1.tables.mails
      ≡ false
unfolding delete_mail_stmt expunge_mail_stmt delete_mails
cleared-gone id w h =
    let marked : World = record w { tables = (delete_mail_stmt "Outbox" (pos id) w.tables).1 } in
    rw (mail_delete_lem id w h, mail_expunge_lem marked h)
      (none_kept id marked.tables.mails (marked_now id w.tables.mails))

pending_none :
    (id : ℕ) (w : World)
    → w.faults ≡ []
    → any (λ q. str_eq "Outbox" q.mailbox && int_eq (pos id) q.id) w.tables.queue ≡ false
    → queue_select_is_message_pending_send "Outbox" (pos id) w ≡ (ok false, w)
unfolding queue_select_is_message_pending_send queue_pending_stmt ◌>>=◌
pending_none id w h none =
    rw
      (
        statement_healthy (queue_pending_stmt "Outbox" (pos id)) w h,
        count_none w.tables.queue (λ q. str_eq "Outbox" q.mailbox && int_eq (pos id) q.id) none,
      )
      refl

module _ (e : Engine) (remote : Remote) (h : String) (ref : QueuedMail) (bytes : List ℕ) where
  -- The goroutine that has counted no entry deletes the mail, closes the connection and expunges.
  clears :
      (n : Node)
      → Runs e remote h
          (deleting ref bytes [])
          n
          stopping
          (stored
            (mail_expunge "Outbox")
            (accept_mail
              (remote ref bytes).accept
              (record {
                destination = h;
                id = ref.id;
                from = ref.from;
                rcpt = ref.rcpt;
                mail = bytes;
              })
              (stored (mail_delete "Outbox" (pos ref.id)) n).1).1).1
  unfolding advance
  clears n = more _ _ _ _ (more _ _ _ _ (more _ _ _ _ (one e remote h expunging _)))

  counts_none :
      (n : Node)
      → n.world.faults ≡ []
      → any (λ q. str_eq "Outbox" q.mailbox && int_eq (pos ref.id) q.id) n.world.tables.queue
        ≡ false
      → Runs e remote h (counting ref bytes []) n (deleting ref bytes []) n
  unfolding advance stored
  counts_none n f none = more _ _ _ _ (rw (pending_none ref.id n.world f none) (stop _ _))

-- An item at the end that the test refuses.
filter-refused :
    (p : Delivered → Bool) (x : Delivered) (xs : List Delivered)
    → p x ≡ false
    → filter p (xs ++ x ∷ []) ≡ filter p xs
filter-refused p x [] h = rw h refl
filter-refused p x (y ∷ xs) h = ground (arith, filter-refused p x xs h)

-- The mails that the destination has taken, in order.
abbrev pub got : String → Node → List Delivered
got d n = filter (λ x. str_eq d x.destination) n.accepted

other_accepts :
    (h d : String) (b : Bool) (x : Delivered) (n : Node)
    → h ≢ d
    → x.destination ≡ h
    → got d (accept_mail b x n).1 ≡ got d n
unfolding accept_mail
other_accepts h d true x n ne q =
    filter-refused (λ y. str_eq d y.destination) x n.accepted (rw q (str_ne d h (λ p. ne (sym p))))
other_accepts h d false x n ne q = refl

accept-world : (b : Bool) (x : Delivered) (n : Node) → (accept_mail b x n).1.world ≡ n.world
unfolding accept_mail
accept-world true x n = refl
accept-world false x n = refl

no_entry :
    (d : String) (id : ℕ) (rows : List QueueRow)
    → any (λ q. str_eq "Outbox" q.mailbox && int_eq (pos id) q.id) rows ≡ false
    → any (is_entry d "Outbox" (pos id)) rows ≡ false
unfolding is_entry
no_entry d id [] h = refl
no_entry d id (q ∷ rows) h = ground (arith, no_entry d id rows)

-- What the goroutine of another destination leaves, from where it deletes the mail on.
module _ (h : String) (b : Bool) (x : Delivered) (id : ℕ) (n : Node) where
  abbrev left : Node
  left =
      (stored (mail_expunge "Outbox")
        (accept_mail b x (stored (mail_delete "Outbox" (pos id)) n).1).1).1

  left-world : left.world ≡ (mail_expunge "Outbox" (mail_delete "Outbox" (pos id) n.world).1).1
  unfolding stored
  left-world = rw (accept-world b x (stored (mail_delete "Outbox" (pos id)) n).1) refl

  left-gone : n.world.faults ≡ [] → any (is_mail "Outbox" (pos id)) left.world.tables.mails ≡ false
  left-gone f = rw left-world (cleared-gone id n.world f)

  left-no_entry :
      (d : String)
      → Sound n.world
      → n.world.faults ≡ []
      → any (is_entry d "Outbox" (pos id)) left.world.tables.queue ≡ false
  left-no_entry d s f =
      let sound : Sound left.world = rw left-world (cleared-Sound id n.world s) in
      no_mail_no_entry d "Outbox" id left.world.tables sound (left-gone f)

  left-accepted : (d : String) → h ≢ d → x.destination ≡ h → got d left ≡ got d n
  unfolding stored
  left-accepted d ne q = other_accepts h d b x (stored (mail_delete "Outbox" (pos id)) n).1 ne q

module _ (e : Engine) (Allowed : String → Attempt → Type 0) (remote : Remote) (h d : String)
    (ref : QueuedMail) (bytes : List ℕ) (from rcpt : String)
    (allowed : (r : QueuedMail) (b : List ℕ) → Allowed h (remote r b)) where
  from_deleting :
      (u : Senders) (n : Node)
      → u.at h ≡ deleting ref bytes []
      → u.node ≡ n
      → h ≢ d
      → Sound n.world
      → n.world.faults ≡ []
      → (t : Senders) × SenderSteps e Allowed u t
        × (any (is_mail "Outbox" (pos ref.id)) t.node.world.tables.mails ≡ false)
        × (any (is_entry d "Outbox" (pos ref.id)) t.node.world.tables.queue ≡ false)
        × (got d t.node ≡ got d n)
  from_deleting u n ua un ne sound f =
      let x : Delivered = record {
        destination = h;
        id = ref.id;
        from = ref.from;
        rcpt = ref.rcpt;
        mail = bytes;
      } in
      let b = (remote ref bytes).accept in
      let (t, steps, tn, _, _) =
        arrives e Allowed remote h allowed (clears e remote h ref bytes n) u ua un in
      (
        t,
        steps,
        rw tn (left-gone h b x ref.id n f),
        rw tn (left-no_entry h b x ref.id n d sound f),
        rw tn (left-accepted h b x ref.id n d ne refl),
      )

  -- A goroutine that is about to count the entries of its last mail, of which none is left, can go
  -- on so that an entry that `QueueFor` stores for another destination meanwhile is lost: it is
  -- stored without an error, and then neither it nor the mail is there, while the list of the mails
  -- that the destination has taken is the one from before. The mail is in the Outbox, the tables are sound, and no call of the engine
  -- fails.
  pub queue_for_lost :
      (s : Senders)
      → h ≢ d
      → s.at h ≡ counting ref bytes []
      → any (λ q. str_eq "Outbox" q.mailbox && int_eq (pos ref.id) q.id) s.node.world.tables.queue
        ≡ false
      → any (is_mail "Outbox" (pos ref.id)) s.node.world.tables.mails ≡ true
      → Sound s.node.world
      → s.node.world.faults ≡ []
      → let insert = stored (queue_insert_destination_for_id d (pos ref.id) from rcpt) in
        (u : Senders) × (t : Senders) × SenderSteps e Allowed s u
        × ((insert u.node).0 ≡ ok tt)
        × SenderSteps e Allowed (record u { node = (insert u.node).1 }) t
        × (any (is_mail "Outbox" (pos ref.id)) t.node.world.tables.mails ≡ false)
        × (any (is_entry d "Outbox" (pos ref.id)) t.node.world.tables.queue ≡ false)
        × (got d t.node ≡ got d s.node)
  unfolding stored with_entry
  queue_for_lost s ne a none there sound f =
      let (u, to_u, un, ua, _) =
        arrives e Allowed remote h allowed (counts_none e remote h ref bytes s.node f none) s a
          refl in
      let inserted =
        insert_new d ref.id from rcpt s.node.world
          (no_entry d ref.id s.node.world.tables.queue none) there f in
      let new : World = with_entry s.node.world (new_entry d ref.id from rcpt) in
      let new_sound : Sound new =
        kept_at (Operations.queue_insert_destination_for_id-Sound d (pos ref.id) from rcpt) inserted
          sound in
      let new_node : Node = record s.node { world = new } in
      let v : Senders = record u {
        node = record u.node {
          world = (queue_insert_destination_for_id d (pos ref.id) from rcpt u.node.world).1;
        };
      } in
      let vn : v.node ≡ new_node = rw (un, inserted) refl in
      let (t, to_t, gone, no_entry_left, accepted) =
        from_deleting v new_node ua vn ne new_sound f in
      (u, t, to_u, rw (un, inserted) refl, to_t, gone, no_entry_left, accepted)
