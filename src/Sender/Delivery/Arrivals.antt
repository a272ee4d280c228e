-- ===== src/Sender/Delivery/Arrivals.antt =====
-- What reaches a server that takes every mail.
use yggmail.Base.{
  ℕ, ◌+◌, String, Bool, true, false, not, ◌&&◌, ◌≡◌, refl, sym, ◌∙◌, List, [], ◌∷◌, some, any,
  any-append, any-perm, find, filter, update_if, str_eq, eq_refl, ◌==◌, ==_iff, bytes_eq,
  bytes_eq_iff, arith, pos, int_eq, inl, inr, Bool-cases,
}
use yggmail.Exec.{done, for_each}
use yggmail.Exec.Preserves.{
  Preserves-bind, Preserves-pure, Preserves-for_each, bind-from, attempt-from, preserves_rules,
}
use yggmail.Exec.Completes.{Completes-attempt, bind-ensures, for_each-cons}
use yggmail.Storage.Types.{QueueRow, Mail, QueuedMail, Db, is_mail, in_mailbox}
use yggmail.Storage.Engine.{Engine, by_id}
use yggmail.Storage.Mails.{mail_select, mail_delete, delete_mail_stmt, inbox, number_rows}
use yggmail.Storage.Queue.{
  to_queued_mail, is_entry, queue_delete_destination_for_id, queue_select_is_message_pending_send,
  delete_destination_stmt,
}
use mathlib.Core.Path.{subst}
use yggmail.Storage.Queue.Sorting.{entry_is_read, any-read}
use yggmail.Storage.Integrity.Rules.{
  OnTables, Preserves-statement, Preserves-writer_do, Preserves-read,
}
use yggmail.Sender.Node.{Node, Attempt, Delivered}
use yggmail.Sender.Delivery.{Remote, accept_mail, send, deliver_found, deliver_ref, run}
use yggmail.Sender.Delivery.Stops.{
  NeverPanics-stored, settle_entry-NeverPanics, deliver_ref-Completes,
}
use yggmail.Sender.Delivery.Kept
use yggmail.Sender.Delivery.Kept.{OnWorld, Rounds}
use yggmail.Sender.Delivery.Calls.{Healthy, calls-Healthy}
use yggmail.Sender.Delivery.Taking.{IsTaking, passed_all}
use yggmail.Sender.Delivery.Settling.{find_mail, deliver_ref-found, refs_of, run-refs}
use yggmail.Sender.Delivery.Delivers.{Accepted, deliver_ref-Sent, run_end-Sent}

-- The Outbox holds a mail with this id, and these are its bytes.
unfoldable pub Holds : ℕ → List ℕ → Db → Type 0
Holds id bytes db =
    (any (is_mail "Outbox" (pos id)) db.mails ≡ true)
    × (any (λ m. is_mail "Outbox" (pos id) m && not (bytes_eq bytes m.mail)) db.mails ≡ false)

any-update_if_same :
    (p q : Mail → Bool) (f : Mail → Mail) (rows : List Mail)
    → ((m : Mail) → p (f m) ≡ p m)
    → any p (update_if q f rows) ≡ any p rows
any-update_if_same p q f [] h = refl
any-update_if_same p q f (m ∷ rows) h = ground (arith, any-update_if_same p q f rows, h m)

rounds-Holds : (e : Engine) (id : ℕ) (bytes : List ℕ) → Rounds e (OnTables (Holds id bytes))
unfolding mail_select queue_delete_destination_for_id queue_select_is_message_pending_send
    mail_delete delete_destination_stmt delete_mail_stmt Holds is_mail
rounds-Holds e id bytes = record {
  select = λ a i. Preserves-read (Holds id bytes) _ (λ db. ground arith);
  forget = λ d i.
      Preserves-writer_do (Holds id bytes) tt _
        (Preserves-statement (Holds id bytes) _ (λ db h. h));
  pending = λ a i.
      Preserves-bind _ _ (Preserves-read (Holds id bytes) _ (λ db. refl))
        (λ count. Preserves-pure _);
  delete = λ a i. Preserves-writer_do (Holds id bytes) tt _ (
      Preserves-statement (Holds id bytes) _ (λ db h. (
        any-update_if_same (is_mail "Outbox" (pos id)) (is_mail a i)
              (λ m. record m { deleted = true }) db.mails (λ m. refl)
            ∙ h.0,
        any-update_if_same (λ m. is_mail "Outbox" (pos id) m && not (bytes_eq bytes m.mail))
              (is_mail a i) (λ m. record m { deleted = true }) db.mails (λ m. refl)
            ∙ h.1,
      )));
}

find-Holds :
    (id : ℕ) (bytes : List ℕ) (s : ℕ) (ms : List Mail)
    → any (is_mail "Outbox" (pos id)) ms ≡ true
    → any (λ m. is_mail "Outbox" (pos id) m && not (bytes_eq bytes m.mail)) ms ≡ false
    → (r : ℕ × Mail) × (find
          (λ r. int_eq (pos id) r.1.id)
          (number_rows s (filter (in_mailbox "Outbox") ms))
        ≡ some r)
      × (bytes_eq bytes r.1.mail ≡ true)
unfolding number_rows is_mail in_mailbox
find-Holds id bytes s [] h g = cc
find-Holds id bytes s (m ∷ ms) h g = elim (Bool-cases (str_eq "Outbox" m.mailbox)) [
  | inl a ↦ elim (Bool-cases (id == m.id)) [
    | inl b ↦ ((s, m), rw a (rw b refl), ground arith)
    | inr b ↦
        let (r, q, c) = find-Holds id bytes (s + 1) ms (ground arith) (ground arith) in
        (r, rw a (rw b q), c)
  ]
  | inr a ↦ let (r, q, c) = find-Holds id bytes s ms (ground arith) (ground arith) in (r, rw a q, c)
]

-- An attempt at which every step is taken, the answer to the data as well.
abbrev pub IsAccepting : Attempt → Type 0
IsAccepting a = IsTaking a × (a.accept ≡ true)

accept_now :
    (b : Bool) (r : Delivered) (bytes : List ℕ) (n : Node)
    → b ≡ true
    → bytes_eq bytes r.mail ≡ true
    → Accepted r.destination r.id bytes (accept_mail b r n).1
unfolding accept_mail
accept_now false r bytes n h g = cc
accept_now true r bytes n h g =
    any-append (λ a. str_eq r.destination a.destination && (r.id == a.id && bytes_eq bytes a.mail))
      n.accepted (r ∷ [])
    ∙ ground (arith, eq_refl r.destination)

send-Accepted :
    (a : Attempt) (d : String) (ref : QueuedMail) (bytes content : List ℕ) (n : Node)
    → IsAccepting a
    → bytes_eq bytes content ≡ true
    → Accepted d ref.id bytes (send a d ref content n).1
unfolding send
send-Accepted a d ref bytes content n (taken, accepts) h =
    let P : Node → Type 0 = Accepted d ref.id bytes in
    passed_all P a _ n taken (
      bind-ensures P _ _
        (Completes-attempt _ (NeverPanics-stored _ (settle_entry-NeverPanics d ref.id)))
        (λ result s.
          bind-from P _ _ s (λ u. search preserves_rules)
            (accept_now a.accept
              (record {
                destination = d;
                id = ref.id;
                from = ref.from;
                rcpt = ref.rcpt;
                mail = content;
              })
              bytes s accepts h))
        n)

module _ (e : Engine) (remote : Remote) (d : String) (id : ℕ) (bytes : List ℕ) where
  find_mail-Holds :
      (db : Db)
      → Holds id bytes db
      → (r : ℕ × Mail) × (find_mail e remote d id db ≡ some r) × (bytes_eq bytes r.1.mail ≡ true)
  unfolding Holds find_mail inbox
  find_mail-Holds db h =
      find-Holds id bytes 1 (e.scan_mails (by_id "Outbox" (pos id)) db.mails)
        (any-perm (is_mail "Outbox" (pos id)) (e.scan_mails-perm (by_id "Outbox" (pos id)) db.mails)
          ∙ h.0)
        (any-perm (λ m. is_mail "Outbox" (pos id) m && not (bytes_eq bytes m.mail))
            (e.scan_mails-perm (by_id "Outbox" (pos id)) db.mails)
          ∙ h.1)

  -- The attempts for the mail are accepted, for entries that pass the test.
  Takes : (QueuedMail → Bool) → Type 0
  Takes p = (ref : QueuedMail) → ref.id ≡ id → p ref ≡ true → IsAccepting (remote ref bytes)

  deliver_found-Accepted :
      (p : QueuedMail → Bool)
      → Takes p
      → (ref : QueuedMail) (r : ℕ × Mail) (n : Node) → ref.id ≡ id
      → p ref ≡ true
      → bytes_eq bytes r.1.mail ≡ true
      → Accepted d id bytes (deliver_found remote d ref (done r) n).1
  unfolding deliver_found Takes
  deliver_found-Accepted p takes ref (seq, m) n q t h =
      let P : Node → Type 0 = Accepted d id bytes in
      let same : bytes ≡ m.mail = (bytes_eq_iff bytes m.mail).0 h in
      let a : IsAccepting (remote ref m.mail) =
        subst (λ b. IsAccepting (remote ref b)) same (takes ref q t) in
      bind-from P _ _ n (λ result. search preserves_rules)
        (attempt-from P _ n
          (rw (sym q) (send-Accepted (remote ref m.mail) d ref bytes m.mail n a h)))

  deliver_ref-Accepted :
      (p : QueuedMail → Bool)
      → Takes p
      → (ref : QueuedMail) (n : Node) → ref.id ≡ id
      → p ref ≡ true
      → Healthy n.world
      → Holds id bytes n.world.tables
      → Accepted d id bytes (deliver_ref e remote d ref n).1
  deliver_ref-Accepted p takes ref n q t h g =
      let (r, found, same) = find_mail-Holds n.world.tables g in
      rw (deliver_ref-found e remote d ref n (some r) h (rw q found))
        (deliver_found-Accepted p takes ref r n q t same)

  for_each-Accepted :
      (p : QueuedMail → Bool)
      → Takes p
      → (refs : List QueuedMail) (n : Node) → Healthy n.world
      → Holds id bytes n.world.tables
      → any (λ (r : QueuedMail). id == r.id && not (p r)) refs ≡ false
      → any (λ (r : QueuedMail). id == r.id) refs ≡ true
      → Accepted d id bytes (for_each refs (deliver_ref e remote d) n).1
  for_each-Accepted p takes [] n h g o q = cc
  for_each-Accepted p takes (ref ∷ refs) n h g o q =
      let healthy = Kept.deliver_ref-Kept e (Kept.rounds_of (calls-Healthy e)) remote d ref in
      let held = Kept.deliver_ref-Kept e (rounds-Holds e id bytes) remote d ref in
      let rest =
        Preserves-for_each refs (deliver_ref e remote d) (deliver_ref-Sent d id bytes e remote d) in
      rw (for_each-cons ref refs (deliver_ref e remote d) n (deliver_ref-Completes e remote d ref))
        (elim (Bool-cases (id == ref.id)) [
          | inl t ↦
              rest.from_state _ (
                deliver_ref-Accepted p takes ref n (sym ((==_iff id ref.id).0 t)) (ground arith) h
                  g)
          | inr t ↦
              for_each-Accepted p takes refs (deliver_ref e remote d ref n).1
                (healthy.from_state n h) (held.from_state n g) (ground arith) (ground arith)
        ])

  -- A mail in the Outbox that is queued for a destination has been accepted there, with its bytes,
  -- after a run of that queue, where no call of the engine fails and the server takes every step of
  -- the attempts at this mail that pass a test, as all the queue's entries for its id do.
  pub run_delivers_this :
      (p : QueuedMail → Bool) (n : Node)
      → ((ref : QueuedMail) → ref.id ≡ id → p ref ≡ true → IsAccepting (remote ref bytes))
      → n.world.faults ≡ []
      → Holds id bytes n.world.tables
      → any
          (λ q. str_eq d q.destination && (id == q.id && not (p (to_queued_mail q))))
          n.world.tables.queue
        ≡ false
      → any (is_entry d "Outbox" (pos id)) n.world.tables.queue ≡ true
      → Accepted d id bytes (run e remote d n).1
  unfolding Healthy refs_of Takes
  run_delivers_this p n takes h g o q = rw (run-refs e remote d n h) (
      bind-from (Accepted d id bytes) _ _ n (λ u. run_end-Sent d id bytes e remote d)
        (for_each-Accepted p takes (refs_of e remote d n.world.tables) n h g
          (any-read e d (λ r. id == r.id && not (p r)) n.world.tables ∙ o)
          (entry_is_read e d id n.world.tables q)))

  no_other :
      (rows : List QueueRow)
      → any (λ q. str_eq d q.destination && (id == q.id && not true)) rows ≡ false
  no_other [] = refl
  no_other (q ∷ rows) = ground (arith, no_other rows)

  -- A mail in the Outbox that is queued for a destination has been accepted there, with its bytes,
  -- after a run of that queue, where no call of the engine fails and the server takes every step of
  -- every attempt.
  pub run_delivers :
      (n : Node)
      → ((ref : QueuedMail) (content : List ℕ) → IsAccepting (remote ref content))
      → n.world.faults ≡ []
      → Holds id bytes n.world.tables
      → any (is_entry d "Outbox" (pos id)) n.world.tables.queue ≡ true
      → Accepted d id bytes (run e remote d n).1
  run_delivers n takes h g q =
      run_delivers_this (λ r. true) n (λ ref s t. takes ref bytes) h g
        (no_other n.world.tables.queue) q
