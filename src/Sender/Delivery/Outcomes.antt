-- ===== src/Sender/Delivery/Outcomes.antt =====
-- What becomes of a mail that the other side does not take.
use yggmail.Base.{
  ℕ, String, Bool, true, false, ◌&&◌, ◌≡◌, ◌≢◌, refl, List, ℤ, pos, any, arith, any-filter_others,
  any_mono, any-false_of_All, All-of, not_true, eq_iff, &&-eq-true, any-filter-false,
}
use yggmail.Exec.{Error, Exec, Done, Tried, done, failed, ◌>>=◌}
use yggmail.Exec.Preserves.{
  Preserves, Preserves-bind, Preserves-pure, Preserves-attempt, Preserves-for_each, preserves_rules,
}
use yggmail.Storage.Types.{
  Mail, QueuedMail, QueueRow, Db, World, is_mail, in_mailbox, owns, delete_mails,
}
use yggmail.Storage.Engine.{Engine}
use yggmail.Storage.Mails.{mail_select, mail_expunge, expunge_mail_stmt}
use yggmail.Storage.Queue.{
  queue_mail_ids_for_destination, queue_delete_destination_for_id, is_entry,
  delete_destination_stmt,
}
use yggmail.Storage.Integrity.Rules.{
  OnTables, Preserves-statement, Preserves-writer_do, Preserves-read,
}
use yggmail.Sender.Node.{Node, Attempt}
use yggmail.Sender.Delivery.{
  Remote, require, send, deliver_found, deliver_ref, stop_running, run, refs_or_none,
}
use yggmail.Sender.Delivery.Kept.{OnWorld, Preserves-stored}

-- Some step up to the end of the data fails.
abbrev pub reaches_end : Attempt → Bool
reaches_end a =
    a.dial && (a.client && (a.hello && (a.mail && (a.rcpt && (a.start_data && a.write)))))

-- The mail of the Outbox is queued for the destination, and not marked as deleted.
unfoldable pub Queued : String → ℕ → Db → Type 0
Queued d id db =
    (any (is_entry d "Outbox" (pos id)) db.queue ≡ true)
    × (any (λ m. is_mail "Outbox" (pos id) m && m.deleted) db.mails ≡ false)

unless :
    {P : Node → Type 0} (b : Bool) (x : Error) (m : Exec Node Done)
    → (b ≡ true → Preserves P m)
    → Preserves P (require b x >>= λ _. m)
unfolding require ◌>>=◌
unless true x m h = record { from_state = λ n p. (h refl).from_state n p }
unless false x m h = record { from_state = λ n p. p }

pub send-refused :
    {P : Node → Type 0} (a : Attempt) (d : String) (ref : QueuedMail) (bytes : List ℕ)
    → reaches_end a ≡ false
    → Preserves P (send a d ref bytes)
unfolding send
send-refused a d ref bytes h = unless _ _ _ λ q1. unless _ _ _ λ q2. unless _ _ _ λ q3.
    unless _ _ _
      λ q4. unless _ _ _ λ q5. unless _ _ _ λ q6. unless _ _ _ λ q7. absurd (ground arith)

module _ (e : Engine) (d : String) (id : ℕ) where
  abbrev pub Waits : World → Type 0
  Waits = OnTables (Queued d id)

  other_entry :
      (c : String) (i : ℤ) (q : QueueRow)
      → d ≢ c
      → (is_entry c "Outbox" i q && is_entry d "Outbox" (pos id) q) ≡ false
  unfolding is_entry
  other_entry c i q h = not_true _ λ t.
      h (cc ((eq_iff c q.destination).0 (ground arith), (eq_iff d q.destination).0 (ground arith)))

  -- To delete an entry of another destination.
  pub forget-Waits :
      (c : String) (i : ℤ) → d ≢ c → Preserves Waits (queue_delete_destination_for_id c i)
  unfolding queue_delete_destination_for_id delete_destination_stmt Queued
  forget-Waits c i h = Preserves-writer_do (Queued d id) tt _ (
      Preserves-statement (Queued d id) _ λ db p. (
        any-filter_others _ _ db.queue p.0
            (any-false_of_All _ db.queue (All-of _ db.queue (λ q. other_entry c i q h))),
        p.1,
      ))

  kept_entry :
      (db : Db) (q : QueueRow)
      → any (λ m. is_mail "Outbox" (pos id) m && m.deleted) db.mails ≡ false
      → (any (λ m. (in_mailbox "Outbox" m && m.deleted) && owns m q) db.mails
          && is_entry d "Outbox" (pos id) q)
        ≡ false
  unfolding is_entry owns in_mailbox is_mail
  kept_entry db q h = not_true _ λ t. cc (
    h,
    any_mono _ (λ m. is_mail "Outbox" (pos id) m && m.deleted) db.mails
        (λ m o. ground (arith, eq_iff m.mailbox q.mailbox, eq_iff "Outbox" q.mailbox))
        (&&-eq-true _ _ t).0,
  )

  pub expunge-Waits : Preserves Waits (mail_expunge "Outbox")
  unfolding mail_expunge expunge_mail_stmt delete_mails Queued
  expunge-Waits = Preserves-writer_do (Queued d id) tt _ (
      Preserves-statement (Queued d id) _ λ db p. (
        any-filter_others _ _ db.queue p.0
            (any-false_of_All _ db.queue (All-of _ db.queue (λ q. kept_entry db q p.1))),
        any-filter-false _ _ db.mails p.1,
      ))

  module _ (remote : Remote) where
    deliver_found-Waits :
        (ref : QueuedMail) (found : Tried (ℕ × Mail))
        → d ≢ "Outbox"
        → ((ref : QueuedMail) (bytes : List ℕ) → reaches_end (remote ref bytes) ≡ false)
        → Preserves (OnWorld Waits) (deliver_found remote d ref found)
    unfolding deliver_found
    deliver_found-Waits ref (done (seq, m)) h refused =
        Preserves-bind _ _
          (Preserves-attempt _ (send-refused (remote ref m.mail) d ref m.mail (refused ref m.mail)))
          (λ _. Preserves-pure tt)
    deliver_found-Waits ref (failed x) h refused =
        search (preserves_rules, Preserves-stored, forget-Waits)

    deliver_ref-Waits :
        (ref : QueuedMail)
        → d ≢ "Outbox"
        → ((ref : QueuedMail) (bytes : List ℕ) → reaches_end (remote ref bytes) ≡ false)
        → Preserves (OnWorld Waits) (deliver_ref e remote d ref)
    unfolding deliver_ref mail_select
    deliver_ref-Waits ref h refused =
        Preserves-bind _ _
          (Preserves-attempt _
            (Preserves-stored _ (Preserves-read (Queued d id) _ (λ db. ground arith))))
          (λ found. deliver_found-Waits ref found h refused)

    run-Waits :
        d ≢ "Outbox"
        → ((ref : QueuedMail) (bytes : List ℕ) → reaches_end (remote ref bytes) ≡ false)
        → Preserves (OnWorld Waits) (run e remote d)
    unfolding run queue_mail_ids_for_destination stop_running
    run-Waits h refused =
        Preserves-bind _ _
          (Preserves-attempt _ (Preserves-stored _ (Preserves-read (Queued d id) _ (λ db. refl))))
          λ refs.
            Preserves-bind _ _
              (Preserves-for_each (refs_or_none e remote d refs) (deliver_ref e remote d)
                (λ ref. deliver_ref-Waits ref h refused))
              λ _.
                Preserves-bind _ _ (Preserves-attempt _ (Preserves-stored _ expunge-Waits))
                  λ _. record { from_state = λ n p. p }

    -- While every attempt at a destination fails before the end of the data, a mail that is queued
    -- for it and not marked as deleted stays so through every run, whichever calls of the
    -- engine fail; the destination is not the name "Outbox".
    pub run_keeps :
        (n : Node)
        → d ≢ "Outbox"
        → ((ref : QueuedMail) (bytes : List ℕ) → reaches_end (remote ref bytes) ≡ false)
        → Queued d id n.world.tables
        → Queued d id (run e remote d n).1.world.tables
    run_keeps n h refused q = (run-Waits h refused).from_state n q
