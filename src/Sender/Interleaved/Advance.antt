-- ===== src/Sender/Interleaved/Advance.antt =====
-- One step of a goroutine, and a mail that waits for its destination.
use yggmail.Base.{
  ℕ, String, Bool, true, false, ◌&&◌, ◌≡◌, ◌≢◌, refl, List, [], ◌∷◌, pos, any, count_if, ltb,
  str_eq, ◌==◌, ==_iff, int_eq, arith, inl, inr, Bool-cases,
}
use yggmail.Exec.{Result, ok, err, panic, Done, is_no_rows, ◌>>=◌}
use yggmail.Storage.Types.{Mail, QueuedMail, QueueRow, World}
use yggmail.Storage.Engine.{Engine}
use yggmail.Storage.Writer.{statement}
use yggmail.Storage.Queue.{is_entry, queue_select_is_message_pending_send, queue_pending_stmt}
use yggmail.Sender.Node.{Node, stored}
use yggmail.Sender.Delivery.{Remote, accept_mail, stop_running}
use yggmail.Sender.Delivery.Outcomes.{reaches_end, Queued, forget-Waits, expunge-Waits}
use yggmail.Sender.Interleaved.{
  Point, idle, started, looping, missing, selected, written, counting, deleting, closing, expunging,
  stopping, on_ids, on_select, on_forget, on_pending, advance,
}
use yggmail.Sender.Interleaved.Calls.{delete-Waits, ids-Waits, select-Waits, pending-Waits}

-- The goroutine is about to delete the mail.
abbrev pub deletes : ℕ → Point → Bool
deletes id (deleting ref bytes refs) = id == ref.id
deletes id _ = false

-- The goroutine has written a mail and not yet deleted its entry.
abbrev pub is_written : Point → Bool
is_written (written ref bytes refs) = true
is_written _ = false

-- What the goroutine reads brings it to no deletion and no written mail.
module _ (id : ℕ) where
  after_ids :
      (r : Result (List QueuedMail))
      → (deletes id (on_ids r) ≡ false) × (is_written (on_ids r) ≡ false)
  after_ids (ok refs) = (refl, refl)
  after_ids (err x) = (refl, refl)
  after_ids panic = (refl, refl)

  after_select :
      (ref : QueuedMail) (refs : List QueuedMail) (r : Result (ℕ × Mail))
      → (deletes id (on_select ref refs r) ≡ false) × (is_written (on_select ref refs r) ≡ false)
  after_select ref refs (ok (seq, m)) = (refl, refl)
  after_select ref refs (err x) = elim (Bool-cases (is_no_rows x)) [
    | inl t ↦ rw t (refl, refl)
    | inr f ↦ rw f (refl, refl)
  ]
  after_select ref refs panic = (refl, refl)

  after_forget :
      (ref : QueuedMail) (bytes : List ℕ) (refs : List QueuedMail) (r : Result Done)
      → (deletes id (on_forget ref bytes refs r) ≡ false)
        × (is_written (on_forget ref bytes refs r) ≡ false)
  after_forget ref bytes refs (ok u) = (refl, refl)
  after_forget ref bytes refs (err x) = (refl, refl)
  after_forget ref bytes refs panic = (refl, refl)

  after_pending :
      (ref : QueuedMail) (bytes : List ℕ) (refs : List QueuedMail) (r : Result Bool)
      → is_written (on_pending ref bytes refs r) ≡ false
  after_pending ref bytes refs (ok true) = refl
  after_pending ref bytes refs (ok false) = refl
  after_pending ref bytes refs (err x) = refl
  after_pending ref bytes refs panic = refl

  -- Where the mail waits, some entry of it is counted.
  count_pending :
      (d : String) (k : ℕ) (rows : List QueueRow)
      → any (is_entry d "Outbox" (pos id)) rows ≡ true
      → (id == k) ≡ true
      → ltb 0 (count_if (λ q. str_eq "Outbox" q.mailbox && int_eq (pos k) q.id) rows) ≡ true
  unfolding is_entry
  count_pending d k [] h q = cc
  count_pending d k (r ∷ rows) h q = ground (arith, ==_iff id k, count_pending d k rows)

  decided :
      (ref : QueuedMail) (bytes : List ℕ) (refs : List QueuedMail) (b : Bool)
      → ((id == ref.id) ≡ true → b ≡ true)
      → deletes id (on_pending ref bytes refs (ok b)) ≡ false
  decided ref bytes refs true h = refl
  decided ref bytes refs false h = ground arith

module _ (e : Engine) (d : String) (id : ℕ) where
  -- A goroutine keeps the mail where it is not about to delete it, and has not written a mail to the
  -- destination.
  pub advance-Queued :
      (remote : Remote) (h : String) (p : Point) (n : Node)
      → d ≢ "Outbox"
      → deletes id p ≡ false
      → (is_written p ≡ true → d ≢ h)
      → Queued d id n.world.tables
      → Queued d id (advance e remote h p n).1.world.tables
  unfolding advance stored accept_mail stop_running
  advance-Queued remote h idle n o x y q = q
  advance-Queued remote h started n o x y q = (ids-Waits e d id h).from_state n.world q
  advance-Queued remote h (looping []) n o x y q = q
  advance-Queued remote h (looping (ref ∷ refs)) n o x y q =
      (select-Waits e d id (pos ref.id)).from_state n.world q
  advance-Queued remote h (missing ref refs) n o x y q =
      (forget-Waits e d id "Outbox" (pos ref.id) o).from_state n.world q
  advance-Queued remote h (selected ref bytes refs) n o x y q = q
  advance-Queued remote h (written ref bytes refs) n o x y q =
      (forget-Waits e d id h (pos ref.id) (y refl)).from_state n.world q
  advance-Queued remote h (counting ref bytes refs) n o x y q =
      (pending-Waits e d id (pos ref.id)).from_state n.world q
  advance-Queued remote h (deleting ref bytes refs) n o x y q =
      (delete-Waits e d id ref.id x).from_state n.world q
  advance-Queued remote h (closing ref bytes refs) n o x y q =
      elim (Bool-cases (remote ref bytes).accept) [ inl t ↦ rw t q | inr f ↦ rw f q ]
  advance-Queued remote h expunging n o x y q = (expunge-Waits e d id).from_state n.world q
  advance-Queued remote h stopping n o x y q = q

  -- A goroutine that counts the entries of the mail finds the one that waits.
  counted :
      (ref : QueuedMail) (bytes : List ℕ) (refs : List QueuedMail) (faults : List Bool) (w : World)
      → Queued d id w.tables
      → deletes id (
          on_pending ref bytes refs
            (queue_select_is_message_pending_send "Outbox"
              (pos ref.id)
              (record w { faults = faults })).0)
        ≡ false
  unfolding queue_select_is_message_pending_send queue_pending_stmt statement Queued ◌>>=◌
  counted ref bytes refs [] w q =
      decided id ref bytes refs _ (count_pending id d ref.id w.tables.queue q.0)
  counted ref bytes refs (true ∷ rest) w q = refl
  counted ref bytes refs (false ∷ rest) w q =
      decided id ref bytes refs _ (count_pending id d ref.id w.tables.queue q.0)

  pub advance-deletes :
      (remote : Remote) (h : String) (p : Point) (n : Node)
      → Queued d id n.world.tables
      → deletes id (advance e remote h p n).0 ≡ false
  unfolding advance stored
  advance-deletes remote h idle n q = refl
  advance-deletes remote h started n q = (after_ids id _).0
  advance-deletes remote h (looping []) n q = refl
  advance-deletes remote h (looping (ref ∷ refs)) n q = (after_select id ref refs _).0
  advance-deletes remote h (missing ref refs) n q = refl
  advance-deletes remote h (selected ref bytes refs) n q = ground arith
  advance-deletes remote h (written ref bytes refs) n q = (after_forget id ref bytes refs _).0
  advance-deletes remote h (counting ref bytes refs) n q =
      counted ref bytes refs n.world.faults n.world q
  advance-deletes remote h (deleting ref bytes refs) n q = refl
  advance-deletes remote h (closing ref bytes refs) n q = refl
  advance-deletes remote h expunging n q = refl
  advance-deletes remote h stopping n q = refl

  pub advance-is_written :
      (remote : Remote) (h : String) (p : Point) (n : Node)
      → ((ref : QueuedMail) (bytes : List ℕ) → reaches_end (remote ref bytes) ≡ false)
      → is_written (advance e remote h p n).0 ≡ false
  unfolding advance stored
  advance-is_written remote h idle n r = refl
  advance-is_written remote h started n r = (after_ids id _).1
  advance-is_written remote h (looping []) n r = refl
  advance-is_written remote h (looping (ref ∷ refs)) n r = (after_select id ref refs _).1
  advance-is_written remote h (missing ref refs) n r = refl
  advance-is_written remote h (selected ref bytes refs) n r = rw (r ref bytes) refl
  advance-is_written remote h (written ref bytes refs) n r = (after_forget id ref bytes refs _).1
  advance-is_written remote h (counting ref bytes refs) n r = after_pending id ref bytes refs _
  advance-is_written remote h (deleting ref bytes refs) n r = refl
  advance-is_written remote h (closing ref bytes refs) n r = refl
  advance-is_written remote h expunging n r = refl
  advance-is_written remote h stopping n r = refl
