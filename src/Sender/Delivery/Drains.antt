-- ===== src/Sender/Delivery/Drains.antt =====
-- Where the engine does not fail and the other side takes every step up to the data, a run of a
-- queue leaves no entry of its destination.
use yggmail.Base.{
  ℕ, String, Bool, false, Bool-cases, ◌&&◌, ◌≡◌, refl, inl, inr, List, [], ◌∷◌, pos, str_eq, any,
  arith, any-filter_gone,
}
use yggmail.Exec.Preserves.{bind-from, preserves_rules}
use yggmail.Storage.Types.{QueuedMail, QueueRow, World}
use yggmail.Storage.Engine.{Engine}
use yggmail.Storage.Writer.{statement, writer_do}
use yggmail.Storage.Queue.{queue_delete_destination_for_id, is_entry, delete_destination_stmt}
use yggmail.Storage.Queue.Sorting.{entry_is_read}
use yggmail.Storage.Absence.{no_mail_no_entry}
use yggmail.Storage.Integrity.Operations.{Sound}
use yggmail.Storage.Integrity.Rules.{OnTables}
use yggmail.Sender.Node.{Node}
use yggmail.Sender.Delivery.{Remote, run, settle_entry}
use yggmail.Sender.Delivery.Taking.{IsTaking}
use yggmail.Sender.Delivery.Kept
use yggmail.Sender.Delivery.Kept.{OnWorld}
use yggmail.Sender.Delivery.Calls.{Healthy, Absent, calls-Absent, calls-Healthy, calls-Sound}
use yggmail.Sender.Delivery.Kept.{Kept, rounds_of, Kept_both}
use yggmail.Sender.Delivery.Settling.{Settles, find_mail-none, refs_of, run-refs, rounds_settle}

forget_faults :
    (faults : List Bool) (w : World) (d : String) (id : ℕ)
    → faults ≡ []
    → Absent d id
        (queue_delete_destination_for_id d (pos id) (record w { faults = faults })).1.tables
unfolding queue_delete_destination_for_id writer_do statement Absent delete_destination_stmt
forget_faults [] w d id h = any-filter_gone (is_entry d "Outbox" (pos id)) w.tables.queue
forget_faults (b ∷ rest) w d id h = cc

module _ (e : Engine) (d : String) (id : ℕ) where
  abbrev Gone : World → Type 0
  Gone = OnTables (Absent d id)

  settle_entry-Absent : (w : World) → Healthy w → Gone (settle_entry d id w).1
  unfolding settle_entry Healthy
  settle_entry-Absent w h =
      bind-from Gone _ _ w
        (λ _. let k = calls-Absent e d id in search (preserves_rules, k.pending, k.delete))
        (forget_faults w.faults w d id h)

module _ (e : Engine) (remote : Remote) (d : String) where
  settles-Absent :
      (id : ℕ) → Settles e remote d id (λ w. Healthy w × Sound w) (OnTables (Absent d id))
  unfolding Absent
  settles-Absent id = record {
    during = rounds_of (Kept_both (calls-Healthy e) (calls-Sound e));
    keeps = rounds_of (calls-Absent e d id);
    healthy = λ w i. i.0;
    settled = λ w i. settle_entry-Absent e d id w i.0;
    missing = λ w i q.
        no_mail_no_entry d "Outbox" id w.tables i.1 (find_mail-none e remote d id w.tables q);
  }

  run-Absent :
      ((ref : QueuedMail) (bytes : List ℕ) → IsTaking (remote ref bytes))
      → (n : Node) → Healthy n.world
      → Sound n.world
      → (id : ℕ) → Absent d id (run e remote d n).1.world.tables
  unfolding Absent refs_of
  run-Absent taking n h s id =
      elim (Bool-cases (any (is_entry d "Outbox" (pos id)) n.world.tables.queue)) [
        | inl q ↦ rw (run-refs e remote d n h) (
            bind-from (OnWorld (Gone e d id)) _ _ n
              (λ _. Kept.run_end-Kept e (calls-Absent e d id) remote d)
              (rounds_settle e remote d id (settles-Absent id) taking
                (refs_of e remote d n.world.tables) n (h, s)
                (entry_is_read e d id n.world.tables q)))
        | inr q ↦ (Kept.run-Kept e (calls-Absent e d id) remote d).from_state n q
      ]

  none_left :
      (rows : List QueueRow)
      → ((id : ℕ) → any (is_entry d "Outbox" (pos id)) rows ≡ false)
      → any (λ q. str_eq d q.destination && str_eq "Outbox" q.mailbox) rows ≡ false
  unfolding is_entry
  none_left [] h = refl
  none_left (q ∷ rows) h = ground (arith, h q.id, none_left rows (λ id. ground (arith, h id)))

  -- Where the tables are sound, no call of the engine fails, and the remote server takes every step
  -- up to the end of the data, a run of the queue of a destination leaves no entry of the Outbox for
  -- it, whatever the server then answers to the data.
  pub run_drains :
      (n : Node)
      → ((ref : QueuedMail) (bytes : List ℕ) → IsTaking (remote ref bytes))
      → n.world.faults ≡ []
      → Sound n.world
      → any
          (λ q. str_eq d q.destination && str_eq "Outbox" q.mailbox)
          (run e remote d n).1.world.tables.queue
        ≡ false
  unfolding Absent Healthy
  run_drains n taking h s =
      none_left (run e remote d n).1.world.tables.queue (run-Absent taking n h s)
