-- ===== src/Sender/Delivery/Kept.antt =====
-- What the storage keeps, a run of a queue keeps.
use yggmail.Base.{ℕ, String, Bool, true, false, List, ℤ}
use yggmail.Exec.{Error, Exec, Done, Tried, done, failed, attempt, rethrow, for_each, ◌>>=◌}
use yggmail.Exec.Preserves.{
  Preserves, Preserves-bind, Preserves-attempt, Preserves-both, preserves_rules,
}
use yggmail.Storage.Types.{Mail, QueuedMail, World}
use yggmail.Storage.Engine.{Engine}
use yggmail.Storage.Mails.{mail_select, mail_delete, mail_expunge}
use yggmail.Storage.Queue.{
  queue_mail_ids_for_destination, queue_delete_destination_for_id,
  queue_select_is_message_pending_send,
}
use yggmail.Sender.Node.{Node, Attempt, Delivered, stored}
use yggmail.Sender.Delivery.{
  Remote, require, settle_entry, accept_mail, send, deliver_found, deliver_ref, stop_running, run,
  refs_or_none,
}

pub record Kept (e : Engine) (P : World → Type 0) : Type 0 where
  pub ids : (d : String) → Preserves P (queue_mail_ids_for_destination e d)
  pub select : (a : String) (i : ℤ) → Preserves P (mail_select e a i)
  pub forget : (d : String) (i : ℤ) → Preserves P (queue_delete_destination_for_id d i)
  pub pending : (a : String) (i : ℤ) → Preserves P (queue_select_is_message_pending_send a i)
  pub delete : (a : String) (i : ℤ) → Preserves P (mail_delete a i)
  pub expunge : (a : String) → Preserves P (mail_expunge a)

-- What the rounds of a run ask for.
pub record Rounds (e : Engine) (P : World → Type 0) : Type 0 where
  pub select : (a : String) (i : ℤ) → Preserves P (mail_select e a i)
  pub forget : (d : String) (i : ℤ) → Preserves P (queue_delete_destination_for_id d i)
  pub pending : (a : String) (i : ℤ) → Preserves P (queue_select_is_message_pending_send a i)
  pub delete : (a : String) (i : ℤ) → Preserves P (mail_delete a i)

pub rounds_of : {e : Engine} {P : World → Type 0} → Kept e P → Rounds e P
rounds_of k = record {
  select = k.select;
  forget = k.forget;
  pending = k.pending;
  delete = k.delete;
}

pub Kept_both : {e : Engine} {P Q : World → Type 0} → Kept e P → Kept e Q → Kept e (λ w. P w × Q w)
Kept_both k l = record {
  ids = λ d. Preserves-both (k.ids d) (l.ids d);
  select = λ a i. Preserves-both (k.select a i) (l.select a i);
  forget = λ d i. Preserves-both (k.forget d i) (l.forget d i);
  pending = λ a i. Preserves-both (k.pending a i) (l.pending a i);
  delete = λ a i. Preserves-both (k.delete a i) (l.delete a i);
  expunge = λ a. Preserves-both (k.expunge a) (l.expunge a);
}

abbrev pub OnWorld : (World → Type 0) → Node → Type 0
OnWorld P n = P n.world

pub Preserves-stored :
    {A : Type 0} {P : World → Type 0} (m : Exec World A)
    → Preserves P m
    → Preserves (OnWorld P) (stored m)
unfolding stored
Preserves-stored m h = record { from_state = λ n p. h.from_state n.world p }

module _ (P : World → Type 0) where
  pub accept_mail-Kept : (b : Bool) (d : Delivered) → Preserves (OnWorld P) (accept_mail b d)
  unfolding accept_mail
  accept_mail-Kept true d = record { from_state = λ n h. h }
  accept_mail-Kept false d = record { from_state = λ n h. h }

  require-Kept : (b : Bool) (x : Error) → Preserves (OnWorld P) (require b x)
  unfolding require
  require-Kept b x = search preserves_rules

module _ (e : Engine) {P : World → Type 0} (k : Rounds e P) where
  pub settle_entry-Kept : (d : String) (i : ℕ) → Preserves P (settle_entry d i)
  unfolding settle_entry
  settle_entry-Kept d i = search (preserves_rules, k.forget, k.pending, k.delete)

  after :
      (b : Bool) (x : Error) {m : Exec Node Done}
      → Preserves (OnWorld P) m
      → Preserves (OnWorld P) (require b x >>= λ _. m)
  after b x h = Preserves-bind (require b x) _ (require-Kept P b x) (λ _. h)

  send-Kept :
      (a : Attempt) (d : String) (ref : QueuedMail) (bytes : List ℕ)
      → Preserves (OnWorld P) (send a d ref bytes)
  unfolding send
  send-Kept a d ref bytes =
      after _ _ (after _ _ (after _ _ (after _ _ (after _ _ (after _ _ (after _ _ tail))))))
    where
      tail : Preserves (OnWorld P) (
          attempt (stored (settle_entry d ref.id)) >>= λ result.
          accept_mail a.accept (record {
            destination = d;
            id = ref.id;
            from = ref.from;
            rcpt = ref.rcpt;
            mail = bytes;
          })
          >>= λ _. rethrow result)
      tail = search (preserves_rules, Preserves-stored, settle_entry-Kept, accept_mail-Kept P)

  pub deliver_found-Kept :
      (remote : Remote) (d : String) (ref : QueuedMail) (found : Tried (ℕ × Mail))
      → Preserves (OnWorld P) (deliver_found remote d ref found)
  unfolding deliver_found
  deliver_found-Kept remote d ref (done (_, m)) = search (preserves_rules, send-Kept)
  deliver_found-Kept remote d ref (failed x) = search (preserves_rules, Preserves-stored, k.forget)

  pub deliver_ref-Kept :
      (remote : Remote) (d : String) (ref : QueuedMail)
      → Preserves (OnWorld P) (deliver_ref e remote d ref)
  unfolding deliver_ref
  deliver_ref-Kept remote d ref =
      search (preserves_rules, Preserves-stored, k.select, deliver_found-Kept)

module _ (e : Engine) {P : World → Type 0} (k : Kept e P) where
  stop_running-Kept :
      (remote : Remote) (d : String) → Preserves (OnWorld P) (stop_running e remote d)
  unfolding stop_running
  stop_running-Kept remote d = record { from_state = λ n h. h }

  pub run_end-Kept :
      (remote : Remote) (d : String)
      → Preserves
          (OnWorld P)
          (attempt (stored (mail_expunge "Outbox")) >>= λ _. stop_running e remote d)
  run_end-Kept remote d = search (preserves_rules, Preserves-stored, k.expunge, stop_running-Kept)

  pub run-Kept : (remote : Remote) (d : String) → Preserves (OnWorld P) (run e remote d)
  unfolding run
  run-Kept remote d =
      Preserves-bind _ _ (Preserves-attempt _ (Preserves-stored _ (k.ids d)))
        λ refs. Preserves-bind _ _ (rounds refs) λ _. run_end-Kept remote d
    where
      rounds :
          (refs : Tried (List QueuedMail))
          → Preserves (OnWorld P) (for_each (refs_or_none e remote d refs) (deliver_ref e remote d))
      rounds refs = search (preserves_rules, deliver_ref-Kept e (rounds_of k))
