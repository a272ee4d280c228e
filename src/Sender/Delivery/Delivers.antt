-- ===== src/Sender/Delivery/Delivers.antt =====
-- What the servers have accepted after a run.
use yggmail.Base.{
  ℕ, String, Bool, true, false, ◌&&◌, ◌≡◌, refl, ◌∙◌, List, [], ◌∷◌, any, any-append, str_eq, ◌==◌,
  bytes_eq,
}
use yggmail.Exec.{Error, Exec, Done, Tried, done, failed, attempt, ◌>>=◌}
use yggmail.Exec.Preserves.{Preserves, Preserves-bind, preserves_rules}
use yggmail.Storage.Types.{Mail, QueuedMail, World}
use yggmail.Storage.Engine.{Engine}
use yggmail.Storage.Mails.{mail_expunge}
use yggmail.Sender.Node.{Node, Attempt, Delivered, stored}
use yggmail.Sender.Delivery.{
  Remote, require, accept_mail, send, deliver_found, deliver_ref, stop_running,
}

-- A server of the destination has accepted a mail of this id with these bytes.
abbrev pub Accepted : String → ℕ → List ℕ → Node → Type 0
Accepted d id bytes n =
    any (λ a. str_eq d a.destination && (id == a.id && bytes_eq bytes a.mail)) n.accepted ≡ true

module _ (d : String) (id : ℕ) (bytes : List ℕ) where
  abbrev Sent : Node → Type 0
  Sent = Accepted d id bytes

  stored-Sent : {A : Type 0} (m : Exec World A) → Preserves Sent (stored m)
  unfolding stored
  stored-Sent m = record { from_state = λ n h. h }

  require-Sent : (b : Bool) (x : Error) → Preserves Sent (require b x)
  unfolding require
  require-Sent b x = search preserves_rules

  accept_mail-Sent : (b : Bool) (r : Delivered) → Preserves Sent (accept_mail b r)
  unfolding accept_mail
  accept_mail-Sent true r = record {
    from_state = λ n h.
        any-append (λ a. str_eq d a.destination && (id == a.id && bytes_eq bytes a.mail)) n.accepted
          (r ∷ [])
        ∙ rw h refl;
  }
  accept_mail-Sent false r = record { from_state = λ n h. h }

  stop_running-Sent :
      (e : Engine) (remote : Remote) (c : String) → Preserves Sent (stop_running e remote c)
  unfolding stop_running
  stop_running-Sent e remote c = record { from_state = λ n h. h }

  then_Sent :
      (b : Bool) (x : Error) (m : Exec Node Done)
      → Preserves Sent m
      → Preserves Sent (require b x >>= λ _. m)
  then_Sent b x m h = Preserves-bind _ _ (require-Sent b x) (λ _. h)

  send-Sent :
      (a : Attempt) (c : String) (ref : QueuedMail) (content : List ℕ)
      → Preserves Sent (send a c ref content)
  unfolding send
  send-Sent a c ref content = then_Sent _ _ _ (
      then_Sent _ _ _ (
        then_Sent _ _ _ (
          then_Sent _ _ _ (
            then_Sent _ _ _ (
              then_Sent _ _ _
                (then_Sent _ _ _ (search (preserves_rules, stored-Sent, accept_mail-Sent))))))))

  deliver_found-Sent :
      (remote : Remote) (c : String) (ref : QueuedMail) (found : Tried (ℕ × Mail))
      → Preserves Sent (deliver_found remote c ref found)
  unfolding deliver_found
  deliver_found-Sent remote c ref (done (seq, m)) = search (preserves_rules, send-Sent)
  deliver_found-Sent remote c ref (failed x) = search (preserves_rules, stored-Sent)

  pub deliver_ref-Sent :
      (e : Engine) (remote : Remote) (c : String) (ref : QueuedMail)
      → Preserves Sent (deliver_ref e remote c ref)
  unfolding deliver_ref
  deliver_ref-Sent e remote c ref = search (preserves_rules, stored-Sent, deliver_found-Sent)

  pub run_end-Sent :
      (e : Engine) (remote : Remote) (c : String)
      → Preserves Sent (attempt (stored (mail_expunge "Outbox")) >>= λ _. stop_running e remote c)
  run_end-Sent e remote c = search (preserves_rules, stored-Sent, stop_running-Sent)
