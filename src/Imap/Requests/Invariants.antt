-- ===== src/Imap/Requests/Invariants.antt =====
-- Invariants of the tables under the requests of an IMAP session.
use yggmail.Base.{ℕ, String, Bool, true, false, ◌≡◌, List, [], ◌∷◌, Option}
use yggmail.Exec.{Exec}
use yggmail.Exec.Preserves.{Preserves, Preserves-bind, Preserves-pure, preserves_rules}
use yggmail.Storage.Types.{World}
use yggmail.Storage.Engine.{Engine}
use yggmail.Storage.Mailboxes.{mailbox_rename}
use yggmail.Storage.Integrity.Operations
use yggmail.Storage.Integrity.Operations.{Sound}
use yggmail.Imap.Types.{FetchItem}
use yggmail.Imap.Mailbox.{status, set_subscribed, search_messages, expunge}
use yggmail.Imap.User.{list_mailboxes, create_mailbox, rename_mailbox}
use yggmail.Imap.Requests.{Request, serve, serve_all, done_with}
use yggmail.Imap.Requests.Kept

abbrev pub is_rename : Request → Bool
is_rename (Request.rename_mailbox a b) = true
is_rename _ = false

done_with-Preserves :
    {A : Type 0} {P : World → Type 0} (m : Exec World A) → Preserves P m → Preserves P (done_with m)
unfolding done_with
done_with-Preserves m h = Preserves-bind m _ h (λ _. Preserves-pure tt)

module _ (e : Engine) (render : FetchItem → List ℕ → Option (List ℕ)) {P : World → Type 0}
    (k : Kept.Kept e P) where
  pub serve-Kept :
      (r : Request)
      → (is_rename r ≡ true → (a b : String) → Preserves P (mailbox_rename a b))
      → Preserves P (serve e render r)
  unfolding serve
  serve-Kept (Request.list_mailboxes b) h =
      unfold list_mailboxes in done_with-Preserves _ (k.mailbox_list b)
  serve-Kept (Request.get_mailbox name) h = done_with-Preserves _ (Kept.get_mailbox-Kept e k name)
  serve-Kept (Request.create_mailbox name) h = unfold create_mailbox in k.mailbox_create name
  serve-Kept (Request.delete_mailbox name) h = Kept.delete_mailbox-Kept e k name
  serve-Kept (Request.rename_mailbox a b) h = unfold rename_mailbox in search preserves_rules
  serve-Kept (Request.status name items) h =
      unfold status in done_with-Preserves _ (Kept.status_items-Kept e k name items _)
  serve-Kept (Request.set_subscribed name b) h = unfold set_subscribed in k.mailbox_subscribe name b
  serve-Kept (Request.list_messages name room uid sets items) h =
      done_with-Preserves _ (Kept.list_messages-Kept e k name render items room uid sets)
  serve-Kept (Request.search_messages name) h =
      unfold search_messages in done_with-Preserves _ (k.mail_search name)
  serve-Kept (Request.create_message name flags body) h =
      Kept.create_message-Kept e k name flags body
  serve-Kept (Request.update_messages_flags name room uid sets op flags) h =
      Kept.update_messages_flags-Kept e k name room uid sets op flags
  serve-Kept (Request.copy_messages name room uid sets dest) h =
      Kept.copy_messages-Kept e k name room uid sets dest
  serve-Kept (Request.move_messages name room uid sets dest) h =
      Kept.move_messages-Kept e k name room uid sets dest
  serve-Kept (Request.expunge name) h = unfold expunge in k.mail_expunge name

abbrev calls-Sound : (e : Engine) → Kept.Kept e Sound
calls-Sound e = record {
  mailbox_list = Operations.mailbox_list-Sound e;
  mailbox_select = Operations.mailbox_select-Sound;
  mailbox_create = Operations.mailbox_create-Sound;
  mailbox_delete = λ a h. Operations.mailbox_delete-Sound a;
  mailbox_subscribe = Operations.mailbox_subscribe-Sound;
  mail_create = Operations.mail_create-Sound;
  mail_select = Operations.mail_select-Sound e;
  mail_search = Operations.mail_search-Sound;
  mail_next_id = Operations.mail_next_id-Sound;
  mail_id_for_seq = Operations.mail_id_for_seq-Sound e;
  mail_unseen = Operations.mail_unseen-Sound;
  mail_update_flags = Operations.mail_update_flags-Sound;
  mail_expunge = Operations.mail_expunge-Sound;
  mail_count = Operations.mail_count-Sound;
  mail_move = Operations.mail_move-Sound;
  queue_delete_destination_for_id = Operations.queue_delete_destination_for_id-Sound;
}

-- Whatever an IMAP client asks for, in whatever order, with whatever message numbers and flags, and
-- whichever calls of the engine fail, tables that meet the constraints of their schemas still meet
-- them after the session.
pub serve_all-Sound :
    (e : Engine) (render : FetchItem → List ℕ → Option (List ℕ)) (rs : List Request) (w : World)
    → Sound w
    → Sound (serve_all e render rs w)
unfolding serve_all
serve_all-Sound e render [] w h = h
serve_all-Sound e render (r ∷ rs) w h =
    let step = serve-Kept e render (calls-Sound e) r (λ _. Operations.mailbox_rename-Sound) in
    serve_all-Sound e render rs (serve e render r w).1 (step.from_state w h)
