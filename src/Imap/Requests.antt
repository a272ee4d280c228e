-- ===== src/Imap/Requests.antt =====
-- The requests of an IMAP session that reach the backend: the methods of `User` and `Mailbox` of
-- internal/imapserver/user.go and internal/imapserver/mailbox.go, in any order.
pub mod Kept
pub mod Invariants
pub mod Protected
use yggmail.Base.{ℕ, String, Bool, List, [], ◌∷◌, Option}
use yggmail.Exec.{Result, Exec, Done, ◌>>=◌, ◌>>◌, pure, attempt}
use yggmail.Storage.Types.{World}
use yggmail.Storage.Engine.{Engine}
use yggmail.Imap.Types.{Seq, FlagsOp, StatusItem, FetchItem}
use yggmail.Imap.Mailbox
use yggmail.Imap.Fetch
use yggmail.Imap.User

pub data Request : Type 0 where
  list_mailboxes : Bool → Request
  get_mailbox create_mailbox delete_mailbox : String → Request
  rename_mailbox : String → String → Request
  status : String → List StatusItem → Request
  set_subscribed : String → Bool → Request
  list_messages : String → ℕ → Bool → List Seq → List FetchItem → Request
  search_messages : String → Request
  create_message : String → List String → Result (List ℕ) → Request
  update_messages_flags : String → ℕ → Bool → List Seq → FlagsOp → List String → Request
  copy_messages move_messages : String → ℕ → Bool → List Seq → String → Request
  expunge : String → Request

pub done_with : {A : Type 0} → Exec World A → Exec World Done
done_with m = m >>= λ _. pure tt

module _ (e : Engine) (render : FetchItem → List ℕ → Option (List ℕ)) where
  unfoldable pub serve : Request → Exec World Done
  unfolding done_with
  serve (list_mailboxes subscribed) = done_with (User.list_mailboxes e subscribed)
  serve (get_mailbox name) = done_with (User.get_mailbox name)
  serve (create_mailbox name) = User.create_mailbox name
  serve (delete_mailbox name) = User.delete_mailbox name
  serve (rename_mailbox existing_name new_name) = User.rename_mailbox existing_name new_name
  serve (status name items) = done_with (Mailbox.status name items)
  serve (set_subscribed name subscribed) = Mailbox.set_subscribed name subscribed
  serve (list_messages name room uid seq_set items) =
      done_with (Fetch.list_messages render e name room uid seq_set items)
  serve (search_messages name) = done_with (Mailbox.search_messages name)
  serve (create_message name flags body) = Mailbox.create_message name flags body
  serve (update_messages_flags name room uid seq_set op flags) =
      Mailbox.update_messages_flags e name room uid seq_set op flags
  serve (copy_messages name room uid seq_set dest) =
      Mailbox.copy_messages e name room uid seq_set dest
  serve (move_messages name room uid seq_set dest) =
      Mailbox.move_messages e name room uid seq_set dest
  serve (expunge name) = Mailbox.expunge name

  -- A session's requests in turn; the client goes on after an error.
  unfoldable pub serve_all : List Request → World → World
  serve_all [] w = w
  serve_all (r ∷ rs) w = serve_all rs (serve r w).1
