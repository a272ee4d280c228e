-- ===== src/Imap/Fetch.antt =====
-- `ListMessages` of internal/imapserver/mailbox.go.
use yggmail.Base.{
  ℕ, String, Bool, List, [], ◌∷◌, ◌++◌, Option, none, some, if◌then◌else◌, length, ℤ, u32,
}
use yggmail.Exec.{Tried, done, failed, Exec, pure, attempt, ◌>>=◌}
use yggmail.Storage.Types.{Mail, World}
use yggmail.Storage.Engine.{Engine}
use yggmail.Storage.Mails.{mail_select}
use yggmail.Imap.Types.{Seq, FetchItem, flags, internal_date, rfc822_size, uid, Message}
use yggmail.Imap.SeqSet.{get_ids_from_seq_set}

abbrev when : Bool → String → List String
when b flag = if b then flag ∷ [] else []

unfoldable pub flags_of : Mail → List String
flags_of m =
    when m.seen "\\Seen"
    ++ (when m.answered "\\Answered" ++ (when m.flagged "\\Flagged" ++ when m.deleted "\\Deleted"))

abbrev add_part : FetchItem → Option (List ℕ) → Message → Message
add_part item none fetched = fetched
add_part item (some bytes) fetched = record fetched { parts = fetched.parts ++ (item, bytes) ∷ [] }

-- `render` stands for go-message and backendutil: what they make of an item from a mail's bytes,
-- nothing where they fail.
module _ (render : FetchItem → List ℕ → Option (List ℕ)) where
  -- One round of the loop over the items.
  unfoldable pub fetch_item : Mail → FetchItem → Message → Message
  unfolding flags_of
  fetch_item m flags fetched = record fetched { flags = flags_of m }
  fetch_item m internal_date fetched = record fetched { date = m.date }
  fetch_item m rfc822_size fetched = record fetched { size = u32 (length m.mail) }
  fetch_item m uid fetched = record fetched { uid = u32 m.id }
  fetch_item m item fetched = add_part item (render item m.mail) fetched

  unfoldable pub fetch_items : Mail → List FetchItem → Message → Message
  unfolding fetch_item
  fetch_items m [] fetched = fetched
  fetch_items m (item ∷ items) fetched = fetch_items m items (fetch_item m item fetched)

  unfoldable pub fetch : List FetchItem → ℕ × Mail → Message
  unfolding fetch_items
  fetch items (mseq, m) =
      fetch_items m items
        (record { seq_num = u32 mseq; uid = u32 m.id; flags = []; date = 0; size = 0; parts = [] })

  abbrev sent : List FetchItem → Tried (ℕ × Mail) → List Message
  sent items (done row) = fetch items row ∷ []
  sent items (failed e) = []

  module _ (e : Engine) (name : String) where
    -- The messages that go to the channel; an id that cannot be read is passed over.
    unfoldable pub fetch_all : List FetchItem → List ℤ → Exec World (List Message)
    fetch_all items [] = pure []
    fetch_all items (id ∷ ids) = do
      row ← attempt (mail_select e name id)
      rest ← fetch_all items ids
      pure (sent items row ++ rest)

    unfoldable pub list_messages : ℕ → Bool → List Seq → List FetchItem → Exec World (List Message)
    list_messages room by_uid seq_set items = do
      ids ← get_ids_from_seq_set e name by_uid room seq_set
      fetch_all items ids
