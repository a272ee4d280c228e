-- ===== src/Imap/Requests/Kept.antt =====
-- What the storage keeps, the backend keeps: one rule for each handler.
use yggmail.Base.{
  zero, suc, ◌+◌, leb, u32, refl, ℕ, String, Bool, true, false, ◌≡◌, List, [], ◌∷◌, ℤ,
  if◌then◌else◌, Option, none, some,
}
use yggmail.Exec.{Result, ok, err, panic, Exec, Tried, done, failed, fail, protected}
use yggmail.Exec.Preserves.{Preserves, Preserves-bind, Preserves-pure, preserves_rules}
use yggmail.Storage.Types.{Mail, World}
use yggmail.Storage.Engine.{Engine}
use yggmail.Storage.Mailboxes
use yggmail.Storage.Mails
use yggmail.Storage.Queue
use yggmail.Imap.Types
use yggmail.Imap.Types.{Seq, FlagsOp, StatusItem, FetchItem}
use yggmail.Imap.SeqSet.{id_at, range_ids, last_of, get_ids_from_seq_set}
use yggmail.Imap.Mailbox.{
  status_item, status_items, create_flag, create_message, selected, write_flags, update_one,
  update_messages_flags, copy_one, copy_messages, move_one, move_messages,
}
use yggmail.Imap.Fetch.{fetch_all, list_messages}
use yggmail.Imap.User.{found_name, get_mailbox, delete_mailbox, is_protected}

-- The calls of the storage that the backend makes keep `P`; those that delete a mailbox have to
-- only where the backend does not protect it.
pub record Kept (e : Engine) (P : World → Type 0) : Type 0 where
  pub mailbox_list : (b : Bool) → Preserves P (Mailboxes.mailbox_list e b)
  pub mailbox_select : (a : String) → Preserves P (Mailboxes.mailbox_select a)
  pub mailbox_create : (a : String) → Preserves P (Mailboxes.mailbox_create a)
  pub mailbox_delete :
      (a : String) → is_protected a ≡ false → Preserves P (Mailboxes.mailbox_delete a)
  pub mailbox_subscribe : (a : String) (b : Bool) → Preserves P (Mailboxes.mailbox_subscribe a b)
  pub mail_create : (a : String) (bytes : List ℕ) → Preserves P (Mails.mail_create a bytes)
  pub mail_select : (a : String) (i : ℤ) → Preserves P (Mails.mail_select e a i)
  pub mail_search : (a : String) → Preserves P (Mails.mail_search a)
  pub mail_next_id : (a : String) → Preserves P (Mails.mail_next_id a)
  pub mail_id_for_seq : (a : String) (n : ℕ) → Preserves P (Mails.mail_id_for_seq e a n)
  pub mail_unseen : (a : String) → Preserves P (Mails.mail_unseen a)
  pub mail_update_flags :
      (a : String) (i : ℤ) (s r f d : Bool) → Preserves P (Mails.mail_update_flags a i s r f d)
  pub mail_expunge : (a : String) → Preserves P (Mails.mail_expunge a)
  pub mail_count : (a : String) → Preserves P (Mails.mail_count a)
  pub mail_move : (a : String) (i : ℤ) (b : String) → Preserves P (Mails.mail_move a i b)
  pub queue_delete_destination_for_id :
      (a : String) (i : ℤ) → Preserves P (Queue.queue_delete_destination_for_id a i)

module _ (e : Engine) {P : World → Type 0} (k : Kept e P) (name : String) where
  status_item-Kept : (i : StatusItem) (s : Types.MailboxStatus) → Preserves P (status_item name i s)
  unfolding status_item
  status_item-Kept Types.messages s = search (preserves_rules, k.mail_count)
  status_item-Kept Types.uid_next s = search (preserves_rules, k.mail_next_id)
  status_item-Kept Types.uid_validity s = search preserves_rules
  status_item-Kept Types.recent s = search preserves_rules
  status_item-Kept Types.unseen s = search (preserves_rules, k.mail_unseen)
  status_item-Kept Types.other s = search preserves_rules

  pub status_items-Kept :
      (is : List StatusItem) (s : Types.MailboxStatus) → Preserves P (status_items name is s)
  unfolding status_items
  status_items-Kept [] s = search preserves_rules
  status_items-Kept (i ∷ is) s =
      Preserves-bind _ _ (status_item-Kept i s) (λ next. status_items-Kept is next)

  id_at-Kept : (uid : Bool) (i : ℕ) → Preserves P (id_at e name uid i)
  unfolding id_at
  id_at-Kept uid i = search (preserves_rules, k.mail_id_for_seq)

  either :
      {A : Type 0} (b : Bool) (m n : Exec World A)
      → Preserves P m
      → Preserves P n
      → Preserves P (elim b [ false ↦ m | true ↦ n ])
  either true m n hm hn = hn
  either false m n hm hn = hm

  range_ids-Kept : (uid : Bool) (room i stop : ℕ) → Preserves P (range_ids e name uid room i stop)
  unfolding range_ids
  range_ids-Kept uid zero i stop = search preserves_rules
  range_ids-Kept uid (suc room) i stop = either (leb i stop) _ _ (Preserves-pure []) (
      Preserves-bind _ _ (id_at-Kept uid i) λ id.
        Preserves-bind _ _ (range_ids-Kept uid room (u32 (i + 1)) stop) λ ids. Preserves-pure _)

  last_of-Kept : (uid : Bool) (s : Seq) → Preserves P (last_of e name uid s)
  unfolding last_of
  last_of-Kept uid s = search (preserves_rules, k.mail_next_id)

  pub get_ids_from_seq_set-Kept :
      (uid : Bool) (room : ℕ) (sets : List Seq)
      → Preserves P (get_ids_from_seq_set e name uid room sets)
  unfolding get_ids_from_seq_set
  get_ids_from_seq_set-Kept uid room [] = search preserves_rules
  get_ids_from_seq_set-Kept uid room (s ∷ sets) = Preserves-bind _ _ (last_of-Kept uid s) λ stop.
      Preserves-bind _ _ (range_ids-Kept uid room s.start stop)
        λ ids. Preserves-bind _ _ (get_ids_from_seq_set-Kept uid room sets) λ more. Preserves-pure _

  pub create_message-Kept :
      (flags : List String) (body : Result (List ℕ)) → Preserves P (create_message name flags body)
  unfolding create_message create_flag
  create_message-Kept flags (ok body) = search (preserves_rules, k.mail_create, k.mail_update_flags)
  create_message-Kept flags (err x) = search preserves_rules
  create_message-Kept flags panic = search preserves_rules

  selected-Kept : (op : FlagsOp) (id : ℤ) → Preserves P (selected e name op id)
  unfolding selected
  selected-Kept Types.set_flags id = search preserves_rules
  selected-Kept Types.add_flags id = search (preserves_rules, k.mail_select)
  selected-Kept Types.remove_flags id = search (preserves_rules, k.mail_select)

  write_flags-Kept : (mail : Option Mail) → Preserves P (write_flags name mail)
  unfolding write_flags
  write_flags-Kept none = search preserves_rules
  write_flags-Kept (some m) = k.mail_update_flags name _ _ _ _ _

  update_one-Kept :
      (op : FlagsOp) (flags : List String) (id : ℤ) → Preserves P (update_one e name op flags id)
  unfolding update_one
  update_one-Kept op flags id = search (preserves_rules, selected-Kept, write_flags-Kept)

  pub update_messages_flags-Kept :
      (room : ℕ) (uid : Bool) (sets : List Seq) (op : FlagsOp) (flags : List String)
      → Preserves P (update_messages_flags e name room uid sets op flags)
  unfolding update_messages_flags
  update_messages_flags-Kept room uid sets op flags =
      search (preserves_rules, get_ids_from_seq_set-Kept, update_one-Kept)

  copy_one-Kept : (dest : String) (id : ℤ) → Preserves P (copy_one e name dest id)
  unfolding copy_one
  copy_one-Kept dest id =
      search (preserves_rules, k.mail_select, k.mail_create, k.mail_update_flags)

  pub copy_messages-Kept :
      (room : ℕ) (uid : Bool) (sets : List Seq) (dest : String)
      → Preserves P (copy_messages e name room uid sets dest)
  unfolding copy_messages
  copy_messages-Kept room uid sets dest =
      search (preserves_rules, get_ids_from_seq_set-Kept, copy_one-Kept)

  move_one-Kept : (dest : String) (id : ℤ) → Preserves P (move_one e name dest id)
  unfolding move_one
  move_one-Kept dest id = search (preserves_rules, k.mail_move, k.queue_delete_destination_for_id)

  pub move_messages-Kept :
      (room : ℕ) (uid : Bool) (sets : List Seq) (dest : String)
      → Preserves P (move_messages e name room uid sets dest)
  unfolding move_messages
  move_messages-Kept room uid sets dest =
      search (preserves_rules, get_ids_from_seq_set-Kept, move_one-Kept)

  module _ (render : FetchItem → List ℕ → Option (List ℕ)) (items : List FetchItem) where
    fetch_all-Kept : (ids : List ℤ) → Preserves P (fetch_all render e name items ids)
    unfolding fetch_all
    fetch_all-Kept [] = search preserves_rules
    fetch_all-Kept (id ∷ ids) =
        Preserves-bind _ _ (search (preserves_rules, k.mail_select))
          λ row. Preserves-bind _ _ (fetch_all-Kept ids) λ rest. Preserves-pure _

    pub list_messages-Kept :
        (room : ℕ) (uid : Bool) (sets : List Seq)
        → Preserves P (list_messages render e name room uid sets items)
    unfolding list_messages
    list_messages-Kept room uid sets =
        Preserves-bind _ _ (get_ids_from_seq_set-Kept uid room sets) fetch_all-Kept

  found_name-Kept : (r : Tried Bool) → Preserves P (found_name name r)
  found_name-Kept (done true) = search preserves_rules
  found_name-Kept (done false) = search preserves_rules
  found_name-Kept (failed x) = search preserves_rules

  pub get_mailbox-Kept : Preserves P (get_mailbox name)
  unfolding get_mailbox
  get_mailbox-Kept = search (preserves_rules, k.mailbox_select, found_name-Kept)

  guarded :
      (b : Bool)
      → is_protected name ≡ b
      → Preserves P (if b then fail protected else Mailboxes.mailbox_delete name)
  guarded true q = search preserves_rules
  guarded false q = k.mailbox_delete name q

  pub delete_mailbox-Kept : Preserves P (delete_mailbox name)
  unfolding delete_mailbox
  delete_mailbox-Kept = guarded (is_protected name) refl
