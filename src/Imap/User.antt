-- ===== src/Imap/User.antt =====
-- internal/imapserver/user.go
pub mod Renaming
use yggmail.Base.{String, Bool, true, false, List, ◌||◌, str_eq, if◌then◌else◌}
use yggmail.Exec.{
  Result, ok, protected, not_found, Exec, Done, pure, fail, attempt, Tried, done, failed, ◌>>=◌,
}
use yggmail.Storage.Types.{World}
use yggmail.Storage.Engine.{Engine}
use yggmail.Storage.Mailboxes.{
  mailbox_list, mailbox_select, mailbox_create, mailbox_rename, mailbox_delete,
}

-- A mailbox is given by its name.
unfoldable pub list_mailboxes : Engine → Bool → Exec World (List String)
list_mailboxes e subscribed = mailbox_list e subscribed

-- `ok, _ := …`: an error counts as not found.
abbrev pub found_name : String → Tried Bool → Exec World String
found_name name (done true) = pure name
found_name name (done false) = fail not_found
found_name name (failed e) = fail not_found

unfoldable pub get_mailbox : String → Exec World String
get_mailbox name =
    if str_eq name ""
    then pure ""
    else do found ← attempt (mailbox_select name); found_name name found

unfoldable pub create_mailbox : String → Exec World Done
create_mailbox name = mailbox_create name

unfoldable pub is_protected : String → Bool
is_protected name = str_eq name "INBOX" || str_eq name "Outbox"

unfoldable pub delete_mailbox : String → Exec World Done
unfolding is_protected
delete_mailbox name = if is_protected name then fail protected else mailbox_delete name

unfoldable pub rename_mailbox : String → String → Exec World Done
unfolding is_protected
rename_mailbox existing_name new_name =
    if is_protected existing_name then fail protected else mailbox_rename existing_name new_name
