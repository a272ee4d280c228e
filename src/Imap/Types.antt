-- ===== src/Imap/Types.antt =====
-- The values that go-imap hands to the backend and takes from it, as far as the backend reads them.
use yggmail.Base.{ℕ, String, List}

-- `imap.Seq`: both ends are uint32, and 0 stands for `*`.
pub record Seq : Type 0 where
  pub start : ℕ
  pub stop : ℕ

pub data FlagsOp : Type 0 where
  set_flags add_flags remove_flags : FlagsOp

pub data StatusItem : Type 0 where
  messages uid_next uid_validity recent unseen other : StatusItem

-- The fields of `imap.MailboxStatus` that `Status` fills, 0 until then.
pub record MailboxStatus : Type 0 where
  pub messages : ℕ
  pub uid_next : ℕ
  pub uid_validity : ℕ
  pub recent : ℕ
  pub unseen : ℕ

-- The items of a FETCH; `section` is any other item, by its text.
pub data FetchItem : Type 0 where
  envelope body body_structure flags internal_date rfc822_size uid : FetchItem
  section : String → FetchItem

-- A fetched message; `parts` are what the mail library made of the items that it handles.
pub record Message : Type 0 where
  pub seq_num : ℕ
  pub uid : ℕ
  pub flags : List String
  pub date : ℕ
  pub size : ℕ
  pub parts : List (FetchItem × List ℕ)
