-- ===== src/Storage/Open/Tests.antt =====
-- The theorem on opening, at a file that has a table and at an empty one.
use yggmail.Base.{◌≡◌, refl, List, [], Option, none, some, String, if◌then◌else◌, inl, inr}
use yggmail.Exec.{ok}
use yggmail.Storage.Open.{
  Relation, config, mailboxes, mails, inboxes, queue, schema, same, columns_of, new_sqlite3_storage,
}
use yggmail.Storage.Open.Laws.{bound, FitsAt, open_healthy}

-- A file with the table of the mails.
abbrev half_made : Relation → Option (List String)
half_made r = if same r mails then some (schema r) else none

half_made-FitsAt : (r : Relation) → FitsAt half_made r
half_made-FitsAt config = inl refl
half_made-FitsAt mailboxes = inl refl
half_made-FitsAt mails = inr refl
half_made-FitsAt inboxes = inl refl
half_made-FitsAt queue = inl refl

open_healthy_example :
    let p = new_sqlite3_storage (ok tt) (record { relations = half_made; faults = [] }) in
    (p.0 ≡ ok bound) × ((r : Relation) → columns_of r p.1 ≡ some (schema r))
open_healthy_example = open_healthy half_made half_made-FitsAt
