-- ===== src/Storage/Abstract/Refines.antt =====
-- The statements on mails, and the map.
use yggmail.Base.{
  ℕ, ◌<◌, String, ◌≡◌, refl, Bool, true, false, List, [], ◌∷◌, none, any, All, arith, Bool-cases,
  inl, inr, ℤ, pos,
}
use yggmail.Storage.Types.{Mail, Db, is_mail, in_mailbox, is_mailbox, delete_mails}
use yggmail.Storage.Keys.{is_mail_iff, in_mailbox_iff}
use yggmail.Storage.Mails.{
  next_id, insert_mail_stmt, update_mail_flags_stmt, delete_mail_stmt, expunge_mail_stmt,
}
use yggmail.Storage.Integrity.{IsSound}
use yggmail.Storage.Integrity.Mails.{id-lt-next_id}
use yggmail.Storage.Abstract.{
  look, create, update_flags, delete, expunge, set_flags, new_mail, effect, Refined,
}
use yggmail.Storage.Abstract.Rows.{find-update_key, find-put, find-any, find-expunge}

below_any :
    (name : String) (b : ℕ) (rows : List Mail)
    → All (λ m. in_mailbox name m ≡ true → m.id < b) rows
    → any (is_mail name (pos b)) rows ≡ false
below_any name b [] h = refl
below_any name b (m ∷ rows) h =
    ground (arith, below_any name b rows, is_mail_iff name b m, in_mailbox_iff name m)

-- The id of a new mail is no mail's yet.
pub new_id_free : (name : String) (db : Db) → look db name (next_id name db.mails) ≡ none
new_id_free name db =
    find-any _ db.mails
      (below_any name (next_id name db.mails) db.mails (id-lt-next_id name db.mails))

pub insert_look :
    (name : String) (bytes : List ℕ) (clock : ℕ) (db : Db)
    → let p = insert_mail_stmt name bytes clock db in
      Refined (create name bytes) clock (look db) (look p.1) p.0
unfolding insert_mail_stmt effect
insert_look name bytes clock db = elim (Bool-cases (any (is_mailbox name) db.mailboxes)) [
  | inl e ↦ rw e (
    new_id_free name db,
    λ n k.
        find-put (new_mail name bytes (next_id name db.mails) clock) n k db.mails
          (new_id_free name db),
  )
  | inr e ↦ rw e (λ n k. refl)
]

pub update_look :
    (name : String) (i : ℤ) (a b c d : Bool) (db : Db) (n : String) (k clock : ℕ)
    → look (update_mail_flags_stmt a b c d name i db).1 n k
      ≡ effect (update_flags name i a b c d) 0 clock (look db) n k
unfolding update_mail_flags_stmt effect is_mail
update_look name i a b c d db n k clock =
    find-update_key name i n k (set_flags a b c d) db.mails (λ m. refl)

pub delete_look :
    (name : String) (i : ℤ) (db : Db) (n : String) (k clock : ℕ)
    → look (delete_mail_stmt name i db).1 n k ≡ effect (delete name i) 0 clock (look db) n k
unfolding delete_mail_stmt effect is_mail
delete_look name i db n k clock =
    find-update_key name i n k (λ m. record m { deleted = true }) db.mails (λ m. refl)

pub expunge_look :
    (name : String) (db : Db) (n : String) (k clock : ℕ)
    → IsSound db
    → look (expunge_mail_stmt name db).1 n k ≡ effect (expunge name) 0 clock (look db) n k
unfolding expunge_mail_stmt effect delete_mails
expunge_look name db n k clock s = find-expunge name n k db.mails s.mail_keys
