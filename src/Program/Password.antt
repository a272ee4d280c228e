-- ===== src/Program/Password.antt =====
-- What a start does to the password, and to the two mailboxes that a node needs.
use yggmail.Utils.Hex.{decode-encode}
use yggmail.Utils.Address.Laws.{copy_into-length}
use yggmail.Base.{
  ap, String, Bool, true, false, ◌≡◌, refl, ◌∙◌, List, [], ℕ, str_eq, ◌==◌, eq_refl, if◌then◌else◌,
  Bool-cases, inl, inr, arith,
}
use yggmail.Exec.{ok, err, bad_password, for_each, ◌>>=◌}
use yggmail.Storage.Types.{ConfigRow, World, Db}
use yggmail.Storage.Config.{
  config_get, config_get_stmt, config_set, config_set_stmt, config_set_password,
  config_try_password,
}
use yggmail.Storage.Mailboxes.{mailbox_create, mailboxes_create_stmt}
use yggmail.Storage.Writer.{statement}
use yggmail.Storage.Healthy.{statement_healthy, writer_do_healthy}
use yggmail.Program.Start.{
  Options, exits, Surroundings, private_key_size, or_panic, identity, create_mailboxes,
  new_password, act, main,
}
use yggmail.Program.Identity.{
  IsPrivateKey, key_row, HasKey, read_row, encode_hex-nonempty, find-replace,
}

-- The tables with the two mailboxes of a node.
abbrev pub with_mailboxes : Db → Db
with_mailboxes db = (mailboxes_create_stmt "Outbox" (mailboxes_create_stmt "INBOX" db).1).1

create_ok :
    (name : String) (db : Db)
    → mailboxes_create_stmt name db ≡ (ok tt, (mailboxes_create_stmt name db).1)
unfolding mailboxes_create_stmt
create_ok name db = ground arith

mailbox_create_healthy :
    (name : String) (w : World)
    → w.faults ≡ []
    → mailbox_create name w ≡ (ok tt, record w { tables = (mailboxes_create_stmt name w.tables).1 })
unfolding mailbox_create
mailbox_create_healthy name w f =
    writer_do_healthy (mailboxes_create_stmt name) tt w f ∙ rw (create_ok name w.tables) refl

pub create_mailboxes_healthy :
    (around : Surroundings) (w : World)
    → w.faults ≡ []
    → create_mailboxes around w ≡ (ok tt, record w { tables = with_mailboxes w.tables })
unfolding create_mailboxes or_panic for_each ◌>>=◌
create_mailboxes_healthy around w f = rw (mailbox_create_healthy "INBOX" w f) (
    rw
      (mailbox_create_healthy "Outbox"
        (record w { tables = (mailboxes_create_stmt "INBOX" w.tables).1 }) f)
      refl)

-- The world once a password is stored.
abbrev with_password : String → World → World
with_password hash w = record w { tables = (config_set_stmt "password" hash w.tables).1 }

new_password_healthy :
    (around : Surroundings) (p hash : String) (w : World)
    → w.faults ≡ []
    → around.hash_password (around.trim p) ≡ ok hash
    → new_password around p p w ≡ (ok (exits 0), with_password hash w)
unfolding new_password config_set_password config_set ◌>>=◌
new_password_healthy around p hash w f h =
    rw (eq_refl p) (rw h (rw (writer_do_healthy (config_set_stmt "password" hash) tt w f) refl))

password_read :
    (hash : String) (w : World)
    → w.faults ≡ []
    → statement (config_get_stmt "password") (with_password hash w)
      ≡ (ok hash, with_password hash w)
unfolding config_set_stmt
password_read hash w f =
    let r : ConfigRow = record { key = "password"; value = hash } in
    statement_healthy (config_get_stmt "password") (with_password hash w) f
    ∙ rw (read_row r (with_password hash w).tables (find-replace r w.tables.config)) refl

-- What the check of a password then says.
accepts :
    (compare : String → String → Bool) (hash q : String) (w : World)
    → w.faults ≡ []
    → str_eq hash "" ≡ false
    → config_try_password compare q (with_password hash w)
      ≡ ((if compare hash q then ok true else err bad_password), with_password hash w)
unfolding config_try_password config_get ◌>>=◌
accepts compare hash q w f n = elim (Bool-cases (compare hash q)) [
  | inl c ↦ rw (password_read hash w f) (rw n (rw c refl))
  | inr c ↦ rw (password_read hash w f) (rw n (rw c refl))
]

pub identity_healthy :
    (around : Surroundings) (sk : List ℕ) (w : World)
    → IsPrivateKey sk
    → HasKey sk w.tables
    → w.faults ≡ []
    → identity around w ≡ (ok sk, w)
unfolding identity or_panic config_get ◌>>=◌
identity_healthy around sk w k h f = rw (statement_healthy (config_get_stmt "private_key") w f) (
    rw (read_row (key_row sk) w.tables h) (
      rw (encode_hex-nonempty sk k)
        (rw (decode-encode sk k.1) (rw (copy_into-length private_key_size sk k.0) refl))))

-- The world at the end of a start with `-password`.
abbrev pub renewed : String → World → World
renewed hash w = with_password hash (record w { tables = with_mailboxes w.tables })

start_renews :
    (around : Surroundings) (o : Options) (sk : List ℕ) (p hash : String) (w : World)
    → (o.given == 0) ≡ false
    → o.password ≡ true
    → IsPrivateKey sk
    → HasKey sk w.tables
    → w.faults ≡ []
    → around.first_password ≡ ok p
    → around.second_password ≡ ok p
    → around.hash_password (around.trim p) ≡ ok hash
    → main around o w ≡ (ok (exits 0), renewed hash w)
unfolding main act or_panic ◌>>=◌
start_renews around o sk p hash w z a k h f p1 p2 g = rw z (
    rw (identity_healthy around sk w k h f) (
      rw (create_mailboxes_healthy around w f) (
        rw a (
          rw p1 (
            rw p2 (
              new_password_healthy around p hash (record w { tables = with_mailboxes w.tables }) f
                g))))))

-- A start with -password, at which the same password is typed twice, ends with status 0, and from
-- then on a password is accepted exactly where bcrypt takes it for one of the new hash, where the key
-- of the node is stored, no call of the engine fails, the password can be hashed, and the hash is not empty.
pub new_password_lem :
    (around : Surroundings) (compare : String → String → Bool) (o : Options) (sk : List ℕ)
    (p hash q : String) (w : World)
    → (o.given == 0) ≡ false
    → o.password ≡ true
    → IsPrivateKey sk
    → HasKey sk w.tables
    → w.faults ≡ []
    → around.first_password ≡ ok p
    → around.second_password ≡ ok p
    → around.hash_password (around.trim p) ≡ ok hash
    → str_eq hash "" ≡ false
    → ((main around o w).0 ≡ ok (exits 0))
      × ((config_try_password compare q (main around o w).1).0
          ≡ (if compare hash q then ok true else err bad_password))
new_password_lem around compare o sk p hash q w z a k h f p1 p2 g n =
    rw (start_renews around o sk p hash w z a k h f p1 p2 g) (
      refl,
      ap (λ r. r.0) (accepts compare hash q (record w { tables = with_mailboxes w.tables }) f n),
    )
