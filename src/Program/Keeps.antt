-- ===== src/Program/Keeps.antt =====
-- What a start of the program leaves as it was.
use yggmail.Base.{ℕ, String, true, ◌≡◌, refl, List, [], ◌∷◌, any, any-append, arith}
use yggmail.Exec.{Exec, Done, Tried, done, failed, pure, lift, ◌>>=◌, ◌>>◌}
use yggmail.Exec.Preserves.{
  Preserves, Preserves-bind, Preserves-if, Preserves-lift, Preserves-pure, Preserves-attempt,
  preserves_rules,
}
use yggmail.Storage.Types.{World, Db, Mail, QueueRow, is_mailbox}
use yggmail.Storage.Config.{
  config_get, config_set, config_set_password, value_or_empty, config_set_stmt,
}
use yggmail.Storage.Mailboxes.{mailbox_create, mailboxes_create_stmt}
use yggmail.Storage.Integrity.Rules.{
  OnTables, Preserves-statement, Preserves-writer_do, Preserves-read,
}
use yggmail.Storage.Integrity.Operations
use yggmail.Storage.Integrity.Operations.{Sound}
use yggmail.Utils.Hex.{encode_hex, decode_hex}
use yggmail.Utils.Address.{copy_into}
use yggmail.Program.Start.{
  private_key_size, Options, Surroundings, value_or_panic, or_panic, exit_after, store_password,
  identity, create_mailboxes, new_password, serve, serve_after, new_hash, act, main,
}

-- The calls of the storage that a start makes, once it has its key, keep `P`.
pub record Kept (P : World → Type 0) : Type 0 where
  pub set_password : (hash : String) → Preserves P (config_set_password hash)
  pub create : (name : String) → Preserves P (mailbox_create name)

module _ {P : World → Type 0} where
  value_or_panic-Kept : {A : Type 0} (r : Tried A) → Preserves P (value_or_panic r)
  value_or_panic-Kept (done a) = search preserves_rules
  value_or_panic-Kept (failed e) = search preserves_rules

  pub or_panic-Kept : {A : Type 0} (m : Exec World A) → Preserves P m → Preserves P (or_panic m)
  unfolding or_panic
  or_panic-Kept m h = Preserves-bind _ _ (Preserves-attempt m h) value_or_panic-Kept

module _ {P : World → Type 0} (k : Kept P) (around : Surroundings) where
  exit_after-Kept : (n : ℕ) (r : Tried Done) → Preserves P (exit_after n r)
  exit_after-Kept n (done u) = search preserves_rules
  exit_after-Kept n (failed e) = search preserves_rules

  store_password-Kept : (r : Tried String) → Preserves P (store_password r)
  store_password-Kept (done hash) = search (preserves_rules, k.set_password, exit_after-Kept)
  store_password-Kept (failed e) = search preserves_rules

  create_mailboxes-Kept : Preserves P (create_mailboxes around)
  unfolding create_mailboxes
  create_mailboxes-Kept = search (preserves_rules, or_panic-Kept, k.create)

  serve-Kept : (o : Options) (sk : List ℕ) → Preserves P (serve around o sk)
  unfolding serve
  serve-Kept o sk = search (preserves_rules, or_panic-Kept)

  serve_after-Kept :
      (o : Options) (sk : List ℕ) (r : Tried Done) → Preserves P (serve_after around o sk r)
  serve_after-Kept o sk (done u) = serve-Kept o sk
  serve_after-Kept o sk (failed e) = search preserves_rules

  new_hash-Kept :
      (o : Options) (sk : List ℕ) (hash : String) → Preserves P (new_hash around o sk hash)
  unfolding new_hash
  new_hash-Kept o sk hash = search (preserves_rules, k.set_password, serve_after-Kept)

  new_password-Kept : (p q : String) → Preserves P (new_password around p q)
  unfolding new_password
  new_password-Kept p q = search (preserves_rules, store_password-Kept)

  act-Kept : (o : Options) (sk : List ℕ) → Preserves P (act around o sk)
  unfolding act
  act-Kept o sk =
      search (preserves_rules, or_panic-Kept, new_password-Kept, new_hash-Kept, serve-Kept)

  -- What follows the identity.
  pub rest-Kept :
      (o : Options) (sk : List ℕ) → Preserves P (create_mailboxes around >> act around o sk)
  rest-Kept o sk = search (preserves_rules, create_mailboxes-Kept, act-Kept)

  pub main-Kept : (o : Options) → Preserves P (identity around) → Preserves P (main around o)
  unfolding main
  main-Kept o h =
      Preserves-if _ _ _ (Preserves-pure _) (Preserves-bind _ _ h (λ sk. rest-Kept o sk))

module _ {P : World → Type 0} (get : Preserves P (config_get "private_key"))
    (set : (value : String) → Preserves P (config_set "private_key" value)) where
  identity-Preserves : (around : Surroundings) → Preserves P (identity around)
  unfolding identity
  identity-Preserves around =
      Preserves-bind _ _ (or_panic-Kept _ get) (λ sk_str. Preserves-if _ _ _ create (read sk_str))
    where
      store :
          (sk : List ℕ)
          → Preserves P (or_panic (config_set "private_key" (encode_hex sk)) >> pure sk)
      store sk = Preserves-bind _ _ (or_panic-Kept _ (set (encode_hex sk))) (λ u. Preserves-pure _)

      create : Preserves P (
          or_panic (lift around.generated) >>= λ sk.
          or_panic (config_set "private_key" (encode_hex sk)) >> pure sk)
      create = Preserves-bind _ _ (or_panic-Kept _ (Preserves-lift _)) store

      read :
          (sk_str : String)
          → Preserves P (
              or_panic (lift (decode_hex sk_str)) >>= λ bytes.
              pure (copy_into private_key_size bytes))
      read sk_str = search (preserves_rules, or_panic-Kept)

-- The mails, the queue and the mailboxes that there are.
abbrev pub Untouched : List Mail → List QueueRow → String → Db → Type 0
Untouched mails queue name db =
    (db.mails ≡ mails) × (db.queue ≡ queue) × (any (is_mailbox name) db.mailboxes ≡ true)

create-Untouched :
    (mails : List Mail) (queue : List QueueRow) (name a : String) (db : Db)
    → Untouched mails queue name db
    → Untouched mails queue name (mailboxes_create_stmt a db).1
unfolding mailboxes_create_stmt
create-Untouched mails queue name a db h = ground (
  arith,
  any-append (is_mailbox name) db.mailboxes (record { mailbox = a; subscribed = true } ∷ []),
)

pub config_get-Keeps : (P : Db → Type 0) (key : String) → Preserves (OnTables P) (config_get key)
unfolding config_get
config_get-Keeps P key =
    Preserves-bind _ _ (Preserves-attempt _ (Preserves-read P _ (λ db. ground arith))) value
  where
    value : (r : Tried String) → Preserves (OnTables P) (value_or_empty r)
    value (done a) = search preserves_rules
    value (failed e) = search preserves_rules

set-Untouched :
    (mails : List Mail) (queue : List QueueRow) (name key value : String)
    → Preserves (OnTables (Untouched mails queue name)) (config_set key value)
unfolding config_set config_set_stmt
set-Untouched mails queue name key value =
    Preserves-writer_do _ tt _ (Preserves-statement (Untouched mails queue name) _ (λ db h. h))

calls-Untouched :
    (mails : List Mail) (queue : List QueueRow) (name : String)
    → Kept (OnTables (Untouched mails queue name))
unfolding config_set_password mailbox_create
calls-Untouched mails queue name = record {
  set_password = λ hash. set-Untouched mails queue name "password" hash;
  create = λ a.
      Preserves-writer_do _ tt _
        (Preserves-statement (Untouched mails queue name) _ (create-Untouched mails queue name a));
}

calls-Sound : Kept Sound
unfolding config_set_password
calls-Sound = record {
  set_password = Operations.config_set-Sound "password";
  create = Operations.mailbox_create-Sound;
}

-- A start of the program, with whatever flags, however it ends and whichever calls of the engine
-- fail, keeps every mail, the whole queue and every mailbox that there is, and keeps sound tables
-- sound.
pub main-Untouched :
    (around : Surroundings) (o : Options) (w : World) (name : String)
    → Sound w
    → any (is_mailbox name) w.tables.mailboxes ≡ true
    → let v = (main around o w).1 in
      Sound v
      × (v.tables.mails ≡ w.tables.mails)
      × (v.tables.queue ≡ w.tables.queue)
      × (any (is_mailbox name) v.tables.mailboxes ≡ true)
main-Untouched around o w name s h =
    let sound =
      main-Kept calls-Sound around o (
        identity-Preserves (Operations.config_get-Sound _) (Operations.config_set-Sound _)
          around) in
    let same =
      main-Kept (calls-Untouched w.tables.mails w.tables.queue name) around o
        (identity-Preserves (config_get-Keeps _ _) (set-Untouched _ _ name _) around) in
    let (m, q, b) = same.from_state w (refl, refl, h) in (sound.from_state w s, m, q, b)
