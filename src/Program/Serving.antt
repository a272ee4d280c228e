-- ===== src/Program/Serving.antt =====
-- A start that comes to serve.
use yggmail.Base.{
  String, true, false, not, ◌&&◌, ◌≡◌, refl, List, [], ◌∷◌, ℕ, str_eq, ◌==◌, any, any-append,
  eq_refl, arith,
}
use yggmail.Exec.{ok, ◌>>=◌}
use yggmail.Storage.Types.{World, Db, is_mailbox}
use yggmail.Storage.Mailboxes.{mailboxes_create_stmt}
use yggmail.Transport.{new_yggdrasil_transport}
use yggmail.Program.Start.{
  Options, serves, Surroundings, is_empty, or_panic, identity, serve, act, main,
}
use yggmail.Program.Identity.{IsPrivateKey, HasKey}
use yggmail.Program.Password.{with_mailboxes, create_mailboxes_healthy, identity_healthy}

-- The flags ask for no password, and for multicast or a peer.
abbrev pub AsksToServe : Options → Type 0
AsksToServe o =
    ((o.given == 0) ≡ false)
    × (o.password ≡ false)
    × (str_eq o.passwordhash "" ≡ true)
    × ((not o.multicast && is_empty o.peers) ≡ false)

pub serves_after :
    (around : Surroundings) (o : Options) (sk : List ℕ) (w v : World)
    → AsksToServe o
    → identity around w ≡ (ok sk, v)
    → v.faults ≡ []
    → new_yggdrasil_transport around.libraries sk
        (around.public_half sk)
        o.peers
        o.multicast
        o.mcastregexp
      ≡ ok tt
    → main around o w ≡ (
      ok (serves (record { public_key = around.public_half sk; private_key = sk })),
      record v { tables = with_mailboxes v.tables },
    )
unfolding main act serve or_panic ◌>>=◌
serves_after around o sk w v (z, a, b, c) q f t =
    rw z (rw q (rw (create_mailboxes_healthy around v f) (rw a (rw b (rw c (rw t refl))))))

create-any :
    (name : String) (db : Db)
    → any (is_mailbox name) (mailboxes_create_stmt name db).1.mailboxes ≡ true
unfolding mailboxes_create_stmt is_mailbox
create-any name db = ground (
  arith,
  eq_refl name,
  any-append (is_mailbox name) db.mailboxes (record { mailbox = name; subscribed = true } ∷ []),
)

create-keeps :
    (name other : String) (db : Db)
    → any (is_mailbox name) db.mailboxes ≡ true
    → any (is_mailbox name) (mailboxes_create_stmt other db).1.mailboxes ≡ true
unfolding mailboxes_create_stmt
create-keeps name other db h = ground (
  arith,
  any-append (is_mailbox name) db.mailboxes (record { mailbox = other; subscribed = true } ∷ []),
)

-- A start whose flags ask to serve does so with the key that is stored, and leaves a database with an
-- INBOX and an Outbox, where no call of the engine fails and the transport starts.
pub start_serves :
    (around : Surroundings) (o : Options) (sk : List ℕ) (w : World)
    → AsksToServe o
    → IsPrivateKey sk
    → HasKey sk w.tables
    → w.faults ≡ []
    → new_yggdrasil_transport around.libraries sk
        (around.public_half sk)
        o.peers
        o.multicast
        o.mcastregexp
      ≡ ok tt
    → let r = main around o w in
      (r.0 ≡ ok (serves (record { public_key = around.public_half sk; private_key = sk })))
      × (any (is_mailbox "INBOX") r.1.tables.mailboxes ≡ true)
      × (any (is_mailbox "Outbox") r.1.tables.mailboxes ≡ true)
start_serves around o sk w a k h f t =
    rw (serves_after around o sk w w a (identity_healthy around sk w k h f) f t) (
      refl,
      create-keeps "INBOX" "Outbox" (mailboxes_create_stmt "INBOX" w.tables).1
          (create-any "INBOX" w.tables),
      create-any "Outbox" (mailboxes_create_stmt "INBOX" w.tables).1,
    )
