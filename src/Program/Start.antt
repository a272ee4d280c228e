-- ===== src/Program/Start.antt =====
-- `main` of cmd/yggmail/main.go up to the start of the servers, with `peerAddrList`. Its output is
-- left out.
use Prim.Native.String.{◌++◌ as append}
use yggmail.Base.{
  ℕ, String, Bool, true, false, not, ◌&&◌, List, [], ◌∷◌, ◌++◌, ◌==◌, str_eq, if◌then◌else◌,
}
use yggmail.Exec.{
  Result, Tried, done, failed, Exec, Done, pure, crash, lift, attempt, for_each, ◌>>=◌, ◌>>◌,
}
use yggmail.Storage.Types.{World}
use yggmail.Storage.Config.{config_get, config_set, config_set_password}
use yggmail.Storage.Mailboxes.{mailbox_create}
use yggmail.Utils.Hex.{encode_hex, decode_hex}
use yggmail.Utils.Address.{copy_into}
use yggmail.Transport.{Libraries, new_yggdrasil_transport}

-- The flags that decide something here; `given` is `flag.NFlag()`.
pub record Options : Type 0 where
  pub given : ℕ
  pub multicast : Bool
  pub password : Bool
  pub passwordhash : String
  pub peers : List String
  pub mcastregexp : String

-- `peerAddrList.String`, which is `strings.Join(*i, ", ")`
unfoldable pub join_peers : List String → String
join_peers [] = ""
join_peers (p ∷ []) = p
join_peers (p ∷ q ∷ ps) = append p (append ", " (join_peers (q ∷ ps)))

-- `peerAddrList.Set`
unfoldable pub set_peer : String → List String → List String
set_peer value peers = peers ++ value ∷ []

-- `config.Config`
pub record Config : Type 0 where
  pub public_key : List ℕ
  pub private_key : List ℕ

pub data Outcome : Type 0 where
  exits : ℕ → Outcome
  serves : Config → Outcome

-- What the program takes from its surroundings and from libraries: a new private key, the public
-- half of one, the two passwords typed in, `strings.TrimSpace`, `bcrypt.GenerateFromPassword`,
-- whether `bcrypt.Cost` takes a hash, and the libraries of the transport.
pub record Surroundings : Type 1 where
  pub generated : Result (List ℕ)
  pub public_half : List ℕ → List ℕ
  pub first_password : Result String
  pub second_password : Result String
  pub trim : String → String
  pub hash_password : String → Result String
  pub is_hash : String → Bool
  pub libraries : Libraries

-- `if err != nil { panic(err) }`
abbrev pub value_or_panic : {A : Type 0} → Tried A → Exec World A
value_or_panic (done a) = pure a
value_or_panic (failed e) = crash

unfoldable pub or_panic : {A : Type 0} → Exec World A → Exec World A
or_panic m = do result ← attempt m; value_or_panic result

-- `ed25519.PrivateKeySize`
abbrev pub private_key_size : ℕ
private_key_size = 64

abbrev pub exit_after : ℕ → Tried Done → Exec World Outcome
exit_after status (done u) = pure (exits status)
exit_after status (failed e) = pure (exits 1)

abbrev pub store_password : Tried String → Exec World Outcome
store_password (done hash) = do stored ← attempt (config_set_password hash); exit_after 0 stored
store_password (failed e) = pure (exits 1)

abbrev pub is_empty : List String → Bool
is_empty [] = true
is_empty (p ∷ ps) = false

module _ (around : Surroundings) where
  -- The private key that is stored, or a new one that is stored then.
  unfoldable pub identity : Exec World (List ℕ)
  identity = do
    sk_str ← or_panic (config_get "private_key")
    if str_eq sk_str ""
        then (do
          sk ← or_panic (lift around.generated)
          or_panic (config_set "private_key" (encode_hex sk))
          pure sk)
        else (do
          bytes ← or_panic (lift (decode_hex sk_str))
          pure (copy_into private_key_size bytes))

  unfoldable pub create_mailboxes : Exec World Done
  create_mailboxes = for_each ("INBOX" ∷ "Outbox" ∷ []) (λ name. or_panic (mailbox_create name))

  -- The branch of `-password`, once both passwords are read.
  unfoldable pub new_password : String → String → Exec World Outcome
  new_password password1 password2 =
      if not (str_eq password1 password2) then pure (exits 1) else (do
        hash ← attempt (lift (around.hash_password (around.trim password1)))
        store_password hash)

  unfoldable pub serve : Options → List ℕ → Exec World Outcome
  serve options sk = do
    or_panic (
        lift (
          new_yggdrasil_transport around.libraries sk (around.public_half sk) options.peers
            options.multicast options.mcastregexp))
    pure (serves (record { public_key = around.public_half sk; private_key = sk }))

  -- What follows the setting of a hash: the switch is left, and the program goes on.
  abbrev pub serve_after : Options → List ℕ → Tried Done → Exec World Outcome
  serve_after options sk (done u) = serve options sk
  serve_after options sk (failed e) = pure (exits 1)

  -- The branch of `-passwordhash`.
  unfoldable pub new_hash : Options → List ℕ → String → Exec World Outcome
  new_hash options sk hash =
      if str_eq hash ""
      then pure (exits 1)
      else if not (around.is_hash hash)
      then pure (exits 1)
      else (do result ← attempt (config_set_password hash); serve_after options sk result)

  -- The `switch` over the flags.
  unfoldable pub act : Options → List ℕ → Exec World Outcome
  act options sk =
      if options.password
      then (do
        password1 ← or_panic (lift around.first_password)
        password2 ← or_panic (lift around.second_password)
        new_password password1 password2)
      else if not (str_eq options.passwordhash "")
      then new_hash options sk (around.trim options.passwordhash)
      else if not options.multicast && is_empty options.peers
      then pure (exits 0)
      else serve options sk

  unfoldable pub main : Options → Exec World Outcome
  main options =
      if options.given == 0
      then pure (exits 0)
      else (do sk ← identity; create_mailboxes; act options sk)
