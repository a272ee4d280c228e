-- ===== src/Transport.antt =====
-- internal/transport/yggdrasil.go, over the Yggdrasil library, which is a parameter.
use Prim.Native.String.{◌++◌ as append}
use yggmail.Base.{ℕ, String, Bool, true, List, [], ◌∷◌, if◌then◌else◌}
use yggmail.Exec.{Result, ok, err, panic, Done}
use yggmail.Utils.Hex.{encode_hex}

-- The options of `core.New`.
pub record NodeOptions : Type 0 where
  pub name : String
  pub privacy : Bool
  pub peers : List String

pub record MulticastInterface : Type 0 where
  pub regex : String
  pub beacon : Bool
  pub listen : Bool

-- How the libraries answer: `GenerateSelfSignedCertificate` for a private key, `core.New`,
-- whether a regular expression compiles, `multicast.New`, `yggquic.New`, and its connections.
pub record Libraries : Type 1 where
  pub Conn : Type 0
  pub certificate : List ℕ → Result Done
  pub core : NodeOptions → Result Done
  pub compiles : String → Bool
  pub multicast : MulticastInterface → Result Done
  pub quic : Result Done
  pub dial : String → Result Conn
  pub write : Conn → List ℕ → Result Done

-- `if err != nil { panic(err) }`
abbrev must : Result Done → Result Done → Result Done
must (ok u) next = next
must (err e) next = panic
must panic next = panic

module _ (lib : Libraries) where
  -- What follows the certificate.
  unfoldable pub set_up : List ℕ → List String → Bool → String → Result Done
  set_up pk peers mcast mcastregexp =
      must
        (lib.core
          (record { name = append (encode_hex pk) "@yggmail"; privacy = true; peers = peers }))
        (if lib.compiles mcastregexp
          then must (lib.multicast (record { regex = mcastregexp; beacon = mcast; listen = mcast }))
              (must lib.quic (ok tt))
          else panic)

  -- `NewYggdrasilTransport`. The configuration's private key has as many bytes as `sk`, so the copy
  -- leaves `sk`.
  unfoldable pub new_yggdrasil_transport :
      List ℕ → List ℕ → List String → Bool → String → Result Done
  new_yggdrasil_transport sk pk peers mcast mcastregexp = elim (lib.certificate sk) [
    | ok u ↦ set_up pk peers mcast mcastregexp
    | err e ↦ err e
    | panic ↦ panic
  ]

  -- `Dial`: a space is sent, so that the other side speaks first. An error of the write comes with the
  -- connection, which its callers pass over.
  unfoldable pub dial : String → Result lib.Conn
  dial host = elim (lib.dial host) [
    | ok c ↦ elim (lib.write c (32 ∷ [])) [ ok u ↦ ok c | err e ↦ err e | panic ↦ panic ]
    | err e ↦ err e
    | panic ↦ panic
  ]
