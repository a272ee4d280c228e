-- ===== src/Network/Answers.antt =====
-- How the other node answers a mail from the user of the first.
use yggmail.Base.{
  ℕ, String, Bool, length, true, ◌≡◌, refl, ap, List, Option, eq_refl, bytes_eq_iff, All,
}
use yggmail.Exec.{ok}
use yggmail.Storage.Types.{QueuedMail, World}
use yggmail.Utils.Hex.{encode_hex, decode-encode, IsByte}
use yggmail.Utils.Address.{parse_address}
use yggmail.Smtp.Login.{external, anonymous_login}
use yggmail.Smtp.Local.{MessageLib}
use yggmail.Smtp.Remote.{SessionRemote, remote_mail, remote_from, remote_rcpt, remote_data}
use yggmail.Sender.Delivery.Taking.{IsTaking}
use yggmail.Sender.Delivery.Arrivals.{IsAccepting}
use yggmail.Network.{is_ok, open_session, greet, take_data, answers}
use yggmail.Program.Services.{SmtpServer}

abbrev pub session : List ℕ → String → SessionRemote
session peer from = record { remote_addr = encode_hex peer; public_key = peer; from = from }

anonymous_own :
    (peer : List ℕ)
    → All IsByte peer
    → anonymous_login external (encode_hex peer) (encode_hex peer) ≡ ok peer
unfolding anonymous_login
anonymous_own peer b =
    rw (decode-encode peer b, anonymous_login) (rw (eq_refl (encode_hex peer)) refl)

mail_own :
    (peer : List ℕ) (from : String)
    → parse_address from ≡ ok peer
    → remote_mail from (session peer "") ≡ (ok tt, session peer from)
unfolding remote_mail remote_from
mail_own peer from p = rw p (rw (eq_refl (encode_hex peer)) refl)

pub rcpt_own :
    (public_key : List ℕ) (to : String)
    → parse_address to ≡ ok public_key
    → remote_rcpt public_key to ≡ ok tt
unfolding remote_rcpt
rcpt_own public_key to p = rw p (rw ((bytes_eq_iff public_key public_key).1 refl) refl)

module _ (public_key peer : List ℕ) (lib : MessageLib) (received now : String)
    (conns : List (Option String)) where
  open_own :
      All IsByte peer → open_session public_key peer lib received now conns ≡ ok (session peer "")
  unfolding open_session
  open_own b = rw (anonymous_own peer b, open_session) refl

  pub greet_own :
      (from : String)
      → All IsByte peer
      → parse_address from ≡ ok peer
      → greet public_key peer lib received now conns from ≡ ok (session peer from)
  unfolding greet
  greet_own from b p =
      rw (open_own b, greet) (rw (mail_own peer from p) (ap (λ z. ok z.1) (mail_own peer from p)))

  -- A message below the limit is taken as the session takes it.
  pub take_data_own :
      (server : SmtpServer) (fits : ℕ → ℕ → Bool) (bytes : List ℕ) (w : World)
      → fits server.max_message_bytes (length bytes) ≡ true
      → take_data public_key peer lib received now conns server fits bytes w
        ≡ remote_data lib received now conns bytes w
  unfolding take_data
  take_data_own server fits bytes w h = rw h refl

  -- What the receiving node answers to the attempt at such a mail.
  pub answers_own :
      (server : SmtpServer) (fits : ℕ → ℕ → Bool) (ref : QueuedMail) (bytes : List ℕ) (w : World)
      → All IsByte peer
      → parse_address ref.from ≡ ok peer
      → parse_address ref.rcpt ≡ ok public_key
      → is_ok (take_data public_key peer lib received now conns server fits bytes w).0 ≡ true
      → IsAccepting (answers public_key peer lib received now conns server fits w ref bytes)
  unfolding answers IsTaking
  answers_own server fits ref bytes w b p q r = (
    (
      refl,
      refl,
      refl,
      rw (greet_own ref.from b p) refl,
      rw (rcpt_own public_key ref.rcpt q) refl,
      refl,
      refl,
    ),
    r,
  )
