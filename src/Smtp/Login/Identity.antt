-- ===== src/Smtp/Login/Identity.antt =====
-- What a successful login or command of a session says about who is on the other side.
use yggmail.Base.{
  ◌≢◌, Option, none, some, ℕ, String, ◌≡◌, refl, Bool, true, false, List, [], ◌∷◌, arith, eq_iff,
  str_eq, bytes_eq, bytes_eq_iff, ◌∙◌, ap, ◌⊎◌, inl, inr, Bool-cases, if◌then◌else◌,
}
use yggmail.Exec.{
  resume, attempt, lift, Result, ok, err, panic, bad_password, wrong_identity, fail, pure, ◌>>=◌,
}
use yggmail.Storage.Types.{World}
use yggmail.Storage.Config.{config_get, config_try_password}
use yggmail.Utils.Hex.{encode_hex, decode_hex}
use yggmail.Utils.Address.{parse_address}
use yggmail.Smtp.Login.{
  BackendMode, external, internal, anonymous_login, imap_login, username_fits, log_login,
}
use yggmail.Smtp.Local.{SessionLocal, checked_from, local_mail, local_rcpt, local_reset}
use yggmail.Smtp.Remote.{SessionRemote, remote_from, remote_mail}

named :
    (hostname : String) (r : Result (List ℕ)) (pks : List ℕ)
    → (elim r [
      | ok k ↦ if str_eq hostname (encode_hex k) then ok k else err wrong_identity
      | err e ↦ err e
      | panic ↦ panic
    ])
      ≡ ok pks
    → (r ≡ ok pks) × (hostname ≡ encode_hex pks)
named hostname (ok k) pks h = elim (Bool-cases (str_eq hostname (encode_hex k))) [
  | inl e ↦
      let q : ok k ≡ ok pks = rw e at h in
      (q, (eq_iff hostname (encode_hex k)).0 e ∙ ap encode_hex (ground arith))
  | inr e ↦ absurd (ground arith)
]
named hostname (err e) pks h = cc
named hostname panic pks h = cc

-- A peer is let in only on the overlay side, and only where its HELO name is the hexadecimal form
-- of the key that its overlay address decodes to.
pub anonymous_login_lem :
    (mode : BackendMode) (remote_addr hostname : String) (pks : List ℕ)
    → anonymous_login mode remote_addr hostname ≡ ok pks
    → (mode ≡ external) × (decode_hex remote_addr ≡ ok pks) × (hostname ≡ encode_hex pks)
unfolding anonymous_login
anonymous_login_lem internal remote_addr hostname pks h = cc
anonymous_login_lem external remote_addr hostname pks h =
    let (a, b) = named hostname (decode_hex remote_addr) pks h in (refl, a, b)

remote_from_lem :
    (from : String) (r : Result (List ℕ)) (s : SessionRemote)
    → (remote_from from r s).0 ≡ ok tt
    → (pk : List ℕ) × (r ≡ ok pk)
      × (encode_hex pk ≡ s.remote_addr)
      × ((remote_from from r s).1 ≡ record s { from = from })
unfolding remote_from
remote_from_lem from (ok pk) s h = elim (Bool-cases (str_eq (encode_hex pk) s.remote_addr)) [
  | inl e ↦ (pk, refl, (eq_iff (encode_hex pk) s.remote_addr).0 e, rw e refl)
  | inr e ↦ absurd (ground arith)
]
remote_from_lem from (err e) s h = cc
remote_from_lem from panic s h = cc

-- A remote session takes a sender only where the key in the sender's address is the one in the
-- overlay address of the peer.
pub remote_mail_lem :
    (from : String) (s : SessionRemote)
    → (remote_mail from s).0 ≡ ok tt
    → (pk : List ℕ) × (parse_address from ≡ ok pk)
      × (encode_hex pk ≡ s.remote_addr)
      × ((remote_mail from s).1 ≡ record s { from = from })
unfolding remote_mail
remote_mail_lem from s h = remote_from_lem from (parse_address from) s h

-- The commands of a client in a local session, but for the data.
pub data LocalCommand : Type 0 where
  mail_from rcpt_to : String → LocalCommand
  rset : LocalCommand

module _ (public_key : List ℕ) where
  unfoldable pub run_command : LocalCommand → SessionLocal → SessionLocal
  run_command (LocalCommand.mail_from from) s = (local_mail public_key from s).1
  run_command (LocalCommand.rcpt_to to) s = (local_rcpt to s).1
  run_command LocalCommand.rset s = (local_reset s).1

  unfoldable pub run_commands : List LocalCommand → SessionLocal → SessionLocal
  run_commands [] s = s
  run_commands (c ∷ cs) s = run_commands cs (run_command c s)

  unfoldable pub IsOwn : String → Type 0
  IsOwn from = (from ≡ "") ⊎ (parse_address from ≡ ok public_key)

  checked_from-IsOwn :
      (from : String) (r : Result (List ℕ)) (s : SessionLocal)
      → parse_address from ≡ r
      → IsOwn s.from
      → IsOwn (checked_from public_key from r s).1.from
  unfolding checked_from IsOwn
  checked_from-IsOwn from (ok pk) s e h = elim (Bool-cases (bytes_eq pk public_key)) [
    | inl q ↦ rw q (inr (e ∙ ap ok ((bytes_eq_iff pk public_key).0 q)))
    | inr q ↦ rw q h
  ]
  checked_from-IsOwn from (err x) s e h = h
  checked_from-IsOwn from panic s e h = h

  run_command-IsOwn :
      (c : LocalCommand) (s : SessionLocal) → IsOwn s.from → IsOwn (run_command c s).from
  unfolding run_command local_mail local_rcpt local_reset IsOwn
  run_command-IsOwn (LocalCommand.mail_from from) s h =
      checked_from-IsOwn from (parse_address from) (record s { rcpt = [] }) refl h
  run_command-IsOwn (LocalCommand.rcpt_to to) s h = h
  run_command-IsOwn LocalCommand.rset s h = inl refl

  -- Whatever commands a local client sends, the sender of the session is empty or an address of the
  -- node's own key.
  pub run_commands-IsOwn :
      (cs : List LocalCommand) (s : SessionLocal) → IsOwn s.from → IsOwn (run_commands cs s).from
  unfolding run_commands
  run_commands-IsOwn [] s h = h
  run_commands-IsOwn (c ∷ cs) s h =
      run_commands-IsOwn cs (run_command c s) (run_command-IsOwn c s h)

-- The user name is passed over, or its key is the node's own.
abbrev pub Passes : List ℕ → Result (List ℕ) → Type 0
Passes public_key (ok pk) = pk ≡ public_key
Passes public_key (err e) = Unit
Passes public_key panic = ⊥

module _ (compare : String → String → Bool) (public_key : List ℕ) where
  logged :
      (conn : Option String) (own name : String) (w : World)
      → (log_login conn own w).0 ≡ ok name
      → (name ≡ own) × (conn ≢ none)
  unfolding ◌>>=◌
  logged none own name w h = cc
  logged (some a) own name w h = (ground arith, λ q. cc)

  checked :
      (conn : Option String) (r : Result Bool × World) (name : String) (q : Result String × World)
      → q
        ≡ resume
            (λ authed. if authed then log_login conn (encode_hex public_key) else fail bad_password)
            r
      → q.0 ≡ ok name
      → (name ≡ encode_hex public_key) × (conn ≢ none) × (r.0 ≡ ok true)
  unfolding ◌>>=◌
  checked conn (ok true, w) name q e h =
      let (a, b) = logged conn (encode_hex public_key) name w (rw e at h) in (a, b, refl)
  checked conn (ok false, w) name q e h = absurd (ground arith)
  checked conn (err x, w) name q e h = absurd (ground arith)
  checked conn (panic, w) name q e h = absurd (ground arith)

  -- What the check of the password says of the stored hash.
  Accepts : String → Result String → Type 0
  Accepts password stored =
      (hash : String) × (stored ≡ ok hash) × ((hash ≡ "") ⊎ (compare hash password ≡ true))

  weighed :
      (password hash : String) (q : Result Bool × World) (w : World)
      → q
        ≡ (if str_eq hash ""
              then pure true
              else (if compare hash password then pure true else fail bad_password))
            w
      → q.0 ≡ ok true
      → (hash ≡ "") ⊎ (compare hash password ≡ true)
  unfolding ◌>>=◌
  weighed password hash q w e h = elim (Bool-cases (str_eq hash "")) [
    | inl s ↦ inl ((eq_iff hash "").0 s)
    | inr s ↦ elim (Bool-cases (compare hash password)) [
      | inl c ↦ inr c
      | inr c ↦ absurd (ground arith)
    ]
  ]

  accepted :
      (password : String) (r : Result String × World) (q : Result Bool × World)
      → q
        ≡ resume
            (λ hash.
              if str_eq hash ""
              then pure true
              else (if compare hash password then pure true else fail bad_password))
            r
      → q.0 ≡ ok true
      → Accepts password r.0
  unfolding ◌>>=◌ Accepts
  accepted password (ok hash, w) q e h = (hash, refl, weighed password hash q w e h)
  accepted password (err x, w) q e h = absurd (ground arith)
  accepted password (panic, w) q e h = absurd (ground arith)

  try_password_lem :
      (password : String) (w : World)
      → (config_try_password compare password w).0 ≡ ok true
      → Accepts password (config_get "password" w).0
  unfolding config_try_password ◌>>=◌
  try_password_lem password w h =
      accepted password (config_get "password" w) (config_try_password compare password w) refl h

  attempted :
      (conn : Option String) (r : Result (List ℕ)) (password name : String) (w : World)
      → ((attempt (lift r) >>= λ parsed.
            if username_fits public_key parsed
            then (config_try_password compare password >>= λ authed.
                if authed then log_login conn (encode_hex public_key) else fail bad_password)
            else fail wrong_identity)
          w).0
        ≡ ok name
      → Passes public_key r
        × (name ≡ encode_hex public_key)
        × (conn ≢ none)
        × ((config_try_password compare password w).0 ≡ ok true)
  unfolding ◌>>=◌
  attempted conn (ok pk) password name w h = elim (Bool-cases (bytes_eq pk public_key)) [
    | inl t ↦
        let (a, b, c) =
          checked conn (config_try_password compare password w) name _ refl (rw t at h) in
        ((bytes_eq_iff pk public_key).0 t, a, b, c)
    | inr t ↦ absurd (ground arith)
  ]
  attempted conn (err x) password name w h =
      let (a, b, c) = checked conn (config_try_password compare password w) name _ refl h in
      (tt, a, b, c)
  attempted conn panic password name w h = cc

  -- An IMAP login succeeds only where no password is stored or the stored hash accepts the given
  -- one, where the user name is an address of the node's own key or no address at all, and where the
  -- connection is known; the user that it names is then the node's own key.
  pub imap_login_lem :
      (conn : Option String) (username password name : String) (w : World)
      → (imap_login compare public_key conn username password w).0 ≡ ok name
      → Passes public_key (parse_address username)
        × (name ≡ encode_hex public_key)
        × (conn ≢ none)
        × (hash : String) × ((config_get "password" w).0 ≡ ok hash)
        × ((hash ≡ "") ⊎ (compare hash password ≡ true))
  unfolding imap_login Accepts
  imap_login_lem conn username password name w h =
      let (a, b, c, d) = attempted conn (parse_address username) password name w h in
      let (hash, stored, fits) = try_password_lem password w d in (a, b, c, hash, stored, fits)
