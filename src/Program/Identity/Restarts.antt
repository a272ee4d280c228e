-- ===== src/Program/Identity/Restarts.antt =====
-- The key of the node from one start to the next.
use yggmail.Base.{
  Bool-cases, ℕ, String, ◌≡◌, refl, ◌∙◌, ◌⊎◌, inl, inr, Bool, false, List, [], ◌∷◌, none, ◌==◌,
}
use yggmail.Exec.{no_rows, ok, err, panic, Exec, Done, Tried, done, failed, ◌>>=◌, ◌>>◌}
use yggmail.Exec.Gives.{Gives, Gives-pure, Gives-after, gives_rules}
use yggmail.Storage.Types.{World}
use yggmail.Storage.Config.{config_get, config_get_stmt, config_set, config_set_stmt}
use yggmail.Storage.Writer.{statement}
use yggmail.Storage.Healthy.{statement_healthy, writer_do_healthy}
use yggmail.Utils.Hex.{encode_hex}
use yggmail.Program.Start.{
  Options, Outcome, exits, serves, Config, Surroundings, or_panic, exit_after, store_password,
  identity, create_mailboxes, new_password, serve, serve_after, new_hash, act, main,
}
use yggmail.Program.Keeps.{rest-Kept}
use yggmail.Program.Identity.{
  IsPrivateKey, stored, key_row, HasKey, find-replace, calls-HasKey, identity_known,
}

-- With this key, where it is one of serving.
abbrev With : List ℕ → Outcome → Type 0
With sk (exits n) = Unit
With sk (serves c) = c.private_key ≡ sk

abbrev Serves : List ℕ → Exec World Outcome → Type 0
Serves sk m = Gives (With sk) m

module _ (around : Surroundings) (sk : List ℕ) where
  exit_after-Serves : (n : ℕ) (r : Tried Done) → Serves sk (exit_after n r)
  exit_after-Serves n (done u) = Gives-pure _ tt
  exit_after-Serves n (failed e) = Gives-pure _ tt

  store_password-Serves : (r : Tried String) → Serves sk (store_password r)
  store_password-Serves (done hash) = search (gives_rules, exit_after-Serves)
  store_password-Serves (failed e) = Gives-pure _ tt

  serve-Serves : (o : Options) → Serves sk (serve around o sk)
  unfolding serve
  serve-Serves o = Gives-after _ _ (λ u. Gives-pure _ refl)

  serve_after-Serves : (o : Options) (r : Tried Done) → Serves sk (serve_after around o sk r)
  serve_after-Serves o (done u) = serve-Serves o
  serve_after-Serves o (failed e) = Gives-pure _ tt

  new_hash-Serves : (o : Options) (hash : String) → Serves sk (new_hash around o sk hash)
  unfolding new_hash
  new_hash-Serves o hash = search (gives_rules, serve_after-Serves)

  new_password-Serves : (p q : String) → Serves sk (new_password around p q)
  unfolding new_password
  new_password-Serves p q = search (gives_rules, store_password-Serves)

  rest-Serves : (o : Options) → Serves sk (create_mailboxes around >> act around o sk)
  unfolding act
  rest-Serves o = search (gives_rules, new_password-Serves, new_hash-Serves, serve-Serves) depth 8

-- Everything after the identity.
abbrev rest : Surroundings → Options → List ℕ → Exec World Outcome
rest around o sk = create_mailboxes around >> act around o sk

KeyKept : List ℕ → World → Exec World Outcome → Type 0
KeyKept sk w m =
    HasKey sk (m w).1.tables × ((c : Config) → (m w).0 ≡ ok (serves c) → c.private_key ≡ sk)

rest_known :
    (around : Surroundings) (o : Options) (sk : List ℕ) (w v : World)
    → HasKey sk v.tables
    → (identity around w ≡ (ok sk, v)) ⊎ (identity around w ≡ (panic, v))
    → KeyKept sk w (identity around >>= rest around o)
unfolding KeyKept ◌>>=◌
rest_known around o sk w v kept (inl q) = rw q (
  (rest-Kept (calls-HasKey sk) around o sk).from_state v kept,
  λ c e. (rest-Serves around sk o).at_end v (serves c) e,
)
rest_known around o sk w v kept (inr q) = rw q (kept, λ c e. cc)

-- What a start does with the key that is stored.
start_known :
    (around : Surroundings) (o : Options) (sk : List ℕ) (w : World)
    → IsPrivateKey sk
    → HasKey sk w.tables
    → KeyKept sk w (main around o)
unfolding main KeyKept ◌>>=◌
start_known around o sk w k h = elim (Bool-cases (o.given == 0)) [
  | inl z ↦ rw z (h, λ c e. cc)
  | inr z ↦
      rw z (let (c, kept) = identity_known around sk w k h in rest_known around o sk w _ kept c)
]

-- One start of the program, and what it meets.
pub record Launch : Type 1 where
  pub around : Surroundings
  pub options : Options
  pub faults : List Bool

unfoldable pub launch : Launch → Exec World Outcome
launch l w = main l.around l.options (record w { faults = l.faults })

-- Starts one after another, on one database.
unfoldable pub launches : List Launch → World → World
launches [] w = w
launches (l ∷ ls) w = launches ls (launch l w).1

launches_known :
    (ls : List Launch) (sk : List ℕ) (w : World)
    → IsPrivateKey sk
    → HasKey sk w.tables
    → HasKey sk (launches ls w).tables
unfolding launches launch KeyKept
launches_known [] sk w k h = h
launches_known (l ∷ ls) sk w k h =
    launches_known ls sk (launch l w).1 k
      (start_known l.around l.options sk (record w { faults = l.faults }) k h).0

read_none :
    (w : World)
    → w.faults ≡ []
    → stored "private_key" w.tables.config ≡ none
    → statement (config_get_stmt "private_key") w ≡ (err no_rows, w)
unfolding config_get_stmt
read_none w f n = statement_healthy _ w f ∙ rw (n, config_get_stmt) refl

-- A first start makes the key and stores it.
pub identity_new :
    (around : Surroundings) (sk : List ℕ) (w : World)
    → w.faults ≡ []
    → stored "private_key" w.tables.config ≡ none
    → around.generated ≡ ok sk
    → identity around w
      ≡ (ok sk, record w { tables = (config_set_stmt "private_key" (encode_hex sk) w.tables).1 })
unfolding identity or_panic config_get config_set ◌>>=◌
identity_new around sk w f n g =
    rw (read_none w f n)
      (rw g (rw (writer_do_healthy (config_set_stmt "private_key" (encode_hex sk)) tt w f) refl))

start_new :
    (around : Surroundings) (o : Options) (sk : List ℕ) (w : World)
    → (o.given == 0) ≡ false
    → w.faults ≡ []
    → stored "private_key" w.tables.config ≡ none
    → around.generated ≡ ok sk
    → HasKey sk (main around o w).1.tables
unfolding main KeyKept config_set_stmt
start_new around o sk w z f n g =
    rw z
      (rest_known around o sk w _ (find-replace (key_row sk) w.tables.config)
        (inl (identity_new around sk w f n g))).0

-- The key that the first start generates is the node's for good: where a start with a flag finds no
-- key stored, gets a private key of 64 bytes generated and no call of the engine fails, every later
-- start that comes to serve does so with that key, whatever its flags, its surroundings and the
-- starts in between, and whichever calls of the engine then fail.
pub key_stays :
    (around : Surroundings) (o : Options) (sk : List ℕ) (w : World) (ls : List Launch) (l : Launch)
    (c : Config)
    → IsPrivateKey sk
    → (o.given == 0) ≡ false
    → w.faults ≡ []
    → stored "private_key" w.tables.config ≡ none
    → around.generated ≡ ok sk
    → (launch l (launches ls (main around o w).1)).0 ≡ ok (serves c)
    → c.private_key ≡ sk
unfolding launch KeyKept
key_stays around o sk w ls l c k z f n g h =
    let before = launches_known ls sk (main around o w).1 k (start_new around o sk w z f n g) in
    (start_known l.around l.options sk _ k before).1 c h
