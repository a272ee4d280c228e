-- ===== src/Sender/Queues/Race.antt =====
-- `QueueFor` while a queue that it has started is already running.
use yggmail.Base.{
  ℕ, String, true, Bool-cases, inl, inr, ◌≡◌, ◌≢◌, refl, any, List, [], ◌∷◌, str_eq, str_ne, pos,
  false,
}
use yggmail.Exec.{Result, ok, err, panic, foreign_key, Exec, Done, for_each, resume, ◌>>=◌}
use yggmail.Storage.Types.{is_mailbox, is_mail, World}
use yggmail.Storage.Engine.{Engine}
use yggmail.Storage.Mails.{mail_create, next_id}
use yggmail.Storage.Integrity.Operations.{Sound}
use yggmail.Storage.Healthy.{with_mail, mail_create_lem}
use yggmail.Utils.Hex.{encode_hex}
use yggmail.Utils.Address.{parse_address}
use yggmail.Sender.Node.{Node, stored}
use yggmail.Sender.Queues.{queue_recipient, queue_for, queue_for_server, queue_for_amid}
use yggmail.Sender.Delivery.{Remote, run}
use yggmail.Sender.Delivery.Taking.{IsTaking}
use yggmail.Storage.Types.{QueuedMail}
use yggmail.Sender.Queues.Entries.{queued_world, inserted, inserted_next, removed, orphaned}
use yggmail.Sender.Queues.Queuing.{new_entry, with_entry, started_world}

resume_idle : (p : Result Done × Node) → resume (λ (_ : Done) (m : Node). (ok tt, m)) p ≡ p
resume_idle (ok u, m) = refl
resume_idle (err e, m) = refl
resume_idle (panic, m) = refl

resume_ext :
    {A B : Type 0} (f g : A → Exec Node B) (p : Result A × Node)
    → ((a : A) (m : Node) → f a m ≡ g a m)
    → resume f p ≡ resume g p
resume_ext f g (ok a, m) h = h a m
resume_ext f g (err e, m) h = refl
resume_ext f g (panic, m) h = refl

-- The world with the new mail and an entry for each of the two hosts.
abbrev pub queued_twice : String → String → String → String → String → List ℕ → World → World
queued_twice host host' from first second content w =
    with_entry (queued_world host from first content w)
      (new_entry host' (next_id "Outbox" w.tables.mails) from second)

module _ (parse_mail : String → Result String) (public_key : List ℕ) where
  for_each_same :
      {X : Type 0} (xs : List X) (body : X → Exec Node Done) (n : Node)
      → for_each xs (λ x. body x >>= λ _. λ m. (ok tt, m)) n ≡ for_each xs body n
  unfolding for_each ◌>>=◌
  for_each_same [] body n = refl
  for_each_same (x ∷ xs) body n =
      rw (resume_idle (body x n))
        (resume_ext _ (λ _. for_each xs body) (body x n) (λ _. for_each_same xs body))

  -- Where the other goroutines do nothing, it is `QueueFor`.
  queue_for_alone :
      (from : String) (rcpts : List String) (content : List ℕ) (n : Node)
      → queue_for_amid parse_mail public_key (λ m. m) from rcpts content n
        ≡ queue_for parse_mail public_key from rcpts content n
  unfolding queue_for queue_for_amid ◌>>=◌
  queue_for_alone from rcpts content n =
      resume_ext _ (λ pid. for_each rcpts (queue_recipient parse_mail public_key pid from))
        (stored (mail_create "Outbox" content) n)
        (λ pid. for_each_same rcpts (queue_recipient parse_mail public_key pid from))

  -- A second recipient at a third node.
  queue_for_both :
      (from first second addr addr' : String) (pk pk' content : List ℕ) (n : Node)
      → parse_mail first ≡ ok addr
      → parse_mail second ≡ ok addr'
      → parse_address addr ≡ ok pk
      → parse_address addr' ≡ ok pk'
      → encode_hex pk ≢ encode_hex public_key
      → encode_hex pk' ≢ encode_hex public_key
      → encode_hex pk' ≢ encode_hex pk
      → any (is_mailbox "Outbox") n.world.tables.mailboxes ≡ true
      → n.world.faults ≡ []
      → Sound n.world
      → let r = queue_for parse_mail public_key from (first ∷ second ∷ []) content n in
        (r.0 ≡ ok tt)
        × (r.1.world
            ≡ queued_twice (encode_hex pk) (encode_hex pk') from first second content n.world)
  unfolding queue_for queue_recipient queue_for_server for_each stored ◌>>=◌ with_mail
  queue_for_both from first second addr addr' pk pk' content n p p' q q' ne ne' other known h s =
      let host = encode_hex pk in
      let insert = inserted host from first content n.world h s in
      let next = inserted_next host from first content n.world (encode_hex pk') second other h s in
      let full = queued_twice host (encode_hex pk') from first second content n.world in
      elim (Bool-cases (any (str_eq host) n.running)) [
        | inl r ↦
            rw
              (
                mail_create_lem "Outbox" content n.world known h,
                p,
                q,
                str_ne _ _ ne,
                insert,
                r,
                p',
                q',
                str_ne _ _ ne',
                next,
              )
              (refl, started_world (encode_hex pk') (record n { world = full }))
        | inr r ↦
            rw
              (
                mail_create_lem "Outbox" content n.world known h,
                p,
                q,
                str_ne _ _ ne,
                insert,
                r,
                p',
                q',
                str_ne _ _ ne',
                next,
              )
              (
                refl,
                started_world (encode_hex pk')
                    (record n { world = full; running = host ∷ n.running }),
              )
      ]

  -- A run of the first recipient's queue between the two.
  queue_for_overtaken :
      (e : Engine) (remote : Remote) (from first second addr addr' : String)
      (pk pk' content : List ℕ) (n : Node)
      → ((ref : QueuedMail) (bytes : List ℕ) → IsTaking (remote ref bytes))
      → parse_mail first ≡ ok addr
      → parse_mail second ≡ ok addr'
      → parse_address addr ≡ ok pk
      → parse_address addr' ≡ ok pk'
      → encode_hex pk ≢ encode_hex public_key
      → encode_hex pk' ≢ encode_hex public_key
      → any (is_mailbox "Outbox") n.world.tables.mailboxes ≡ true
      → n.world.faults ≡ []
      → Sound n.world
      → let r =
          queue_for_amid parse_mail public_key
            (λ m. (run e remote (encode_hex pk) m).1)
            from
            (first ∷ second ∷ [])
            content
            n in
        (r.0 ≡ err foreign_key)
        × (any
              (is_mail "Outbox" (pos (next_id "Outbox" n.world.tables.mails)))
              r.1.world.tables.mails
            ≡ false)
  unfolding queue_for_amid queue_recipient queue_for_server for_each stored ◌>>=◌ with_mail
  queue_for_overtaken e remote from first second addr addr' pk pk' content n taking p p' q q' ne ne'
        known h s =
      let host = encode_hex pk in
      let insert = inserted host from first content n.world h s in
      let late =
        orphaned e remote host from first content n.world taking known h s (encode_hex pk')
          second in
      let gone = removed e remote host from first content n.world taking known h s in
      let left : Node = record n { world = queued_world host from first content n.world } in
      elim (Bool-cases (any (str_eq host) n.running)) [
        | inl r ↦
            rw
              (
                mail_create_lem "Outbox" content n.world known h,
                p,
                q,
                str_ne _ _ ne,
                insert,
                r,
                p',
                q',
                str_ne _ _ ne',
                late left refl,
              )
              (refl, gone left refl)
        | inr r ↦
            rw
              (
                mail_create_lem "Outbox" content n.world known h,
                p,
                q,
                str_ne _ _ ne,
                insert,
                r,
                p',
                q',
                str_ne _ _ ne',
                late (record left { running = host ∷ n.running }) refl,
              )
              (refl, gone (record left { running = host ∷ n.running }) refl)
      ]

  -- Where `QueueFor` is not interrupted, a mail for recipients at two other nodes ends in the Outbox
  -- with one entry for each of the two. Where a run of the first recipient's queue comes between the
  -- two, `QueueFor` ends with an error of the foreign key for the second one, and the mail is no
  -- longer in the Outbox. The first remote server takes every step up to the end of the data, the
  -- addresses can be read and are of two different nodes other than this one, the Outbox exists, the
  -- tables are sound, and no call of the engine fails.
  pub queue_for_race :
      (e : Engine) (remote : Remote) (from first second addr addr' : String)
      (pk pk' content : List ℕ) (n : Node)
      → ((ref : QueuedMail) (bytes : List ℕ) → IsTaking (remote ref bytes))
      → parse_mail first ≡ ok addr
      → parse_mail second ≡ ok addr'
      → parse_address addr ≡ ok pk
      → parse_address addr' ≡ ok pk'
      → encode_hex pk ≢ encode_hex public_key
      → encode_hex pk' ≢ encode_hex public_key
      → encode_hex pk' ≢ encode_hex pk
      → any (is_mailbox "Outbox") n.world.tables.mailboxes ≡ true
      → n.world.faults ≡ []
      → Sound n.world
      → let call = λ (meanwhile : Node → Node).
        queue_for_amid parse_mail public_key meanwhile from (first ∷ second ∷ []) content n in
        let calm = call (λ m. m) in
        let raced = call (λ m. (run e remote (encode_hex pk) m).1) in
        (calm.0 ≡ ok tt)
        × (calm.1.world
            ≡ queued_twice (encode_hex pk) (encode_hex pk') from first second content n.world)
        × (raced.0 ≡ err foreign_key)
        × (any
              (is_mail "Outbox" (pos (next_id "Outbox" n.world.tables.mails)))
              raced.1.world.tables.mails
            ≡ false)
  queue_for_race e remote from first second addr addr' pk pk' content n taking p p' q q' ne ne'
        other known h s =
      let (calm, there) =
        queue_for_both from first second addr addr' pk pk' content n p p' q q' ne ne' other known h
          s in
      let (raced, gone) =
        queue_for_overtaken e remote from first second addr addr' pk pk' content n taking p p' q q'
          ne ne' known h s in
      let alone = queue_for_alone from (first ∷ second ∷ []) content n in
      (rw alone calm, rw alone there, raced, gone)
