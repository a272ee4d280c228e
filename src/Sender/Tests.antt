-- ===== src/Sender/Tests.antt =====
-- The theorems on the queues at sample tables.
use yggmail.Base.{
  bytes_eq, ℕ, List, ◌≢◌, Bool, true, false, ◌≡◌, refl, any, str_eq, ◌&&◌, [], ◌∷◌, arith,
}
use yggmail.Exec.{ok, err, unique}
use yggmail.Storage.Types.{same_mailbox, same_mail, same_entry, same_key, is_mailbox, owns, is_mail}
use yggmail.Storage.Queue.{is_entry}
use yggmail.Storage.Integrity.{IsSound}
use yggmail.Storage.Samples.{plain, healthy, in_use}
use yggmail.Storage.Mails.{next_id}
use yggmail.Storage.Healthy.{with_mail, arrival}
use yggmail.Utils.Hex.{encode_hex, hex_digit}
use yggmail.Utils.Address.{address_of, copy_into, key_size}
use yggmail.Utils.Address.Laws.{parse-encode}
use yggmail.Sender.Queues.{queue_for, queue_for_server}
use yggmail.Sender.Queues.Queuing.{with_entry, new_entry, queue_for_one, queue_for_two}
use yggmail.Sender.Queues.{queue_for_amid}
use yggmail.Sender.Queues.Race.{queued_twice, queue_for_race}
use yggmail.Sender.Delivery.Removal.{Alone, run_removes}
use yggmail.Exec.{Exec, Done, foreign_key}
use yggmail.Base.{str_apart, pos}
use yggmail.Storage.Samples.{entry}
use yggmail.Sender.Node.{Node, Attempt}
use yggmail.Sender.Delivery.{Remote, run}
use yggmail.Sender.Delivery.Stops.{run_stops}
use yggmail.Sender.Delivery.Taking.{IsTaking}
use yggmail.Sender.Delivery.Drains.{run_drains}
use yggmail.Sender.Delivery.Outcomes.{Queued, run_keeps}
use yggmail.Sender.Delivery.Delivers.{Accepted}
use yggmail.Sender.Delivery.Arrivals.{Holds, run_delivers}
use yggmail.Sender.Delivery.Losses.{run_loses}

abbrev node : Node
node = record { world = healthy in_use; running = "aa" ∷ []; accepted = [] }

-- Every step succeeds but for those given.
abbrev answers : Bool → Bool → Attempt
answers dial accept = record {
  dial = dial;
  client = true;
  hello = true;
  mail = true;
  rcpt = true;
  start_data = true;
  write = true;
  accept = accept;
}

abbrev always : Attempt → Remote
always a ref bytes = a

in_use-IsSound : IsSound in_use
unfolding same_mailbox same_mail same_entry same_key is_mailbox owns
in_use-IsSound = ground arith

run_stops_example :
    ((run plain (always (answers true true)) "aa" node).0 ≡ ok tt)
    × (any (str_eq "aa") (run plain (always (answers true true)) "aa" node).1.running ≡ false)
run_stops_example = run_stops plain (always (answers true true)) "aa" node

taking : (accept : Bool) → IsTaking (answers true accept)
unfolding IsTaking
taking accept = (refl, refl, refl, refl, refl, refl, refl)

run_drains_example :
    any
      (λ q. str_eq "aa" q.destination && str_eq "Outbox" q.mailbox)
      (run plain (always (answers true true)) "aa" node).1.world.tables.queue
    ≡ false
run_drains_example =
    run_drains plain (always (answers true true)) "aa" node (λ ref bytes. taking true) refl
      in_use-IsSound

waiting : Queued "aa" 1 in_use
unfolding Queued is_entry is_mail
waiting = (refl, refl)

keeps_sample : Queued "aa" 1 (run plain (always (answers false true)) "aa" node).1.world.tables
keeps_sample =
    run_keeps plain "aa" 1 (always (answers false true)) node (λ q. cc) (λ ref bytes. refl) waiting

run_loses_example :
    (any
        (λ q. str_eq "aa" q.destination && str_eq "Outbox" q.mailbox)
        (run plain (always (answers true false)) "aa" node).1.world.tables.queue
      ≡ false)
    × ((run plain (always (answers true false)) "aa" node).1.accepted ≡ [])
run_loses_example =
    run_loses plain (always (answers true false)) "aa" node (λ ref bytes. taking false)
      (λ ref bytes. refl) refl in_use-IsSound

-- The recipient's key is 1 and 31 zeros, and the node's own key is not.
abbrev other_key : List ℕ
other_key = copy_into key_size (1 ∷ [])

outbox_there : any (is_mailbox "Outbox") in_use.mailboxes ≡ true
unfolding is_mailbox
outbox_there = refl

elsewhere : encode_hex other_key ≢ encode_hex (9 ∷ [])
unfolding encode_hex hex_digit copy_into
elsewhere = λ q. cc

one_sample :
    queue_for ok (9 ∷ []) "me@yggmail" (address_of (1 ∷ []) ∷ []) (5 ∷ []) node
    ≡ queue_for_server (encode_hex other_key) (record node {
      world = with_entry (with_mail (healthy in_use) (arrival "Outbox" (5 ∷ []) (healthy in_use))) (
          new_entry
            (encode_hex other_key)
            (next_id "Outbox" in_use.mails)
            "me@yggmail"
            (address_of (1 ∷ [])));
    })
one_sample =
    queue_for_one ok (9 ∷ []) "me@yggmail" (address_of (1 ∷ [])) (address_of (1 ∷ [])) other_key
      (5 ∷ []) node refl (parse-encode 1 [] (omega arith)) elsewhere outbox_there refl
      in_use-IsSound

two_sample :
    (queue_for ok
      (9 ∷ [])
      "me@yggmail"
      (address_of (1 ∷ []) ∷ address_of (1 ∷ []) ∷ [])
      (5 ∷ [])
      node).0
    ≡ err unique
two_sample =
    queue_for_two ok (9 ∷ []) "me@yggmail" (address_of (1 ∷ [])) (address_of (1 ∷ []))
      (address_of (1 ∷ [])) (address_of (1 ∷ [])) other_key (5 ∷ []) node refl refl
      (parse-encode 1 [] (omega arith)) (parse-encode 1 [] (omega arith)) elsewhere outbox_there
      refl in_use-IsSound

-- The key of a third node: 2 and 31 zeros.
abbrev third_key : List ℕ
third_key = copy_into key_size (2 ∷ [])

third_elsewhere : encode_hex third_key ≢ encode_hex (9 ∷ [])
unfolding encode_hex hex_digit copy_into
third_elsewhere = λ q. cc

third_apart : encode_hex third_key ≢ encode_hex other_key
unfolding encode_hex hex_digit copy_into
third_apart = str_apart (encode_hex third_key) (encode_hex other_key) refl

abbrev call : (Node → Node) → Exec Node Done
call meanwhile =
    queue_for_amid ok (9 ∷ []) meanwhile "me@yggmail"
      (address_of (1 ∷ []) ∷ address_of (2 ∷ []) ∷ []) (5 ∷ [])

queue_for_race_example :
    let calm = call (λ m. m) node in
    let raced =
      call (λ m. (run plain (always (answers true true)) (encode_hex other_key) m).1) node in
    (calm.0 ≡ ok tt)
    × (calm.1.world
        ≡ queued_twice
            (encode_hex other_key)
            (encode_hex third_key)
            "me@yggmail"
            (address_of (1 ∷ []))
            (address_of (2 ∷ []))
            (5 ∷ [])
            node.world)
    × (raced.0 ≡ err foreign_key)
    × (any
          (is_mail "Outbox" (pos (next_id "Outbox" node.world.tables.mails)))
          raced.1.world.tables.mails
        ≡ false)
queue_for_race_example =
    queue_for_race ok (9 ∷ []) plain (always (answers true true)) "me@yggmail" (address_of (1 ∷ []))
      (address_of (2 ∷ [])) (address_of (1 ∷ [])) (address_of (2 ∷ [])) other_key third_key (5 ∷ [])
      node (λ ref bytes. taking true) refl refl (parse-encode 1 [] (omega arith))
      (parse-encode 2 [] (omega arith)) elsewhere third_elsewhere third_apart outbox_there refl
      in_use-IsSound

-- The mail of the Outbox with the entry for one host only.
abbrev one_host : Node
one_host = record node { world = healthy (record in_use { queue = entry "aa" "Outbox" 1 ∷ [] }) }

one_host-Alone : Alone "aa" 1 one_host.world.tables
unfolding Alone
one_host-Alone = refl

listed : any (is_entry "aa" "Outbox" (pos 1)) one_host.world.tables.queue ≡ true
unfolding is_entry
listed = refl

run_removes_example :
    any
      (is_mail "Outbox" (pos 1))
      (run plain (always (answers true true)) "aa" one_host).1.world.tables.mails
    ≡ false
run_removes_example =
    run_removes plain (always (answers true true)) "aa" 1 one_host (λ ref bytes. taking true) refl
      one_host-Alone listed

run_delivers_example : Accepted "aa" 1 (8 ∷ []) (run plain (always (answers true true)) "aa" node).1
unfolding Holds is_mail is_entry bytes_eq
run_delivers_example =
    run_delivers plain (always (answers true true)) "aa" 1 (8 ∷ []) node
      (λ ref content. (taking true, refl)) refl (refl, refl) refl
