-- ===== src/Storage/Tests.antt =====
-- The theorems of the storage layer at sample tables.
use yggmail.Base.{◌≡◌, refl, true, false, inr, List, [], ◌∷◌, pos, arith}
use yggmail.Exec.{ok, err, no_rows}
use yggmail.Storage.Types.{
  Mail, World, same_mailbox, same_mail, same_entry, same_key, is_mailbox, in_mailbox, owns,
}
use yggmail.Storage.Mails.{select_id_for_seq_stmt, select_mail_stmt}
use yggmail.Storage.Calls.{Call, perform_all}
use yggmail.Storage.Integrity.{IsSound}
use yggmail.Storage.Integrity.Operations.{Sound, perform_all-Sound}
use yggmail.Storage.Numbering.{seq_round_trip, seq_out_of_range}
use yggmail.Storage.Abstract.{MailCall, move, look, run, Refined}
use yggmail.Storage.Abstract.Calls.{run_refines}
use yggmail.Storage.Samples.{healthy, plain, no_tables, in_use, plain_compare}

in_use-IsSound : IsSound in_use
unfolding same_mailbox same_mail same_entry same_key is_mailbox owns
in_use-IsSound = ground arith

-- The `Begin` of the last call fails, so it reports success and deletes nothing.
abbrev calls : List Call
calls =
    Call.mailbox_create "INBOX"
    ∷ Call.mail_create "INBOX" (7 ∷ [])
    ∷ Call.mailbox_delete "INBOX"
    ∷ []

abbrev shaky : World
shaky = record { tables = no_tables; faults = false ∷ false ∷ false ∷ false ∷ true ∷ []; clock = 5 }

perform_all-Sound_example : Sound (perform_all plain plain_compare calls shaky)
perform_all-Sound_example = perform_all-Sound plain plain_compare calls shaky (omega arith)

seq_round_trip_example :
    (m : Mail) × (select_id_for_seq_stmt plain "INBOX" 2 in_use ≡ (ok m.id, in_use))
    × (select_mail_stmt plain "INBOX" (pos m.id) in_use ≡ (ok (2, m), in_use))
    × (in_mailbox "INBOX" m ≡ true)
unfolding in_mailbox
seq_round_trip_example =
    seq_round_trip plain "INBOX" in_use 2 in_use-IsSound (λ id. refl) (omega arith) (omega arith)

fourth_is_out_of_range : select_id_for_seq_stmt plain "INBOX" 4 in_use ≡ (err no_rows, in_use)
unfolding in_mailbox
fourth_is_out_of_range = seq_out_of_range plain "INBOX" in_use 4 (inr (omega arith))

-- A mail that moves to a mailbox with no mail.
abbrev to_work : MailCall
to_work = move "INBOX" (pos 4) "Work"

run_refines_example :
    Refined to_work 1000
      (look in_use)
      (look (run to_work (healthy in_use)).1.tables)
      (run to_work (healthy in_use)).0
run_refines_example = run_refines to_work (healthy in_use) in_use-IsSound refl
