-- ===== src/Imap/SeqSet.antt =====
-- `getIDsFromSeqSet` of internal/imapserver/mailbox.go.
pub mod Ranges
use yggmail.Base.{
  ℕ, zero, suc, ◌+◌, ◌-◌, String, Bool, true, false, List, [], ◌∷◌, ◌++◌, leb, ◌==◌, if◌then◌else◌,
  ℤ, u32, int32,
}
use yggmail.Exec.{Exec, pure, crash, ◌>>=◌}
use yggmail.Storage.Types.{World}
use yggmail.Storage.Engine.{Engine}
use yggmail.Storage.Mails.{mail_next_id, mail_id_for_seq}
use yggmail.Imap.Types.{Seq}

module _ (e : Engine) (name : String) (uid : Bool) where
  -- What one round of the inner loop appends.
  unfoldable pub id_at : ℕ → Exec World ℤ
  id_at i = if uid then pure (int32 i) else do pid ← mail_id_for_seq e name i; pure (int32 pid)

  -- `for i := set.Start; i <= set.Stop; i++` on uint32, which wraps around. `room` is how many more
  -- ids the memory holds: a loop that needs more does not come back.
  unfoldable pub range_ids : ℕ → ℕ → ℕ → Exec World (List ℤ)
  range_ids zero i stop = if leb i stop then crash else pure []
  range_ids (suc room) i stop = elim (leb i stop) [
    | false ↦ pure []
    | true ↦ do id ← id_at i; ids ← range_ids room (u32 (i + 1)) stop; pure (id ∷ ids)
  ]

  -- `*` as the end becomes the highest id of the mailbox.
  unfoldable pub last_of : Seq → Exec World ℕ
  last_of set =
      if set.stop == 0 then (do next ← mail_next_id name; pure (u32 (next - 1))) else pure set.stop

  unfoldable pub get_ids_from_seq_set : ℕ → List Seq → Exec World (List ℤ)
  get_ids_from_seq_set room [] = pure []
  get_ids_from_seq_set room (set ∷ sets) = do
    stop ← last_of set
    ids ← range_ids room set.start stop
    more ← get_ids_from_seq_set room sets
    pure (ids ++ more)
