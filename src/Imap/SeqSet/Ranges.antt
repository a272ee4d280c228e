-- ===== src/Imap/SeqSet/Ranges.antt =====
-- The inner loop of `getIDsFromSeqSet`, where the client names mails by UID.
use yggmail.Base.{
  ℕ, zero, suc, ◌+◌, ◌-◌, ◌^◌, ◌<◌, ◌≤◌, String, ◌≡◌, refl, true, false, List, [], ◌∷◌, leb, arith,
  int32, u32, ℤ, ◌∙◌, ap,
}
use yggmail.Exec.{ok, panic, pure, resume, ◌>>=◌}
use yggmail.Storage.Types.{World}
use yggmail.Storage.Engine.{Engine}
use yggmail.Imap.SeqSet.{id_at, range_ids}

-- `i`, `i + 1`, … as the loop appends them, `n` in all.
unfoldable pub ids_from : ℕ → ℕ → List ℤ
ids_from zero i = []
ids_from (suc n) i = int32 i ∷ ids_from n (i + 1)

module _ (e : Engine) (name : String) where
  next-leb :
      (room i stop : ℕ) (w : World)
      → leb i stop ≡ true
      → range_ids e name true (suc room) i stop w
        ≡ (range_ids e name true room (u32 (i + 1)) stop >>= λ ids. pure (int32 i ∷ ids)) w
  unfolding range_ids id_at ◌>>=◌
  next-leb room i stop w h = rw (h, range_ids) refl

  stops :
      (room i stop : ℕ) (w : World)
      → leb i stop ≡ false
      → range_ids e name true room i stop w ≡ (ok [], w)
  unfolding range_ids ◌>>=◌
  stops zero i stop w h = rw (h, range_ids) refl
  stops (suc room) i stop w h = rw (h, range_ids) refl

  u32_next : (i : ℕ) → i + 1 < 2 ^ 32 → u32 (i + 1) ≡ i + 1
  u32_next i h = omega arith

  range_by :
      (n room i stop : ℕ) (w : World)
      → n ≡ stop + 1 - i
      → n ≤ room
      → stop < 2 ^ 32 - 1
      → range_ids e name true room i stop w ≡ (ok (ids_from n i), w)
  unfolding ids_from ◌>>=◌
  range_by zero room i stop w q l b = stops room i stop w (ground arith)
  range_by (suc n) zero i stop w q l b = absurd (omega arith)
  range_by (suc n) (suc room) i stop w q l b =
      let rest : range_ids e name true room (u32 (i + 1)) stop w ≡ (ok (ids_from n (i + 1)), w) =
        rw (u32_next i (omega arith))
          (range_by n room (i + 1) stop w (omega arith) (omega arith) b) in
      next-leb room i stop w (ground arith) ∙ ap (resume (λ ids. pure (int32 i ∷ ids))) rest

  endless :
      (room i : ℕ) (w : World)
      → i < 2 ^ 32
      → range_ids e name true room i (2 ^ 32 - 1) w ≡ (panic, w)
  unfolding range_ids ◌>>=◌
  endless zero i w l = ground arith
  endless (suc room) i w l =
      next-leb room i (2 ^ 32 - 1) w (ground arith)
      ∙ ap (resume (λ ids. pure (int32 i ∷ ids))) (endless room (u32 (i + 1)) w (omega arith))

  -- A range of UIDs whose end is below 2^32 - 1 gives every number from its start to its end, in
  -- order and as a signed 32-bit integer, where there is room for so many.
  pub range_ids_uid :
      (room start stop : ℕ) (w : World)
      → stop < 2 ^ 32 - 1
      → stop + 1 - start ≤ room
      → range_ids e name true room start stop w ≡ (ok (ids_from (stop + 1 - start) start), w)
  range_ids_uid room start stop w b l = range_by (stop + 1 - start) room start stop w refl l b

  -- A range of UIDs that ends at 2^32 - 1 outgrows every room: its counter wraps around to 0 and
  -- the loop never ends.
  pub range_ids_endless :
      (room start : ℕ) (w : World)
      → start < 2 ^ 32
      → (range_ids e name true room start (2 ^ 32 - 1) w).0 ≡ panic
  range_ids_endless room start w l = ap (λ r. r.0) (endless room start w l)
