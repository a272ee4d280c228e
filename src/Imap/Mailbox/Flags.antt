-- ===== src/Imap/Mailbox/Flags.antt =====
-- What the flags of a request come to.
use yggmail.Base.{
  ℕ, String, Bool, true, false, ◌≡◌, refl, sym, ◌∙◌, any, List, [], ◌∷◌, str_eq, if◌then◌else◌, ℤ,
  eq_iff, Bool-cases, inl, inr, str_ne, ◌⊎◌, none, some,
}
use yggmail.Exec.{ok, panic, for_each, ◌>>=◌}
use yggmail.Storage.Types.{World, Mail}
use yggmail.Storage.Engine.{Engine}
use yggmail.Imap.Types.{Seq, FlagsOp, set_flags}
use yggmail.Imap.SeqSet.{get_ids_from_seq_set}
use yggmail.Imap.Mailbox.{
  apply_flag, apply_flags, raises, is_system, change_flag, change_flags, selected, write_flags,
  update_one, update_messages_flags,
}

abbrev named : String → List String → Bool
named flag flags = any (str_eq flag) flags

-- A flag that is named takes the value of the operation, one that is not stays.
abbrev turned : FlagsOp → Bool → Bool → Bool
turned op is_named old = if is_named then raises op else old

pub expected : FlagsOp → List String → Mail → Mail
expected op flags m = record m {
  seen = turned op (named "\\Seen" flags) m.seen;
  answered = turned op (named "\\Answered" flags) m.answered;
  flagged = turned op (named "\\Flagged" flags) m.flagged;
  deleted = turned op (named "\\Deleted" flags) m.deleted;
}

same_if : (b x : Bool) → (if b then x else x) ≡ x
same_if true x = refl
same_if false x = refl

other : (f flag : String) → str_eq f flag ≡ false → str_eq flag f ≡ false
other f flag h = str_ne flag f (λ q. cc (h, (eq_iff f flag).1 (sym q)))

step :
    (op : FlagsOp) (f : String) (flags : List String) (m : Mail)
    → expected op flags (apply_flag op f m) ≡ expected op (f ∷ flags) m
unfolding expected apply_flag
step op f flags m = elim (Bool-cases (str_eq f "\\Seen")) [
  | inl e ↦ rw ((eq_iff f "\\Seen").0 e) (rw same_if refl)
  | inr e1 ↦ elim (Bool-cases (str_eq f "\\Answered")) [
    | inl e ↦ rw ((eq_iff f "\\Answered").0 e) (rw same_if refl)
    | inr e2 ↦ elim (Bool-cases (str_eq f "\\Flagged")) [
      | inl e ↦ rw ((eq_iff f "\\Flagged").0 e) (rw same_if refl)
      | inr e3 ↦ elim (Bool-cases (str_eq f "\\Deleted")) [
        | inl e ↦ rw ((eq_iff f "\\Deleted").0 e) (rw same_if refl)
        | inr e4 ↦
            rw
              (
                e1,
                e2,
                e3,
                e4,
                other f "\\Seen" e1,
                other f "\\Answered" e2,
                other f "\\Flagged" e3,
                other f "\\Deleted" e4,
              )
              refl
      ]
    ]
  ]
]

-- The loop over the flags gives each of the four known flags the value of the operation where the
-- request names it, whatever else it names and in whatever order, and leaves the rest of the mail.
pub apply_flags_lem :
    (op : FlagsOp) (flags : List String) (m : Mail) → apply_flags op flags m ≡ expected op flags m
unfolding apply_flags
apply_flags_lem op [] m = unfold expected in refl
apply_flags_lem op (f ∷ flags) m = apply_flags_lem op flags (apply_flag op f m) ∙ step op f flags m

-- The loop on a mail that has been read is `apply_flags`.
change_flags-some :
    (op : FlagsOp) (flags : List String) (m : Mail)
    → change_flags op flags (some m) ≡ ok (some (apply_flags op flags m))
unfolding change_flags apply_flags change_flag
change_flags-some op [] m = refl
change_flags-some op (f ∷ flags) m = change_flags-some op flags (apply_flag op f m)

-- On a nil pointer a round panics or leaves it nil, and so does the loop.
change_flag-none :
    (op : FlagsOp) (f : String)
    → (change_flag op f none ≡ panic) ⊎ (change_flag op f none ≡ ok none)
unfolding change_flag
change_flag-none op f = elim (Bool-cases (is_system f)) [
  | inl q ↦ inl (rw (q, change_flag) refl)
  | inr q ↦ inr (rw (q, change_flag) refl)
]

change_flags-none :
    (op : FlagsOp) (flags : List String)
    → (change_flags op flags none ≡ panic) ⊎ (change_flags op flags none ≡ ok none)
unfolding change_flags
change_flags-none op [] = inr refl
change_flags-none op (f ∷ flags) = elim (change_flag-none op f) [
  | inl q ↦ inl (rw (q, change_flags) refl)
  | inr q ↦ rw (q, change_flags) (change_flags-none op flags)
]

module _ (e : Engine) (name : String) where
  update_one-set :
      (flags : List String) (id : ℤ) (w : World)
      → update_one e name set_flags flags id w ≡ (panic, w)
  unfolding update_one selected write_flags ◌>>=◌
  update_one-set flags id w = elim (change_flags-none set_flags flags) [
    | inl q ↦ rw q refl
    | inr q ↦ rw q refl
  ]

  -- A request that sets flags panics at the first mail that it names, whatever the flags, and
  -- writes nothing.
  pub update_messages_flags-set :
      (room : ℕ) (uid : Bool) (seq_set : List Seq) (flags : List String) (w v : World) (id : ℤ)
      (ids : List ℤ)
      → get_ids_from_seq_set e name uid room seq_set w ≡ (ok (id ∷ ids), v)
      → update_messages_flags e name room uid seq_set set_flags flags w ≡ (panic, v)
  unfolding update_messages_flags for_each ◌>>=◌
  update_messages_flags-set room uid seq_set flags w v id ids h =
      rw h (rw (update_one-set flags id v) refl)
