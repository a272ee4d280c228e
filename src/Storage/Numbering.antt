-- ===== src/Storage/Numbering.antt =====
-- Sequence numbers in the view `inboxes`.
use yggmail.Base.{
  ℕ, ◌+◌, ◌≤◌, ◌<◌, String, ◌≡◌, refl, ◌∙◌, ◌⊎◌, inl, inr, Bool, true, false, List, [], ◌∷◌, none,
  some, arith, any, filter, find, count_if, length, Unique, Unique-filter, Unique-perm, All,
  length-filter, count_if-perm, ◌==◌, eq_iff, pos, Bool-cases, All-filter, All-of, not_true,
}
use mathlib.Core.List.Perm
use yggmail.Exec.{ok, err, no_rows}
use yggmail.Storage.Types.{Mail, Db, same_mail, in_mailbox}
use yggmail.Storage.Engine.{Engine, MailsVisit, by_id, by_seq}
use yggmail.Storage.Mails.{number_rows, select_mail_stmt, select_id_for_seq_stmt}
use yggmail.Storage.Integrity.{IsSound}

abbrev is_seq : ℕ → ℕ × Mail → Bool
is_seq seq r = seq == r.0

abbrev is_id : ℕ → ℕ × Mail → Bool
is_id id r = id == r.1.id

-- The numbers are consecutive.
find-number_rows-none :
    (s seq : ℕ) (ms : List Mail)
    → (seq < s) ⊎ (s + length ms ≤ seq)
    → find (is_seq seq) (number_rows s ms) ≡ none
unfolding number_rows
find-number_rows-none s seq [] h = refl
find-number_rows-none s seq (m ∷ ms) h = ground (arith, find-number_rows-none (s + 1) seq ms)

-- A number in the range names a row.
find-number_rows-some :
    (s seq : ℕ) (ms : List Mail)
    → s ≤ seq
    → seq < s + length ms
    → (m : Mail) × (find (is_seq seq) (number_rows s ms) ≡ some (seq, m))
unfolding number_rows
find-number_rows-some s seq [] l u = absurd (omega arith)
find-number_rows-some s seq (m ∷ ms) l u = elim (Bool-cases (seq == s)) [
  | inl e ↦ (m, ground arith)
  | inr e ↦
      let (k, q) = find-number_rows-some (s + 1) seq ms (ground arith) (ground arith) in (k, rw e q)
]

find-number_rows-any :
    (p : Mail → Bool) (s seq : ℕ) (ms : List Mail) {k : ℕ} {m : Mail}
    → find (is_seq seq) (number_rows s ms) ≡ some (k, m)
    → p m ≡ true
    → any p ms ≡ true
unfolding number_rows
find-number_rows-any p s seq [] h e = cc
find-number_rows-any p s seq (x ∷ ms) {k} {m} h e =
    ground (arith, find-number_rows-any p (s + 1) seq ms {k = k} {m = m})

find-number_rows-All :
    (p : Mail → Bool) (s seq : ℕ) (ms : List Mail) {k : ℕ} {m : Mail}
    → find (is_seq seq) (number_rows s ms) ≡ some (k, m)
    → All (λ x. p x ≡ true) ms
    → p m ≡ true
unfolding number_rows
find-number_rows-All p s seq [] h a = cc
find-number_rows-All p s seq (x ∷ ms) {k} {m} h a =
    ground (arith, find-number_rows-All p (s + 1) seq ms {k = k} {m = m})

same_key_in :
    (mailbox : String) (x m : Mail)
    → in_mailbox mailbox x ≡ true
    → in_mailbox mailbox m ≡ true
    → (m.id == x.id) ≡ true
    → same_mail x m ≡ true
unfolding in_mailbox same_mail
same_key_in mailbox x m hx hm e =
    ground (arith, eq_iff mailbox x.mailbox, eq_iff mailbox m.mailbox, eq_iff x.mailbox m.mailbox)

-- In one mailbox, where ids are distinct, the id of the row that a number names leads back to it.
find-by_id :
    (mailbox : String) (s seq : ℕ) (ms : List Mail) {m : Mail}
    → Unique same_mail ms
    → All (λ x. in_mailbox mailbox x ≡ true) ms
    → find (is_seq seq) (number_rows s ms) ≡ some (seq, m)
    → find (is_id m.id) (number_rows s ms) ≡ some (seq, m)
unfolding number_rows
find-by_id mailbox s seq [] u a h = cc
find-by_id mailbox s seq (x ∷ ms) {m} u a h = elim (Bool-cases (seq == s)) [
  | inl e ↦ ground arith
  | inr e ↦
      let later : find (is_seq seq) (number_rows (s + 1) ms) ≡ some (seq, m) = rw e at h in
      let there : in_mailbox mailbox m ≡ true =
        find-number_rows-All (in_mailbox mailbox) (s + 1) seq ms later a.1 in
      let apart : (m.id == x.id) ≡ false = not_true _ λ q. cc (
        u.0,
        find-number_rows-any (same_mail x) (s + 1) seq ms later
            (same_key_in mailbox x m a.0 there q),
      ) in
      rw apart (find-by_id mailbox (s + 1) seq ms u.1 a.1 later)
]

same_mail_sym : (x y : Mail) → same_mail x y ≡ same_mail y x
unfolding same_mail
same_mail_sym x y = ground (arith, eq_iff x.mailbox y.mailbox, eq_iff y.mailbox x.mailbox)

module _ (e : Engine) (mailbox : String) (db : Db) (visit : MailsVisit) where
  rows : List Mail
  rows = filter (in_mailbox mailbox) (e.scan_mails visit db.mails)

  length-rows : length rows ≡ count_if (in_mailbox mailbox) db.mails
  unfolding rows
  length-rows =
      length-filter (in_mailbox mailbox) (e.scan_mails visit db.mails)
      ∙ count_if-perm (in_mailbox mailbox) (e.scan_mails-perm visit db.mails)

  rows-in_mailbox : All (λ m. in_mailbox mailbox m ≡ true) rows
  unfolding rows
  rows-in_mailbox =
      All-filter (λ _. Unit {0}) _ (in_mailbox mailbox) (e.scan_mails visit db.mails) (λ m h _. h)
        (All-of _ _ (λ _. tt))

  rows-Unique : IsSound db → Unique same_mail rows
  unfolding rows
  rows-Unique s = Unique-filter same_mail (in_mailbox mailbox) (e.scan_mails visit db.mails) (
      Unique-perm same_mail same_mail_sym (Perm.symm (e.scan_mails-perm visit db.mails))
        s.mail_keys)

module _ (e : Engine) (mailbox : String) (db : Db) where
  answers :
      (seq : ℕ) (m : Mail)
      → find (is_seq seq) (number_rows 1 (rows e mailbox db (by_seq mailbox seq))) ≡ some (seq, m)
      → find (is_id m.id) (number_rows 1 (rows e mailbox db (by_id mailbox (pos m.id))))
        ≡ some (seq, m)
      → in_mailbox mailbox m ≡ true
      → (k : Mail) × (select_id_for_seq_stmt e mailbox seq db ≡ (ok k.id, db))
        × (select_mail_stmt e mailbox (pos k.id) db ≡ (ok (seq, k), db))
        × (in_mailbox mailbox k ≡ true)
  unfolding select_id_for_seq_stmt select_mail_stmt rows
  answers seq m q back home =
      (m, rw (q, select_id_for_seq_stmt) refl, rw (back, select_mail_stmt) refl, home)

  -- In sound tables each number from 1 to the number of mails of a mailbox is the sequence number
  -- of one of its mails: `MailIDForSeq` gives its id, and `MailSelect` with that id gives the mail
  -- and the number again, where both statements visit the table in one order, whichever it is.
  pub seq_round_trip :
      (seq : ℕ)
      → IsSound db
      → ((id : ℕ)
          → e.scan_mails (by_id mailbox (pos id)) db.mails
            ≡ e.scan_mails (by_seq mailbox seq) db.mails)
      → 1 ≤ seq
      → seq ≤ count_if (in_mailbox mailbox) db.mails
      → (m : Mail) × (select_id_for_seq_stmt e mailbox seq db ≡ (ok m.id, db))
        × (select_mail_stmt e mailbox (pos m.id) db ≡ (ok (seq, m), db))
        × (in_mailbox mailbox m ≡ true)
  unfolding rows
  seq_round_trip seq s one_order l u =
      let v = by_seq mailbox seq in
      let (m, q) =
        find-number_rows-some 1 seq (rows e mailbox db v) l
          (omega (arith, length-rows e mailbox db v)) in
      let found =
        find-by_id mailbox 1 seq (rows e mailbox db v) (rows-Unique e mailbox db v s)
          (rows-in_mailbox e mailbox db v) q in
      let home =
        find-number_rows-All (in_mailbox mailbox) 1 seq (rows e mailbox db v) q
          (rows-in_mailbox e mailbox db v) in
      answers seq m q (rw (one_order m.id) found) home

  -- `MailIDForSeq` of any other number reports that there is no row.
  pub seq_out_of_range :
      (seq : ℕ)
      → (seq ≡ 0) ⊎ (count_if (in_mailbox mailbox) db.mails < seq)
      → select_id_for_seq_stmt e mailbox seq db ≡ (err no_rows, db)
  unfolding select_id_for_seq_stmt rows
  seq_out_of_range seq h =
      let v = by_seq mailbox seq in
      let q =
        find-number_rows-none 1 seq (rows e mailbox db v)
          (grind (arith, length-rows e mailbox db v)) in
      rw (q, select_id_for_seq_stmt) refl
