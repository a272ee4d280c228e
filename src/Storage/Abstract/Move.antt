-- ===== src/Storage/Abstract/Move.antt =====
-- What the move of a mail does to the map.
use yggmail.Base.{
  ℕ, String, ◌≡◌, refl, sym, ◌∙◌, true, false, List, [], ◌∷◌, Option, none, some, any, find,
  update_if, arith, Bool-cases, inl, inr, ℤ, pos, str_eq, eq_iff,
}
use yggmail.Exec.{Result, ok, err, panic, Done}
use yggmail.Storage.Types.{Mail, Db, is_mail, is_mailbox}
use yggmail.Storage.Mails.{move_mail_stmt, move_rows}
use yggmail.Storage.Abstract.{look, move, here, on_found, effect, Refined}
use yggmail.Storage.Abstract.Rows.{find-any}

module _ (to from : String) (i : ℤ) (apart : str_eq to from ≡ false) where
  abbrev retag : Mail → Mail
  retag m = record m { mailbox = to }

  -- The key that the mail gets.
  arrives :
      (n : String) (k : ℕ) (rows : List Mail)
      → here to i n k ≡ true
      → any (is_mail to i) rows ≡ false
      → find (is_mail n (pos k)) (update_if (is_mail from i) retag rows)
        ≡ on_found retag (find (is_mail from (pos k)) rows)
  unfolding is_mail
  arrives n k [] e h = refl
  arrives n k (m ∷ rows) e h = ground (
    arith,
    arrives n k rows,
    eq_iff n to,
    eq_iff n m.mailbox,
    eq_iff to m.mailbox,
    eq_iff from m.mailbox,
  )

  -- The key that the mail had.
  leaves :
      (n : String) (k : ℕ) (rows : List Mail)
      → here from i n k ≡ true
      → find (is_mail n (pos k)) (update_if (is_mail from i) retag rows) ≡ none
  unfolding is_mail
  leaves n k [] e = refl
  leaves n k (m ∷ rows) e = ground (
    arith,
    leaves n k rows,
    eq_iff n from,
    eq_iff n to,
    eq_iff to from,
    eq_iff n m.mailbox,
    eq_iff from m.mailbox,
  )

  -- Any other key.
  stays :
      (n : String) (k : ℕ) (rows : List Mail)
      → here to i n k ≡ false
      → here from i n k ≡ false
      → find (is_mail n (pos k)) (update_if (is_mail from i) retag rows)
        ≡ find (is_mail n (pos k)) rows
  unfolding is_mail
  stays n k [] e f = refl
  stays n k (m ∷ rows) e f =
      ground (
        arith,
        stays n k rows,
        eq_iff n from,
        eq_iff n to,
        eq_iff n m.mailbox,
        eq_iff from m.mailbox,
      )

-- The id that a call without one gives.
abbrev pub with_zero : Result Done → Result ℕ
with_zero (ok u) = ok 0
with_zero (err e) = err e
with_zero panic = panic

absent :
    (a : String) (i : ℤ) (n : String) (k : ℕ) (rows : List Mail)
    → any (is_mail a i) rows ≡ false
    → here a i n k ≡ true
    → find (is_mail a (pos k)) rows ≡ none
absent a i n k rows q e = let r : i ≡ pos k = ground arith in find-any _ rows (rw (sym r) q)

same_name : (a i n : String) → str_eq n a ≡ true → n ≡ a
same_name a i n e = (eq_iff n a).0 e

-- A move of a mail that is not there.
nothing_to_move :
    (name : String) (i : ℤ) (to : String) (db : Db) (clock : ℕ) (n : String) (k : ℕ)
    → str_eq to name ≡ false
    → any (is_mail name i) db.mails ≡ false
    → look db n k ≡ effect (move name i to) 0 clock (look db) n k
unfolding effect
nothing_to_move name i to db clock n k a q = elim (Bool-cases (here to i n k)) [
  | inl e ↦ rw (a, e, absent name i name k db.mails q (ground (arith, eq_iff name name))) refl
  | inr e ↦ elim (Bool-cases (here name i n k)) [
    | inl f ↦
        let g : n ≡ name = ground (arith, eq_iff n name) in
        rw (a, e, f, g, absent name i n k db.mails q f) refl
    | inr f ↦ rw (a, e, f) refl
  ]
]

moved :
    (name : String) (i : ℤ) (to : String) (db : Db) (clock : ℕ) (n : String) (k : ℕ)
    → str_eq to name ≡ false
    → any (is_mail to i) db.mails ≡ false
    → look (move_rows to name i db) n k ≡ effect (move name i to) 0 clock (look db) n k
unfolding effect move_rows
moved name i to db clock n k a q = elim (Bool-cases (here to i n k)) [
  | inl e ↦
      let g : n ≡ to = ground (arith, eq_iff n to) in
      arrives to name i a n k db.mails e q
      ∙ rw (a, e)
          (by_cases (find (is_mail name (pos k)) db.mails) (look db n k)
            (rw g (absent to i n k db.mails q e)))
  | inr e ↦ elim (Bool-cases (here name i n k)) [
    | inl f ↦ leaves to name i a n k db.mails f ∙ rw (a, e, f) refl
    | inr f ↦ stays to name i a n k db.mails e f ∙ rw (a, e, f) refl
  ]
]
  where
    by_cases :
        (o other : Option Mail)
        → other ≡ none
        → on_found (λ m. record m { mailbox = to }) o
          ≡ (elim o [ none ↦ other | some m ↦ some (record m { mailbox = to }) ])
    by_cases none other h = sym h
    by_cases (some m) other h = refl

not_moved :
    (name : String) (i : ℤ) (to : String) (db : Db) (clock : ℕ) (n : String) (k : ℕ)
    → str_eq to name ≡ true
    → look db n k ≡ effect (move name i to) 0 clock (look db) n k
unfolding effect
not_moved name i to db clock n k a = rw a refl

pub move_look :
    (name : String) (i : ℤ) (to : String) (db : Db) (clock : ℕ)
    → let p = move_mail_stmt to name i db in
      Refined (move name i to) clock (look db) (look p.1) (with_zero p.0)
unfolding move_mail_stmt
move_look name i to db clock = elim (Bool-cases (str_eq to name)) [
  | inl a ↦ elim (Bool-cases (any (is_mail name i) db.mails)) [
    | inl b ↦ rw (b, a) (tt, λ n k. not_moved name i to db clock n k a)
    | inr b ↦ rw b (tt, λ n k. not_moved name i to db clock n k a)
  ]
  | inr a ↦ elim (Bool-cases (any (is_mail name i) db.mails)) [
    | inr b ↦ rw b (tt, λ n k. nothing_to_move name i to db clock n k a b)
    | inl b ↦ elim (Bool-cases (any (is_mail to i) db.mails)) [
      | inl c ↦ rw (b, a, c) (λ n k. refl)
      | inr c ↦ elim (Bool-cases (any (is_mailbox to) db.mailboxes)) [
        | inl d ↦ rw (b, a, c, d) (tt, λ n k. moved name i to db clock n k a c)
        | inr d ↦ rw (b, a, c, d) (λ n k. refl)
      ]
    ]
  ]
]
