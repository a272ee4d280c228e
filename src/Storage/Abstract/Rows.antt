-- ===== src/Storage/Abstract/Rows.antt =====
-- A row that is looked for, before and after the rows change.
use yggmail.Base.{
  ℕ, String, ◌≡◌, refl, ◌∙◌, Bool, true, false, not, ◌&&◌, List, [], ◌∷◌, ◌++◌, Option, none, some,
  any, find, filter, update_if, Unique, arith, if◌then◌else◌, Bool-cases, inl, inr, ℤ, pos, str_eq,
  eq_iff,
}
use yggmail.Storage.Types.{Mail, is_mail, in_mailbox, same_mail}
use yggmail.Storage.Keys.{is_mail_iff, same_mail_iff}
use yggmail.Storage.Abstract.{here, on_found, unless_deleted}

-- An update that leaves the key alone.
pub find-update :
    (p q : Mail → Bool) (f : Mail → Mail) (rows : List Mail)
    → ((m : Mail) → p (f m) ≡ p m)
    → find p (update_if q f rows) ≡ on_found (λ m. if q m then f m else m) (find p rows)
find-update p q f [] h = refl
find-update p q f (m ∷ rows) h = elim (Bool-cases (q m)) [
  | inl a ↦ elim (Bool-cases (p m)) [
    | inl b ↦ rw (a, h m, b, a) refl
    | inr b ↦ rw (a, h m, b) (find-update p q f rows h)
  ]
  | inr a ↦ elim (Bool-cases (p m)) [
    | inl b ↦ rw (a, b, a) refl
    | inr b ↦ rw (a, b) (find-update p q f rows h)
  ]
]

pub find-append :
    (p : Mail → Bool) (r : Mail) (rows : List Mail)
    → find p (rows ++ r ∷ [])
      ≡ (elim (find p rows) [ none ↦ (if p r then some r else none) | some m ↦ some m ])
find-append p r [] = refl
find-append p r (m ∷ rows) = elim (Bool-cases (p m)) [
  | inl a ↦ rw a refl
  | inr a ↦ rw a (find-append p r rows)
]

pub find-any : (p : Mail → Bool) (rows : List Mail) → any p rows ≡ false → find p rows ≡ none
find-any p [] h = refl
find-any p (m ∷ rows) h = ground (arith, find-any p rows)

look_key :
    (n : String) (k : ℕ) (a b : Mail)
    → same_mail a b ≡ true
    → is_mail n (pos k) a ≡ is_mail n (pos k) b
look_key n k a b h = ground (arith, is_mail_iff n k a, is_mail_iff n k b, same_mail_iff a b)

any-key :
    (n : String) (k : ℕ) (m : Mail) (rows : List Mail)
    → is_mail n (pos k) m ≡ true
    → any (same_mail m) rows ≡ false
    → any (is_mail n (pos k)) rows ≡ false
any-key n k m [] e h = refl
any-key n k m (x ∷ rows) e h =
    ground (arith, any-key n k m rows, is_mail_iff n k x, is_mail_iff n k m, same_mail_iff m x)

find-filter-false :
    (p q : Mail → Bool) (rows : List Mail) → any p rows ≡ false → find p (filter q rows) ≡ none
find-filter-false p q [] h = refl
find-filter-false p q (m ∷ rows) h = ground (arith, find-filter-false p q rows)

-- The rows that stay after a DELETE; the key is in one row at most.
pub find-expunge :
    (name n : String) (k : ℕ) (rows : List Mail)
    → Unique same_mail rows
    → find (is_mail n (pos k)) (filter (λ m. not (in_mailbox name m && m.deleted)) rows) ≡ (
        if str_eq n name
        then unless_deleted (find (is_mail n (pos k)) rows)
        else find (is_mail n (pos k)) rows)
unfolding in_mailbox
find-expunge name n k [] u = ground arith
find-expunge name n k (m ∷ rows) u = elim (Bool-cases (is_mail n (pos k) m)) [
  | inl a ↦ ground (
    arith,
    find-filter-false (is_mail n (pos k)) (λ m. not (in_mailbox name m && m.deleted)) rows,
    any-key n k m rows,
    is_mail_iff n k m,
    eq_iff name m.mailbox,
    eq_iff n name,
  )
  | inr a ↦ ground (arith, find-expunge name n k rows)
]

pub find-holds : (p : Mail → Bool) (m : Mail) (rows : List Mail) → find p rows ≡ some m → p m ≡ true
find-holds p m [] h = cc
find-holds p m (x ∷ rows) h = elim (Bool-cases (p x)) [
  | inl a ↦ ground (arith, a)
  | inr a ↦ find-holds p m rows (rw a at h)
]

-- A row of a key is of a test's key where the keys are the same.
pub is_mail-here :
    (name : String) (i : ℤ) (n : String) (k : ℕ) (m : Mail)
    → is_mail n (pos k) m ≡ true
    → is_mail name i m ≡ here name i n k
unfolding is_mail
is_mail-here name i n k m h =
    ground (arith, eq_iff n m.mailbox, eq_iff name m.mailbox, eq_iff n name)

on_found-here :
    (name : String) (i : ℤ) (n : String) (k : ℕ) (f : Mail → Mail) (o : Option Mail)
    → ((m : Mail) → o ≡ some m → is_mail n (pos k) m ≡ true)
    → on_found (λ m. if is_mail name i m then f m else m) o
      ≡ (if here name i n k then on_found f o else o)
on_found-here name i n k f none h = ground arith
on_found-here name i n k f (some m) h = elim (Bool-cases (here name i n k)) [
  | inl e ↦ rw (is_mail-here name i n k m (h m refl), e) refl
  | inr e ↦ rw (is_mail-here name i n k m (h m refl), e) refl
]

-- An UPDATE of the row of a key that leaves the keys alone.
pub find-update_key :
    (name : String) (i : ℤ) (n : String) (k : ℕ) (f : Mail → Mail) (rows : List Mail)
    → ((m : Mail) → is_mail n (pos k) (f m) ≡ is_mail n (pos k) m)
    → find (is_mail n (pos k)) (update_if (is_mail name i) f rows) ≡ (
        if here name i n k
        then on_found f (find (is_mail n (pos k)) rows)
        else find (is_mail n (pos k)) rows)
find-update_key name i n k f rows h =
    find-update (is_mail n (pos k)) (is_mail name i) f rows h
    ∙ on_found-here name i n k f _ (λ m. find-holds (is_mail n (pos k)) m rows)

none_else :
    (b : Bool) (r : Mail) (o : Option Mail)
    → b ≡ false
    → (elim o [ none ↦ (if b then some r else none) | some m ↦ some m ]) ≡ o
none_else b r none e = rw e refl
none_else b r (some m) e = refl

-- A new row of a key that is free.
pub find-put :
    (r : Mail) (n : String) (k : ℕ) (rows : List Mail)
    → find (is_mail r.mailbox (pos r.id)) rows ≡ none
    → find (is_mail n (pos k)) (rows ++ r ∷ [])
      ≡ (if here r.mailbox (pos r.id) n k then some r else find (is_mail n (pos k)) rows)
find-put r n k rows f = elim (Bool-cases (here r.mailbox (pos r.id) n k)) [
  | inl e ↦
      let q : n ≡ r.mailbox = ground (arith, eq_iff n r.mailbox) in
      let q' : k ≡ r.id = ground arith in
      let g : find (is_mail n (pos k)) rows ≡ none = rw (q, q') f in
      let t : is_mail n (pos k) r ≡ true = (is_mail_iff n k r).1 (q, q') in
      find-append (is_mail n (pos k)) r rows ∙ rw (e, g, t) refl
  | inr e ↦
      let t : is_mail n (pos k) r ≡ false = ground (arith, is_mail_iff n k r, eq_iff n r.mailbox) in
      find-append (is_mail n (pos k)) r rows ∙ none_else _ r _ t ∙ rw e refl
]
