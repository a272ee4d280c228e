-- ===== src/Imap/Mailbox/Create.antt =====
-- What `CreateMessage` and `CopyMessages` store.
use yggmail.Base.{
  ℕ, String, Bool, true, false, ◌≡◌, ◌≢◌, refl, ◌∙◌, ap, any, List, [], ◌∷◌, ◌++◌, str_eq,
  update_if, if◌then◌else◌, ℤ, pos, All, not_true,
}
use yggmail.Exec.{ok, for_each, ◌>>=◌}
use yggmail.Storage.Types.{World, Mail, is_mailbox, is_mail}
use yggmail.Storage.Engine.{Engine}
use yggmail.Storage.Keys.{is_mail_iff}
use yggmail.Storage.Mails.{mail_select, mail_update_flags, update_mail_flags_stmt, next_id}
use yggmail.Storage.Absence.{fresh}
use yggmail.Storage.Healthy.{writer_do_healthy, with_mail, arrival, mail_create_lem}
use yggmail.Imap.Mailbox.{create_flag, create_message, copy_one}

-- The mail with the one flag, and without the other three.
pub marked : String → Mail → Mail
marked flag m = record m {
  seen = str_eq flag "\\Seen";
  answered = str_eq flag "\\Answered";
  flagged = str_eq flag "\\Flagged";
  deleted = str_eq flag "\\Deleted";
}

update_if-append :
    {A : Type 0} (p : A → Bool) (f : A → A) (xs : List A) (y : A)
    → All (λ x. p x ≡ false) xs
    → p y ≡ true
    → update_if p f (xs ++ y ∷ []) ≡ xs ++ f y ∷ []
update_if-append p f [] y a h = rw h refl
update_if-append p f (x ∷ xs) y a h = rw a.0 (ap (λ l. x ∷ l) (update_if-append p f xs y a.1 h))

module _ (name : String) (w : World) (h : w.faults ≡ []) where
  set_flag :
      (flag : String) (m : Mail)
      → is_mail name (pos (next_id name w.tables.mails)) m ≡ true
      → create_flag name (next_id name w.tables.mails) flag (with_mail w m)
        ≡ (ok tt, with_mail w (marked flag m))
  unfolding create_flag mail_update_flags update_mail_flags_stmt with_mail marked
  set_flag flag m q =
      writer_do_healthy
        (update_mail_flags_stmt (str_eq flag "\\Seen") (str_eq flag "\\Answered")
          (str_eq flag "\\Flagged") (str_eq flag "\\Deleted") name
          (pos (next_id name w.tables.mails)))
        tt (with_mail w m) h
      ∙ ap (λ ms. (ok tt, record w { tables = record w.tables { mails = ms } }))
          (update_if-append (is_mail name (pos (next_id name w.tables.mails))) (marked flag)
            w.tables.mails m (fresh name w.tables.mails) q)

  set_flags_in_turn :
      (flags : List String) (flag : String) (m : Mail)
      → is_mail name (pos (next_id name w.tables.mails)) m ≡ true
      → for_each
          (flags ++ flag ∷ [])
          (create_flag name (next_id name w.tables.mails))
          (with_mail w m)
        ≡ (ok tt, with_mail w (marked flag m))
  unfolding for_each ◌>>=◌ marked is_mail
  set_flags_in_turn [] flag m q = rw (set_flag flag m q) refl
  set_flags_in_turn (f ∷ flags) flag m q =
      rw (set_flag f m q) (set_flags_in_turn flags flag (marked f m) q)

  -- `CreateMessage` with flags stores the message, and of the flags only the last one, where the
  -- mailbox exists and no call of the engine fails.
  pub create_message-last :
      (flags : List String) (flag : String) (body : List ℕ)
      → any (is_mailbox name) w.tables.mailboxes ≡ true
      → create_message name (flags ++ flag ∷ []) (ok body) w
        ≡ (ok tt, with_mail w (marked flag (arrival name body w)))
  unfolding create_message ◌>>=◌ arrival is_mail
  create_message-last flags flag body q = rw (mail_create_lem name body w q h) (
      set_flags_in_turn flags flag (arrival name body w)
        ((is_mail_iff name _ (arrival name body w)).1 (refl, refl)))

update_if-append_other :
    {A : Type 0} (p : A → Bool) (f : A → A) (xs : List A) (y : A)
    → p y ≡ false
    → update_if p f (xs ++ y ∷ []) ≡ update_if p f xs ++ y ∷ []
update_if-append_other p f [] y h = rw h refl
update_if-append_other p f (x ∷ xs) y h =
    ap (λ l. (if p x then f x else x) ∷ l) (update_if-append_other p f xs y h)

-- The mail `x` with the flags of `m`.
pub like : Mail → Mail → Mail
like m x = record x {
  seen = m.seen;
  answered = m.answered;
  flagged = m.flagged;
  deleted = m.deleted;
}

-- To copy a mail to another mailbox stores its bytes there without any flag, and gives its flags to
-- whatever mail of the source mailbox has the id of the copy, where the mail is found, the
-- other mailbox exists, and no call of the engine fails.
pub copy_one-flags :
    (e : Engine) (name dest_name : String) (id : ℤ) (seq : ℕ) (m : Mail) (w : World)
    → mail_select e name id w ≡ (ok (seq, m), w)
    → any (is_mailbox dest_name) w.tables.mailboxes ≡ true
    → name ≢ dest_name
    → w.faults ≡ []
    → copy_one e name dest_name id w ≡ (
      ok tt,
      record w {
        tables = record w.tables {
          mails =
              update_if
                (is_mail name (pos (next_id dest_name w.tables.mails)))
                (like m)
                w.tables.mails
              ++ arrival dest_name m.mail w ∷ [];
        };
      },
    )
unfolding copy_one ◌>>=◌ mail_update_flags update_mail_flags_stmt with_mail like arrival
copy_one-flags e name dest_name id seq m w found q apart h =
    let pid = next_id dest_name w.tables.mails in
    let writes = update_mail_flags_stmt m.seen m.answered m.flagged m.deleted name (pos pid) in
    let there = with_mail w (arrival dest_name m.mail w) in
    rw (found, mail_create_lem dest_name m.mail w q h)
      (writer_do_healthy writes tt there h
        ∙ ap (λ ms. (ok tt, record w { tables = record w.tables { mails = ms } }))
            (update_if-append_other (is_mail name (pos pid)) (like m) w.tables.mails
              (arrival dest_name m.mail w)
              (not_true _ λ t. apart ((is_mail_iff name pid (arrival dest_name m.mail w)).0 t).0)))
