-- ===== src/Storage/Queue/Sorting.antt =====
-- The ids that a queue reads are those of its entries.
use yggmail.Base.{
  any-filter, ℕ, String, Bool, true, ◌&&◌, ◌≡◌, refl, ◌∙◌, List, [], ◌∷◌, ◌||◌, map, any, filter,
  arith, any-perm, str_eq, ◌==◌, pos,
}
use yggmail.Storage.Types.{QueuedMail, QueueRow, Db}
use yggmail.Storage.Engine.{Engine, entries}
use yggmail.Storage.Queue.{insert_desc, sort_desc, to_queued_mail, is_entry}

any-insert_desc :
    (p : QueueRow → Bool) (q : QueueRow) (rs : List QueueRow)
    → any p (insert_desc q rs) ≡ (p q || any p rs)
unfolding insert_desc
any-insert_desc p q [] = refl
any-insert_desc p q (r ∷ rs) = ground (arith, any-insert_desc p q rs)

any-sort_desc : (p : QueueRow → Bool) (rs : List QueueRow) → any p (sort_desc rs) ≡ any p rs
unfolding sort_desc
any-sort_desc p [] = refl
any-sort_desc p (r ∷ rs) = ground (arith, any-insert_desc p r (sort_desc rs), any-sort_desc p rs)

any-to_queued_mail :
    (id : ℕ) (rs : List QueueRow)
    → any (λ (m : QueuedMail). id == m.id) (map to_queued_mail rs) ≡ any (λ r. id == r.id) rs
any-to_queued_mail id [] = refl
any-to_queued_mail id (r ∷ rs) = ground (arith, any-to_queued_mail id rs)

any-filter_entry :
    (d : String) (id : ℕ) (rs : List QueueRow)
    → any (is_entry d "Outbox" (pos id)) rs ≡ true
    → any (λ r. id == r.id) (filter (λ r. str_eq d r.destination) rs) ≡ true
unfolding is_entry
any-filter_entry d id [] h = cc
any-filter_entry d id (r ∷ rs) h = ground (arith, any-filter_entry d id rs)

-- An entry of the Outbox for a destination is among those that its queue reads.
pub entry_is_read :
    (e : Engine) (d : String) (id : ℕ) (db : Db)
    → any (is_entry d "Outbox" (pos id)) db.queue ≡ true
    → any
        (λ (m : QueuedMail). id == m.id)
        (map to_queued_mail
          (sort_desc (filter (λ r. str_eq d r.destination) (e.scan_queue (entries d) db.queue))))
      ≡ true
entry_is_read e d id db h =
    any-to_queued_mail id _
    ∙ any-sort_desc _ (filter (λ r. str_eq d r.destination) _)
    ∙ any-filter_entry d id (e.scan_queue (entries d) db.queue)
        (any-perm _ (e.scan_queue-perm (entries d) db.queue) ∙ h)

any-map :
    (p : QueuedMail → Bool) (rs : List QueueRow)
    → any p (map to_queued_mail rs) ≡ any (λ r. p (to_queued_mail r)) rs
any-map p [] = refl
any-map p (r ∷ rs) = ground (arith, any-map p rs)

-- What holds of an entry that a queue reads, holds of an entry of its destination.
pub any-read :
    (e : Engine) (d : String) (p : QueuedMail → Bool) (db : Db)
    → any p (
        map to_queued_mail
          (sort_desc (filter (λ r. str_eq d r.destination) (e.scan_queue (entries d) db.queue))))
      ≡ any (λ r. str_eq d r.destination && p (to_queued_mail r)) db.queue
any-read e d p db =
    any-map p _
    ∙ any-sort_desc _ (filter (λ r. str_eq d r.destination) (e.scan_queue (entries d) db.queue))
    ∙ any-filter _ _ (e.scan_queue (entries d) db.queue)
    ∙ any-perm _ (e.scan_queue-perm (entries d) db.queue)
