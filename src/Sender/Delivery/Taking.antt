-- ===== src/Sender/Delivery/Taking.antt =====
-- Attempts at which the other side takes every step up to the end of the data.
use yggmail.Base.{Bool, true, false, ◌≡◌}
use yggmail.Exec.{Error, dial_error, remote_refused, Exec, Done, ◌>>=◌}
use yggmail.Sender.Node.{Node, Attempt}
use yggmail.Sender.Delivery.{require}

-- A step that is passed.
pub passed :
    (Q : Node → Type 0) (b : Bool) (x : Error) (m : Exec Node Done) (n : Node)
    → b ≡ true
    → Q (m n).1
    → Q ((require b x >>= λ _. m) n).1
unfolding require ◌>>=◌
passed Q true x m n q h = h
passed Q false x m n q h = cc

-- The other side takes every step up to the end of the data; what it answers then is open.
unfoldable pub IsTaking : Attempt → Type 0
IsTaking a =
    (a.dial ≡ true)
    × (a.client ≡ true)
    × (a.hello ≡ true)
    × (a.mail ≡ true)
    × (a.rcpt ≡ true)
    × (a.start_data ≡ true)
    × (a.write ≡ true)

-- All the steps are passed.
pub passed_all :
    (Q : Node → Type 0) (a : Attempt) (m : Exec Node Done) (n : Node)
    → IsTaking a
    → Q (m n).1
    → Q
        ((require a.dial dial_error >>= λ _. require a.client remote_refused >>= λ _.
            require a.hello remote_refused >>= λ _. require a.mail remote_refused >>= λ _.
            require a.rcpt remote_refused >>= λ _.
            require a.start_data remote_refused >>= λ _. require a.write remote_refused >>= λ _. m)
          n).1
unfolding IsTaking
passed_all Q a m n (q1, q2, q3, q4, q5, q6, q7) h = passed Q _ _ _ n q1 (
    passed Q _ _ _ n q2 (
      passed Q _ _ _ n q3
        (passed Q _ _ _ n q4 (passed Q _ _ _ n q5 (passed Q _ _ _ n q6 (passed Q _ _ _ n q7 h))))))
