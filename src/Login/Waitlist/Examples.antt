-- ===== src/Login/Waitlist/Examples.antt =====
-- The theorems about the waiting list at a concrete queue.
use evolution078ots.Prelude.{ℕ, ◌≤◌, ◌≡◌, refl, true, List, [], ◌∷◌, some, arith}
use evolution078ots.Login.Waitlist.{Wait, is_client, clean_up_list, find_client, client_login}
use evolution078ots.Login.Waitlist.Order.{position}
use evolution078ots.Login.Waitlist.Service.{Outcome, client_login_lem, client_login_fair}
use evolution078ots.Login.Waitlist.Places.{client_login_keeps_place}
use evolution078ots.Login.Waitlist.Unique.{IsUnique, client_login-IsUnique}

-- Two clients wait; the first one was last seen 40 seconds before time 50000.
abbrev two : List Wait
two =
    record { acc = 111; ip = 7; timeout = 10000; slot = 1 }
    ∷ record { acc = 222; ip = 8; timeout = 45000; slot = 2 }
    ∷ record { acc = 333; ip = 9; timeout = 46000; slot = 3 }
    ∷ []

client_login_lem_example :
    Outcome 222 8 9 10
      (clean_up_list 50000 two)
      (client_login 50000 9 10 222 8 two)
      (position 222 8 (clean_up_list 50000 two))
client_login_lem_example = client_login_lem 50000 9 10 222 8 two (omega arith)

client_login_fair_example : (client_login 50000 8 10 222 8 two).0 ≡ true
unfolding position clean_up_list client_login find_client
client_login_fair_example =
    client_login_fair 50000 8 10 222 8 333 9 0 1 two (omega arith) refl refl (omega arith) refl

client_login_keeps_place_example :
    let ws' = (client_login 50000 10 10 333 9 two).1 in
    (i k : ℕ) × (position 333 9 ws' ≡ some i)
    × (position 333 9 (clean_up_list 79000 ws') ≡ some k)
    × (k ≤ i)
unfolding client_login
client_login_keeps_place_example =
    client_login_keeps_place 50000 10 10 333 9 79000 two refl (omega arith)

client_login-IsUnique_example : IsUnique (client_login 50000 10 10 444 9 two).1
unfolding position is_client
client_login-IsUnique_example =
    client_login-IsUnique 50000 10 10 444 9 two (refl, (refl, (refl, tt)))
