-- ===== src/Ban/Examples.antt =====
-- The theorems on bans at an address that fails three times and at two banned accounts.
use evolution078ots.Prelude.{
  ℕ, ◌+◌, true, false, ◌&&◌, List, [], ◌∷◌, length, ltb, ◌==◌, ==_iff, ◌≡◌, ◌↔◌, refl, sym, arith,
}
use evolution078ots.Prelude.Table.{find}
use evolution078ots.Ban.{Ban, Entry, is_ip_disabled, same_number}
use evolution078ots.Ban.Attempts.{Attempt, run, times_of, all_fail, last_or, is_ip_disabled-run}
use evolution078ots.Ban.Lists.{IsMap, end_of, unique, ban_list-IsMap}

abbrev server : Ban
server = record {
  max_login_tries = 3;
  retry_timeout = 5;
  login_timeout = 60;
  ip_login_map = [];
  ip_ban_list = [];
  player_ban_list = [];
  account_ban_list = [];
}

abbrev attempts : List Attempt
attempts =
    record { now = 100; ip = 7; success = false }
    ∷ record { now = 101; ip = 8; success = true }
    ∷ record { now = 102; ip = 7; success = false }
    ∷ record { now = 103; ip = 7; success = false }
    ∷ []

is_ip_disabled-run_example :
    is_ip_disabled (run server attempts) 140 7
    ≡ (length (times_of 7 attempts) == 3) && ltb 140 (last_or (times_of 7 attempts) 0 + 60)
unfolding times_of all_fail find
is_ip_disabled-run_example =
    is_ip_disabled-run server 140 7 attempts refl refl refl refl (omega arith)

abbrev bans : List (Entry ℕ)
bans =
    record { key = 1001; time = 0; reason = [] }
    ∷ record { key = 1002; time = 500; reason = 65 ∷ [] }
    ∷ []

abbrev renewed : Entry ℕ
renewed = record { key = 1002; time = 900; reason = [] }

same_number_iff : (a b : ℕ) → (same_number a b ≡ true) ↔ (a ≡ b)
same_number_iff a b = (λ h. sym ((==_iff b a).0 h), λ h. (==_iff b a).1 (sym h))

ban_list-IsMap_example : IsMap same_number bans 1002 renewed 1 300
unfolding end_of unique
ban_list-IsMap_example =
    ban_list-IsMap same_number same_number_iff bans 1002 renewed 1 300 refl (omega arith)
      (omega arith)
