-- ===== src/Ban.antt =====
-- The class Ban of source/ban.cpp: failed logins and the lists of bans. The time and the address of a
-- socket are arguments; storage is asked whether a player exists by an argument too.
use evolution078ots.Prelude.{
  ℕ, zero, suc, ◌+◌, ◌-◌, ◌*◌, ◌/◌, ◌%◌, ◌^◌, min, Bool, true, false, not, ◌&&◌, ◌||◌, Option, none,
  some, List, [], ◌∷◌, ltb, leb, ◌==◌, if◌then◌else◌,
}
use evolution078ots.Prelude.Table.{Table, find, assign}
use evolution078ots.Prelude.Bits.{bit_and}
pub mod Attempts
pub mod Lists
mod Examples

abbrev pub Text : Type 0
Text = List ℕ

abbrev pub equal_text : Text → Text → Bool
equal_text [] [] = true
equal_text [] (d ∷ t) = false
equal_text (c ∷ s) [] = false
equal_text (c ∷ s) (d ∷ t) = (c == d) && equal_text s t

-- IpBanStruct, PlayerBanStruct and AccountBanStruct, by what they are a ban of.
pub record Entry (A : Type 0) : Type 0 where
  pub key : A
  pub time : ℕ
  pub reason : Text

pub record Address : Type 0 where
  pub ip : ℕ
  pub mask : ℕ

-- LoginConnectionStruct.
pub record Login : Type 0 where
  pub last_login_time : ℕ
  pub number_of_logins : ℕ

pub record Ban : Type 0 where
  pub max_login_tries : ℕ
  pub retry_timeout : ℕ
  pub login_timeout : ℕ
  pub ip_login_map : Table Login
  pub ip_ban_list : List (Entry Address)
  pub player_ban_list : List (Entry Text)
  pub account_ban_list : List (Entry ℕ)

-- The numbers of the configuration are in milliseconds.
unfoldable pub init : ℕ → ℕ → ℕ → Ban → Ban
init tries retry login b = record b {
  max_login_tries = tries % 2 ^ 32;
  retry_timeout = retry % 2 ^ 32 / 1000;
  login_timeout = login % 2 ^ 32 / 1000;
}

-- Whether an address with an entry is shut out, with maxLoginTries and loginTimeout.
unfoldable pub is_disabled : ℕ → ℕ → ℕ → Option Login → Bool
is_disabled tries timeout now none = false
is_disabled tries timeout now (some l) =
    leb tries l.number_of_logins && ltb now (l.last_login_time + timeout)

unfoldable pub is_ip_disabled : Ban → ℕ → ℕ → Bool
unfolding is_disabled
is_ip_disabled b now ip =
    if b.max_login_tries == 0
    then false
    else if ip == 0
    then false
    else is_disabled b.max_login_tries b.login_timeout now (find ip b.ip_login_map)

abbrev pub or_new : Option Login → Login
or_new none = record { last_login_time = 0; number_of_logins = 0 }
or_new (some l) = l

-- The entry of the address after an attempt, with maxLoginTries and retryTimeout.
unfoldable pub attempt : ℕ → ℕ → ℕ → Bool → Login → Login
attempt tries retry now success l =
    let n = if leb tries l.number_of_logins then 0 else l.number_of_logins in
    record {
      last_login_time = now;
      number_of_logins = if not success || ltb now (l.last_login_time + retry) then n + 1 else 0;
    }

unfoldable pub add_connection_attempt : Ban → ℕ → ℕ → Bool → Ban
unfolding attempt
add_connection_attempt b now ip success = if ip == 0 then b else record b {
  ip_login_map =
      assign ip
        (attempt b.max_login_tries b.retry_timeout now success (or_new (find ip b.ip_login_map)))
        b.ip_login_map;
}

unfoldable pub is_active : ℕ → ℕ → Bool
is_active now time = (time == 0) || ltb now time

-- The loops over a list of bans, with the test of the key.
unfoldable pub any_banished : {A : Type 0} → (A → Bool) → ℕ → List (Entry A) → Bool
unfolding is_active
any_banished f now [] = false
any_banished f now (e ∷ es) =
    let rest = any_banished f now es in
    if f e.key then (if is_active now e.time then true else rest) else rest

unfoldable pub ban_end : {A : Type 0} → (A → Bool) → ℕ → List (Entry A) → ℕ
unfolding is_active
ban_end f now [] = 1
ban_end f now (e ∷ es) =
    let rest = ban_end f now es in
    if f e.key then (if is_active now e.time then e.time else rest) else rest

unfoldable pub reason_in : {A : Type 0} → (A → Bool) → List (Entry A) → Text
reason_in f [] = []
reason_in f (e ∷ es) =
    let rest = reason_in f es in if f e.key && not (equal_text e.reason []) then e.reason else rest

unfoldable pub add_ban : {A : Type 0} → (A → Bool) → Entry A → List (Entry A) → List (Entry A)
add_ban f new [] = new ∷ []
add_ban f new (e ∷ es) =
    let rest = add_ban f new es in if f e.key then record e { time = new.time } ∷ es else e ∷ rest

-- The number is an unsigned long of 64 bits.
unfoldable pub remove_ban : {A : Type 0} → ℕ → List (Entry A) → Bool × List (Entry A)
remove_ban n [] = (false, [])
remove_ban n (e ∷ es) =
    let n' = (n + 2 ^ 64 - 1) % 2 ^ 64 in
    let (removed, rest) = remove_ban n' es in if n' == 0 then (true, es) else (removed, e ∷ rest)

-- An address falls under a ban if they agree on the bits of the mask.
unfoldable pub covers : ℕ → Address → Bool
unfolding bit_and
covers ip a = bit_and 64 a.ip a.mask == bit_and 64 ip a.mask

abbrev pub same_address : Address → Address → Bool
same_address a b = (b.ip == a.ip) && (b.mask == a.mask)

abbrev pub same_text : Text → Text → Bool
same_text s t = equal_text t s

abbrev pub same_number : ℕ → ℕ → Bool
same_number m n = n == m

unfoldable pub is_ip_banished : Ban → ℕ → ℕ → Bool
unfolding any_banished covers
is_ip_banished b now ip = if ip == 0 then false else any_banished (covers ip) now b.ip_ban_list

-- `player` is the name as storage has it, if the player exists.
unfoldable pub is_player_banished : Ban → ℕ → Option Text → Bool
unfolding any_banished
is_player_banished b now none = false
is_player_banished b now (some player) = any_banished (same_text player) now b.player_ban_list

unfoldable pub is_account_banished : Ban → ℕ → ℕ → Bool
unfolding any_banished
is_account_banished b now account = any_banished (same_number account) now b.account_ban_list

unfoldable pub add_ip_ban : Ban → ℕ → ℕ → ℕ → Text → Ban
unfolding add_ban
add_ip_ban b ip mask time reason =
    let a : Address = record { ip = ip; mask = mask } in
    record b {
      ip_ban_list =
          add_ban (same_address a) (record { key = a; time = time; reason = reason }) b.ip_ban_list;
    }

unfoldable pub add_player_ban : Ban → Text → ℕ → Text → Ban
unfolding add_ban
add_player_ban b player time reason = record b {
  player_ban_list =
      add_ban (same_text player) (record { key = player; time = time; reason = reason })
        b.player_ban_list;
}

unfoldable pub add_account_ban : Ban → ℕ → ℕ → Text → Ban
unfolding add_ban
add_account_ban b account time reason = record b {
  account_ban_list =
      add_ban (same_number account) (record { key = account; time = time; reason = reason })
        b.account_ban_list;
}

unfoldable pub remove_ip_ban : Ban → ℕ → Bool × Ban
unfolding remove_ban
remove_ip_ban b n =
    let (removed, list) = remove_ban n b.ip_ban_list in (removed, record b { ip_ban_list = list })

unfoldable pub remove_player_ban : Ban → ℕ → Bool × Ban
unfolding remove_ban
remove_player_ban b n =
    let (removed, list) = remove_ban n b.player_ban_list in
    (removed, record b { player_ban_list = list })

unfoldable pub remove_account_ban : Ban → ℕ → Bool × Ban
unfolding remove_ban
remove_account_ban b n =
    let (removed, list) = remove_ban n b.account_ban_list in
    (removed, record b { account_ban_list = list })

unfoldable pub get_ip_ban_end : Ban → ℕ → ℕ → ℕ
unfolding ban_end covers
get_ip_ban_end b now ip = if ip == 0 then 1 else ban_end (covers ip) now b.ip_ban_list

-- `return false` of a player that does not exist is 0.
unfoldable pub get_player_ban_end : Ban → ℕ → Option Text → ℕ
unfolding ban_end
get_player_ban_end b now none = 0
get_player_ban_end b now (some player) = ban_end (same_text player) now b.player_ban_list

unfoldable pub get_account_ban_end : Ban → ℕ → ℕ → ℕ
unfolding ban_end
get_account_ban_end b now account = ban_end (same_number account) now b.account_ban_list

unfoldable pub get_ip_reason : Ban → ℕ → Text
unfolding reason_in covers
get_ip_reason b ip = if ip == 0 then [] else reason_in (covers ip) b.ip_ban_list

unfoldable pub get_player_reason : Ban → Option Text → Text
unfolding reason_in
get_player_reason b none = []
get_player_reason b (some player) = reason_in (same_text player) b.player_ban_list

unfoldable pub get_account_reason : Ban → ℕ → Text
unfolding reason_in
get_account_reason b account = reason_in (same_number account) b.account_ban_list
