-- ===== src/Login/Waitlist.antt =====
-- The class Waitlist of source/waitlist.cpp. Each operation is given the time (OTSYS_TIME), which
-- stands still during the call, and the number of players online and its maximum (class Status).
use evolution078ots.Prelude.{
  ℕ, zero, suc, ◌+◌, ◌-◌, ◌*◌, Bool, true, false, not, ◌&&◌, List, [], ◌∷◌, ◌++◌, Option, some,
  none, ltb, leb, ◌==◌, if◌then◌else◌, length,
}
pub mod Order
pub mod Service
pub mod Message
pub mod Unique
pub mod Places
mod Examples

-- struct Wait.
pub record Wait : Type 0 where
  pub acc : ℕ
  pub ip : ℕ
  pub timeout : ℕ
  pub slot : ℕ

unfoldable pub is_client : ℕ → ℕ → Wait → Bool
is_client acc ip w = w.acc == acc && w.ip == ip

-- The loop of findClient, from `slot` on: the entry's slot and timeout are renewed. It returns the
-- list, and the renewed entry if there is one.
unfoldable pub find_from : ℕ → ℕ → ℕ → ℕ → List Wait → Option Wait × List Wait
unfolding is_client
find_from now acc ip slot [] = (none, [])
find_from now acc ip slot (w ∷ ws) =
    let found = record w { slot = slot; timeout = now } in
    let (it, ws') = find_from now acc ip (slot + 1) ws in
    if is_client acc ip w then (some found, found ∷ ws) else (it, w ∷ ws')

unfoldable pub find_client : ℕ → ℕ → ℕ → List Wait → Option Wait × List Wait
unfolding find_from
find_client now acc ip ws = find_from now acc ip 1 ws

add_new : ℕ → ℕ → ℕ → Option Wait × List Wait → List Wait
add_new now acc ip (none, ws) =
    ws ++ record { acc = acc; ip = ip; timeout = now; slot = length ws + 1 } ∷ []
add_new now acc ip (some _, ws) = ws

unfoldable pub add_client : ℕ → ℕ → ℕ → List Wait → List Wait
unfolding add_new find_client
add_client now acc ip ws = add_new now acc ip (find_client now acc ip ws)

slot_of : Option Wait → Option ℕ
slot_of none = none
slot_of (some w) = some w.slot

-- -1 stands as `none`.
unfoldable pub get_client_slot : ℕ → ℕ → ℕ → List Wait → Option ℕ × List Wait
unfolding slot_of find_client
get_client_slot now acc ip ws = let (it, ws') = find_client now acc ip ws in (slot_of it, ws')

-- getTime(slot), in seconds.
abbrev pub get_time : ℕ → ℕ
get_time slot = 20

-- `(OTSYS_TIME() - timeout) > getTime(slot)*1.5*1000`, in milliseconds; the product is exact.
unfoldable pub has_expired : ℕ → Wait → Bool
has_expired now w = ltb (get_time w.slot * 1500 + w.timeout) now

unfoldable pub clean_up_list : ℕ → List Wait → List Wait
unfolding has_expired
clean_up_list now [] = []
clean_up_list now (w ∷ ws) =
    let rest = clean_up_list now ws in if has_expired now w then rest else w ∷ rest

-- waitList.erase(it), where `it` is the entry that findClient has found.
unfoldable pub erase_client : ℕ → ℕ → List Wait → List Wait
unfolding is_client
erase_client acc ip [] = []
erase_client acc ip (w ∷ ws) =
    let rest = erase_client acc ip ws in if is_client acc ip w then ws else w ∷ rest

-- What clientLogin does with the entry that it has found.
unfoldable pub admit : ℕ → ℕ → ℕ → ℕ → Option Wait × List Wait → Bool × List Wait
admit acc ip online limit (none, ws) = (true, ws)
admit acc ip online limit (some w, ws) =
    if leb (w.slot + online) limit then (true, erase_client acc ip ws) else (false, ws)

-- `online < limit` is Status::hasSlot.
unfoldable pub client_login : ℕ → ℕ → ℕ → ℕ → ℕ → List Wait → Bool × List Wait
unfolding admit
client_login now online limit acc ip ws =
    if not (ltb online limit)
    then (false, add_client now acc ip ws)
    else admit acc ip online limit (find_client now acc ip (clean_up_list now ws))
