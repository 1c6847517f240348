-- ===== src/Chat.antt =====
-- The chat channels of source/chat.cpp: the classes ChatChannel and PrivateChatChannel.
use evolution078ots.Prelude.{
  ℕ, zero, suc, Bool, true, false, not, ◌&&◌, Option, none, some, List, [], ◌∷◌, ◌==◌,
  if◌then◌else◌, map, length,
}
use evolution078ots.Prelude.Table.{Table, find, assign, remove}
pub mod Channels
pub mod Requests
pub mod Numbers
pub mod Numbering
pub mod Leaving
pub mod Departure
mod Examples

-- What the chat reads of a player. Names are compared only, and the empty name is 0.
pub record Player : Type 0 where
  pub id : ℕ
  pub name : ℕ
  pub guild_id : ℕ
  pub guild_name : List ℕ

-- A channel's name: a text, or that of its owner with "'s Channel".
pub data Title : Type 0 where
  plain : List ℕ → Title
  of_owner : ℕ → Title

-- Both classes; a ChatChannel has the owner "" and nobody is invited.
pub record Channel : Type 0 where
  pub channel_id : ℕ
  pub title : Title
  pub users : Table Player
  pub owner : ℕ
  pub invites : Table Player

unfoldable pub new_channel : ℕ → Title → Channel
new_channel id title = record {
  channel_id = id;
  title = title;
  users = [];
  owner = 0;
  invites = [];
}

-- True of `find` where the map has the key.
abbrev pub is_some {ℓ} : {A : Type ℓ} → Option A → Bool
is_some none = false
is_some (some a) = true

unfoldable pub add_user : Channel → Player → Bool × Channel
unfolding find assign
add_user ch p =
    if is_some (find p.id ch.users)
    then (false, ch)
    else (true, record ch { users = assign p.id p ch.users })

unfoldable pub remove_user : Channel → Player → Bool × Channel
unfolding find remove
remove_user ch p =
    if is_some (find p.id ch.users)
    then (true, record ch { users = remove p.id ch.users })
    else (false, ch)

unfoldable pub is_invited : Channel → Player → Bool
unfolding find
is_invited ch p = if p.name == ch.owner then true else is_some (find p.name ch.invites)

unfoldable pub add_invited : Channel → Player → Bool × Channel
unfolding find assign
add_invited ch p =
    if is_some (find p.name ch.invites)
    then (false, ch)
    else (true, record ch { invites = assign p.name p ch.invites })

unfoldable pub remove_invited : Channel → Player → Bool × Channel
unfolding find remove
remove_invited ch p =
    if is_some (find p.name ch.invites)
    then (true, record ch { invites = remove p.name ch.invites })
    else (false, ch)

-- Two pointers to players are the same if the ids are.
unfoldable pub invite_player : Channel → Player → Player → Channel
unfolding add_invited
invite_player ch p target = if not (p.id == target.id) then (add_invited ch target).1 else ch

unfoldable pub exclude_player : Channel → Player → Player → Channel
unfolding remove_invited remove_user
exclude_player ch p target =
    let (found, ch') = remove_invited ch target in
    if not (p.id == target.id) && found then (remove_user ch' target).1 else ch

-- The players that a text is sent to.
unfoldable pub talk : Channel → List Player
talk ch = map (λ entry. entry.1) ch.users
