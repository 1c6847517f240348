-- ===== src/Chat/Channels.antt =====
-- The class Chat of source/chat.cpp: the channels there are, and the players in them.
use evolution078ots.Prelude.{
  ℕ, zero, suc, ◌+◌, Bool, true, false, not, ◌&&◌, Option, none, some, List, [], ◌∷◌, ◌++◌, ◌==◌,
  if◌then◌else◌, map, length,
}
use evolution078ots.Prelude.Table.{Table, find, assign, remove}
use evolution078ots.Chat.{
  Player, Title, plain, of_owner, Channel, new_channel, add_user, remove_user, is_invited, is_some,
}
use evolution078ots.Login.Waitlist.Message.{codes}

pub record Chat : Type 0 where
  pub normal_channels : Table Channel
  pub guild_channels : Table Channel
  pub private_channels : Table Channel
  pub dummy_private : Channel

-- A pointer to a channel: the map and the key where it stands.
pub data Ref : Type 0 where
  normal_ref : ℕ → Ref
  guild_ref : ℕ → Ref
  private_ref : ℕ → Ref
  dummy_ref : Ref

unfoldable pub channel_at : Chat → Ref → Option Channel
unfolding find
channel_at c (normal_ref k) = find k c.normal_channels
channel_at c (guild_ref k) = find k c.guild_channels
channel_at c (private_ref k) = find k c.private_channels
channel_at c dummy_ref = some c.dummy_private

-- The channel behind the pointer becomes another.
unfoldable pub put_at : Chat → Ref → Channel → Chat
unfolding assign
put_at c (normal_ref k) ch = record c { normal_channels = assign k ch c.normal_channels }
put_at c (guild_ref k) ch = record c { guild_channels = assign k ch c.guild_channels }
put_at c (private_ref k) ch = record c { private_channels = assign k ch c.private_channels }
put_at c dummy_ref ch = record c { dummy_private = ch }

unfoldable pub new_chat : Chat
unfolding new_channel assign
new_chat = record {
  normal_channels = assign 0x07 (new_channel 0x07 (plain (codes "Help"))) (
      assign 0x06 (new_channel 0x06 (plain (codes "RL-Chat"))) (
        assign 0x05 (new_channel 0x05 (plain (codes "Trade")))
          (assign 0x04 (new_channel 0x04 (plain (codes "Game-Chat"))) [])));
  guild_channels = [];
  private_channels = [];
  dummy_private = new_channel 0xFFFF (plain (codes "Private Chat Channel"));
}

unfoldable pub get_channel : Chat → Player → ℕ → Option Ref
unfolding find
get_channel c p id =
    if id == 0
    then (if is_some (find p.guild_id c.guild_channels) then some (guild_ref p.guild_id) else none)
    else if is_some (find id c.normal_channels)
    then some (normal_ref id)
    else if is_some (find id c.private_channels)
    then some (private_ref id)
    else none

-- The loop of createChannel: the first number from `i` on, of `n`, that is no channel's.
unfoldable pub first_free : Chat → Player → ℕ → ℕ → Option ℕ
unfolding get_channel
first_free c p zero i = none
first_free c p (suc n) i =
    let rest = first_free c p n (i + 1) in if is_some (get_channel c p i) then rest else some i

unfoldable pub create_private : Chat → Player → Option ℕ → Option Ref × Chat
unfolding new_channel assign
create_private c p none = (none, c)
create_private c p (some i) = (
  some (private_ref i),
  record c {
    private_channels =
        assign i (record (new_channel i (of_owner p.name)) { owner = p.name }) c.private_channels;
  },
)

unfoldable pub create_channel : Chat → Player → ℕ → Option Ref × Chat
unfolding create_private get_channel new_channel assign
create_channel c p id =
    if is_some (get_channel c p id)
    then (none, c)
    else if id == 0
    then (
      some (guild_ref p.guild_id),
      record c {
        guild_channels = assign p.guild_id (new_channel id (plain p.guild_name)) c.guild_channels;
      },
    )
    else if id == 0xFFFF
    then create_private c p (first_free c p 9990 10)
    else (none, c)

unfoldable pub delete_channel : Chat → Player → ℕ → Bool × Chat
unfolding find remove
delete_channel c p id =
    if id == 0
    then (
      is_some (find p.guild_id c.guild_channels),
      record c { guild_channels = remove p.guild_id c.guild_channels },
    )
    else (
      is_some (find id c.private_channels),
      record c { private_channels = remove id c.private_channels },
    )

unfoldable pub add_user_to_channel : Chat → Player → ℕ → Bool × Chat
unfolding get_channel channel_at put_at add_user
add_user_to_channel c p id = elim (get_channel c p id) [
  | none ↦ (false, c)
  | some ref ↦ elim (channel_at c ref) [
    | none ↦ (false, c)
    | some ch ↦ let (added, ch') = add_user ch p in (added, put_at c ref ch')
  ]
]

unfoldable pub remove_user_from_channel : Chat → Player → ℕ → Bool × Chat
unfolding get_channel channel_at put_at remove_user delete_channel
remove_user_from_channel c p id = elim (get_channel c p id) [
  | none ↦ (false, c)
  | some ref ↦ elim (channel_at c ref) [
    | none ↦ (false, c)
    | some ch ↦
        let (removed, ch') = remove_user ch p in
        let c' = put_at c ref ch' in
        if removed
        then (true, if ch'.owner == p.name then (delete_channel c' p id).1 else c')
        else (false, c)
  ]
]

-- The private channels that a player may see, in the order of their numbers.
unfoldable pub invited_refs : Player → Table Channel → List Ref
unfolding is_invited
invited_refs p [] = []
invited_refs p ((k, ch) ∷ t) =
    let rest = invited_refs p t in if is_invited ch p then private_ref k ∷ rest else rest

-- gotPrivate: whether the player owns a private channel.
unfoldable pub owns_private : Player → Table Channel → Bool
owns_private p [] = false
owns_private p ((k, ch) ∷ t) =
    let rest = owns_private p t in if ch.owner == p.name then true else rest

unfoldable pub guild_list : Chat → Player → List Ref × Chat
unfolding get_channel create_channel
guild_list c p =
    if not (p.guild_id == 0) && not (length p.guild_name == 0)
    then elim (get_channel c p 0) [
      | some ref ↦ (ref ∷ [], c)
      | none ↦
          let (created, c') = create_channel c p 0 in
          elim created [ none ↦ ([], c') | some ref ↦ (ref ∷ [], c') ]
    ]
    else ([], c)

unfoldable pub get_channel_list : Chat → Player → List Ref × Chat
unfolding guild_list invited_refs owns_private
get_channel_list c p =
    let (guild, c') = guild_list c p in
    let list =
      guild
      ++ map (λ entry. normal_ref entry.0) c'.normal_channels
      ++ invited_refs p c'.private_channels in
    (if owns_private p c'.private_channels then list else dummy_ref ∷ list, c')

-- One turn of the loop of removeUserFromAllChannels.
unfoldable pub leave_channel : Chat → Player → Ref → Chat
unfolding channel_at put_at remove_user delete_channel
leave_channel c p ref = elim (channel_at c ref) [
  | none ↦ c
  | some ch ↦
      let ch' = (remove_user ch p).1 in
      let c' = put_at c ref ch' in
      if ch'.owner == p.name then (delete_channel c' p ch'.channel_id).1 else c'
]

unfoldable pub leave_channels : Chat → Player → List Ref → Chat
unfolding leave_channel
leave_channels c p [] = c
leave_channels c p (ref ∷ refs) = leave_channels (leave_channel c p ref) p refs

unfoldable pub remove_user_from_all_channels : Chat → Player → Chat
unfolding get_channel_list leave_channels
remove_user_from_all_channels c p =
    let (list, c') = get_channel_list c p in leave_channels c' p list

unfoldable pub get_channel_name : Chat → Player → ℕ → Title
unfolding get_channel channel_at
get_channel_name c p id = elim (get_channel c p id) [
  | none ↦ plain []
  | some ref ↦ elim (channel_at c ref) [ none ↦ plain [] | some ch ↦ ch.title ]
]

-- The first private channel that the player owns.
unfoldable pub private_from : Player → Table Channel → Option Ref
private_from p [] = none
private_from p ((k, ch) ∷ t) =
    let rest = private_from p t in if ch.owner == p.name then some (private_ref k) else rest

unfoldable pub get_private_channel : Chat → Player → Option Ref
unfolding private_from
get_private_channel c p = private_from p c.private_channels
