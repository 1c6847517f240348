-- ===== src/Chat/Requests.antt =====
-- The handlers of the channel requests in source/protocol79.cpp, and the end of a session.
use evolution078ots.Prelude.{ℕ, Option, none, some, List, [], ◌∷◌}
use evolution078ots.Chat.{Player, Channel, add_user, invite_player, exclude_player}
use evolution078ots.Chat.Channels.{
  Chat, Ref, channel_at, put_at, create_channel, get_private_channel, get_channel_list,
  add_user_to_channel, remove_user_from_channel, remove_user_from_all_channels,
}

-- The requests of a player that is in the game. A target is the player that a name belongs to, if
-- there is one.
pub data Request : Type 0 where
  create_private_channel : Player → Request
  channel_invite : Player → Option Player → Request
  channel_exclude : Player → Option Player → Request
  get_channels : Player → Request
  open_channel : Player → ℕ → Request
  close_channel : Player → ℕ → Request
  logout : Player → Request

-- The channel behind a pointer is changed by one of its operations.
unfoldable pub change_at : Chat → Option Ref → (Channel → Channel) → Chat
unfolding channel_at put_at
change_at c none f = c
change_at c (some ref) f = elim (channel_at c ref) [ none ↦ c | some ch ↦ put_at c ref (f ch) ]

unfoldable pub parse_create_private_channel : Chat → Player → Chat
unfolding create_channel change_at add_user
parse_create_private_channel c p =
    let (ref, c') = create_channel c p 0xFFFF in change_at c' ref (λ ch. (add_user ch p).1)

unfoldable pub parse_channel_invite : Chat → Player → Option Player → Chat
unfolding get_private_channel change_at
parse_channel_invite c p none = c
parse_channel_invite c p (some target) =
    change_at c (get_private_channel c p) (λ ch. invite_player ch p target)

unfoldable pub parse_channel_exclude : Chat → Player → Option Player → Chat
unfolding get_private_channel change_at
parse_channel_exclude c p none = c
parse_channel_exclude c p (some target) =
    change_at c (get_private_channel c p) (λ ch. exclude_player ch p target)

unfoldable pub handle : Chat → Request → Chat
unfolding parse_create_private_channel parse_channel_invite parse_channel_exclude get_channel_list
    add_user_to_channel remove_user_from_channel remove_user_from_all_channels
handle c (create_private_channel p) = parse_create_private_channel c p
handle c (channel_invite p target) = parse_channel_invite c p target
handle c (channel_exclude p target) = parse_channel_exclude c p target
handle c (get_channels p) = (get_channel_list c p).1
handle c (open_channel p id) = (add_user_to_channel c p id).1
handle c (close_channel p id) = (remove_user_from_channel c p id).1
handle c (logout p) = remove_user_from_all_channels c p

unfoldable pub run : Chat → List Request → Chat
unfolding handle
run c [] = c
run c (r ∷ rs) = run (handle c r) rs
