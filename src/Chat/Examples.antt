-- ===== src/Chat/Examples.antt =====
-- The theorems about chat channels at concrete players.
use evolution078ots.Prelude.{[], ◌∷◌, refl, ◌≡◌, true, arith}
use evolution078ots.Prelude.Table.{find, assign}
use evolution078ots.Chat.{Player, of_owner, is_invited, new_channel}
use evolution078ots.Chat.Channels.{Chat, new_chat, private_ref, remove_user_from_all_channels}
use evolution078ots.Chat.Requests.{create_private_channel, open_channel, logout, run}
use evolution078ots.Chat.Numbers.{numbered, IsNumbered, Creates, create_channel_lem}
use evolution078ots.Chat.Numbering.{run-IsNumbered, new_chat-IsNumbered}
use evolution078ots.Chat.Leaving.{gone}
use evolution078ots.Chat.Departure.{listed, gone-remove_user_from_all_channels}

abbrev alice : Player
alice = record { id = 101; name = 1; guild_id = 0; guild_name = [] }

abbrev bob : Player
bob = record { id = 102; name = 2; guild_id = 0; guild_name = [] }

-- Alice's channel, with Bob as a guest.
abbrev with_channel : Chat
with_channel = record new_chat {
  private_channels =
      (
        10,
        record {
          channel_id = 10;
          title = of_owner 1;
          users = (101, alice) ∷ (102, bob) ∷ [];
          owner = 1;
          invites = (2, bob) ∷ [];
        },
      )
      ∷ [];
}

with_channel-IsNumbered : IsNumbered with_channel
unfolding new_chat numbered find assign new_channel
with_channel-IsNumbered = λ k. ground arith

create_channel_lem_example : Creates new_chat alice
create_channel_lem_example = create_channel_lem new_chat alice new_chat-IsNumbered

run-IsNumbered_example :
    IsNumbered
      (run new_chat (create_private_channel alice ∷ open_channel bob 10 ∷ logout alice ∷ []))
run-IsNumbered_example =
    run-IsNumbered (create_private_channel alice ∷ open_channel bob 10 ∷ logout alice ∷ [])

gone-remove_user_from_all_channels_example :
    gone (remove_user_from_all_channels with_channel bob) bob (private_ref 10) ≡ true
unfolding listed find is_invited
gone-remove_user_from_all_channels_example =
    gone-remove_user_from_all_channels with_channel bob (private_ref 10) (λ e. ground (arith, e))
      with_channel-IsNumbered refl
