-- ===== src/Chat/Numbering.antt =====
-- Every request keeps the numbers of the channels in order.
use evolution078ots.Prelude.{
  ℕ, not, ◌&&◌, Option, none, some, List, [], ◌∷◌, ◌==◌, length, ◌≡◌, sym, arith, inl, inr,
  Option-cases, Bool-cases, subst, ap,
}
use evolution078ots.Prelude.Table.{find, assign, find-assign, find-remove}
use evolution078ots.Chat.{
  Player, plain, Channel, new_channel, add_user, remove_user, add_invited, remove_invited,
  invite_player, exclude_player,
}
use evolution078ots.Chat.Channels.{
  Chat, Ref, private_ref, normal_ref, guild_ref, dummy_ref, channel_at, put_at, get_channel,
  create_channel, delete_channel, add_user_to_channel, remove_user_from_channel, leave_channel,
  leave_channels, guild_list, get_channel_list, get_private_channel, remove_user_from_all_channels,
  new_chat,
}
use evolution078ots.Chat.Numbers.{numbered, IsNumbered, IsCreated, create_channel_lem}
use evolution078ots.Chat.Requests.{
  Request, create_private_channel, channel_invite, channel_exclude, get_channels, open_channel,
  close_channel, logout, handle, run, change_at, parse_create_private_channel, parse_channel_invite,
  parse_channel_exclude,
}

-- Both are one channel, as far as its number and its owner go.
abbrev pub Same : Channel → Channel → Type 0
Same ch ch' = (ch'.owner ≡ ch.owner) × (ch'.channel_id ≡ ch.channel_id)

pub add_user-Same : (ch : Channel) (p : Player) → Same ch (add_user ch p).1
unfolding add_user
add_user-Same ch p = (ground arith, ground arith)

pub remove_user-Same : (ch : Channel) (p : Player) → Same ch (remove_user ch p).1
unfolding remove_user
remove_user-Same ch p = (ground arith, ground arith)

invite_player-Same : (ch : Channel) (p target : Player) → Same ch (invite_player ch p target)
unfolding invite_player add_invited
invite_player-Same ch p target = (ground arith, ground arith)

exclude_player-Same : (ch : Channel) (p target : Player) → Same ch (exclude_player ch p target)
unfolding exclude_player remove_invited remove_user
exclude_player-Same ch p target = (ground arith, ground arith)

pub put_at-IsNumbered :
    (c : Chat) (ref : Ref) (ch ch' : Channel)
    → IsNumbered c
    → channel_at c ref ≡ some ch
    → Same ch ch'
    → IsNumbered (put_at c ref ch')
unfolding put_at channel_at numbered
put_at-IsNumbered c (normal_ref j) ch ch' h e same =
    λ k. ground (arith, h k, e, same, find-assign k j ch' c.normal_channels)
put_at-IsNumbered c (guild_ref j) ch ch' h e same =
    λ k. ground (arith, h k, e, same, h j, find-assign k j ch' c.guild_channels)
put_at-IsNumbered c (private_ref j) ch ch' h e same =
    λ k. ground (arith, h k, e, same, find-assign k j ch' c.private_channels)
put_at-IsNumbered c dummy_ref ch ch' h e same = λ k. ground (arith, h k, e, same)

pub delete_channel-IsNumbered :
    (c : Chat) (p : Player) (id : ℕ) → IsNumbered c → IsNumbered (delete_channel c p id).1
unfolding delete_channel numbered
delete_channel-IsNumbered c p id h = λ k.
    ground
      (arith, h k, find-remove k p.guild_id c.guild_channels, find-remove k id c.private_channels)

created-IsNumbered :
    (c c' : Chat) (p : Player) (i : ℕ) → IsNumbered c → IsCreated c p c' i → IsNumbered c'
unfolding numbered new_channel
created-IsNumbered c c' p i h (lo, hi, _, _, normal, guild, dummy, new, old) = λ k.
    elim (Bool-cases (k == i)) [
      | inl same ↦ ground (arith, h k, same, lo, hi, normal, guild, dummy, new)
      | inr other ↦ ground (arith, h k, normal, guild, dummy, old k (ground (arith, other)))
    ]

create_private-IsNumbered :
    (c : Chat) (p : Player) → IsNumbered c → IsNumbered (create_channel c p 0xFFFF).1
create_private-IsNumbered c p h = elim (create_channel_lem c p h) [
  | inl (i, c', e, made) ↦
      subst IsNumbered (ap (λ (r : Option Ref × Chat). r.1) (sym e))
        (created-IsNumbered c c' p i h made)
  | inr (e, _) ↦ subst IsNumbered (ap (λ (r : Option Ref × Chat). r.1) (sym e)) h
]

create_guild-IsNumbered :
    (c : Chat) (p : Player) → IsNumbered c → IsNumbered (create_channel c p 0).1
unfolding create_channel numbered new_channel
create_guild-IsNumbered c p h = λ k.
    ground
      (arith, h k, find-assign k p.guild_id (new_channel 0 (plain p.guild_name)) c.guild_channels)

change_at-IsNumbered :
    (c : Chat) (ref : Option Ref) (f : Channel → Channel)
    → IsNumbered c
    → ((ch : Channel) → Same ch (f ch))
    → IsNumbered (change_at c ref f)
unfolding change_at
change_at-IsNumbered c none f h same = h
change_at-IsNumbered c (some ref) f h same = elim (Option-cases (channel_at c ref)) [
  | inl e ↦ rw (change_at, e) h
  | inr (ch, e) ↦ rw (change_at, e) (put_at-IsNumbered c ref ch (f ch) h e (same ch))
]

module _ (c : Chat) (p : Player) (h : IsNumbered c) where
  pub guild_list-IsNumbered : IsNumbered (guild_list c p).1
  unfolding guild_list
  guild_list-IsNumbered =
      elim (Bool-cases (not (p.guild_id == 0) && not (length p.guild_name == 0))) [
        | inr no_guild ↦ rw (guild_list, no_guild) h
        | inl guild ↦ elim (Option-cases (get_channel c p 0)) [
          | inr (ref, e) ↦ rw (guild_list, guild, e) h
          | inl e ↦ elim (Option-cases (create_channel c p 0).0) [
            | inl nothing ↦ rw (guild_list, guild, e, nothing) (create_guild-IsNumbered c p h)
            | inr (ref, new) ↦ rw (guild_list, guild, e, new) (create_guild-IsNumbered c p h)
          ]
        ]
      ]

  pub leave_channel-IsNumbered : (ref : Ref) → IsNumbered (leave_channel c p ref)
  unfolding leave_channel
  leave_channel-IsNumbered ref = elim (Option-cases (channel_at c ref)) [
    | inl e ↦ rw (leave_channel, e) h
    | inr (ch, e) ↦
        let ch' = (remove_user ch p).1 in
        let kept = put_at-IsNumbered c ref ch ch' h e (remove_user-Same ch p) in
        elim (Bool-cases (ch'.owner == p.name)) [
          | inl own ↦
              rw (leave_channel, e, own)
                (delete_channel-IsNumbered (put_at c ref ch') p ch'.channel_id kept)
          | inr other ↦ rw (leave_channel, e, other) kept
        ]
  ]

  open_channel-IsNumbered : (id : ℕ) → IsNumbered (add_user_to_channel c p id).1
  unfolding add_user_to_channel
  open_channel-IsNumbered id = elim (Option-cases (get_channel c p id)) [
    | inl e ↦ rw (add_user_to_channel, e) h
    | inr (ref, found) ↦ elim (Option-cases (channel_at c ref)) [
      | inl e ↦ rw (add_user_to_channel, found, e) h
      | inr (ch, e) ↦
          rw (add_user_to_channel, found, e)
            (put_at-IsNumbered c ref ch (add_user ch p).1 h e (add_user-Same ch p))
    ]
  ]

  close_channel-IsNumbered : (id : ℕ) → IsNumbered (remove_user_from_channel c p id).1
  unfolding remove_user_from_channel
  close_channel-IsNumbered id = elim (Option-cases (get_channel c p id)) [
    | inl e ↦ rw (remove_user_from_channel, e) h
    | inr (ref, found) ↦ elim (Option-cases (channel_at c ref)) [
      | inl e ↦ rw (remove_user_from_channel, found, e) h
      | inr (ch, e) ↦
          let (removed, ch') = remove_user ch p in
          let kept = put_at-IsNumbered c ref ch ch' h e (remove_user-Same ch p) in
          elim (Bool-cases removed) [
            | inr not_user ↦ rw (remove_user_from_channel, found, e, not_user) h
            | inl user ↦ elim (Bool-cases (ch'.owner == p.name)) [
              | inl own ↦
                  rw (remove_user_from_channel, found, e, user, own)
                    (delete_channel-IsNumbered (put_at c ref ch') p id kept)
              | inr other ↦ rw (remove_user_from_channel, found, e, user, other) kept
            ]
          ]
    ]
  ]

leave_channels-IsNumbered :
    (c : Chat) (p : Player) (refs : List Ref) → IsNumbered c → IsNumbered (leave_channels c p refs)
unfolding leave_channels
leave_channels-IsNumbered c p [] h = h
leave_channels-IsNumbered c p (ref ∷ refs) h =
    leave_channels-IsNumbered (leave_channel c p ref) p refs (leave_channel-IsNumbered c p h ref)

pub new_chat-IsNumbered : IsNumbered new_chat
unfolding new_chat numbered find assign new_channel
new_chat-IsNumbered = λ k. ground arith

handle-IsNumbered : (c : Chat) (r : Request) → IsNumbered c → IsNumbered (handle c r)
unfolding handle parse_create_private_channel parse_channel_invite parse_channel_exclude
    get_channel_list remove_user_from_all_channels
handle-IsNumbered c (create_private_channel p) h =
    change_at-IsNumbered (create_channel c p 0xFFFF).1 (create_channel c p 0xFFFF).0
      (λ ch. (add_user ch p).1) (create_private-IsNumbered c p h) (λ ch. add_user-Same ch p)
handle-IsNumbered c (channel_invite p none) h = h
handle-IsNumbered c (channel_invite p (some target)) h =
    change_at-IsNumbered c (get_private_channel c p) (λ ch. invite_player ch p target) h
      (λ ch. invite_player-Same ch p target)
handle-IsNumbered c (channel_exclude p none) h = h
handle-IsNumbered c (channel_exclude p (some target)) h =
    change_at-IsNumbered c (get_private_channel c p) (λ ch. exclude_player ch p target) h
      (λ ch. exclude_player-Same ch p target)
handle-IsNumbered c (get_channels p) h = guild_list-IsNumbered c p h
handle-IsNumbered c (open_channel p id) h = open_channel-IsNumbered c p h id
handle-IsNumbered c (close_channel p id) h = close_channel-IsNumbered c p h id
handle-IsNumbered c (logout p) h =
    leave_channels-IsNumbered (guild_list c p).1 p (get_channel_list c p).0
      (guild_list-IsNumbered c p h)

run-IsNumbered_from : (c : Chat) (rs : List Request) → IsNumbered c → IsNumbered (run c rs)
unfolding run
run-IsNumbered_from c [] h = h
run-IsNumbered_from c (r ∷ rs) h = run-IsNumbered_from (handle c r) rs (handle-IsNumbered c r h)

-- After any sequence of requests from the start of the chat: the private channels have numbers from 10
-- to 9999 and know them, the normal ones have numbers from 1 to 9, and only private ones have an
-- owner.
pub run-IsNumbered : (rs : List Request) → IsNumbered (run new_chat rs)
run-IsNumbered rs = run-IsNumbered_from new_chat rs new_chat-IsNumbered
