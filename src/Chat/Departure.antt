-- ===== src/Chat/Departure.antt =====
-- A player that leaves the game is a user of no channel that it was in by right.
use evolution078ots.Prelude.{
  ℕ, Bool, true, false, not, ◌&&◌, ◌||◌, none, some, List, [], ◌∷◌, ◌++◌, ◌==◌, length, ◌≡◌, ◌≢◌,
  refl, arith, ◌⊎◌, inl, inr, Option-cases, Bool-cases, map, ◌∙◌, ap,
}
use evolution078ots.Prelude.Table.{Table, find}
use evolution078ots.Chat.{Player, Channel, is_some, is_invited}
use evolution078ots.Chat.Channels.{
  Chat, Ref, private_ref, normal_ref, guild_ref, dummy_ref, channel_at, get_channel, create_channel,
  leave_channel, leave_channels, guild_list, get_channel_list, invited_refs,
  remove_user_from_all_channels,
}
use evolution078ots.Chat.Numbers.{IsNumbered}
use evolution078ots.Chat.Numbering.{guild_list-IsNumbered, leave_channel-IsNumbered}
use evolution078ots.Chat.Leaving.{same_ref, visits, gone, gone-leave_channel}

-- The channels that a player is in by right: the normal ones, that of its guild, and the private ones
-- that it owns or is invited to.
unfoldable pub listed : Chat → Player → Ref → Bool
listed c p (normal_ref k) = true
listed c p (guild_ref k) =
    k == p.guild_id && (not (p.guild_id == 0) && not (length p.guild_name == 0))
listed c p (private_ref k) = elim (find k c.private_channels) [
  | none ↦ false
  | some ch ↦ is_invited ch p
]
listed c p dummy_ref = false

visits-append : (t : Ref) (xs ys : List Ref) → visits t (xs ++ ys) ≡ visits t xs || visits t ys
unfolding visits
visits-append t [] ys = refl
visits-append t (x ∷ xs) ys = ground (arith, visits-append t xs ys)

visits_normal :
    (k : ℕ) (t : Table Channel)
    → is_some (find k t) ≡ true
    → visits (normal_ref k) (map (λ entry. normal_ref entry.0) t) ≡ true
unfolding visits find same_ref
visits_normal k [] h = absurd (ground (arith, h))
visits_normal k ((j, ch) ∷ t) h = ground (arith, visits_normal k t, h)

visits_invited :
    (p : Player) (k : ℕ) (ch : Channel) (t : Table Channel)
    → find k t ≡ some ch
    → is_invited ch p ≡ true
    → visits (private_ref k) (invited_refs p t) ≡ true
unfolding visits find same_ref invited_refs
visits_invited p k ch [] e i = absurd (ground (arith, e))
visits_invited p k ch ((j, ch') ∷ t) e i = ground (arith, visits_invited p k ch t, e, i)

gone-leave_channels :
    (c : Chat) (p : Player) (t : Ref) (refs : List Ref)
    → p.name ≢ 0
    → IsNumbered c
    → (gone c p t ≡ true) ⊎ (visits t refs ≡ true)
    → gone (leave_channels c p refs) p t ≡ true
unfolding leave_channels visits
gone-leave_channels c p t [] named h g = ground (arith, g)
gone-leave_channels c p t (r ∷ rs) named h g =
    gone-leave_channels (leave_channel c p r) p t rs named (leave_channel-IsNumbered c p h r)
      (elim (Bool-cases (visits t rs)) [
        | inl later ↦ inr later
        | inr now ↦ inl (
            gone-leave_channel c p named h t r
              (elim g [ inl before ↦ inl before | inr v ↦ inr (ground (arith, v, now)) ]))
      ])

module _ (c : Chat) (p : Player) where
  private_channels-guild_list : (guild_list c p).1.private_channels ≡ c.private_channels
  unfolding guild_list get_channel create_channel
  private_channels-guild_list = ground arith

  visits_guild :
      (not (p.guild_id == 0) && not (length p.guild_name == 0)) ≡ true
      → visits (guild_ref p.guild_id) (guild_list c p).0 ≡ true
  unfolding guild_list get_channel create_channel visits same_ref
  visits_guild has_guild = ground (arith, has_guild)

  -- The three parts of the list.
  in_list :
      (t : Ref)
      → (visits t (guild_list c p).0
          || (visits t (map (λ entry. normal_ref entry.0) (guild_list c p).1.normal_channels)
              || visits t (invited_refs p (guild_list c p).1.private_channels)))
        ≡ true
      → visits t (get_channel_list c p).0 ≡ true
  unfolding get_channel_list visits
  in_list t h = ground (
    arith,
    h,
    visits-append t (guild_list c p).0 (
        map (λ entry. normal_ref entry.0) (guild_list c p).1.normal_channels
        ++ invited_refs p (guild_list c p).1.private_channels),
    visits-append t (map (λ entry. normal_ref entry.0) (guild_list c p).1.normal_channels)
        (invited_refs p (guild_list c p).1.private_channels),
  )

  visits-get_channel_list :
      (t : Ref)
      → listed c p t ≡ true
      → (gone (guild_list c p).1 p t ≡ true) ⊎ (visits t (get_channel_list c p).0 ≡ true)
  unfolding listed gone get_channel_list channel_at visits
  visits-get_channel_list (normal_ref k) l =
      elim (Option-cases (find k (guild_list c p).1.normal_channels)) [
        | inl e ↦ inl (ground (arith, e))
        | inr (ch, e) ↦ inr (
            in_list (normal_ref k)
              (ground (arith, visits_normal k (guild_list c p).1.normal_channels, e)))
      ]
  visits-get_channel_list (guild_ref k) l =
      inr (in_list (guild_ref k) (ground (arith, l, visits_guild)))
  visits-get_channel_list (private_ref k) l = elim (Option-cases (find k c.private_channels)) [
    | inl e ↦ absurd (ground (arith, l, e))
    | inr (ch, e) ↦ inr (
        in_list (private_ref k) (
          ground (
            arith,
            l,
            e,
            visits_invited p k ch (guild_list c p).1.private_channels
                (ap (find k) private_channels-guild_list ∙ e),
          )))
  ]
  visits-get_channel_list dummy_ref l = absurd (ground (arith, l))

-- When a player with a name leaves the game, in a chat whose channels are numbered in order: of the normal channels, the channel of its guild, and the
-- private channels that it owned or was invited to, each one that is left neither has the player as
-- a user nor as its owner.
pub gone-remove_user_from_all_channels :
    (c : Chat) (p : Player) (t : Ref)
    → p.name ≢ 0
    → IsNumbered c
    → listed c p t ≡ true
    → gone (remove_user_from_all_channels c p) p t ≡ true
unfolding remove_user_from_all_channels get_channel_list
gone-remove_user_from_all_channels c p t named h l =
    gone-leave_channels (guild_list c p).1 p t (get_channel_list c p).0 named
      (guild_list-IsNumbered c p h) (visits-get_channel_list c p t l)
