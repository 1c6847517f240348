-- ===== src/Chat/Leaving.antt =====
-- A player that leaves the game leaves its channels.
use evolution078ots.Prelude.{
  Bool, true, false, not, ◌&&◌, ◌||◌, none, some, List, [], ◌∷◌, ◌==◌, ◌≡◌, ◌≢◌, arith, ◌⊎◌, inl,
  inr, Option-cases, Bool-cases,
}
use evolution078ots.Prelude.Table.{find, assign, find-assign, find-remove}
use evolution078ots.Chat.{Player, Channel, remove_user, is_some}
use evolution078ots.Chat.Channels.{
  Chat, Ref, private_ref, normal_ref, guild_ref, dummy_ref, channel_at, put_at, delete_channel,
  leave_channel,
}
use evolution078ots.Chat.Numbers.{numbered, IsNumbered}

unfoldable pub same_ref : Ref → Ref → Bool
same_ref (normal_ref i) (normal_ref j) = i == j
same_ref (guild_ref i) (guild_ref j) = i == j
same_ref (private_ref i) (private_ref j) = i == j
same_ref dummy_ref dummy_ref = true
same_ref r s = false

unfoldable pub visits : Ref → List Ref → Bool
unfolding same_ref
visits t [] = false
visits t (r ∷ rs) = same_ref t r || visits t rs

-- The player is no user of the channel and does not own it.
abbrev pub is_out : Player → Channel → Bool
is_out p ch = not (is_some (find p.id ch.users)) && not (ch.owner == p.name)

unfoldable pub gone : Chat → Player → Ref → Bool
gone c p t = elim (channel_at c t) [ none ↦ true | some ch ↦ is_out p ch ]

gone-put_at :
    (c : Chat) (p : Player) (t r : Ref) (ch : Channel)
    → gone c p t ≡ true
    → is_out p ch ≡ true
    → gone (put_at c r ch) p t ≡ true
unfolding gone channel_at put_at
gone-put_at c p (normal_ref k) (normal_ref j) ch g out =
    ground (arith, g, out, find-assign k j ch c.normal_channels)
gone-put_at c p (guild_ref k) (guild_ref j) ch g out =
    ground (arith, g, out, find-assign k j ch c.guild_channels)
gone-put_at c p (private_ref k) (private_ref j) ch g out =
    ground (arith, g, out, find-assign k j ch c.private_channels)
gone-put_at c p dummy_ref dummy_ref ch g out = out
gone-put_at c p (normal_ref k) (guild_ref j) ch g out = g
gone-put_at c p (normal_ref k) (private_ref j) ch g out = g
gone-put_at c p (normal_ref k) dummy_ref ch g out = g
gone-put_at c p (guild_ref k) (normal_ref j) ch g out = g
gone-put_at c p (guild_ref k) (private_ref j) ch g out = g
gone-put_at c p (guild_ref k) dummy_ref ch g out = g
gone-put_at c p (private_ref k) (normal_ref j) ch g out = g
gone-put_at c p (private_ref k) (guild_ref j) ch g out = g
gone-put_at c p (private_ref k) dummy_ref ch g out = g
gone-put_at c p dummy_ref (normal_ref j) ch g out = g
gone-put_at c p dummy_ref (guild_ref j) ch g out = g
gone-put_at c p dummy_ref (private_ref j) ch g out = g

-- There is no channel behind the pointer.
absent :
    (c : Chat) (p : Player) (t r : Ref)
    → channel_at c r ≡ none
    → same_ref t r ≡ true
    → gone c p t ≡ true
unfolding gone channel_at same_ref
absent c p (normal_ref k) (normal_ref j) e same = ground (arith, e, same)
absent c p (guild_ref k) (guild_ref j) e same = ground (arith, e, same)
absent c p (private_ref k) (private_ref j) e same = ground (arith, e, same)
absent c p t r e same = absurd (ground (arith, e, same))

gone-put_at_same :
    (c : Chat) (p : Player) (t r : Ref) (ch : Channel)
    → same_ref t r ≡ true
    → is_out p ch ≡ true
    → gone (put_at c r ch) p t ≡ true
unfolding gone channel_at put_at same_ref
gone-put_at_same c p (normal_ref k) (normal_ref j) ch same out =
    ground (arith, same, out, find-assign k j ch c.normal_channels)
gone-put_at_same c p (guild_ref k) (guild_ref j) ch same out =
    ground (arith, same, out, find-assign k j ch c.guild_channels)
gone-put_at_same c p (private_ref k) (private_ref j) ch same out =
    ground (arith, same, out, find-assign k j ch c.private_channels)
gone-put_at_same c p dummy_ref dummy_ref ch same out = out
gone-put_at_same c p t r ch same out = absurd (ground (arith, same))

module _ (c : Chat) (p : Player) (named : p.name ≢ 0) (h : IsNumbered c) where
  -- Only a private channel has the player as its owner; then it is deleted.
  gone-delete_channel :
      (t r : Ref) (ch : Channel)
      → channel_at c r ≡ some ch
      → (ch.owner == p.name) ≡ true
      → (gone c p t ≡ true) ⊎ (same_ref t r ≡ true)
      → gone
          (delete_channel (put_at c r (remove_user ch p).1) p (remove_user ch p).1.channel_id).1
          p
          t
        ≡ true
  unfolding gone channel_at put_at same_ref delete_channel remove_user numbered
  gone-delete_channel t (normal_ref j) ch e own g = absurd (ground (arith, h j, e, own, named))
  gone-delete_channel t (guild_ref j) ch e own g = absurd (ground (arith, h j, e, own, named))
  gone-delete_channel t dummy_ref ch e own g = absurd (ground (arith, h 0, e, own, named))
  gone-delete_channel (private_ref k) (private_ref j) ch e own g = ground (
    arith,
    h j,
    e,
    own,
    g,
    find-assign k j (remove_user ch p).1 c.private_channels,
    find-remove k j (assign j (remove_user ch p).1 c.private_channels),
  )
  gone-delete_channel (normal_ref k) (private_ref j) ch e own g = ground (arith, h j, e, own, g)
  gone-delete_channel (guild_ref k) (private_ref j) ch e own g = ground (arith, h j, e, own, g)
  gone-delete_channel dummy_ref (private_ref j) ch e own g = ground (arith, h j, e, own, g)

  without :
      (t r : Ref)
      → channel_at c r ≡ none
      → (gone c p t ≡ true) ⊎ (same_ref t r ≡ true)
      → gone c p t ≡ true
  without t r e (inl before) = before
  without t r e (inr same) = absent c p t r e same

  is_out-remove_user :
      (ch : Channel) → (ch.owner == p.name) ≡ false → is_out p (remove_user ch p).1 ≡ true
  unfolding remove_user
  is_out-remove_user ch other = ground (arith, other, find-remove p.id p.id ch.users)

  owner-remove_user : (ch : Channel) → (remove_user ch p).1.owner ≡ ch.owner
  unfolding remove_user
  owner-remove_user ch = ground arith

  pub gone-leave_channel :
      (t r : Ref)
      → (gone c p t ≡ true) ⊎ (same_ref t r ≡ true)
      → gone (leave_channel c p r) p t ≡ true
  unfolding leave_channel
  gone-leave_channel t r g = elim (Option-cases (channel_at c r)) [
    | inl e ↦ rw (leave_channel, e) (without t r e g)
    | inr (ch, e) ↦ elim (Bool-cases (ch.owner == p.name)) [
      | inl own ↦
          rw (leave_channel, e, owner-remove_user ch, own) (gone-delete_channel t r ch e own g)
      | inr other ↦
          rw (leave_channel, e, owner-remove_user ch, other)
            (elim g [
              | inl before ↦
                  gone-put_at c p t r (remove_user ch p).1 before (is_out-remove_user ch other)
              | inr same ↦
                  gone-put_at_same c p t r (remove_user ch p).1 same (is_out-remove_user ch other)
            ])
    ]
  ]
