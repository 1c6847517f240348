-- ===== src/Chat/Numbers.antt =====
-- The numbers of the channels: what a new private channel gets, and what every request keeps.
use evolution078ots.Prelude.{
  ℕ, zero, suc, ◌+◌, ◌≤◌, ◌<◌, Bool, true, false, not, ◌&&◌, Option, none, some, ◌==◌, ltb, leb,
  ◌≡◌, ◌≢◌, refl, arith, ◌⊎◌, inl, inr, Option-cases, Bool-cases, subst, ◌∙◌, ap,
}
use evolution078ots.Prelude.Table.{find, find-assign}
use evolution078ots.Chat.{Player, of_owner, Channel, new_channel, is_some}
use evolution078ots.Chat.Channels.{
  Chat, private_ref, get_channel, first_free, create_channel, create_private,
}

-- Normal channels have numbers below 10, but not 0, private ones from 10 to 9999; only a private
-- channel has an owner, and it knows its number.
unfoldable pub numbered : Chat → ℕ → Bool
numbered c k =
    (elim (find k c.normal_channels) [
      | none ↦ true
      | some ch ↦ ltb k 10 && not (k == 0) && ch.owner == 0
    ])
    && (elim (find k c.guild_channels) [ none ↦ true | some ch ↦ ch.owner == 0 ])
    && (elim (find k c.private_channels) [
      | none ↦ true
      | some ch ↦ leb 10 k && ltb k 10000 && ch.channel_id == k
    ])
    && c.dummy_private.owner == 0

abbrev pub IsNumbered : Chat → Type 0
IsNumbered c = (k : ℕ) → numbered c k ≡ true

module _ (c : Chat) (p : Player) where
  -- What the search for a free number finds.
  abbrev Found : ℕ → ℕ → Option ℕ → Type 0
  Found n i none = (k : ℕ) → i ≤ k → k < i + n → is_some (get_channel c p k) ≡ true
  Found n i (some k) = (i ≤ k) × (k < i + n) × (is_some (get_channel c p k) ≡ false)

  widen :
      (n i : ℕ) (o : Option ℕ)
      → is_some (get_channel c p i) ≡ true
      → Found n (i + 1) o
      → Found (suc n) i o
  widen n i none taken h = λ k lo hi. elim (Bool-cases (k == i)) [
    | inl same ↦ ground (arith, same, taken)
    | inr other ↦ h k (ground (arith, other)) (omega arith)
  ]
  widen n i (some k) taken h = (omega (arith, h.0), omega (arith, h.1), h.2)

  first_free-Found : (n i : ℕ) → Found n i (first_free c p n i)
  unfolding first_free
  first_free-Found zero i = λ k lo hi. absurd (omega arith)
  first_free-Found (suc n) i = elim (Bool-cases (is_some (get_channel c p i))) [
    | inl taken ↦
        rw (first_free, taken)
          (widen n i (first_free c p n (i + 1)) taken (first_free-Found n (i + 1)))
    | inr free ↦ rw (first_free, free) (omega arith, omega arith, free)
  ]

  no_channel : IsNumbered c → is_some (get_channel c p 65535) ≡ false
  unfolding get_channel numbered
  no_channel h = ground (arith, h 65535)

  create_channel-create_private :
      IsNumbered c → create_channel c p 0xFFFF ≡ create_private c p (first_free c p 9990 10)
  unfolding create_channel
  create_channel-create_private h = rw (create_channel, no_channel h) refl

  no_channel_at :
      (i : ℕ)
      → 10 ≤ i
      → is_some (get_channel c p i) ≡ false
      → (find i c.normal_channels ≡ none) × (find i c.private_channels ≡ none)
  unfolding get_channel
  no_channel_at i lo free = (ground (arith, free), ground (arith, free))

  abbrev pub owned : ℕ → Channel
  owned i = record (new_channel i (of_owner p.name)) { owner = p.name }

  -- The new channel has a number that was free, belongs to the player, and is empty.
  abbrev pub IsCreated : Chat → ℕ → Type 0
  IsCreated c' i =
      (10 ≤ i)
      × (i < 10000)
      × (find i c.normal_channels ≡ none)
      × (find i c.private_channels ≡ none)
      × (c'.normal_channels ≡ c.normal_channels)
      × (c'.guild_channels ≡ c.guild_channels)
      × (c'.dummy_private ≡ c.dummy_private)
      × (find i c'.private_channels ≡ some (owned i))
      × ((j : ℕ) → j ≢ i → find j c'.private_channels ≡ find j c.private_channels)

  -- Whether a channel is created, or why not.
  abbrev pub Creates : Type 0
  Creates =
      ((i : ℕ) × (c' : Chat) × (create_channel c p 0xFFFF ≡ (some (private_ref i), c'))
        × IsCreated c' i)
      ⊎ ((create_channel c p 0xFFFF ≡ (none, c))
          × ((i : ℕ) → 10 ≤ i → i < 10000 → is_some (get_channel c p i) ≡ true))

  -- A player asks for a private channel where the channels are numbered in order: it gets one with a
  -- number from 10 to 9999 that was free, which it owns and which is empty, and no other channel
  -- changes; or all these numbers are taken, and nothing changes.
  pub create_channel_lem : IsNumbered c → Creates
  unfolding create_private
  create_channel_lem h = elim (Option-cases (first_free c p 9990 10)) [
    | inl e ↦ inr (
      create_channel-create_private h ∙ ap (create_private c p) e,
      subst (Found 9990 10) e (first_free-Found 9990 10),
    )
    | inr (i, e) ↦
        let (lo, hi, free) = subst (Found 9990 10) e (first_free-Found 9990 10) in
        let (normal, private) = no_channel_at i lo free in
        inl (
          i,
          (create_private c p (some i)).1,
          create_channel-create_private h ∙ ap (create_private c p) e,
          (
            lo,
            omega (arith, hi),
            normal,
            private,
            refl,
            refl,
            refl,
            ground (arith, find-assign i i (owned i) c.private_channels),
            λ j ne. ground (arith, find-assign j i (owned i) c.private_channels, ne),
          ),
        )
  ]
