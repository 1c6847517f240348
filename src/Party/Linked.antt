-- ===== src/Party/Linked.antt =====
-- No party pointer dangles: what each operation of a party does to the pointers of the players.
use evolution078ots.Prelude.{
  ℕ, Bool, true, false, ◌||◌, ◌&&◌, Option, none, some, List, [], ◌∷◌, ◌++◌, ◌==◌, if◌then◌else◌,
  ◌≡◌, ◌≢◌, refl, arith, Bool-cases, Option-cases, ◌⊎◌, inl, inr,
}
use evolution078ots.Party.{
  Party, World, set, has, erase, is_empty, is_invited, put, invite_player, accept_invitation,
  in_party, pass_leadership, release, disband, disband_if_empty, revoke_invitation, leave,
  leave_members, kick_player,
}

unfoldable pub belongs : Party → ℕ → Bool
belongs pt x = x == pt.leader || has x pt.members

-- The party that a player points to is an object, and the player is its leader or a member.
unfoldable pub linked : World → ℕ → Bool
unfolding belongs
linked w x = elim (w.party_of x) [
  | none ↦ true
  | some this ↦ elim (w.parties this) [ none ↦ false | some pt ↦ belongs pt x ]
]

abbrev pub IsLinked : World → Type 0
IsLinked w = (x : ℕ) → linked w x ≡ true

-- The operation is defined and leaves such a world.
abbrev pub Succeeds : Option World → Type 0
Succeeds r = (w : World) × (r ≡ some w) × IsLinked w

-- The operation is defined, keeps the party, and leaves such a world.
abbrev pub Keeps : ℕ → Option World → Type 0
Keeps this r = (w : World) × (r ≡ some w) × IsLinked w × ((pt : Party) × (w.parties this ≡ some pt))

pub List-cases : (l : List ℕ) → (l ≡ []) ⊎ ((x : ℕ) × (xs : List ℕ) × (l ≡ x ∷ xs))
List-cases [] = inl refl
List-cases (x ∷ xs) = inr (x, xs, refl)

pub has-erase : (x p : ℕ) (l : List ℕ) → x ≢ p → has x l ≡ true → has x (erase p l) ≡ true
unfolding has erase
has-erase x p [] ne h = h
has-erase x p (y ∷ ys) ne h = ground (arith, has-erase x p ys ne)

pub has-append : (x p : ℕ) (l : List ℕ) → has x (l ++ p ∷ []) ≡ has x l || x == p
unfolding has
has-append x p [] = ground arith
has-append x p (y ∷ ys) = ground (arith, has-append x p ys)

pub release_lem :
    (party_of : ℕ → Option ℕ) (ms : List ℕ) (x : ℕ)
    → release party_of ms x ≡ (if has x ms then none else party_of x)
unfolding release set has
release_lem party_of [] x = refl
release_lem party_of (m ∷ ms) x = ground (arith, release_lem party_of ms x)

module _ (w : World) (h : IsLinked w) (this : ℕ) (pt : Party)
    (live : w.parties this ≡ some pt) where
  pub invite_player-IsLinked : (p : ℕ) → Succeeds (invite_player w this p)
  unfolding invite_player put set linked belongs
  invite_player-IsLinked p = elim (Option-cases (w.party_of p)) [
    | inl e ↦ rw (Succeeds, invite_player, live, e) (_, refl, λ x. ground (arith, h x, live))
    | inr (other, e) ↦ rw (Succeeds, invite_player, live, e) (w, refl, h)
  ]

  pub accept_invitation-IsLinked : (p : ℕ) → Succeeds (accept_invitation w this p)
  unfolding accept_invitation put set linked belongs
  accept_invitation-IsLinked p = elim (Bool-cases (is_invited pt p)) [
    | inl e ↦
        rw (Succeeds, accept_invitation, live, e)
          (_, refl, λ x. ground (arith, h x, live, has-append x p pt.members))
    | inr e ↦ rw (Succeeds, accept_invitation, live, e) (w, refl, h)
  ]

  member :
      (p : ℕ)
      → (p ≡ pt.leader → has p pt.members ≡ true)
      → in_party w this p ≡ true
      → has p pt.members ≡ true
  unfolding in_party linked belongs
  member p ok e = ground (arith, h p, live, ok)

  pub pass_leadership-IsLinked :
      (p : ℕ) → (p ≡ pt.leader → has p pt.members ≡ true) → Keeps this (pass_leadership w this p)
  unfolding pass_leadership put set linked belongs in_party has
  pass_leadership-IsLinked p ok = elim (Bool-cases (in_party w this p)) [
    | inl e ↦
        let inside = member p ok e in
        rw (Keeps, pass_leadership, live, e, inside)
          (
            _,
            refl,
            λ x. ground (arith, h x, live, has-erase x p pt.members),
            (
              record { leader = p; members = pt.leader ∷ erase p pt.members; invitedplayers = [] },
              ground arith,
            ),
          )
    | inr e ↦ rw (Keeps, pass_leadership, live, e) (w, refl, h, (pt, live))
  ]

  pub disband-IsLinked : Succeeds (disband w this)
  unfolding disband set linked belongs
  disband-IsLinked =
      rw (Succeeds, disband, live)
        (
          _,
          refl,
          λ x. ground (arith, h x, live, release_lem (set w.party_of pt.leader none) pt.members x),
        )

  pub disband_if_empty-IsLinked : Succeeds (disband_if_empty w this)
  unfolding disband_if_empty
  disband_if_empty-IsLinked =
      elim (Bool-cases (is_empty pt.members && is_empty pt.invitedplayers)) [
        | inl e ↦ rw (Succeeds, disband_if_empty, live, e) disband-IsLinked
        | inr e ↦ rw (Succeeds, disband_if_empty, live, e) (w, refl, h)
      ]

-- `p` may be the one that its pointer does not match.
leave-IsLinked :
    (w : World) (this : ℕ) (pt : Party)
    → w.parties this ≡ some pt
    → (p : ℕ) → ((x : ℕ) → x ≢ p → linked w x ≡ true)
    → Succeeds (leave w this p)
unfolding leave set linked
leave-IsLinked w this pt live p h =
    disband_if_empty-IsLinked (record w { party_of = set w.party_of p none })
      (λ x. ground (arith, h x, live)) this pt live

module _ (w : World) (this : ℕ) (pt : Party) (live : w.parties this ≡ some pt) where
  pub revoke_invitation-IsLinked : IsLinked w → (p : ℕ) → Succeeds (revoke_invitation w this p)
  unfolding revoke_invitation put set linked belongs
  revoke_invitation-IsLinked h p = elim (Bool-cases (is_invited pt p)) [
    | inl e ↦
        rw (Succeeds, revoke_invitation, live, e)
          (disband_if_empty-IsLinked
            (put w this (record pt { invitedplayers = erase p pt.invitedplayers }))
            (λ x. ground (arith, h x, live)) this
            (record pt { invitedplayers = erase p pt.invitedplayers }) (ground arith))
    | inr e ↦ rw (Succeeds, revoke_invitation, live, e) (w, refl, h)
  ]

  leave_members-IsLinked : IsLinked w → (p : ℕ) → Succeeds (leave_members w this p)
  unfolding leave_members put set linked belongs
  leave_members-IsLinked h p = elim (Bool-cases (has p pt.members)) [
    | inl e ↦
        rw (Succeeds, leave_members, live, e)
          (leave-IsLinked (put w this (record pt { members = erase p pt.members })) this
            (record pt { members = erase p pt.members }) (ground arith) p
            (λ x ne. ground (arith, h x, live, has-erase x p pt.members ne)))
    | inr e ↦ rw (Succeeds, leave_members, live, e) (w, refl, h)
  ]

-- Taking a player out of its party leaves no dangling pointer, whoever leads the party.
pub kick_player-IsLinked :
    (w : World) (this : ℕ) (pt : Party)
    → w.parties this ≡ some pt
    → IsLinked w
    → (p : ℕ) → Succeeds (kick_player w this p)
unfolding kick_player
kick_player-IsLinked w this pt live h p = elim (List-cases pt.members) [
  | inl e ↦ elim (Bool-cases (p == pt.leader)) [
    | inl first ↦ rw (Succeeds, kick_player, live, e, first) (disband-IsLinked w h this pt live)
    | inr other ↦
        rw (Succeeds, kick_player, live, e, other) (leave-IsLinked w this pt live p (λ x ne. h x))
  ]
  | inr (front, rest, e) ↦ elim (Bool-cases (p == pt.leader)) [
    | inl first ↦
        let (w', passed, h', (pt', live')) =
          pass_leadership-IsLinked w h this pt live front (λ _. unfold has in ground (arith, e)) in
        rw (Succeeds, kick_player, live, e, first, passed)
          (leave_members-IsLinked w' this pt' live' h' p)
    | inr other ↦
        rw (Succeeds, kick_player, live, e, other) (leave_members-IsLinked w this pt live h p)
  ]
]
