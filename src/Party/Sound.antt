-- ===== src/Party/Sound.antt =====
-- The lists of a party agree with the pointers of the players: what each operation keeps of it.
use evolution078ots.Prelude.{
  ℕ, suc, ◌+◌, ◌-◌, Bool, true, ◌||◌, ◌&&◌, Option, none, some, List, [], ◌∷◌, ◌++◌, ◌==◌, ltb,
  if◌then◌else◌, ◌≡◌, ◌≢◌, arith, Bool-cases, Option-cases, inl, inr,
}
use evolution078ots.Party.{
  Party, World, set, has, erase, is_empty, is_invited, put, invite_player, accept_invitation,
  in_party, pass_leadership, disband, disband_if_empty, revoke_invitation, leave, leave_members,
}
use evolution078ots.Party.Linked.{release_lem}

unfoldable pub count : ℕ → List ℕ → ℕ
count x [] = 0
count x (y ∷ ys) = let rest = count x ys in if x == y then suc rest else rest

-- How often a player stands in a party, as its leader or as a member.
unfoldable pub places : Party → ℕ → ℕ
places pt x = (if x == pt.leader then 1 else 0) + count x pt.members

-- A player stands in the party once, and then points to it, or not at all.
unfoldable pub sound : World → ℕ → ℕ → Bool
unfolding places in_party
sound w this x = elim (w.parties this) [
  | none ↦ true
  | some pt ↦ places pt x == 0 || places pt x == 1 && in_party w this x
]

abbrev pub IsSound : World → Type 0
IsSound w = (this x : ℕ) → sound w this x ≡ true

-- The world that an operation leaves, where it is defined.
abbrev pub After : Option World → Type 0
After none = Unit
After (some w) = IsSound w

pub count-erase :
    (x p : ℕ) (l : List ℕ) → count x (erase p l) ≡ (if x == p then count x l - 1 else count x l)
unfolding count erase
count-erase x p [] = ground arith
count-erase x p (y ∷ ys) = ground (arith, count-erase x p ys)

pub count-append :
    (x p : ℕ) (l : List ℕ) → count x (l ++ p ∷ []) ≡ count x l + (if x == p then 1 else 0)
unfolding count
count-append x p [] = ground arith
count-append x p (y ∷ ys) = ground (arith, count-append x p ys)

pub has-count : (x : ℕ) (l : List ℕ) → has x l ≡ ltb 0 (count x l)
unfolding has count
has-count x [] = ground arith
has-count x (y ∷ ys) = ground (arith, has-count x ys)

module _ (w : World) (h : IsSound w) (this : ℕ) (pt : Party) (live : w.parties this ≡ some pt) where
  pub invite_player-IsSound : (p : ℕ) → After (invite_player w this p)
  unfolding put set sound places in_party invite_player
  invite_player-IsSound p = elim (Option-cases (w.party_of p)) [
    | inl e ↦ rw (invite_player, live, e) (λ id x. ground (arith, h id x, live))
    | inr (other, e) ↦ rw (invite_player, live, e) h
  ]

  -- A player without a party accepts.
  pub accept_invitation-IsSound : (p : ℕ) → w.party_of p ≡ none → After (accept_invitation w this p)
  unfolding put set sound places in_party accept_invitation
  accept_invitation-IsSound p free = elim (Bool-cases (is_invited pt p)) [
    | inl e ↦
        rw (accept_invitation, live, e)
          (λ id x. ground (arith, h id x, free, live, count-append x p pt.members))
    | inr e ↦ rw (accept_invitation, live, e) h
  ]

  pub pass_leadership-IsSound : (p : ℕ) → After (pass_leadership w this p)
  unfolding put set sound places in_party count pass_leadership
  pass_leadership-IsSound p = elim (Bool-cases (in_party w this p)) [
    | inr e ↦ rw (pass_leadership, live, e) h
    | inl e ↦ elim (Bool-cases (has p pt.members)) [
      | inr absent ↦ rw (pass_leadership, live, e, absent) tt
      | inl inside ↦
          rw (pass_leadership, live, e, inside)
            (λ id x. ground (
              arith,
              h id x,
              h this p,
              live,
              e,
              inside,
              has-count p pt.members,
              count-erase x p pt.members,
            ))
    ]
  ]

  pub disband-IsSound : After (disband w this)
  unfolding set sound places in_party disband
  disband-IsSound =
      rw (disband, live)
        (λ id x. ground (
          arith,
          h id x,
          h this x,
          live,
          has-count x pt.members,
          release_lem (set w.party_of pt.leader none) pt.members x,
        ))

  pub disband_if_empty-IsSound : After (disband_if_empty w this)
  unfolding disband_if_empty
  disband_if_empty-IsSound = elim (Bool-cases (is_empty pt.members && is_empty pt.invitedplayers)) [
    | inl e ↦ rw (disband_if_empty, live, e) disband-IsSound
    | inr e ↦ rw (disband_if_empty, live, e) h
  ]

pub revoke_invitation-IsSound :
    (w : World) (this : ℕ) (pt : Party)
    → w.parties this ≡ some pt
    → IsSound w
    → (p : ℕ) → After (revoke_invitation w this p)
unfolding revoke_invitation put set sound places in_party
revoke_invitation-IsSound w this pt live h p = elim (Bool-cases (is_invited pt p)) [
  | inl e ↦
      rw (revoke_invitation, live, e)
        (disband_if_empty-IsSound
          (put w this (record pt { invitedplayers = erase p pt.invitedplayers }))
          (λ id x. ground (arith, h id x, live)) this
          (record pt { invitedplayers = erase p pt.invitedplayers }) (ground arith))
  | inr e ↦ rw (revoke_invitation, live, e) h
]

-- The player stands in no party.
unfoldable pub absent : World → ℕ → ℕ → Bool
unfolding places
absent w this x = elim (w.parties this) [ none ↦ true | some pt ↦ places pt x == 0 ]

-- The player that leaves has been taken off the lists.
pub leave-IsSound :
    (w : World) (this : ℕ) (pt : Party)
    → w.parties this ≡ some pt
    → (p : ℕ) → ((id x : ℕ) → x ≢ p → sound w id x ≡ true)
    → ((id : ℕ) → absent w id p ≡ true)
    → After (leave w this p)
unfolding leave set sound absent places in_party
leave-IsSound w this pt live p h gone =
    disband_if_empty-IsSound (record w { party_of = set w.party_of p none })
      (λ id x. ground (arith, h id x, gone id)) this pt live

-- A member leaves its party.
pub leave_members-IsSound :
    (w : World) (this : ℕ) (pt : Party)
    → w.parties this ≡ some pt
    → IsSound w
    → (p : ℕ) → After (leave_members w this p)
unfolding leave_members put set sound places in_party absent
leave_members-IsSound w this pt live h p = elim (Bool-cases (has p pt.members)) [
  | inl e ↦
      rw (leave_members, live, e)
        (leave-IsSound (put w this (record pt { members = erase p pt.members })) this
          (record pt { members = erase p pt.members }) (ground arith) p
          (λ id x ne. ground (arith, h id x, live, count-erase x p pt.members))
          (λ id.
            ground (
              arith,
              h id p,
              h this p,
              live,
              e,
              has-count p pt.members,
              count-erase p p pt.members,
            )))
  | inr e ↦ rw (leave_members, live, e) h
]
