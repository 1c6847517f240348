-- ===== src/Party/Consistent.antt =====
-- Requests that keep the lists of the parties and the pointers of the players in agreement.
use evolution078ots.Prelude.{
  ℕ, Option, none, some, List, [], ◌∷◌, ◌==◌, ◌≡◌, arith, Bool-cases, Option-cases, inl, inr, subst,
}
use evolution078ots.Party.{Party, World, set, has, is_invited, create_party, in_party, kick_player}
use evolution078ots.Party.Handlers.{
  Request, invite_party, revoke_party, join_party, pass_leader, leave_party, logout, leads, handle,
  parse_invite_party, parse_revoke_party, parse_join_party, parse_pass_leadership,
  parse_leave_party, remove_player, forget_invitation, forget_invitations,
}
use evolution078ots.Party.Linked.{List-cases, IsLinked, pass_leadership-IsLinked}
use evolution078ots.Party.Handled.{party_at, forget_invitation-IsLinked}
use evolution078ots.Party.Sound.{
  count, places, sound, absent, IsSound, After, invite_player-IsSound, accept_invitation-IsSound,
  pass_leadership-IsSound, disband-IsSound, revoke_invitation-IsSound, leave-IsSound,
  leave_members-IsSound,
}
use evolution078ots.Party.Reach.{IsFresh, Reachable, Reachable-IsLinked}

module _ (w : World) (linked : IsLinked w) (h : IsSound w) where
  kick_player-IsSound :
      (this : ℕ) (pt : Party)
      → w.parties this ≡ some pt
      → (p : ℕ) → w.party_of p ≡ some this
      → After (kick_player w this p)
  unfolding kick_player sound places absent in_party count
  kick_player-IsSound this pt live p own = elim (List-cases pt.members) [
    | inl e ↦ elim (Bool-cases (p == pt.leader)) [
      | inl first ↦ rw (kick_player, live, e, first) (disband-IsSound w h this pt live)
      | inr other ↦
          rw (kick_player, live, e, other)
            (leave-IsSound w this pt live p (λ id x ne. h id x)
              (λ id. ground (arith, h id p, live, e, other, own)))
    ]
    | inr (front, rest, e) ↦ elim (Bool-cases (p == pt.leader)) [
      | inl first ↦
          let (w', passed, _, (pt', live')) =
            pass_leadership-IsLinked w linked this pt live front
              (λ _. unfold has in ground (arith, e)) in
          let h' = subst After passed (pass_leadership-IsSound w h this pt live front) in
          rw (kick_player, live, e, first, passed) (leave_members-IsSound w' this pt' live' h' p)
      | inr other ↦ rw (kick_player, live, e, other) (leave_members-IsSound w this pt live h p)
    ]
  ]

  create_party-IsSound :
      (fresh player target : ℕ)
      → w.parties fresh ≡ none
      → w.party_of player ≡ none
      → After (create_party w fresh player target)
  unfolding create_party set sound places in_party count
  create_party-IsSound fresh player target new free = elim (Option-cases (w.party_of target)) [
    | inl e ↦
        rw (create_party, e)
          (invite_player-IsSound
            (record {
              party_of = set w.party_of player (some fresh);
              parties =
                  set w.parties fresh
                    (some (record { leader = player; members = []; invitedplayers = [] }));
            })
            (λ id x. ground (arith, h id x, new, free)) fresh
            (record { leader = player; members = []; invitedplayers = [] }) (ground arith) target)
    | inr (other, e) ↦ rw (create_party, e) h
  ]

  parse_invite_party-IsSound :
      (fresh player : ℕ) (target : Option ℕ)
      → w.parties fresh ≡ none
      → After (parse_invite_party w fresh player target)
  unfolding parse_invite_party leads
  parse_invite_party-IsSound fresh player none new = h
  parse_invite_party-IsSound fresh player (some target) new =
      elim (Option-cases (w.party_of player)) [
        | inl e ↦ rw (parse_invite_party, e) (create_party-IsSound fresh player target new e)
        | inr (this, e) ↦
            let (pt, live) = party_at w player this linked e in
            elim (Bool-cases (player == pt.leader)) [
              | inl first ↦
                  rw (parse_invite_party, e, leads, live, first)
                    (invite_player-IsSound w h this pt live target)
              | inr other ↦ rw (parse_invite_party, e, leads, live, other) h
            ]
      ]

  parse_pass_leadership-IsSound :
      (player : ℕ) (target : Option ℕ) → After (parse_pass_leadership w player target)
  unfolding parse_pass_leadership leads
  parse_pass_leadership-IsSound player none = h
  parse_pass_leadership-IsSound player (some target) = elim (Option-cases (w.party_of player)) [
    | inl e ↦ rw (parse_pass_leadership, e) h
    | inr (this, e) ↦
        let (pt, live) = party_at w player this linked e in
        elim (Bool-cases (player == pt.leader)) [
          | inl first ↦
              rw (parse_pass_leadership, e, leads, live, first)
                (pass_leadership-IsSound w h this pt live target)
          | inr other ↦ rw (parse_pass_leadership, e, leads, live, other) h
        ]
  ]

  forget_invitation-IsSound : (other player : ℕ) → After (forget_invitation w other player)
  unfolding forget_invitation
  forget_invitation-IsSound other player = elim (Option-cases (w.party_of other)) [
    | inl e ↦ rw (forget_invitation, e) h
    | inr (this, e) ↦
        let (pt, live) = party_at w other this linked e in
        elim (Bool-cases (is_invited pt player)) [
          | inl i ↦
              rw (forget_invitation, e, live, i) (revoke_invitation-IsSound w this pt live h player)
          | inr i ↦ rw (forget_invitation, e, live, i) h
        ]
  ]

forget_invitations-IsSound :
    (w : World) (others : List ℕ) (player : ℕ)
    → IsLinked w
    → IsSound w
    → After (forget_invitations w others player)
unfolding forget_invitations
forget_invitations-IsSound w [] player linked h = h
forget_invitations-IsSound w (other ∷ others) player linked h =
    let (w', e, linked') = forget_invitation-IsLinked w linked other player in
    let h' = subst After e (forget_invitation-IsSound w linked h other player) in
    rw (forget_invitations, e) (forget_invitations-IsSound w' others player linked' h')

-- A player that joins a party is in none.
abbrev pub JoinsAlone : World → Request → Type 0
JoinsAlone w (invite_party fresh player target) = Unit
JoinsAlone w (revoke_party player target) = Unit
JoinsAlone w (join_party player target) = w.party_of player ≡ none
JoinsAlone w (pass_leader player target) = Unit
JoinsAlone w (leave_party player) = Unit
JoinsAlone w (logout player online) = Unit

-- From a reachable world in which a player stands only in the party it points to, and there once: a
-- request that is handled leads to such a world again, if `new` gives an unused address and a player
-- that asks to join a party is in none.
pub handle-IsSound :
    (w : World) (r : Request)
    → Reachable w
    → IsSound w
    → IsFresh w r
    → JoinsAlone w r
    → After (handle w r)
unfolding handle parse_revoke_party parse_join_party parse_leave_party remove_player
handle-IsSound w (invite_party fresh player target) before h new alone =
    parse_invite_party-IsSound w (Reachable-IsLinked before) h fresh player target new
handle-IsSound w (revoke_party player none) before h new alone = h
handle-IsSound w (revoke_party player (some target)) before h new alone =
    elim (Option-cases (w.party_of player)) [
      | inl e ↦ rw (After, e) h
      | inr (this, e) ↦
          let (pt, live) = party_at w player this (Reachable-IsLinked before) e in
          rw (After, e) (revoke_invitation-IsSound w this pt live h target)
    ]
handle-IsSound w (join_party player none) before h new alone = h
handle-IsSound w (join_party player (some target)) before h new alone =
    elim (Option-cases (w.party_of target)) [
      | inl e ↦ rw (After, e) h
      | inr (this, e) ↦
          let (pt, live) = party_at w target this (Reachable-IsLinked before) e in
          rw (After, e) (accept_invitation-IsSound w h this pt live player alone)
    ]
handle-IsSound w (pass_leader player target) before h new alone =
    parse_pass_leadership-IsSound w (Reachable-IsLinked before) h player target
handle-IsSound w (leave_party player) before h new alone = elim (Option-cases (w.party_of player)) [
  | inl e ↦ rw (After, e) h
  | inr (this, e) ↦
      let linked = Reachable-IsLinked before in
      let (pt, live) = party_at w player this linked e in
      rw (After, e) (kick_player-IsSound w linked h this pt live player e)
]
handle-IsSound w (logout player online) before h new alone =
    elim (Option-cases (w.party_of player)) [
      | inl e ↦
          rw (After, e) (forget_invitations-IsSound w online player (Reachable-IsLinked before) h)
      | inr (this, e) ↦
          let linked = Reachable-IsLinked before in
          let (pt, live) = party_at w player this linked e in
          rw (After, e) (kick_player-IsSound w linked h this pt live player e)
    ]
