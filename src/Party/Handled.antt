-- ===== src/Party/Handled.antt =====
-- What the handlers of the party requests do to the pointers of the players.
use evolution078ots.Prelude.{
  ℕ, false, Option, none, some, List, [], ◌∷◌, ◌==◌, ◌≡◌, refl, arith, Bool-cases, Option-cases,
  inl, inr,
}
use evolution078ots.Party.{
  Party, World, set, has, create_party, pass_leadership, is_invited, in_party,
}
use evolution078ots.Party.Handlers.{
  leads, parse_invite_party, parse_revoke_party, parse_join_party, parse_pass_leadership,
  parse_leave_party, remove_player, forget_invitation, forget_invitations,
}
use evolution078ots.Party.Linked.{
  linked, belongs, IsLinked, Succeeds, invite_player-IsLinked, accept_invitation-IsLinked,
  revoke_invitation-IsLinked, kick_player-IsLinked,
}

-- The party that a pointer leads to.
pub party_at :
    (w : World) (x this : ℕ)
    → IsLinked w
    → w.party_of x ≡ some this
    → (pt : Party) × (w.parties this ≡ some pt)
unfolding linked
party_at w x this h e = elim (Option-cases (w.parties this)) [
  | inl dead ↦ absurd (ground (arith, h x, e, dead))
  | inr live ↦ live
]

module _ (w : World) (h : IsLinked w) where
  create_party-IsLinked :
      (fresh player target : ℕ)
      → w.parties fresh ≡ none
      → w.party_of player ≡ none
      → Succeeds (create_party w fresh player target)
  unfolding create_party set linked belongs
  create_party-IsLinked fresh player target new free = elim (Option-cases (w.party_of target)) [
    | inl e ↦
        rw (Succeeds, create_party, e)
          (invite_player-IsLinked
            (record {
              party_of = set w.party_of player (some fresh);
              parties =
                  set w.parties fresh
                    (some (record { leader = player; members = []; invitedplayers = [] }));
            })
            (λ x. ground (arith, h x, new)) fresh
            (record { leader = player; members = []; invitedplayers = [] }) (ground arith) target)
    | inr (other, e) ↦ rw (Succeeds, create_party, e) (w, refl, h)
  ]

  pub parse_invite_party-IsLinked :
      (fresh player : ℕ) (target : Option ℕ)
      → w.parties fresh ≡ none
      → Succeeds (parse_invite_party w fresh player target)
  unfolding parse_invite_party leads
  parse_invite_party-IsLinked fresh player none new = (w, refl, h)
  parse_invite_party-IsLinked fresh player (some target) new =
      elim (Option-cases (w.party_of player)) [
        | inl e ↦
            rw (Succeeds, parse_invite_party, e) (create_party-IsLinked fresh player target new e)
        | inr (this, e) ↦
            let (pt, live) = party_at w player this h e in
            elim (Bool-cases (player == pt.leader)) [
              | inl first ↦
                  rw (Succeeds, parse_invite_party, e, leads, live, first)
                    (invite_player-IsLinked w h this pt live target)
              | inr other ↦ rw (Succeeds, parse_invite_party, e, leads, live, other) (w, refl, h)
            ]
      ]

  pub parse_revoke_party-IsLinked :
      (player : ℕ) (target : Option ℕ) → Succeeds (parse_revoke_party w player target)
  unfolding parse_revoke_party
  parse_revoke_party-IsLinked player none = (w, refl, h)
  parse_revoke_party-IsLinked player (some target) = elim (Option-cases (w.party_of player)) [
    | inl e ↦ rw (Succeeds, parse_revoke_party, e) (w, refl, h)
    | inr (this, e) ↦
        let (pt, live) = party_at w player this h e in
        rw (Succeeds, parse_revoke_party, e) (revoke_invitation-IsLinked w this pt live h target)
  ]

  pub parse_join_party-IsLinked :
      (player : ℕ) (target : Option ℕ) → Succeeds (parse_join_party w player target)
  unfolding parse_join_party
  parse_join_party-IsLinked player none = (w, refl, h)
  parse_join_party-IsLinked player (some target) = elim (Option-cases (w.party_of target)) [
    | inl e ↦ rw (Succeeds, parse_join_party, e) (w, refl, h)
    | inr (this, e) ↦
        let (pt, live) = party_at w target this h e in
        rw (Succeeds, parse_join_party, e) (accept_invitation-IsLinked w h this pt live player)
  ]

  pub parse_leave_party-IsLinked : (player : ℕ) → Succeeds (parse_leave_party w player)
  unfolding parse_leave_party
  parse_leave_party-IsLinked player = elim (Option-cases (w.party_of player)) [
    | inl e ↦ rw (Succeeds, parse_leave_party, e) (w, refl, h)
    | inr (this, e) ↦
        let (pt, live) = party_at w player this h e in
        rw (Succeeds, parse_leave_party, e) (kick_player-IsLinked w this pt live h player)
  ]

  pub forget_invitation-IsLinked : (other player : ℕ) → Succeeds (forget_invitation w other player)
  unfolding forget_invitation
  forget_invitation-IsLinked other player = elim (Option-cases (w.party_of other)) [
    | inl e ↦ rw (Succeeds, forget_invitation, e) (w, refl, h)
    | inr (this, e) ↦
        let (pt, live) = party_at w other this h e in
        elim (Bool-cases (is_invited pt player)) [
          | inl i ↦
              rw (Succeeds, forget_invitation, e, live, i)
                (revoke_invitation-IsLinked w this pt live h player)
          | inr i ↦ rw (Succeeds, forget_invitation, e, live, i) (w, refl, h)
        ]
  ]

forget_invitations-IsLinked :
    (w : World) (others : List ℕ) (player : ℕ)
    → IsLinked w
    → Succeeds (forget_invitations w others player)
unfolding forget_invitations
forget_invitations-IsLinked w [] player h = (w, refl, h)
forget_invitations-IsLinked w (other ∷ others) player h =
    let (w', e, h') = forget_invitation-IsLinked w h other player in
    rw (Succeeds, forget_invitations, e) (forget_invitations-IsLinked w' others player h')

pub remove_player-IsLinked :
    (w : World) (player : ℕ) (online : List ℕ)
    → IsLinked w
    → Succeeds (remove_player w player online)
unfolding remove_player
remove_player-IsLinked w player online h = elim (Option-cases (w.party_of player)) [
  | inl e ↦ rw (Succeeds, remove_player, e) (forget_invitations-IsLinked w online player h)
  | inr (this, e) ↦
      let (pt, live) = party_at w player this h e in
      rw (Succeeds, remove_player, e) (kick_player-IsLinked w this pt live h player)
]

pub pass_to_self :
    (w : World) (player target this : ℕ) (pt : Party)
    → w.party_of player ≡ some this
    → w.parties this ≡ some pt
    → player ≡ pt.leader
    → target ≡ pt.leader
    → has target pt.members ≡ false
    → parse_pass_leadership w player (some target) ≡ none
unfolding parse_pass_leadership leads pass_leadership in_party
pass_to_self w player target this pt e live first same absent = ground arith
