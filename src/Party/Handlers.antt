-- ===== src/Party/Handlers.antt =====
-- The handlers of the party requests in source/protocol79.cpp, and what Game::removeCreature does to
-- parties when a player goes.
use evolution078ots.Prelude.{
  ℕ, Bool, true, false, Option, none, some, List, [], ◌∷◌, ◌==◌, if◌then◌else◌,
}
use evolution078ots.Party.{
  World, create_party, invite_player, accept_invitation, pass_leadership, revoke_invitation,
  kick_player, is_invited,
}

-- The requests of `player`. A target is the player that the packet names, if there is one; `fresh`
-- is the address of a new party. `logout` removes a player while those in the list are online.
pub data Request : Type 0 where
  invite_party : ℕ → ℕ → Option ℕ → Request
  revoke_party : ℕ → Option ℕ → Request
  join_party : ℕ → Option ℕ → Request
  pass_leader : ℕ → Option ℕ → Request
  leave_party : ℕ → Request
  logout : ℕ → List ℕ → Request

-- `player->party->getLeader() == player`.
unfoldable pub leads : World → ℕ → ℕ → Option Bool
leads w this player = elim (w.parties this) [ none ↦ none | some pt ↦ some (player == pt.leader) ]

unfoldable pub parse_invite_party : World → ℕ → ℕ → Option ℕ → Option World
unfolding leads
parse_invite_party w fresh player none = some w
parse_invite_party w fresh player (some target) = elim (w.party_of player) [
  | none ↦ create_party w fresh player target
  | some this ↦ elim (leads w this player) [
    | none ↦ none
    | some false ↦ some w
    | some true ↦ invite_player w this target
  ]
]

unfoldable pub parse_revoke_party : World → ℕ → Option ℕ → Option World
parse_revoke_party w player none = some w
parse_revoke_party w player (some target) = elim (w.party_of player) [
  | none ↦ some w
  | some this ↦ revoke_invitation w this target
]

unfoldable pub parse_join_party : World → ℕ → Option ℕ → Option World
parse_join_party w player none = some w
parse_join_party w player (some target) = elim (w.party_of target) [
  | none ↦ some w
  | some this ↦ accept_invitation w this player
]

unfoldable pub parse_pass_leadership : World → ℕ → Option ℕ → Option World
unfolding leads
parse_pass_leadership w player none = some w
parse_pass_leadership w player (some target) = elim (w.party_of player) [
  | none ↦ some w
  | some this ↦ elim (leads w this player) [
    | none ↦ none
    | some false ↦ some w
    | some true ↦ pass_leadership w this target
  ]
]

unfoldable pub parse_leave_party : World → ℕ → Option World
parse_leave_party w player = elim (w.party_of player) [
  | none ↦ some w
  | some this ↦ kick_player w this player
]

-- One turn of the loop over the players online: `other` takes back its party's invitation.
unfoldable pub forget_invitation : World → ℕ → ℕ → Option World
unfolding is_invited
forget_invitation w other player = elim (w.party_of other) [
  | none ↦ some w
  | some this ↦ elim (w.parties this) [
    | none ↦ none
    | some pt ↦ if is_invited pt player then revoke_invitation w this player else some w
  ]
]

unfoldable pub forget_invitations : World → List ℕ → ℕ → Option World
forget_invitations w [] player = some w
forget_invitations w (other ∷ others) player = elim (forget_invitation w other player) [
  | none ↦ none
  | some w' ↦ forget_invitations w' others player
]

unfoldable pub remove_player : World → ℕ → List ℕ → Option World
unfolding forget_invitations
remove_player w player online = elim (w.party_of player) [
  | some this ↦ kick_player w this player
  | none ↦ forget_invitations w online player
]

unfoldable pub handle : World → Request → Option World
unfolding parse_invite_party parse_revoke_party parse_join_party parse_pass_leadership
    parse_leave_party remove_player
handle w (invite_party fresh player target) = parse_invite_party w fresh player target
handle w (revoke_party player target) = parse_revoke_party w player target
handle w (join_party player target) = parse_join_party w player target
handle w (pass_leader player target) = parse_pass_leadership w player target
handle w (leave_party player) = parse_leave_party w player
handle w (logout player online) = remove_player w player online

unfoldable pub run : World → List Request → Option World
unfolding handle
run w [] = some w
run w (r ∷ rs) = elim (handle w r) [ none ↦ none | some w' ↦ run w' rs ]
