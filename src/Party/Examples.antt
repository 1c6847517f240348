-- ===== src/Party/Examples.antt =====
-- The theorems about parties at concrete requests.
use evolution078ots.Prelude.{Bool, true, false, arith, [], ◌∷◌, some, none, refl, ◌≡◌}
use evolution078ots.Party.{Party, World, set, put}
use evolution078ots.Party.{
  create_party, invite_player, accept_invitation, is_invited, has, erase, in_party,
}
use evolution078ots.Party.Handlers.{
  invite_party, join_party, pass_leader, handle, parse_invite_party, parse_join_party, run,
}
use evolution078ots.Party.Sound.{sound, places, count, IsSound, After}
use evolution078ots.Party.Consistent.{handle-IsSound}
use evolution078ots.Party.Reach.{Reachable, start, step, Outcome, handle-reachable}

abbrev with_party : Party → World
with_party pt = record {
  party_of = set (λ x. none) 1 (some 100);
  parties =
      set (set (λ id. none) 100 (some (record { leader = 1; members = []; invitedplayers = [] })))
        100 (some pt);
}

-- Player 1 has invited player 2.
abbrev invited_world : World
invited_world = with_party (record { leader = 1; members = []; invitedplayers = 2 ∷ [] })

invited_reachable : Reachable invited_world
unfolding handle parse_invite_party create_party invite_player put set
invited_reachable = step (invite_party 100 1 (some 2)) start refl refl

handle-reachable_example : Outcome invited_world (pass_leader 1 (some 1))
handle-reachable_example =
    handle-reachable invited_world (pass_leader 1 (some 1)) invited_reachable tt

invited-IsSound : IsSound invited_world
unfolding sound places in_party count set
invited-IsSound = λ this x. ground arith

handle-IsSound_example : After (handle invited_world (join_party 2 (some 1)))
unfolding set
handle-IsSound_example =
    handle-IsSound invited_world (join_party 2 (some 1)) invited_reachable invited-IsSound tt refl

-- Player 2 accepts the invitations of players 1 and 3: it is then a member of the party of player 1,
-- which its pointer has left.
abbrev both_joined : Bool
both_joined =
    elim (run (record { party_of = λ x. none; parties = λ id. none })
      (invite_party 100 1 (some 2)
        ∷ invite_party 200 3 (some 2)
        ∷ join_party 2 (some 1)
        ∷ join_party 2 (some 3)
        ∷ [])) [ none ↦ true | some w ↦ sound w 100 2 ]

join_two_parties : both_joined ≡ false
unfolding run handle parse_invite_party parse_join_party create_party invite_player put set
    accept_invitation is_invited has erase sound places in_party count
join_two_parties = refl
