-- ===== src/Party/Reach.antt =====
-- Every sequence of party requests: no pointer dangles, and where the code has no defined behaviour.
use evolution078ots.Prelude.{
  ℕ, false, none, some, ◌==◌, ◌≡◌, refl, arith, Bool-cases, Option-cases, ◌⊎◌, inl, inr, not, ◌&&◌,
  sym, ◌∙◌, subst,
}
use evolution078ots.Party.{Party, World, has}
use evolution078ots.Party.Handlers.{
  Request, invite_party, revoke_party, join_party, pass_leader, leave_party, logout, leads, handle,
  parse_pass_leadership,
}
use evolution078ots.Party.Linked.{linked, IsLinked, Succeeds, pass_leadership-IsLinked}
use evolution078ots.Party.Handled.{
  parse_invite_party-IsLinked, parse_revoke_party-IsLinked, parse_join_party-IsLinked,
  parse_leave_party-IsLinked, remove_player-IsLinked, pass_to_self, party_at,
}

-- `new` gives an address that no object has.
abbrev pub IsFresh : World → Request → Type 0
IsFresh w (invite_party fresh player target) = w.parties fresh ≡ none
IsFresh w (revoke_party player target) = Unit
IsFresh w (join_party player target) = Unit
IsFresh w (pass_leader player target) = Unit
IsFresh w (leave_party player) = Unit
IsFresh w (logout player online) = Unit

-- A player asks to pass the leadership to itself, and leads its party without being a member.
abbrev pub PassesToSelf : World → Request → Type 0
PassesToSelf w (pass_leader player target) =
    (target ≡ some player)
    × ((this : ℕ) × (pt : Party) × (w.party_of player ≡ some this)
        × (w.parties this ≡ some pt)
        × (pt.leader ≡ player)
        × (has player pt.members ≡ false))
PassesToSelf w r = ⊥

abbrev pub Outcome : World → Request → Type 0
Outcome w r = Succeeds (handle w r) ⊎ ((handle w r ≡ none) × PassesToSelf w r)

module _ (w : World) (h : IsLinked w) (player target this : ℕ) (pt : Party) where
  -- The request of a leader.
  leader-Outcome :
      w.party_of player ≡ some this
      → w.parties this ≡ some pt
      → player ≡ pt.leader
      → Outcome w (pass_leader player (some target))
  unfolding handle parse_pass_leadership leads
  leader-Outcome e live first =
      elim (Bool-cases (target == pt.leader && not (has target pt.members))) [
        | inl self ↦ inr (
          pass_to_self w player target this pt e live first (ground (arith, self))
              (ground (arith, self)),
          (
            ground (arith, self, first),
            (this, pt, e, live, sym first, ground (arith, self, first)),
          ),
        )
        | inr other ↦
            let (w', passed, h', _) =
              pass_leadership-IsLinked w h this pt live target (λ same. ground (arith, other)) in
            inl (w', ground (arith, e, live, first, passed), h')
      ]

pass_leader-Outcome :
    (w : World) → IsLinked w → (player target : ℕ) → Outcome w (pass_leader player (some target))
unfolding handle parse_pass_leadership leads
pass_leader-Outcome w h player target = elim (Option-cases (w.party_of player)) [
  | inl e ↦ inl (w, ground (arith, e), h)
  | inr (this, e) ↦
      let (pt, live) = party_at w player this h e in
      elim (Bool-cases (player == pt.leader)) [
        | inl first ↦ leader-Outcome w h player target this pt e live (ground (arith, first))
        | inr other ↦ inl (w, ground (arith, e, live, other), h)
      ]
]

-- A request from a linked world: the handler succeeds and leaves such a world, unless a leader passes
-- the leadership to itself.
handle-Outcome : (w : World) (r : Request) → IsLinked w → IsFresh w r → Outcome w r
unfolding handle
handle-Outcome w (invite_party fresh player target) h new =
    inl (parse_invite_party-IsLinked w h fresh player target new)
handle-Outcome w (revoke_party player target) h new =
    inl (parse_revoke_party-IsLinked w h player target)
handle-Outcome w (join_party player target) h new =
    inl (parse_join_party-IsLinked w h player target)
handle-Outcome w (pass_leader player none) h new = inl (w, refl, h)
handle-Outcome w (pass_leader player (some target)) h new = pass_leader-Outcome w h player target
handle-Outcome w (leave_party player) h new = inl (parse_leave_party-IsLinked w h player)
handle-Outcome w (logout player online) h new = inl (remove_player-IsLinked w player online h)

some_injective : {w w' : World} → some w ≡ some w' → w ≡ w'
some_injective e = cc

none_apart : {w : World} → none ≡ some w → ⊥
none_apart e = cc

-- The worlds that requests lead to, from the one without a party.
pub data Reachable : World → Type 0 where
  start : Reachable (record { party_of = λ x. none; parties = λ id. none })
  step :
      {w w' : World} (r : Request) → Reachable w → IsFresh w r → handle w r ≡ some w' → Reachable w'

pub Reachable-IsLinked : {w : World} → Reachable w → IsLinked w
unfolding linked
Reachable-IsLinked start = λ x. refl
Reachable-IsLinked (step {w} r before new e) =
    elim (handle-Outcome w r (Reachable-IsLinked before) new) [
      | inl (w'', e'', h') ↦ subst IsLinked (some_injective (sym e'' ∙ e)) h'
      | inr (undefined, _) ↦ absurd (none_apart (sym undefined ∙ e))
    ]

-- After any sequence of requests, by any players, where `new` gives unused addresses: the next one
-- either is handled, without any access to a deleted party, and leaves every player's pointer NULL or
-- at a party that has it as its leader or as a member; or it is the request of a leader that is not
-- a member as well to pass the leadership to itself, and the code has no defined behaviour.
pub handle-reachable : (w : World) (r : Request) → Reachable w → IsFresh w r → Outcome w r
handle-reachable w r before new = handle-Outcome w r (Reachable-IsLinked before) new
