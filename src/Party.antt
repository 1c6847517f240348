-- ===== src/Party.antt =====
-- The class Party of source/party.cpp, over a heap of parties and the `party` pointers of the players.
-- The texts, shields and skulls that the operations send to the clients are left out.
use evolution078ots.Prelude.{
  ℕ, zero, suc, Bool, true, false, not, ◌||◌, ◌&&◌, Option, none, some, List, [], ◌∷◌, ◌++◌, ◌==◌,
  if◌then◌else◌,
}
pub mod Handlers
pub mod Linked
pub mod Handled
pub mod Reach
pub mod Sound
pub mod Consistent
mod Examples

-- The members of the class, behind a pointer `this`. Players and parties are named by addresses.
pub record Party : Type 0 where
  pub leader : ℕ
  pub members : List ℕ
  pub invitedplayers : List ℕ

-- `party_of` is the field `party` of each player, NULL as `none`; `parties` holds the objects that
-- have been allocated and not deleted.
pub record World : Type 0 where
  pub party_of : ℕ → Option ℕ
  pub parties : ℕ → Option Party

unfoldable pub set {ℓ} : {A : Type ℓ} → (ℕ → A) → ℕ → A → ℕ → A
set f k v i = if i == k then v else f i

-- std::find(...) != end().
unfoldable pub has : ℕ → List ℕ → Bool
has x [] = false
has x (y ∷ ys) = let rest = has x ys in if x == y then true else rest

-- erase of the first occurrence.
unfoldable pub erase : ℕ → List ℕ → List ℕ
erase x [] = []
erase x (y ∷ ys) = let rest = erase x ys in if x == y then ys else y ∷ rest

unfoldable pub is_empty : List ℕ → Bool
is_empty [] = true
is_empty (x ∷ xs) = false

unfoldable pub is_invited : Party → ℕ → Bool
unfolding has
is_invited pt p = has p pt.invitedplayers

unfoldable pub put : World → ℕ → Party → World
unfolding set
put w this pt = record w { parties = set w.parties this (some pt) }

-- The operations return `none` where the code has no defined behaviour: `this` is not an object, or
-- the end of a vector is erased.
unfoldable pub invite_player : World → ℕ → ℕ → Option World
unfolding put
invite_player w this p = elim (w.parties this) [
  | none ↦ none
  | some pt ↦ elim (w.party_of p) [
    | some _ ↦ some w
    | none ↦ some (put w this (record pt { invitedplayers = pt.invitedplayers ++ p ∷ [] }))
  ]
]

-- `fresh` is the address that `new` gives.
unfoldable pub create_party : World → ℕ → ℕ → ℕ → Option World
unfolding invite_player set
create_party w fresh leader first_invite = elim (w.party_of first_invite) [
  | some _ ↦ some w
  | none ↦
      invite_player
        (record {
          party_of = set w.party_of leader (some fresh);
          parties =
              set w.parties fresh
                (some (record { leader = leader; members = []; invitedplayers = [] }));
        })
        fresh first_invite
]

unfoldable pub accept_invitation : World → ℕ → ℕ → Option World
unfolding is_invited put set
accept_invitation w this p = elim (w.parties this) [
  | none ↦ none
  | some pt ↦
      if is_invited pt p
      then some
          (record (put w this (record pt {
            invitedplayers = erase p pt.invitedplayers;
            members = pt.members ++ p ∷ [];
          })) { party_of = set w.party_of p (some this) })
      else some w
]

-- `newLeader->party != this`.
unfoldable pub in_party : World → ℕ → ℕ → Bool
in_party w this p = elim (w.party_of p) [ none ↦ false | some id ↦ id == this ]

unfoldable pub pass_leadership : World → ℕ → ℕ → Option World
unfolding in_party put
pass_leadership w this new_leader = elim (w.parties this) [
  | none ↦ none
  | some pt ↦
      if not (in_party w this new_leader)
      then some w
      else if has new_leader pt.members
      then some (
          put w this (record {
            leader = new_leader;
            members = pt.leader ∷ erase new_leader pt.members;
            invitedplayers = [];
          }))
      else none
]

-- The loop that clears the members, the last one first.
unfoldable pub release : (ℕ → Option ℕ) → List ℕ → ℕ → Option ℕ
unfolding set
release party_of [] = party_of
release party_of (m ∷ ms) = set (release party_of ms) m none

unfoldable pub disband : World → ℕ → Option World
unfolding set release
disband w this = elim (w.parties this) [
  | none ↦ none
  | some pt ↦ some (record {
    party_of = release (set w.party_of pt.leader none) pt.members;
    parties = set w.parties this none;
  })
]

-- If nobody but the leader remains in the party, it is disbanded.
unfoldable pub disband_if_empty : World → ℕ → Option World
unfolding disband is_empty
disband_if_empty w this = elim (w.parties this) [
  | none ↦ none
  | some pt ↦ if is_empty pt.members && is_empty pt.invitedplayers then disband w this else some w
]

unfoldable pub revoke_invitation : World → ℕ → ℕ → Option World
unfolding is_invited put disband_if_empty
revoke_invitation w this p = elim (w.parties this) [
  | none ↦ none
  | some pt ↦
      if is_invited pt p
      then disband_if_empty (put w this (record pt { invitedplayers = erase p pt.invitedplayers }))
          this
      else some w
]

-- kickPlayer from `p->party = NULL` on.
unfoldable pub leave : World → ℕ → ℕ → Option World
unfolding set disband_if_empty
leave w this p = disband_if_empty (record w { party_of = set w.party_of p none }) this

-- kickPlayer from the search in `members` on.
unfoldable pub leave_members : World → ℕ → ℕ → Option World
unfolding put leave
leave_members w this p = elim (w.parties this) [
  | none ↦ none
  | some pt ↦
      if has p pt.members
      then leave (put w this (record pt { members = erase p pt.members })) this p
      else some w
]

unfoldable pub kick_player : World → ℕ → ℕ → Option World
unfolding disband leave leave_members pass_leadership
kick_player w this p = elim (w.parties this) [
  | none ↦ none
  | some pt ↦ elim pt.members [
    | [] ↦ if p == pt.leader then disband w this else leave w this p
    | front ∷ _ ↦ elim (if p == pt.leader then pass_leadership w this front else some w) [
      | none ↦ none
      | some w' ↦ leave_members w' this p
    ]
  ]
]
