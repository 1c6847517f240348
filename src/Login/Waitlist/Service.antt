-- ===== src/Login/Waitlist/Service.antt =====
-- Who is let in, and who keeps which place.
use evolution078ots.Prelude.{
  ℕ, ◌+◌, ◌≤◌, ◌<◌, ◌≡◌, subst, Bool, true, false, List, Option, some, none, arith, Option-cases,
  inl, inr, ◌⊎◌,
}
use evolution078ots.Login.Waitlist.{Wait, find_client, erase_client, clean_up_list, client_login}
use evolution078ots.Login.Waitlist.Order.{position, clients, find_from-none, find_from-some}

-- What a login comes to while there is a slot, by the client's place in the list.
abbrev pub Outcome : ℕ → ℕ → ℕ → ℕ → List Wait → Bool × List Wait → Option ℕ → Type 0
Outcome acc ip online limit queue result none = result ≡ (true, queue)
Outcome acc ip online limit queue result (some i) =
    ((i + 1 + online ≤ limit) × (result ≡ (true, erase_client acc ip queue)))
    ⊎ ((limit < i + 1 + online) × (result.0 ≡ false) × (clients result.1 ≡ clients queue))

module _ (now online limit acc ip : ℕ) (ws : List Wait) where
  abbrev queue : List Wait
  queue = clean_up_list now ws

  -- While there is a slot, the list loses its expired entries; then a client that does not wait is
  -- let in; one behind i others is let in exactly if all of them and it fit under the limit, and is
  -- then taken off the list; otherwise it is refused and the list keeps its clients and their order.
  pub client_login_lem :
      online < limit
      → Outcome acc ip online limit queue
          (client_login now online limit acc ip ws)
          (position acc ip queue)
  unfolding client_login find_client
  client_login_lem slot = elim (Option-cases (position acc ip queue)) [
    | inl e ↦ rw (e, Outcome) (ground (arith, find_from-none now acc ip 1 queue e))
    | inr (i, e) ↦ rw (e, Outcome) (ground (arith, find_from-some now acc ip 1 queue i e))
  ]

-- No overtaking: of two clients in the list, if the one further back is let in, then so is the one in
-- front, had it asked instead.
pub client_login_fair :
    (now online limit acc ip acc' ip' i j : ℕ) (ws : List Wait)
    → online < limit
    → position acc ip (clean_up_list now ws) ≡ some i
    → position acc' ip' (clean_up_list now ws) ≡ some j
    → i < j
    → (client_login now online limit acc' ip' ws).0 ≡ true
    → (client_login now online limit acc ip ws).0 ≡ true
client_login_fair now online limit acc ip acc' ip' i j ws slot p q lt h = ground (
  arith,
  subst (Outcome acc ip online limit _ _) p (client_login_lem now online limit acc ip ws slot),
  subst (Outcome acc' ip' online limit _ _) q (client_login_lem now online limit acc' ip' ws slot),
)
