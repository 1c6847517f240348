-- ===== src/Login/Waitlist/Order.antt =====
-- Where a client stands in the waiting list, and what a search does to the list.
use evolution078ots.Prelude.{
  ℕ, zero, suc, ◌+◌, ◌≡◌, refl, List, [], ◌∷◌, Option, some, none, arith, if◌then◌else◌, map, inl,
  inr, Bool-cases,
}
use evolution078ots.Login.Waitlist.{Wait, is_client, find_from, erase_client}

-- The number of clients in front of this one, if it is in the list.
unfoldable pub position : ℕ → ℕ → List Wait → Option ℕ
position acc ip [] = none
position acc ip (w ∷ ws) =
    let rest = position acc ip ws in
    if is_client acc ip w then some 0 else elim rest [ none ↦ none | some i ↦ some (suc i) ]

-- The accounts and addresses that wait, in order.
abbrev pub clients : List Wait → List (ℕ × ℕ)
clients = map λ w. (w.acc, w.ip)

-- The list without one entry, by its place.
abbrev pub remove_at {ℓ} : {A : Type ℓ} → ℕ → List A → List A
remove_at i [] = []
remove_at zero (x ∷ xs) = xs
remove_at (suc i) (x ∷ xs) = x ∷ remove_at i xs

-- An entry that has just been found at this place.
abbrev pub renewed : ℕ → ℕ → ℕ → ℕ → Wait
renewed now acc ip slot = record { acc = acc; ip = ip; timeout = now; slot = slot }

module _ (now acc ip : ℕ) where
  pub find_from-none :
      (slot : ℕ) (ws : List Wait)
      → position acc ip ws ≡ none
      → find_from now acc ip slot ws ≡ (none, ws)
  unfolding position find_from
  find_from-none slot [] e = refl
  find_from-none slot (w ∷ ws) e = ground (arith, find_from-none (slot + 1) ws)

  pub find_from-some :
      (slot : ℕ) (ws : List Wait) (i : ℕ)
      → position acc ip ws ≡ some i
      → ((find_from now acc ip slot ws).0 ≡ some (renewed now acc ip (slot + i)))
        × (clients (find_from now acc ip slot ws).1 ≡ clients ws)
        × (position acc ip (find_from now acc ip slot ws).1 ≡ some i)
        × (erase_client acc ip (find_from now acc ip slot ws).1 ≡ erase_client acc ip ws)
  unfolding position find_from erase_client is_client
  find_from-some slot [] i e = cc
  find_from-some slot (w ∷ ws) zero e = elim (Bool-cases (is_client acc ip w)) [
    | inl c ↦ ground arith
    | inr c ↦ ground arith
  ]
  find_from-some slot (w ∷ ws) (suc i) e = elim (Bool-cases (is_client acc ip w)) [
    | inl c ↦ ground arith
    | inr c ↦ ground (arith, find_from-some (slot + 1) ws i)
  ]
