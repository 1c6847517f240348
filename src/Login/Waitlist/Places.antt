-- ===== src/Login/Waitlist/Places.antt =====
-- A client that asks again in time keeps its place, and no client is in the list twice.
use evolution078ots.Prelude.{
  ℕ, zero, suc, ◌+◌, ◌≤◌, ◌≡◌, refl, true, false, List, [], ◌∷◌, ◌++◌, some, none, arith,
  Option-cases, inl, inr, Bool-cases, length, ltb,
}
use evolution078ots.Login.Waitlist.{
  Wait, is_client, find_from, find_client, clean_up_list, has_expired, add_client, client_login,
}
use evolution078ots.Login.Waitlist.Order.{position, find_from-none, find_from-some, renewed}

-- The client stands in the list, behind `i` others, and was seen at `now`.
abbrev pub Waits : ℕ → ℕ → ℕ → ℕ → List Wait → Type 0
Waits now acc ip i [] = ⊥
Waits now acc ip zero (w ∷ ws) = (w.acc ≡ acc) × (w.ip ≡ ip) × (w.timeout ≡ now)
Waits now acc ip (suc i) (w ∷ ws) = (is_client acc ip w ≡ false) × Waits now acc ip i ws

Waits-find_from :
    (now acc ip slot i : ℕ) (ws : List Wait)
    → position acc ip ws ≡ some i
    → Waits now acc ip i (find_from now acc ip slot ws).1
unfolding position find_from is_client
Waits-find_from now acc ip slot i [] e = cc
Waits-find_from now acc ip slot zero (w ∷ ws) e = elim (Bool-cases (is_client acc ip w)) [
  | inl c ↦ ground arith
  | inr c ↦ ground arith
]
Waits-find_from now acc ip slot (suc i) (w ∷ ws) e = elim (Bool-cases (is_client acc ip w)) [
  | inl c ↦ ground arith
  | inr c ↦ ground (arith, Waits-find_from now acc ip (slot + 1) i ws)
]

Waits-append :
    (now acc ip slot : ℕ) (ws : List Wait)
    → position acc ip ws ≡ none
    → Waits now acc ip (length ws) (ws ++ renewed now acc ip slot ∷ [])
unfolding position
Waits-append now acc ip slot [] e = (refl, refl, refl)
Waits-append now acc ip slot (w ∷ ws) e = ground (arith, Waits-append now acc ip slot ws)

module _ (now online limit acc ip : ℕ) (ws : List Wait) where
  pub login_full :
      ltb online limit ≡ false
      → client_login now online limit acc ip ws ≡ (false, add_client now acc ip ws)
  unfolding client_login
  login_full e = rw e

  pub add_client_new :
      position acc ip ws ≡ none
      → add_client now acc ip ws ≡ ws ++ renewed now acc ip (length ws + 1) ∷ []
  unfolding add_client
  add_client_new e = rw (find_from-none now acc ip 1 ws e)

  pub add_client_known :
      (i : ℕ)
      → position acc ip ws ≡ some i
      → add_client now acc ip ws ≡ (find_from now acc ip 1 ws).1
  unfolding add_client
  add_client_known i e = ground (arith, find_from-some now acc ip 1 ws i e)

  login_absent :
      ltb online limit ≡ true
      → position acc ip (clean_up_list now ws) ≡ none
      → (client_login now online limit acc ip ws).0 ≡ true
  unfolding client_login find_client
  login_absent slot e = ground (arith, find_from-none now acc ip 1 (clean_up_list now ws) e)

  pub login_refused :
      (i : ℕ)
      → ltb online limit ≡ true
      → position acc ip (clean_up_list now ws) ≡ some i
      → (client_login now online limit acc ip ws).0 ≡ false
      → (client_login now online limit acc ip ws).1
        ≡ (find_from now acc ip 1 (clean_up_list now ws)).1
  unfolding client_login find_client
  login_refused i slot e h = ground (arith, find_from-some now acc ip 1 (clean_up_list now ws) i e)

  refused_when_full :
      ltb online limit ≡ false
      → (i : ℕ) × Waits now acc ip i (client_login now online limit acc ip ws).1
  refused_when_full full = elim (Option-cases (position acc ip ws)) [
    | inl e ↦ (
      length ws,
      rw (login_full full, add_client_new e) (Waits-append now acc ip (length ws + 1) ws e),
    )
    | inr (i, e) ↦
        (i, rw (login_full full, add_client_known i e) (Waits-find_from now acc ip 1 i ws e))
  ]

  -- After a login that is refused the client stands in the list, seen at that time.
  refused-Waits :
      (client_login now online limit acc ip ws).0 ≡ false
      → (i : ℕ) × Waits now acc ip i (client_login now online limit acc ip ws).1
  refused-Waits h = elim (Bool-cases (ltb online limit)) [
    | inl slot ↦ elim (Option-cases (position acc ip (clean_up_list now ws))) [
      | inl e ↦ let t = login_absent slot e in cc
      | inr (i, e) ↦ (
        i,
        rw (login_refused i slot e h) (Waits-find_from now acc ip 1 i (clean_up_list now ws) e),
      )
    ]
    | inr full ↦ refused_when_full full
  ]

-- Nobody but expired entries leaves, so the place can only get better.
Waits-clean_up_list :
    (now now' acc ip i : ℕ) (ws : List Wait)
    → now' ≤ now + 30000
    → Waits now acc ip i ws
    → (k : ℕ) × (k ≤ i) × Waits now acc ip k (clean_up_list now' ws)
unfolding clean_up_list
Waits-clean_up_list now now' acc ip i [] h e = absurd e
Waits-clean_up_list now now' acc ip zero (w ∷ ws) h e = (zero, omega arith, ground arith)
Waits-clean_up_list now now' acc ip (suc i) (w ∷ ws) h e =
    let (k, le, rest) = Waits-clean_up_list now now' acc ip i ws h e.1 in
    elim (Bool-cases (has_expired now' w)) [
      | inl gone ↦ (k, omega arith, ground (arith, gone, rest))
      | inr stays ↦ (suc k, omega arith, ground (arith, stays, rest))
    ]

Waits-position :
    (now acc ip i : ℕ) (ws : List Wait) → Waits now acc ip i ws → position acc ip ws ≡ some i
unfolding position is_client
Waits-position now acc ip i [] h = absurd h
Waits-position now acc ip zero (w ∷ ws) h = ground arith
Waits-position now acc ip (suc i) (w ∷ ws) h = ground (arith, Waits-position now acc ip i ws h.1)

-- A client that was refused is still in the list, no further back than it was put, for the cleaning
-- that any login makes up to 30 seconds later.
pub client_login_keeps_place :
    (now online limit acc ip now' : ℕ) (ws : List Wait)
    → (client_login now online limit acc ip ws).0 ≡ false
    → now' ≤ now + 30000
    → let ws' = (client_login now online limit acc ip ws).1 in
      (i k : ℕ) × (position acc ip ws' ≡ some i)
      × (position acc ip (clean_up_list now' ws') ≡ some k)
      × (k ≤ i)
client_login_keeps_place now online limit acc ip now' ws h le =
    let (i, waits) = refused-Waits now online limit acc ip ws h in
    let (k, closer, waits') =
      Waits-clean_up_list now now' acc ip i (client_login now online limit acc ip ws).1 le waits in
    (i, k, Waits-position now acc ip i _ waits, Waits-position now acc ip k _ waits', closer)
