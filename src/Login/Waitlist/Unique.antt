-- ===== src/Login/Waitlist/Unique.antt =====
-- No client is in the waiting list twice.
use evolution078ots.Prelude.{
  ℕ, ◌+◌, ◌≡◌, refl, subst, ltb→lt, true, false, List, [], ◌∷◌, ◌++◌, Option, none, arith,
  Option-cases, inl, inr, Bool-cases, length, ltb,
}
use evolution078ots.Login.Waitlist.{
  Wait, is_client, find_from, erase_client, clean_up_list, has_expired, client_login,
}
use evolution078ots.Login.Waitlist.Order.{position, renewed}
use evolution078ots.Login.Waitlist.Service.{Outcome, client_login_lem}
use evolution078ots.Login.Waitlist.Places.{
  login_full, add_client_new, add_client_known, login_refused,
}

abbrev pub IsUnique : List Wait → Type 0
IsUnique [] = Unit {0}
IsUnique (w ∷ ws) = (position w.acc w.ip ws ≡ none) × IsUnique ws

module _ (a b : ℕ) where
  absent-clean_up_list :
      (now : ℕ) (ws : List Wait)
      → position a b ws ≡ none
      → position a b (clean_up_list now ws) ≡ none
  unfolding position clean_up_list
  absent-clean_up_list now [] h = refl
  absent-clean_up_list now (w ∷ ws) h = ground (arith, absent-clean_up_list now ws)

  absent-erase_client :
      (acc ip : ℕ) (ws : List Wait)
      → position a b ws ≡ none
      → position a b (erase_client acc ip ws) ≡ none
  unfolding position erase_client
  absent-erase_client acc ip [] h = refl
  absent-erase_client acc ip (w ∷ ws) h = ground (arith, absent-erase_client acc ip ws)

  absent-find_from :
      (now acc ip slot : ℕ) (ws : List Wait)
      → position a b ws ≡ none
      → position a b (find_from now acc ip slot ws).1 ≡ none
  unfolding position find_from
  absent-find_from now acc ip slot [] h = refl
  absent-find_from now acc ip slot (w ∷ ws) h =
      ground (arith, absent-find_from now acc ip (slot + 1) ws)

  absent-append :
      (v : Wait) (ws : List Wait)
      → is_client a b v ≡ false
      → position a b ws ≡ none
      → position a b (ws ++ v ∷ []) ≡ none
  unfolding position
  absent-append v [] d h = ground arith
  absent-append v (w ∷ ws) d h = ground (arith, absent-append v ws)

clean_up_list-IsUnique : (now : ℕ) (ws : List Wait) → IsUnique ws → IsUnique (clean_up_list now ws)
unfolding clean_up_list
clean_up_list-IsUnique now [] u = tt
clean_up_list-IsUnique now (w ∷ ws) u = elim (Bool-cases (has_expired now w)) [
  | inl e ↦ rw (e, clean_up_list, IsUnique) (clean_up_list-IsUnique now ws u.1)
  | inr e ↦
      rw (e, clean_up_list, IsUnique)
        (absent-clean_up_list w.acc w.ip now ws u.0, clean_up_list-IsUnique now ws u.1)
]

erase_client-IsUnique :
    (acc ip : ℕ) (ws : List Wait) → IsUnique ws → IsUnique (erase_client acc ip ws)
unfolding erase_client
erase_client-IsUnique acc ip [] u = tt
erase_client-IsUnique acc ip (w ∷ ws) u = elim (Bool-cases (is_client acc ip w)) [
  | inl e ↦ rw (e, erase_client, IsUnique) u.1
  | inr e ↦
      rw (e, erase_client, IsUnique)
        (absent-erase_client w.acc w.ip acc ip ws u.0, erase_client-IsUnique acc ip ws u.1)
]

find_from-IsUnique :
    (now acc ip slot : ℕ) (ws : List Wait) → IsUnique ws → IsUnique (find_from now acc ip slot ws).1
unfolding find_from
find_from-IsUnique now acc ip slot [] u = tt
find_from-IsUnique now acc ip slot (w ∷ ws) u = elim (Bool-cases (is_client acc ip w)) [
  | inl e ↦ rw (e, find_from, IsUnique) u
  | inr e ↦
      rw (e, find_from, IsUnique)
        (
          absent-find_from w.acc w.ip now acc ip (slot + 1) ws u.0,
          find_from-IsUnique now acc ip (slot + 1) ws u.1,
        )
]

append-IsUnique :
    (now acc ip slot : ℕ) (ws : List Wait)
    → position acc ip ws ≡ none
    → IsUnique ws
    → IsUnique (ws ++ renewed now acc ip slot ∷ [])
unfolding position
append-IsUnique now acc ip slot [] e u = (refl, tt)
append-IsUnique now acc ip slot (w ∷ ws) e u = (
  absent-append w.acc w.ip (renewed now acc ip slot) ws (unfold is_client in ground arith) u.0,
  append-IsUnique now acc ip slot ws (ground arith) u.1,
)

module _ (now online limit acc ip : ℕ) (ws : List Wait) (u : IsUnique ws) where
  clean : IsUnique (clean_up_list now ws)
  clean = clean_up_list-IsUnique now ws u

  full_case : ltb online limit ≡ false → IsUnique (client_login now online limit acc ip ws).1
  full_case full = elim (Option-cases (position acc ip ws)) [
    | inl e ↦
        rw (login_full now online limit acc ip ws full, add_client_new now online limit acc ip ws e)
          (append-IsUnique now acc ip (length ws + 1) ws e u)
    | inr (i, e) ↦
        rw
          (
            login_full now online limit acc ip ws full,
            add_client_known now online limit acc ip ws i e,
          )
          (find_from-IsUnique now acc ip 1 ws u)
  ]

  slot_case : ltb online limit ≡ true → IsUnique (client_login now online limit acc ip ws).1
  slot_case slot = elim (Option-cases (position acc ip queue')) [
    | inl e ↦ rw (subst P e outcome) clean
    | inr (i, e) ↦ elim (subst P e outcome) [
      | inl (_, admitted) ↦ rw admitted (erase_client-IsUnique acc ip queue' clean)
      | inr (_, refused, _) ↦
          rw (login_refused now online limit acc ip ws i slot e refused)
            (find_from-IsUnique now acc ip 1 queue' clean)
    ]
  ]
    where
      queue' : List Wait
      queue' = clean_up_list now ws

      P : Option ℕ → Type 0
      P = Outcome acc ip online limit queue' (client_login now online limit acc ip ws)

      outcome : P (position acc ip queue')
      outcome = client_login_lem now online limit acc ip ws (ltb→lt online limit slot)

  -- If no client is in the list twice, then none is after a login, of whatever outcome.
  pub client_login-IsUnique : IsUnique (client_login now online limit acc ip ws).1
  client_login-IsUnique = elim (Bool-cases (ltb online limit)) [
    | inl slot ↦ slot_case slot
    | inr full ↦ full_case full
  ]
