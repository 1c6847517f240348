-- ===== src/Ban/Lists.antt =====
-- The list of the bans of players or of accounts is a map from what is banned to the end of its ban.
use evolution078ots.Prelude.{
  ℕ, zero, suc, ◌+◌, ◌-◌, ◌%◌, ◌^◌, ◌<◌, Bool, true, false, ◌&&◌, Option, none, some, List, [], ◌∷◌,
  ◌++◌, length, take, drop, leb, ◌==◌, if◌then◌else◌, ◌≡◌, ◌↔◌, refl, sym, ap, ◌∙◌, arith,
  Bool-cases, inl, inr,
}
use evolution078ots.Ban.{Entry, is_active, any_banished, ban_end, add_ban, remove_ban}

module _ {A : Type 0} (same : A → A → Bool) where
  -- The end of the ban of something.
  unfoldable pub end_of : A → List (Entry A) → Option ℕ
  end_of a [] = none
  end_of a (e ∷ es) = let rest = end_of a es in if same a e.key then some e.time else rest

  -- Nothing stands in the list twice.
  unfoldable pub unique : List (Entry A) → Bool
  unique [] = true
  unique (e ∷ es) = elim (end_of e.key es) [ none ↦ unique es | some _ ↦ false ]

abbrev pub banished_until : ℕ → Option ℕ → Bool
banished_until now none = false
banished_until now (some t) = is_active now t

abbrev pub end_or_one : ℕ → Option ℕ → ℕ
end_or_one now none = 1
end_or_one now (some t) = if is_active now t then t else 1

module _ {A : Type 0} (same : A → A → Bool)
    (same_iff : (a b : A) → (same a b ≡ true) ↔ (a ≡ b)) where
  end_of-key :
      (a b : A) (es : List (Entry A)) → same a b ≡ true → end_of same a es ≡ end_of same b es
  end_of-key a b es h = ap (λ x. end_of same x es) ((same_iff a b).0 h)

  any_banished-none :
      (a : A) (now : ℕ) (es : List (Entry A))
      → end_of same a es ≡ none
      → (any_banished (same a) now es ≡ false) × (ban_end (same a) now es ≡ 1)
  unfolding end_of any_banished ban_end
  any_banished-none a now [] h = (refl, refl)
  any_banished-none a now (e ∷ es) h = elim (Bool-cases (same a e.key)) [
    | inl here ↦ absurd (ground (arith, h, here))
    | inr there ↦
        let (x, y) = any_banished-none a now es (ground (arith, h, there)) in
        (ground (arith, x, there), ground (arith, y, there))
  ]

  any_banished-end_of :
      (a : A) (now : ℕ) (es : List (Entry A))
      → unique same es ≡ true
      → (any_banished (same a) now es ≡ banished_until now (end_of same a es))
        × (ban_end (same a) now es ≡ end_or_one now (end_of same a es))
  unfolding end_of unique any_banished ban_end
  any_banished-end_of a now [] u = (refl, refl)
  any_banished-end_of a now (e ∷ es) u = elim (Bool-cases (same a e.key)) [
    | inl here ↦
        let (x, y) = any_banished-none a now es (end_of-key a e.key es here ∙ ground (arith, u)) in
        (ground (arith, here, x), ground (arith, here, y))
    | inr there ↦
        let (x, y) = any_banished-end_of a now es (ground (arith, u)) in
        (ground (arith, x, there), ground (arith, y, there))
  ]

  agree : (a b c : A) → same a b ≡ true → same a c ≡ same b c
  agree a b c h = ap (λ x. same x c) ((same_iff a b).0 h)

  apart : (a b : A) → same a b ≡ false → same b a ≡ false
  apart a b h = elim (Bool-cases (same b a)) [
    | inr other ↦ other
    | inl there ↦ absurd (ground (arith, h, there, (same_iff a b).1 (sym ((same_iff b a).0 there))))
  ]

  end_of-add_ban :
      (a : A) (new : Entry A) (es : List (Entry A))
      → end_of same a (add_ban (same new.key) new es)
        ≡ (if same a new.key then some new.time else end_of same a es)
  unfolding end_of add_ban
  end_of-add_ban a new [] = refl
  end_of-add_ban a new (e ∷ es) = elim (Bool-cases (same new.key e.key)) [
    | inl here ↦ ground (arith, here, ap (same a) ((same_iff new.key e.key).0 here))
    | inr there ↦ ground (arith, there, end_of-add_ban a new es, agree a new.key e.key)
  ]

  unique-add_ban :
      (new : Entry A) (es : List (Entry A))
      → unique same es ≡ true
      → unique same (add_ban (same new.key) new es) ≡ true
  unfolding end_of unique add_ban
  unique-add_ban new [] u = refl
  unique-add_ban new (e ∷ es) u = elim (Bool-cases (same new.key e.key)) [
    | inl here ↦ ground (arith, here, u)
    | inr there ↦ ground (
      arith,
      there,
      u,
      unique-add_ban new es,
      end_of-add_ban e.key new es,
      apart new.key e.key there,
    )
  ]

  end_of_less :
      (a : A) (n : ℕ) (es : List (Entry A))
      → end_of same a es ≡ none
      → end_of same a (take n es ++ drop (suc n) es) ≡ none
  unfolding end_of
  end_of_less a zero [] h = refl
  end_of_less a (suc n) [] h = refl
  end_of_less a zero (e ∷ es) h = ground (arith, h)
  end_of_less a (suc n) (e ∷ es) h = ground (arith, h, end_of_less a n es)

  unique_less :
      (n : ℕ) (es : List (Entry A))
      → unique same es ≡ true
      → unique same (take n es ++ drop (suc n) es) ≡ true
  unfolding unique
  unique_less zero [] u = refl
  unique_less (suc n) [] u = refl
  unique_less zero (e ∷ es) u = ground (arith, u)
  unique_less (suc n) (e ∷ es) u = ground (arith, u, unique_less n es, end_of_less e.key n es)

-- The list without the entry of a number from 1 to its length.
abbrev pub without : {A : Type 0} → ℕ → List (Entry A) → Bool × List (Entry A)
without n es =
    if leb 1 n && leb n (length es) then (true, take (n - 1) es ++ drop n es) else (false, es)

without_far :
    {A : Type 0} (k : ℕ) (es : List (Entry A)) → length es < k → without k es ≡ (false, es)
without_far k es far = ground (arith, far)

remove_ban_step :
    {A : Type 0} (n k : ℕ) (e : Entry A) (es : List (Entry A))
    → (n + 2 ^ 64 - 1) % 2 ^ 64 ≡ k
    → remove_ban n (e ∷ es)
      ≡ (if k == 0 then (true, es) else ((remove_ban k es).0, e ∷ (remove_ban k es).1))
unfolding remove_ban
remove_ban_step n k e es h = rw (sym h) refl

remove_ban_lem :
    {A : Type 0} (n : ℕ) (es : List (Entry A))
    → n < 2 ^ 64
    → length es < 2 ^ 64 - 1
    → remove_ban n es ≡ without n es
unfolding remove_ban
remove_ban_lem n [] small few = ground arith
remove_ban_lem zero (e ∷ es) small few =
    remove_ban_step 0 (2 ^ 64 - 1) e es (omega arith)
    ∙ rw
        (remove_ban_lem (2 ^ 64 - 1) es (omega arith) (omega (arith, few))
          ∙ without_far (2 ^ 64 - 1) es (omega (arith, few)))
        refl
remove_ban_lem (suc zero) (e ∷ es) small few =
    remove_ban_step 1 0 e es (omega arith) ∙ (ground arith)
remove_ban_lem (suc (suc n)) (e ∷ es) small few =
    remove_ban_step (suc (suc n)) (suc n) e es (omega (arith, small))
    ∙ rw (remove_ban_lem (suc n) es (omega (arith, small)) (omega (arith, few))) (ground arith)

-- What the operations on a list of bans do, where no two entries are about the same.
abbrev pub IsMap : {A : Type 0} → (A → A → Bool) → List (Entry A) → A → Entry A → ℕ → ℕ → Type 0
IsMap same es a new n now =
    (any_banished (same a) now es ≡ banished_until now (end_of same a es))
    × (ban_end (same a) now es ≡ end_or_one now (end_of same a es))
    × (end_of same a (add_ban (same new.key) new es)
        ≡ (if same a new.key then some new.time else end_of same a es))
    × (unique same (add_ban (same new.key) new es) ≡ true)
    × (remove_ban n es ≡ without n es)
    × (unique same (remove_ban n es).1 ≡ true)

without-unique :
    {A : Type 0} (same : A → A → Bool) (same_iff : (a b : A) → (same a b ≡ true) ↔ (a ≡ b))
    → (n : ℕ) (es : List (Entry A)) → unique same es ≡ true
    → unique same (without n es).1 ≡ true
without-unique same same_iff zero es u = ground (arith, u)
without-unique same same_iff (suc n) es u = elim (Bool-cases (leb (suc n) (length es))) [
  | inl there ↦ ground (arith, there, unique_less same same_iff n es u)
  | inr far ↦ ground (arith, far, u)
]

-- The bans of players or accounts, where no two entries are about the same one, by a test that tells
-- keys apart, are a map to the end of each ban. The tests for a ban answer whether the end lies ahead
-- or there is none, and what it is; adding a ban sets its end, for a new or an old entry, and no other;
-- removing by a number takes out the entry of that number from 1 on and tells whether there is one; and
-- still no two entries are about the same.
pub ban_list-IsMap :
    {A : Type 0} (same : A → A → Bool) (same_iff : (a b : A) → (same a b ≡ true) ↔ (a ≡ b))
    → (es : List (Entry A)) (a : A) (new : Entry A) (n now : ℕ) → unique same es ≡ true
    → n < 2 ^ 64
    → length es < 2 ^ 64 - 1
    → IsMap same es a new n now
ban_list-IsMap same same_iff es a new n now u small few = (
  (any_banished-end_of same same_iff a now es u).0,
  (any_banished-end_of same same_iff a now es u).1,
  end_of-add_ban same same_iff a new es,
  unique-add_ban same same_iff new es u,
  remove_ban_lem n es small few,
  rw (remove_ban_lem n es small few) (without-unique same same_iff n es u),
)
