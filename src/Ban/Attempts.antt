-- ===== src/Ban/Attempts.antt =====
-- Failed logins of an address, between those of other addresses.
use evolution078ots.Prelude.{
  ℕ, ◌+◌, ◌≤◌, ◌<◌, Bool, true, false, not, ◌&&◌, Option, none, some, List, [], ◌∷◌, length, ltb,
  ◌==◌, ==_iff, if◌then◌else◌, ◌≡◌, refl, sym, ap, ◌∙◌, arith, Bool-cases, inl, inr,
}
use evolution078ots.Prelude.Table.{find, find-assign}
use evolution078ots.Ban.{
  Ban, Login, is_disabled, is_ip_disabled, or_new, attempt, add_connection_attempt,
}

-- An attempt: its time, its address and whether it succeeds.
pub record Attempt : Type 0 where
  pub now : ℕ
  pub ip : ℕ
  pub success : Bool

unfoldable pub run : Ban → List Attempt → Ban
unfolding add_connection_attempt
run b [] = b
run b (a ∷ rest) = run (add_connection_attempt b a.now a.ip a.success) rest

-- The attempts of an address, and whether they all fail.
unfoldable pub times_of : ℕ → List Attempt → List ℕ
times_of ip [] = []
times_of ip (a ∷ rest) = let later = times_of ip rest in if ip == a.ip then a.now ∷ later else later

unfoldable pub all_fail : ℕ → List Attempt → Bool
all_fail ip [] = true
all_fail ip (a ∷ rest) = not ((ip == a.ip) && a.success) && all_fail ip rest

-- The entry after failed attempts at some times, with maxLoginTries and retryTimeout.
unfoldable pub failures : ℕ → ℕ → List ℕ → Option Login → Option Login
unfolding attempt
failures tries retry [] l = l
failures tries retry (now ∷ ts) l =
    failures tries retry ts (some (attempt tries retry now false (or_new l)))

abbrev pub last_or : List ℕ → ℕ → ℕ
last_or [] d = d
last_or (t ∷ ts) d = last_or ts t

abbrev limits : Ban → ℕ × ℕ × ℕ
limits b = (b.max_login_tries, b.retry_timeout, b.login_timeout)

limits-add_connection_attempt :
    (b : Ban) (now ip : ℕ) (success : Bool)
    → limits (add_connection_attempt b now ip success) ≡ limits b
unfolding add_connection_attempt
limits-add_connection_attempt b now ip success = elim (Bool-cases (ip == 0)) [
  | inl nowhere ↦ rw (add_connection_attempt, nowhere) refl
  | inr real ↦ rw (add_connection_attempt, real) refl
]

limits-run : (b : Ban) (h : List Attempt) → limits (run b h) ≡ limits b
unfolding run
limits-run b [] = refl
limits-run b (a ∷ rest) =
    limits-run (add_connection_attempt b a.now a.ip a.success) rest
    ∙ limits-add_connection_attempt b a.now a.ip a.success

find-add_connection_attempt :
    (b : Ban) (i now ip : ℕ) (success : Bool)
    → (i == 0) ≡ false
    → find i (add_connection_attempt b now ip success).ip_login_map ≡ (
        if i == ip
        then some
            (attempt b.max_login_tries b.retry_timeout now success (or_new (find i b.ip_login_map)))
        else find i b.ip_login_map)
unfolding add_connection_attempt
find-add_connection_attempt b i now ip success real = elim (Bool-cases (i == ip)) [
  | inl same ↦ rw same (
      ground (
        arith,
        same,
        real,
        (==_iff i ip).0 same,
        find-assign i ip
            (attempt b.max_login_tries b.retry_timeout now success
              (or_new (find ip b.ip_login_map)))
            b.ip_login_map,
      ))
  | inr other ↦ rw other (
      ground (
        arith,
        other,
        find-assign i ip
            (attempt b.max_login_tries b.retry_timeout now success
              (or_new (find ip b.ip_login_map)))
            b.ip_login_map,
      ))
]

failures-limits :
    (b c : Ban) (ts : List ℕ) (l : Option Login)
    → limits b ≡ limits c
    → failures b.max_login_tries b.retry_timeout ts l
      ≡ failures c.max_login_tries c.retry_timeout ts l
failures-limits b c ts l e = ap (λ (x : ℕ × ℕ × ℕ). failures x.0 x.1 ts l) e

-- The entry of an address depends on its own attempts.
find-run :
    (b : Ban) (ip : ℕ) (h : List Attempt)
    → (ip == 0) ≡ false
    → all_fail ip h ≡ true
    → find ip (run b h).ip_login_map
      ≡ failures b.max_login_tries b.retry_timeout (times_of ip h) (find ip b.ip_login_map)
unfolding run times_of failures all_fail
find-run b ip [] real fail = refl
find-run b ip (a ∷ rest) real fail =
    let b' = add_connection_attempt b a.now a.ip a.success in
    let after = find-add_connection_attempt b ip a.now a.ip a.success real in
    find-run b' ip rest real (ground (arith, fail))
    ∙ failures-limits b' b (times_of ip rest) (find ip b'.ip_login_map)
        (limits-add_connection_attempt b a.now a.ip a.success)
    ∙ ap (failures b.max_login_tries b.retry_timeout (times_of ip rest)) after
    ∙ step (find ip b.ip_login_map)
  where
    tries : ℕ
    tries = b.max_login_tries

    retry : ℕ
    retry = b.retry_timeout

    failed :
        (ip == a.ip) ≡ true
        → (x : Bool) → not ((ip == a.ip) && x) && all_fail ip rest ≡ true
        → x ≡ false
    failed same x h = ground (arith, same, h)

    step :
        (l : Option Login)
        → failures tries retry
            (times_of ip rest)
            (if ip == a.ip then some (attempt tries retry a.now a.success (or_new l)) else l)
          ≡ failures tries retry
              (if ip == a.ip then a.now ∷ times_of ip rest else times_of ip rest)
              l
    step l = elim (Bool-cases (ip == a.ip)) [
      | inl same ↦ rw same (
          ap
            (λ x.
              failures tries retry (times_of ip rest)
                (some (attempt tries retry a.now x (or_new l))))
            (failed same a.success fail))
      | inr other ↦ rw other refl
    ]

attempt_fail :
    (tries retry now last n : ℕ)
    → n < tries
    → attempt tries retry now false (record { last_login_time = last; number_of_logins = n })
      ≡ record { last_login_time = now; number_of_logins = n + 1 }
unfolding attempt
attempt_fail tries retry now last n few = ground (arith, few)

failures_count :
    (tries retry last n : ℕ) (ts : List ℕ)
    → n + length ts ≤ tries
    → failures tries retry ts (some (record { last_login_time = last; number_of_logins = n }))
      ≡ some (record { last_login_time = last_or ts last; number_of_logins = n + length ts })
unfolding failures
failures_count tries retry last n [] le = ap some (ground arith)
failures_count tries retry last n (t ∷ ts) le =
    ap (λ l. failures tries retry ts (some l))
      (attempt_fail tries retry t last n (omega (arith, le)))
    ∙ failures_count tries retry t (n + 1) ts (omega (arith, le))
    ∙ ap (λ k. some (record { last_login_time = last_or ts t; number_of_logins = k })) (omega arith)

is_ip_disabled-limits :
    (tries timeout now ip : ℕ) (c : Ban)
    → (ip == 0) ≡ false
    → (tries == 0) ≡ false
    → c.max_login_tries ≡ tries
    → c.login_timeout ≡ timeout
    → is_ip_disabled c now ip ≡ is_disabled tries timeout now (find ip c.ip_login_map)
unfolding is_ip_disabled
is_ip_disabled-limits tries timeout now ip c real limited e f =
    rw (sym e, sym f) (ground (arith, real, limited, e))

disabled_after :
    (tries retry timeout now : ℕ) (ts : List ℕ)
    → (tries == 0) ≡ false
    → length ts ≤ tries
    → is_disabled tries timeout now (failures tries retry ts none)
      ≡ (length ts == tries) && ltb now (last_or ts 0 + timeout)
unfolding is_disabled failures
disabled_after tries retry timeout now [] limited le = ground (arith, limited)
disabled_after tries retry timeout now (t ∷ ts) limited le =
    ap (λ l. is_disabled tries timeout now (failures tries retry ts (some l)))
      (attempt_fail tries retry t 0 0 (omega (arith, le)))
    ∙ ap (is_disabled tries timeout now) (failures_count tries retry t 1 ts (omega (arith, le)))
    ∙ ground (arith, le)

-- An address that has no entry, and whose attempts fail, as many as maxLoginTries at most, between any
-- attempts of other addresses: it is shut out once there have been maxLoginTries of them, not before,
-- and until loginTimeout after the last one.
pub is_ip_disabled-run :
    (b : Ban) (now ip : ℕ) (h : List Attempt)
    → (ip == 0) ≡ false
    → (b.max_login_tries == 0) ≡ false
    → find ip b.ip_login_map ≡ none
    → all_fail ip h ≡ true
    → length (times_of ip h) ≤ b.max_login_tries
    → is_ip_disabled (run b h) now ip
      ≡ (length (times_of ip h) == b.max_login_tries)
        && ltb now (last_or (times_of ip h) 0 + b.login_timeout)
is_ip_disabled-run b now ip h real limited unknown fail few =
    is_ip_disabled-limits b.max_login_tries b.login_timeout now ip (run b h) real limited
      (ap (λ (x : ℕ × ℕ × ℕ). x.0) (limits-run b h)) (ap (λ (x : ℕ × ℕ × ℕ). x.2) (limits-run b h))
    ∙ ap (is_disabled b.max_login_tries b.login_timeout now) (
        find-run b ip h real fail
        ∙ ap (failures b.max_login_tries b.retry_timeout (times_of ip h)) unknown)
    ∙ disabled_after b.max_login_tries b.retry_timeout b.login_timeout now (times_of ip h) limited
        few
