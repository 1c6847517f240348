-- ===== src/Condition/Dealt/Order.antt =====
-- Damage over time is dealt in the order of its list, and again only in a field.
use evolution078ots.Prelude.{
  ℕ, suc, Bool, true, false, List, [], ◌∷◌, ◌++◌, map, if◌then◌else◌, sym, subst, inl, inr,
}
use mathlib.Core.List.{append_assoc}
use evolution078ots.Condition.{Interval}
use evolution078ots.Condition.Ticks.{Effect, do_damage, tick_damage}
use evolution078ots.Condition.Dealt.{
  Outcome, pass, passed, lives, after, tick_damage-cases, sooner, anew,
}

-- Every value is dealt in its turn: once, and again at most `k` times in all.
pub data IsRepeated : ℕ → List ℕ → List Effect → Type 0 where
  finished : {k : ℕ} → IsRepeated k [] []
  once :
      {k v : ℕ} {vs : List ℕ} {es : List Effect}
      → IsRepeated k vs es
      → IsRepeated k (v ∷ vs) (do_damage v ∷ es)
  again :
      {k v : ℕ} {vs : List ℕ} {es : List Effect}
      → IsRepeated k (v ∷ vs) es
      → IsRepeated (suc k) (v ∷ vs) (do_damage v ∷ es)

abbrev pub values : List Interval → List ℕ
values = map λ i. i.value

abbrev pub damages_of : List Interval → List Effect
damages_of = map λ i. do_damage i.value

-- The executions in a field.
abbrev pub in_field : List (Bool × ℕ) → ℕ
in_field [] = 0
in_field ((true, t) ∷ ts) = in_field ts
in_field ((false, t) ∷ ts) = suc (in_field ts)

each_once : (k : ℕ) (list : List Interval) → IsRepeated k (values list) (damages_of list)
each_once k [] = finished
each_once k (i ∷ is) = once (each_once k is)

more_often :
    {k : ℕ} {vs : List ℕ} {es : List Effect} → IsRepeated k vs es → IsRepeated (suc k) vs es
more_often finished = finished
more_often (once d) = once (more_often d)
more_often (again d) = again (more_often d)

joined :
    (b : Bool) (k : ℕ) (vs : List ℕ) (list : List Interval) (dealt : List Effect) (rest : Outcome)
    → IsRepeated k vs (dealt ++ damages_of list)
    → IsRepeated k vs (dealt ++ (rest.dealt ++ damages_of rest.left))
    → let o =
        if b
        then record rest { dealt = dealt ++ rest.dealt }
        else record { lasts = false; left = list; dealt = dealt } in
      IsRepeated k vs (o.dealt ++ damages_of o.left)
joined false k vs list dealt rest h r = h
joined true k vs list dealt rest h r =
    subst (IsRepeated k vs) (sym (append_assoc dealt rest.dealt (damages_of rest.left))) r

pub pass-IsRepeated :
    (ts : List (Bool × ℕ)) (w : ℕ) (list : List Interval)
    → let o = pass ts w list in
      IsRepeated (in_field ts) (values list) (o.dealt ++ damages_of o.left)
unfolding pass tick_damage
pass-IsRepeated [] w list = each_once 0 list
pass-IsRepeated ((true, t) ∷ ts) w [] =
    joined (lives w t) (in_field ts) [] [] [] (pass ts (passed w t) []) finished
      (pass-IsRepeated ts (passed w t) [])
pass-IsRepeated ((false, t) ∷ ts) w [] =
    joined (lives w t) (suc (in_field ts)) [] [] [] (pass ts (passed w t) []) finished
      (more_often (pass-IsRepeated ts (passed w t) []))
pass-IsRepeated ((true, t) ∷ ts) w (i ∷ is) =
    let P : List Interval × List Effect → Type 0 = λ d.
      IsRepeated (in_field ts) (values (i ∷ is))
        ((after ts w t d).dealt ++ damages_of (after ts w t d).left) in
    elim (tick_damage-cases true t i is) [
      | inl (_, e) ↦ subst P (sym e) (
          joined (lives w t) (in_field ts) (values (i ∷ is)) (sooner t i ∷ is) []
            (pass ts (passed w t) (sooner t i ∷ is)) (each_once _ (i ∷ is))
            (pass-IsRepeated ts (passed w t) (sooner t i ∷ is)))
      | inr (_, e) ↦ subst P (sym e) (
          joined (lives w t) (in_field ts) (values (i ∷ is)) is (do_damage i.value ∷ [])
            (pass ts (passed w t) is) (once (each_once _ is))
            (once (pass-IsRepeated ts (passed w t) is)))
    ]
pass-IsRepeated ((false, t) ∷ ts) w (i ∷ is) =
    let P : List Interval × List Effect → Type 0 = λ d.
      IsRepeated (suc (in_field ts)) (values (i ∷ is))
        ((after ts w 0 d).dealt ++ damages_of (after ts w 0 d).left) in
    elim (tick_damage-cases false t i is) [
      | inl (_, e) ↦ subst P (sym e) (
          joined (lives w 0) (suc (in_field ts)) (values (i ∷ is)) (sooner t i ∷ is) []
            (pass ts (passed w 0) (sooner t i ∷ is)) (each_once _ (i ∷ is))
            (more_often (pass-IsRepeated ts (passed w 0) (sooner t i ∷ is))))
      | inr (_, e) ↦ subst P (sym e) (
          joined (lives w 0) (suc (in_field ts)) (values (i ∷ is)) (anew i ∷ is)
            (do_damage i.value ∷ []) (pass ts (passed w 0) (anew i ∷ is))
            (again (each_once _ (i ∷ is))) (again (pass-IsRepeated ts (passed w 0) (anew i ∷ is))))
    ]
