-- ===== src/Outfit/Finds.antt =====
-- An outfit list is a map from looks to their premium bits.
use evolution078ots.Prelude.{
  ℕ, suc, ◌≤◌, true, false, List, [], ◌∷◌, Option, none, some, ◌==◌, if◌then◌else◌, ◌≡◌, arith,
  refl, ltb,
}
use evolution078ots.Prelude.Bits.{bit_or}
use evolution078ots.Outfit.{Outfit, add_outfit, rem_outfit, is_in_list}

-- The map: the premium bits of a look, if it is in the list.
unfoldable pub premium_of : List Outfit → ℕ → Option ℕ
premium_of [] looktype = none
premium_of (o ∷ list) looktype =
    let rest = premium_of list looktype in if o.looktype == looktype then some o.premium else rest

-- How often a look stands in the list.
unfoldable pub times : List Outfit → ℕ → ℕ
times [] looktype = 0
times (o ∷ list) looktype =
    let rest = times list looktype in if o.looktype == looktype then suc rest else rest

-- What a look has after another is added.
abbrev pub joined : Option ℕ → ℕ → ℕ
joined none premium = premium
joined (some old) premium = bit_or 32 old premium

premium_of-add_outfit :
    (list : List Outfit) (outfit : Outfit) (t : ℕ)
    → premium_of (add_outfit list outfit) t ≡ (
        if outfit.looktype == t
        then some (joined (premium_of list t) outfit.premium)
        else premium_of list t)
unfolding premium_of add_outfit
premium_of-add_outfit [] outfit t = ground arith
premium_of-add_outfit (o ∷ list) outfit t = ground (arith, premium_of-add_outfit list outfit t)

times-add_outfit :
    (list : List Outfit) (outfit : Outfit) (t : ℕ)
    → times (add_outfit list outfit) t ≡ (
        if outfit.looktype == t
        then (if ltb 0 (times list t) then times list t else 1)
        else times list t)
unfolding times add_outfit
times-add_outfit [] outfit t = ground arith
times-add_outfit (o ∷ list) outfit t = ground (arith, times-add_outfit list outfit t)

premium_of-times : (list : List Outfit) (t : ℕ) → times list t ≡ 0 → premium_of list t ≡ none
unfolding times premium_of
premium_of-times [] t h = refl
premium_of-times (o ∷ list) t h = ground (arith, premium_of-times list t, h)

times-rem_outfit :
    (list : List Outfit) (outfit : Outfit) (t : ℕ)
    → times list t ≤ 1
    → (times (rem_outfit list outfit).1 t ≡ (if outfit.looktype == t then 0 else times list t))
      × (premium_of (rem_outfit list outfit).1 t
          ≡ (if outfit.looktype == t then none else premium_of list t))
unfolding times rem_outfit premium_of
times-rem_outfit [] outfit t h = ground arith
times-rem_outfit (o ∷ list) outfit t h =
    ground (arith, times-rem_outfit list outfit t, h, premium_of-times list t)

rem_outfit-is_in_list :
    (list : List Outfit) (outfit : Outfit)
    → (rem_outfit list outfit).0 ≡ is_in_list list outfit.looktype
unfolding rem_outfit is_in_list
rem_outfit-is_in_list [] outfit = refl
rem_outfit-is_in_list (o ∷ list) outfit = ground (arith, rem_outfit-is_in_list list outfit)

is_in_list-premium_of :
    (list : List Outfit) (t : ℕ)
    → is_in_list list t ≡ elim (premium_of list t) [ none ↦ false | some _ ↦ true ]
unfolding is_in_list premium_of
is_in_list-premium_of [] t = refl
is_in_list-premium_of (o ∷ list) t = ground (arith, is_in_list-premium_of list t)

-- What the three operations do to the map.
abbrev pub Maps : List Outfit → Outfit → ℕ → Type 0
Maps list outfit t =
    (premium_of (add_outfit list outfit) t ≡ (
      if outfit.looktype == t
      then some (joined (premium_of list t) outfit.premium)
      else premium_of list t))
    × (times (add_outfit list outfit) t ≤ 1)
    × (premium_of (rem_outfit list outfit).1 t
        ≡ (if outfit.looktype == t then none else premium_of list t))
    × (times (rem_outfit list outfit).1 t ≤ 1)
    × ((rem_outfit list outfit).0 ≡ is_in_list list outfit.looktype)
    × (is_in_list list t ≡ elim (premium_of list t) [ none ↦ false | some _ ↦ true ])

-- A list in which no look stands twice is a map: addOutfit joins the premium bits of its look with
-- those that were there, remOutfit takes its look out and tells whether it was there, isInList tells
-- which looks there are, the other looks keep their bits, and again no look stands twice.
pub outfit_list-Maps :
    (list : List Outfit) (outfit : Outfit) (t : ℕ) → times list t ≤ 1 → Maps list outfit t
outfit_list-Maps list outfit t h = (
  premium_of-add_outfit list outfit t,
  ground (arith, times-add_outfit list outfit t, h),
  (times-rem_outfit list outfit t h).1,
  ground (arith, (times-rem_outfit list outfit t h).0, h),
  rem_outfit-is_in_list list outfit,
  is_in_list-premium_of list t,
)
