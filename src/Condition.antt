-- ===== src/Condition.antt =====
-- The conditions of source/condition.cpp: what they hold, how they are written to a PropWriteStream and
-- read from a PropStream, and how they pass. Words of 32 bits stand for int32_t, uint32_t and float.
use evolution078ots.Prelude.{
  ℕ, zero, suc, ◌+◌, ◌*◌, ◌^◌, Bool, true, false, Option, none, some, List, [], ◌∷◌, ◌++◌, length,
  take, drop, ltb, ◌==◌, if◌then◌else◌,
}
use evolution078ots.FileLoader.PropStream.{
  PropWriteStream, add_uchar, add_value, append_bytes, to_bytes, of_bytes, get_uchar, get_value,
}
pub mod Fields
pub mod Stored
pub mod Ticks
pub mod Dealt
mod Examples

pub record Regeneration : Type 0 where
  pub internal_health_ticks : ℕ
  pub internal_mana_ticks : ℕ
  pub health_ticks : ℕ
  pub mana_ticks : ℕ
  pub health_gain : ℕ
  pub mana_gain : ℕ

pub record Soul : Type 0 where
  pub internal_soul_ticks : ℕ
  pub soul_ticks : ℕ
  pub soul_gain : ℕ

-- IntervalInfo.
pub record Interval : Type 0 where
  pub time_left : ℕ
  pub value : ℕ
  pub interval : ℕ

pub record Damage : Type 0 where
  pub max_damage : ℕ
  pub min_damage : ℕ
  pub start_damage : ℕ
  pub tick_interval : ℕ
  pub delayed : ℕ
  pub owner : ℕ
  pub damage_list : List Interval

pub record Speed : Type 0 where
  pub speed_delta : ℕ
  pub mina : ℕ
  pub minb : ℕ
  pub maxa : ℕ
  pub maxb : ℕ

pub record Light : Type 0 where
  pub color : ℕ
  pub level : ℕ
  pub internal_light_ticks : ℕ
  pub light_change_interval : ℕ

-- The class of a condition. The outfits of a ConditionOutfit are not stored, and it is read and written
-- as a ConditionGeneric.
pub data Class : Type 0 where
  generic : Class
  regeneration : Regeneration → Class
  soul : Soul → Class
  damage : Damage → Class
  speed : Speed → Class
  light : Light → Class

pub record Condition : Type 0 where
  pub type : ℕ
  pub id : ℕ
  pub ticks : ℕ
  pub class : Class

-- An attribute of 32 bits: its number and its value.
unfoldable pub add_word : PropWriteStream → ℕ → ℕ → PropWriteStream
unfolding add_uchar add_value
add_word s attr v = add_value 4 (add_uchar s attr) v

-- serialize of the base class.
unfoldable pub serialize_base : Condition → PropWriteStream → PropWriteStream
unfolding add_word
serialize_base c s = add_word (add_word (add_word s 1 c.type) 2 c.id) 3 c.ticks

unfoldable pub add_intervals : PropWriteStream → List Interval → PropWriteStream
unfolding add_uchar append_bytes to_bytes
add_intervals s [] = s
add_intervals s (i ∷ is) =
    add_intervals
      (append_bytes (add_uchar s 10)
        (to_bytes 4 i.time_left ++ (to_bytes 4 i.value ++ to_bytes 4 i.interval)))
      is

unfoldable pub serialize_class : Class → PropWriteStream → PropWriteStream
unfolding add_word add_intervals
serialize_class generic s = s
serialize_class (regeneration r) s =
    add_word (add_word (add_word (add_word s 4 r.health_ticks) 5 r.health_gain) 6 r.mana_ticks) 7
      r.mana_gain
serialize_class (soul r) s = add_word (add_word s 21 r.soul_gain) 20 r.soul_ticks
serialize_class (damage r) s =
    add_intervals (add_word (add_value 1 (add_uchar s 8) r.delayed) 9 r.owner) r.damage_list
serialize_class (speed r) s =
    add_word
      (add_word (add_word (add_word (add_word s 11 r.speed_delta) 12 r.mina) 13 r.minb) 14 r.maxa)
      15 r.maxb
serialize_class (light r) s =
    add_word (add_word (add_word (add_word s 16 r.color) 17 r.level) 18 r.internal_light_ticks) 19
      r.light_change_interval

unfoldable pub serialize : Condition → PropWriteStream → PropWriteStream
unfolding serialize_base serialize_class
serialize c s = serialize_class c.class (serialize_base c s)

-- GET_VALUE of a type of `n` bytes into a field.
unfoldable pub get_into : ℕ → List ℕ → (ℕ → Condition) → Option (Condition × List ℕ)
unfolding get_value
get_into n p set = elim (get_value n p) [ none ↦ none | some (v, p') ↦ some (set v, p') ]

unfoldable pub get_interval : List ℕ → Option (Interval × List ℕ)
unfolding of_bytes
get_interval p =
    if ltb (length p) 12
    then none
    else some (
      record {
        time_left = of_bytes (take 4 p);
        value = of_bytes (take 4 (drop 4 p));
        interval = of_bytes (take 4 (drop 8 p));
      },
      drop 12 p,
    )

-- unserializeProp of the base class.
unfoldable pub unserialize_base : Condition → ℕ → List ℕ → Option (Condition × List ℕ)
unfolding get_into
unserialize_base c attr p =
    if attr == 1
    then get_into 4 p (λ v. record c { type = v })
    else if attr == 2
    then get_into 4 p (λ v. record c { id = v })
    else if attr == 3
    then get_into 4 p (λ v. record c { ticks = v })
    else none

-- `attr = CONDITIONATTR_HEALTHGAIN` is an assignment, and true: no later branch is reached.
unfoldable pub unserialize_regeneration :
    Condition → Regeneration → ℕ → List ℕ → Option (Condition × List ℕ)
unfolding get_into
unserialize_regeneration c r attr p =
    if attr == 4
    then get_into 4 p (λ v. record c { class = regeneration (record r { health_ticks = v }) })
    else get_into 4 p (λ v. record c { class = regeneration (record r { health_gain = v }) })

unfoldable pub unserialize_soul : Condition → Soul → ℕ → List ℕ → Option (Condition × List ℕ)
unfolding get_into unserialize_base
unserialize_soul c r attr p =
    if attr == 21
    then get_into 4 p (λ v. record c { class = soul (record r { soul_gain = v }) })
    else if attr == 20
    then get_into 4 p (λ v. record c { class = soul (record r { soul_ticks = v }) })
    else unserialize_base c attr p

unfoldable pub unserialize_damage : Condition → Damage → ℕ → List ℕ → Option (Condition × List ℕ)
unfolding get_into get_interval unserialize_base
unserialize_damage c r attr p =
    if attr == 8
    then get_into 1 p (λ v. record c { class = damage (record r { delayed = v }) })
    else if attr == 9
    then get_into 4 p (λ v. record c { class = damage (record r { owner = v }) })
    else if attr == 10
    then elim (get_interval p) [
      | none ↦ none
      | some (i, p') ↦
          some
            (record c { class = damage (record r { damage_list = r.damage_list ++ i ∷ [] }) }, p')
    ]
    else unserialize_base c attr p

-- `attr = CONDITIONATTR_FORMULA_MINA` is an assignment too.
unfoldable pub unserialize_speed : Condition → Speed → ℕ → List ℕ → Option (Condition × List ℕ)
unfolding get_into
unserialize_speed c r attr p =
    if attr == 11
    then get_into 4 p (λ v. record c { class = speed (record r { speed_delta = v }) })
    else get_into 4 p (λ v. record c { class = speed (record r { mina = v }) })

unfoldable pub unserialize_light : Condition → Light → ℕ → List ℕ → Option (Condition × List ℕ)
unfolding get_into unserialize_base
unserialize_light c r attr p =
    if attr == 16
    then get_into 4 p (λ v. record c { class = light (record r { color = v }) })
    else if attr == 17
    then get_into 4 p (λ v. record c { class = light (record r { level = v }) })
    else if attr == 18
    then get_into 4 p (λ v. record c { class = light (record r { internal_light_ticks = v }) })
    else if attr == 19
    then get_into 4 p (λ v. record c { class = light (record r { light_change_interval = v }) })
    else unserialize_base c attr p

unfoldable pub unserialize_prop : Condition → Class → ℕ → List ℕ → Option (Condition × List ℕ)
unfolding unserialize_base unserialize_regeneration unserialize_soul unserialize_damage
    unserialize_speed unserialize_light
unserialize_prop c generic attr p = unserialize_base c attr p
unserialize_prop c (regeneration r) attr p = unserialize_regeneration c r attr p
unserialize_prop c (soul r) attr p = unserialize_soul c r attr p
unserialize_prop c (damage r) attr p = unserialize_damage c r attr p
unserialize_prop c (speed r) attr p = unserialize_speed c r attr p
unserialize_prop c (light r) attr p = unserialize_light c r attr p

-- The loop of unserialize: the condition and what is returned; `none` is a fuel that ran out.
unfoldable pub unserialize_loop : ℕ → Condition → List ℕ → Option (Condition × Bool)
unfolding get_uchar unserialize_prop
unserialize_loop zero c p = none
unserialize_loop (suc fuel) c p = elim (get_uchar p) [
  | none ↦ some (c, true)
  | some (attr, p') ↦ elim (unserialize_prop c c.class attr p') [
    | none ↦ some (c, false)
    | some (c', p'') ↦ unserialize_loop fuel c' p''
  ]
]

-- A turn for each byte at most, and the last test.
unfoldable pub unserialize : Condition → List ℕ → Option (Condition × Bool)
unfolding unserialize_loop
unserialize c p = unserialize_loop (length p + 1) c p
