-- ===== src/Item/Attributes.antt =====
-- The class ItemAttributes of source/item.cpp: the attributes that an item has beside its type.
use evolution078ots.Prelude.{
  ℕ, zero, suc, ◌+◌, ◌-◌, ◌*◌, ◌%◌, ◌^◌, Bool, true, false, not, ◌&&◌, ◌||◌, Option, none, some,
  List, [], ◌∷◌, ◌++◌, ltb, ◌==◌, if◌then◌else◌,
}
use evolution078ots.Prelude.Bits.{bit_and, bit_or}
use evolution078ots.Ban.{Text}
pub mod Refinement
pub mod Meaning
mod Examples

-- itemAttrTypes.
pub data AttrType : Type 0 where
  action_id unique_id desc text owner duration decaying : AttrType

unfoldable pub bit : AttrType → ℕ
bit action_id = 1
bit unique_id = 2
bit desc = 4
bit text = 8
bit owner = 65536
bit duration = 131072
bit decaying = 262144

-- What the pointer `value` holds: NULL, a number or a string.
pub data Value : Type 0 where
  null : Value
  number : ℕ → Value
  string : Text → Value

pub record Attribute : Type 0 where
  pub type : AttrType
  pub value : Value

-- `attrs` is the list from m_firstAttr on.
pub record Attributes : Type 0 where
  pub mask : ℕ
  pub attrs : List Attribute

unfoldable pub no_attributes : Attributes
no_attributes = record { mask = 0; attrs = [] }

unfoldable pub validate_int_attr_type : AttrType → Bool
validate_int_attr_type action_id = true
validate_int_attr_type unique_id = true
validate_int_attr_type desc = false
validate_int_attr_type text = false
validate_int_attr_type owner = true
validate_int_attr_type duration = true
validate_int_attr_type decaying = true

unfoldable pub validate_str_attr_type : AttrType → Bool
validate_str_attr_type action_id = false
validate_str_attr_type unique_id = false
validate_str_attr_type desc = true
validate_str_attr_type text = true
validate_str_attr_type owner = false
validate_str_attr_type duration = false
validate_str_attr_type decaying = false

unfoldable pub is_type : AttrType → Attribute → Bool
is_type t a = bit a.type == bit t

unfoldable pub has_bit : Attributes → AttrType → Bool
unfolding bit_and
has_bit s t = not (bit_and 32 (bit t) s.mask == 0)

unfoldable pub find_attr : AttrType → List Attribute → Option Value
unfolding is_type
find_attr t [] = none
find_attr t (a ∷ rest) = let later = find_attr t rest in if is_type t a then some a.value else later

-- getAttr of an object that does not change.
unfoldable pub get_attr : Attributes → AttrType → Option Value
unfolding has_bit find_attr
get_attr s t = if has_bit s t then find_attr t s.attrs else none

unfoldable pub add_attr : Attributes → Attribute → Attributes
unfolding bit_or
add_attr s a = record { mask = bit_or 32 s.mask (bit a.type); attrs = s.attrs ++ a ∷ [] }

abbrev pub is_some {ℓ} : {A : Type ℓ} → Option A → Bool
is_some none = false
is_some (some a) = true

-- getAttr of an object that may change: an attribute that is not there is added.
unfoldable pub need_attr : Attributes → AttrType → Attributes
unfolding has_bit add_attr find_attr
need_attr s t =
    if has_bit s t && is_some (find_attr t s.attrs)
    then s
    else add_attr s (record { type = t; value = null })

-- The value of an attribute is changed where it stands.
unfoldable pub change_value : AttrType → (Value → Value) → List Attribute → List Attribute
unfolding is_type
change_value t f [] = []
change_value t f (a ∷ rest) =
    let later = change_value t f rest in
    if is_type t a then record a { value = f a.value } ∷ rest else a ∷ later

unfoldable pub change_attr : Attributes → AttrType → (Value → Value) → Attributes
unfolding need_attr change_value
change_attr s t f = let s' = need_attr s t in record s' { attrs = change_value t f s'.attrs }

unfoldable pub has_attribute : Attributes → AttrType → Bool
unfolding validate_int_attr_type get_attr
has_attribute s t = validate_int_attr_type t && is_some (get_attr s t)

-- The number in a value; a pointer to a string is none that could be told.
abbrev pub number_in : Value → Option ℕ
number_in null = some 0
number_in (number n) = some (n % 2 ^ 32)
number_in (string s) = none

-- The string that a value leads to; what is no pointer to one has no defined behaviour.
abbrev pub string_in : Value → Option Text
string_in null = none
string_in (number n) = none
string_in (string s) = some s

unfoldable pub get_int_attr : Attributes → AttrType → Option ℕ
unfolding validate_int_attr_type get_attr
get_int_attr s t =
    if validate_int_attr_type t
    then elim (get_attr s t) [ none ↦ some 0 | some v ↦ number_in v ]
    else some 0

unfoldable pub get_str_attr : Attributes → AttrType → Option Text
unfolding validate_str_attr_type get_attr
get_str_attr s t =
    if validate_str_attr_type t
    then elim (get_attr s t) [ none ↦ some [] | some v ↦ string_in v ]
    else some []

unfoldable pub set_int_attr : Attributes → AttrType → ℕ → Attributes
unfolding validate_int_attr_type change_attr
set_int_attr s t n =
    if validate_int_attr_type t then change_attr s t (λ _. number (n % 2 ^ 32)) else s

-- The sum in the pointer has 64 bits.
abbrev pub plus : ℕ → Value → Value
plus n null = number (n % 2 ^ 32)
plus n (number m) = number ((m + n % 2 ^ 32) % 2 ^ 64)
plus n (string s) = string s

unfoldable pub increase_int_attr : Attributes → AttrType → ℕ → Attributes
unfolding validate_int_attr_type change_attr
increase_int_attr s t n = if validate_int_attr_type t then change_attr s t (plus n) else s

abbrev pub is_empty : Text → Bool
is_empty [] = true
is_empty (c ∷ s) = false

unfoldable pub set_str_attr : Attributes → AttrType → Text → Attributes
unfolding validate_str_attr_type change_attr
set_str_attr s t value =
    if not (validate_str_attr_type t) || is_empty value
    then s
    else change_attr s t (λ _. string value)

unfoldable pub set_action_id : Attributes → ℕ → Attributes
unfolding set_int_attr
set_action_id s n = let m = n % 2 ^ 16 in set_int_attr s action_id (if ltb m 100 then 100 else m)

unfoldable pub set_unique_id : Attributes → ℕ → Attributes
unfolding set_int_attr
set_unique_id s n = let m = n % 2 ^ 16 in set_int_attr s unique_id (if ltb m 1000 then 1000 else m)

-- decreaseDuration; the time is an int32_t, as 32 bits.
unfoldable pub decrease_duration : Attributes → ℕ → Attributes
unfolding increase_int_attr
decrease_duration s time = increase_int_attr s duration ((2 ^ 32 - time % 2 ^ 32) % 2 ^ 32)
