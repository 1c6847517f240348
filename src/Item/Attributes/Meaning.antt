-- ===== src/Item/Attributes/Meaning.antt =====
-- What the attributes of an item are after any sequence of calls.
use evolution078ots.Prelude.{
  ℕ, ◌+◌, ◌%◌, ◌^◌, true, false, not, ◌&&◌, ◌||◌, Option, none, some, List, [], ◌∷◌, ◌==◌,
  if◌then◌else◌, ◌≡◌, refl, sym, ap, ◌∙◌, arith, Bool-cases, inl, inr,
}
use evolution078ots.Ban.{Text}
use evolution078ots.Item.Attributes.{
  AttrType, action_id, unique_id, desc, text, owner, duration, decaying, bit, Value, null, number,
  string, Attributes, no_attributes, find_attr, get_attr, is_some, validate_int_attr_type,
  validate_str_attr_type, change_attr, has_attribute, get_int_attr, get_str_attr, set_int_attr,
  increase_int_attr, set_str_attr, plus, is_empty, number_in, string_in,
}
use evolution078ots.Item.Attributes.Refinement.{
  IsMarked, get_attr-IsMarked, or_null, get_attr-change_attr, IsMarked-change_attr,
  IsMarked-no_attributes,
}

-- The calls that change attributes.
pub data Call : Type 0 where
  set_int : AttrType → ℕ → Call
  increase : AttrType → ℕ → Call
  set_str : AttrType → Text → Call

unfoldable pub call : Attributes → Call → Attributes
unfolding set_int_attr increase_int_attr set_str_attr
call s (set_int t n) = set_int_attr s t n
call s (increase t n) = increase_int_attr s t n
call s (set_str t value) = set_str_attr s t value

unfoldable pub run : Attributes → List Call → Attributes
unfolding call
run s [] = s
run s (c ∷ cs) = run (call s c) cs

-- The numbers and the texts by their types.
pub record Meaning : Type 0 where
  pub numbers : AttrType → Option ℕ
  pub texts : AttrType → Text

abbrev pub or_zero : Option ℕ → ℕ
or_zero none = 0
or_zero (some n) = n

unfoldable pub after : Meaning → Call → Meaning
after m (set_int t n) =
    if validate_int_attr_type t
    then record m { numbers = λ u. if bit t == bit u then some (n % 2 ^ 32) else m.numbers u }
    else m
after m (increase t n) =
    if validate_int_attr_type t
    then record m {
      numbers =
          λ u. if bit t == bit u then some ((or_zero (m.numbers u) + n) % 2 ^ 32) else m.numbers u;
    }
    else m
after m (set_str t value) =
    if not (validate_str_attr_type t) || is_empty value
    then m
    else record m { texts = λ u. if bit t == bit u then value else m.texts u }

unfoldable pub meaning : Meaning → List Call → Meaning
unfolding after
meaning m [] = m
meaning m (c ∷ cs) = meaning (after m c) cs

abbrev pub no_meaning : Meaning
no_meaning = record { numbers = λ t. none; texts = λ t. [] }

-- The number that stands for an attribute, if it holds one.
abbrev shown_number : Option Value → Option (Option ℕ)
shown_number none = some none
shown_number (some null) = some (some 0)
shown_number (some (number n)) = some (some (n % 2 ^ 32))
shown_number (some (string s)) = none

abbrev shown_text : Option Value → Option Text
shown_text none = some []
shown_text (some null) = none
shown_text (some (number n)) = none
shown_text (some (string s)) = some s

abbrev Shows : Attributes → Meaning → Type 0
Shows s m =
    IsMarked s
    × ((t : AttrType)
        → validate_int_attr_type t ≡ true
        → shown_number (find_attr t s.attrs) ≡ some (m.numbers t))
    × ((t : AttrType)
        → validate_str_attr_type t ≡ true
        → shown_text (find_attr t s.attrs) ≡ some (m.texts t))

kinds_by_bit :
    (t : AttrType)
    → (validate_int_attr_type t ≡ not ((bit t == 4) || (bit t == 8)))
      × (validate_str_attr_type t ≡ (bit t == 4) || (bit t == 8))
unfolding validate_int_attr_type validate_str_attr_type bit
kinds_by_bit action_id = (refl, refl)
kinds_by_bit unique_id = (refl, refl)
kinds_by_bit desc = (refl, refl)
kinds_by_bit text = (refl, refl)
kinds_by_bit owner = (refl, refl)
kinds_by_bit duration = (refl, refl)
kinds_by_bit decaying = (refl, refl)

kinds_apart :
    (t u : AttrType)
    → validate_int_attr_type t ≡ true
    → validate_str_attr_type u ≡ true
    → ((bit t == bit u) ≡ false) × ((bit u == bit t) ≡ false)
kinds_apart t u h i =
    let x = sym (kinds_by_bit t).0 ∙ h in
    let y = sym (kinds_by_bit u).1 ∙ i in (ground (arith, x, y), ground (arith, x, y))

shown_plus :
    (n : ℕ) (o : Option Value) (m : Option ℕ)
    → shown_number o ≡ some m
    → shown_number (some (plus n (or_null o))) ≡ some (some ((or_zero m + n) % 2 ^ 32))
shown_plus n none m h = ground (arith, h)
shown_plus n (some null) m h = ground (arith, h)
shown_plus n (some (number k)) m h = ground (arith, h)
shown_plus n (some (string s)) m h = cc

-- A change of a number.
Shows-number :
    (s : Attributes) (m : Meaning) (t : AttrType) (f : Value → Value) (g : Option ℕ → ℕ)
    → validate_int_attr_type t ≡ true
    → ((o : Option Value) (x : Option ℕ)
        → shown_number o ≡ some x
        → shown_number (some (f (or_null o))) ≡ some (some (g x)))
    → Shows s m
    → Shows
        (change_attr s t f)
        (record m { numbers = λ u. if bit t == bit u then some (g (m.numbers u)) else m.numbers u })
Shows-number s m t f g kind agree (marked, ints, strs) = (
  IsMarked-change_attr s t f marked,
  λ u int. ap shown_number (get_attr-change_attr s t u f marked) ∙ number_at u (ints u int),
  λ u str.
      ap shown_text (get_attr-change_attr s t u f marked ∙ rw (kinds_apart t u kind str).0 refl)
      ∙ strs u str,
)
  where
    number_at :
        (u : AttrType)
        → shown_number (find_attr u s.attrs) ≡ some (m.numbers u)
        → shown_number (
            if bit t == bit u
            then some (f (or_null (find_attr u s.attrs)))
            else find_attr u s.attrs)
          ≡ some (if bit t == bit u then some (g (m.numbers u)) else m.numbers u)
    number_at u h = elim (Bool-cases (bit t == bit u)) [
      | inl same ↦ rw same (agree (find_attr u s.attrs) (m.numbers u) h)
      | inr other ↦ rw other h
    ]

Shows-text :
    (s : Attributes) (m : Meaning) (t : AttrType) (value : Text)
    → validate_str_attr_type t ≡ true
    → Shows s m
    → Shows
        (change_attr s t (λ _. string value))
        (record m { texts = λ u. if bit t == bit u then value else m.texts u })
Shows-text s m t value kind (marked, ints, strs) = (
  IsMarked-change_attr s t (λ _. string value) marked,
  λ u int.
      ap shown_number (
        get_attr-change_attr s t u (λ _. string value) marked
        ∙ rw (kinds_apart u t int kind).1 refl)
      ∙ ints u int,
  λ u str.
      ap shown_text (get_attr-change_attr s t u (λ _. string value) marked)
      ∙ text_at u (strs u str),
)
  where
    text_at :
        (u : AttrType)
        → shown_text (find_attr u s.attrs) ≡ some (m.texts u)
        → shown_text (if bit t == bit u then some (string value) else find_attr u s.attrs)
          ≡ some (if bit t == bit u then value else m.texts u)
    text_at u h = elim (Bool-cases (bit t == bit u)) [
      | inl same ↦ rw same refl
      | inr other ↦ rw other h
    ]

call-Shows : (s : Attributes) (m : Meaning) (c : Call) → Shows s m → Shows (call s c) (after m c)
unfolding call set_int_attr increase_int_attr set_str_attr after
call-Shows s m (set_int t n) h = elim (Bool-cases (validate_int_attr_type t)) [
  | inl kind ↦ rw kind (
      Shows-number s m t (λ _. number (n % 2 ^ 32)) (λ _. n % 2 ^ 32) kind
        (λ o x e. ap (λ k. some (some k)) (omega arith)) h)
  | inr other ↦ rw other h
]
call-Shows s m (increase t n) h = elim (Bool-cases (validate_int_attr_type t)) [
  | inl kind ↦
      rw kind (Shows-number s m t (plus n) (λ x. (or_zero x + n) % 2 ^ 32) kind (shown_plus n) h)
  | inr other ↦ rw other h
]
call-Shows s m (set_str t value) h =
    elim (Bool-cases (not (validate_str_attr_type t) || is_empty value)) [
      | inl kept ↦ rw kept h
      | inr kind ↦ rw kind (Shows-text s m t value (ground (arith, kind)) h)
    ]

run-Shows :
    (s : Attributes) (m : Meaning) (cs : List Call) → Shows s m → Shows (run s cs) (meaning m cs)
unfolding run meaning
run-Shows s m [] h = h
run-Shows s m (c ∷ cs) h = run-Shows (call s c) (after m c) cs (call-Shows s m c h)

no_attributes-Shows : Shows no_attributes no_meaning
unfolding no_attributes find_attr
no_attributes-Shows = (IsMarked-no_attributes, λ t h. refl, λ t h. refl)

-- What the attributes answer.
abbrev pub Answers : Attributes → Meaning → AttrType → Type 0
Answers s m t =
    (has_attribute s t ≡ validate_int_attr_type t && is_some (m.numbers t))
    × (get_int_attr s t ≡ some (if validate_int_attr_type t then or_zero (m.numbers t) else 0))
    × (get_str_attr s t ≡ some (if validate_str_attr_type t then m.texts t else []))

answer_number :
    (o : Option Value) (x : Option ℕ)
    → shown_number o ≡ some x
    → (is_some o ≡ is_some x)
      × ((elim o [ none ↦ some 0 | some v ↦ number_in v ]) ≡ some (or_zero x))
answer_number none x h = (ground (arith, h), ground (arith, h))
answer_number (some null) x h = (ground (arith, h), ground (arith, h))
answer_number (some (number n)) x h = (ground (arith, h), ground (arith, h))
answer_number (some (string s)) x h = (cc, cc)

answer_text :
    (o : Option Value) (x : Text)
    → shown_text o ≡ some x
    → (elim o [ none ↦ some [] | some v ↦ string_in v ]) ≡ some x
answer_text none x h = h
answer_text (some null) x h = cc
answer_text (some (number n)) x h = cc
answer_text (some (string s)) x h = h

Shows-Answers : (s : Attributes) (m : Meaning) (t : AttrType) → Shows s m → Answers s m t
unfolding has_attribute get_int_attr get_str_attr
Shows-Answers s m t (marked, ints, strs) = (has, int, str)
  where
    found : get_attr s t ≡ find_attr t s.attrs
    found = get_attr-IsMarked s t marked

    has : has_attribute s t ≡ validate_int_attr_type t && is_some (m.numbers t)
    has = elim (Bool-cases (validate_int_attr_type t)) [
      | inl kind ↦
          rw kind
            (ap is_some found ∙ (answer_number (find_attr t s.attrs) (m.numbers t) (ints t kind)).0)
      | inr other ↦ rw other refl
    ]

    int : get_int_attr s t ≡ some (if validate_int_attr_type t then or_zero (m.numbers t) else 0)
    int = elim (Bool-cases (validate_int_attr_type t)) [
      | inl kind ↦
          rw (kind, found) (answer_number (find_attr t s.attrs) (m.numbers t) (ints t kind)).1
      | inr other ↦ rw other refl
    ]

    str : get_str_attr s t ≡ some (if validate_str_attr_type t then m.texts t else [])
    str = elim (Bool-cases (validate_str_attr_type t)) [
      | inl kind ↦ rw (kind, found) (answer_text (find_attr t s.attrs) (m.texts t) (strs t kind))
      | inr other ↦ rw other refl
    ]

-- After any calls on new attributes, each number is the one last set, with what was added since, in 32
-- bits, each text the last one that is not empty, and an attribute of a number is there once it is set
-- or added to; what is asked of a type of the other kind is 0, empty or not there, and a value is never
-- taken for one of the other kind.
pub run-Answers :
    (cs : List Call) (t : AttrType) → Answers (run no_attributes cs) (meaning no_meaning cs) t
run-Answers cs t =
    Shows-Answers (run no_attributes cs) (meaning no_meaning cs) t
      (run-Shows no_attributes no_meaning cs no_attributes-Shows)
