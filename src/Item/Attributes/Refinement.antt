-- ===== src/Item/Attributes/Refinement.antt =====
-- The mask and the list of the attributes are a map from the types to values.
use evolution078ots.Prelude.{
  ℕ, ◌<◌, Bool, true, not, ◌||◌, Option, none, some, List, [], ◌∷◌, ◌++◌, ◌==◌, ==_iff,
  if◌then◌else◌, ◌≡◌, refl, sym, ap, ◌∙◌, subst, arith, Option-cases, inl, inr,
}
use evolution078ots.Prelude.Bits.{
  bit_of, test, bit_and, bit_or, bit_and-bit_of, test-bit_or, bit_of_same,
}
use evolution078ots.Item.Attributes.{
  AttrType, action_id, unique_id, desc, text, owner, duration, decaying, bit, Value, null,
  Attribute, Attributes, no_attributes, is_type, has_bit, find_attr, get_attr, add_attr, is_some,
  need_attr, change_value, change_attr,
}

-- The number of the bit of a type.
index : AttrType → ℕ
index action_id = 0
index unique_id = 1
index desc = 2
index text = 3
index owner = 16
index duration = 17
index decaying = 18

bit_index : (t : AttrType) → (bit t ≡ bit_of (index t)) × (index t < 32)
unfolding bit bit_of index
bit_index action_id = (refl, omega arith)
bit_index unique_id = (refl, omega arith)
bit_index desc = (refl, omega arith)
bit_index text = (refl, omega arith)
bit_index owner = (refl, omega arith)
bit_index duration = (refl, omega arith)
bit_index decaying = (refl, omega arith)

has_bit-test : (s : Attributes) (t : AttrType) → has_bit s t ≡ not (test (index t) s.mask == 0)
unfolding has_bit
has_bit-test s t =
    ap (λ b. not (bit_and 32 b s.mask == 0)) (bit_index t).0
    ∙ ap not (bit_and-bit_of 32 (index t) s.mask (bit_index t).1)

bit_set : (j k m : ℕ) → not ((if j == k then 1 else m) == 0) ≡ (k == j) || not (m == 0)
bit_set j k m = ground arith

same_bit : (t u : AttrType) → (bit t == bit u) ≡ (index t == index u)
same_bit t u =
    ap (λ x. x == bit u) (bit_index t).0
    ∙ ap (λ x. bit_of (index t) == x) (bit_index u).0
    ∙ bit_of_same (index t) (index u)

has_bit-add_attr :
    (s : Attributes) (a : Attribute) (t : AttrType)
    → has_bit (add_attr s a) t ≡ (bit a.type == bit t) || has_bit s t
unfolding add_attr
has_bit-add_attr s a t =
    has_bit-test (add_attr s a) t
    ∙ ap (λ b. not (test (index t) (bit_or 32 s.mask b) == 0)) (bit_index a.type).0
    ∙ ap (λ n. not (n == 0))
        (test-bit_or 32 (index t) (index a.type) s.mask (bit_index t).1 (bit_index a.type).1)
    ∙ bit_set (index t) (index a.type) (test (index t) s.mask)
    ∙ ap (λ x. x || not (test (index t) s.mask == 0)) (sym (same_bit a.type t))
    ∙ ap (λ x. (bit a.type == bit t) || x) (sym (has_bit-test s t))

find_attr-append :
    (t : AttrType) (l : List Attribute) (a : Attribute)
    → find_attr t (l ++ a ∷ []) ≡ elim (find_attr t l) [
      | some v ↦ some v
      | none ↦ if bit a.type == bit t then some a.value else none
    ]
unfolding find_attr is_type
find_attr-append t [] a = refl
find_attr-append t (b ∷ l) a = ground (arith, find_attr-append t l a)

abbrev pub map_value : (Value → Value) → Option Value → Option Value
map_value f none = none
map_value f (some v) = some (f v)

find_attr-change_value :
    (t u : AttrType) (f : Value → Value) (l : List Attribute)
    → find_attr u (change_value t f l)
      ≡ (if bit t == bit u then map_value f (find_attr u l) else find_attr u l)
unfolding find_attr change_value is_type
find_attr-change_value t u f [] = ground arith
find_attr-change_value t u f (a ∷ l) = ground (arith, find_attr-change_value t u f l)

-- The bit of a type is set if there is an attribute of it.
abbrev pub IsMarked : Attributes → Type 0
IsMarked s = (t : AttrType) → has_bit s t ≡ is_some (find_attr t s.attrs)

pub get_attr-IsMarked :
    (s : Attributes) (t : AttrType) → IsMarked s → get_attr s t ≡ find_attr t s.attrs
unfolding get_attr
get_attr-IsMarked s t h = ground (arith, h t)

abbrev pub or_null : Option Value → Value
or_null none = null
or_null (some v) = v

find_attr_same :
    (t u : AttrType) (l : List Attribute) → (bit t == bit u) ≡ true → find_attr u l ≡ find_attr t l
unfolding find_attr is_type
find_attr_same t u [] h = refl
find_attr_same t u (a ∷ l) h = ground (arith, find_attr_same t u l h, (==_iff (bit t) (bit u)).0 h)

need_attr_there :
    (s : Attributes) (t : AttrType) (v : Value)
    → IsMarked s
    → find_attr t s.attrs ≡ some v
    → need_attr s t ≡ s
unfolding need_attr
need_attr_there s t v h e = ground (arith, h t, e)

need_attr_new :
    (s : Attributes) (t : AttrType)
    → find_attr t s.attrs ≡ none
    → need_attr s t ≡ add_attr s (record { type = t; value = null })
unfolding need_attr
need_attr_new s t e = ground (arith, e)

attrs-add_attr : (s : Attributes) (a : Attribute) → (add_attr s a).attrs ≡ s.attrs ++ a ∷ []
unfolding add_attr
attrs-add_attr s a = refl

find_attr-need_attr :
    (s : Attributes) (t u : AttrType)
    → IsMarked s
    → find_attr u (need_attr s t).attrs
      ≡ (if bit t == bit u then some (or_null (find_attr u s.attrs)) else find_attr u s.attrs)
find_attr-need_attr s t u h = elim (Option-cases (find_attr t s.attrs)) [
  | inr (v, e) ↦
      ap (λ (x : Attributes). find_attr u x.attrs) (need_attr_there s t v h e)
      ∙ ground (arith, e, find_attr_same t u s.attrs)
  | inl e ↦
      let new : Attribute = record { type = t; value = null } in
      ap (λ (x : Attributes). find_attr u x.attrs) (need_attr_new s t e)
      ∙ ap (find_attr u) (attrs-add_attr s new)
      ∙ find_attr-append u s.attrs new
      ∙ ground (arith, e, find_attr_same t u s.attrs)
]

IsMarked-need_attr : (s : Attributes) (t : AttrType) → IsMarked s → IsMarked (need_attr s t)
IsMarked-need_attr s t h u = elim (Option-cases (find_attr t s.attrs)) [
  | inr (v, e) ↦
      subst (λ (x : Attributes). has_bit x u ≡ is_some (find_attr u x.attrs))
        (sym (need_attr_there s t v h e)) (h u)
  | inl e ↦
      let new : Attribute = record { type = t; value = null } in
      subst (λ (x : Attributes). has_bit x u ≡ is_some (find_attr u x.attrs))
        (sym (need_attr_new s t e))
        (has_bit-add_attr s new u
          ∙ marked_or (find_attr u s.attrs) (has_bit s u) (bit t == bit u) (h u)
          ∙ ap is_some
              (sym (ap (find_attr u) (attrs-add_attr s new) ∙ find_attr-append u s.attrs new)))
]
  where
    marked_or :
        (o : Option Value) (x same : Bool)
        → x ≡ is_some o
        → same || x ≡ is_some (elim o [ some v ↦ some v | none ↦ if same then some null else none ])
    marked_or none x same e = ground (arith, e)
    marked_or (some v) x same e = ground (arith, e)

-- An attribute that is changed.
pub get_attr-change_attr :
    (s : Attributes) (t u : AttrType) (f : Value → Value)
    → IsMarked s
    → find_attr u (change_attr s t f).attrs
      ≡ (if bit t == bit u then some (f (or_null (find_attr u s.attrs))) else find_attr u s.attrs)
unfolding change_attr
get_attr-change_attr s t u f h =
    find_attr-change_value t u f (need_attr s t).attrs ∙ ground (arith, find_attr-need_attr s t u h)

is_some-map_value : (f : Value → Value) (o : Option Value) → is_some (map_value f o) ≡ is_some o
is_some-map_value f none = refl
is_some-map_value f (some v) = refl

pub IsMarked-change_attr :
    (s : Attributes) (t : AttrType) (f : Value → Value) → IsMarked s → IsMarked (change_attr s t f)
unfolding change_attr has_bit
IsMarked-change_attr s t f h u =
    IsMarked-need_attr s t h u
    ∙ sym (
        ap is_some (find_attr-change_value t u f (need_attr s t).attrs)
        ∙ ground (arith, is_some-map_value f (find_attr u (need_attr s t).attrs)))

pub IsMarked-no_attributes : IsMarked no_attributes
unfolding no_attributes has_bit find_attr bit bit_and
IsMarked-no_attributes action_id = refl
IsMarked-no_attributes unique_id = refl
IsMarked-no_attributes desc = refl
IsMarked-no_attributes text = refl
IsMarked-no_attributes owner = refl
IsMarked-no_attributes duration = refl
IsMarked-no_attributes decaying = refl
