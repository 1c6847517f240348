-- ===== src/Condition/Fields.antt =====
-- The bytes of a stored condition, field by field, and how they are read.
use evolution078ots.Prelude.{
  ℕ, zero, suc, ◌+◌, ◌≤◌, ◌<◌, true, false, some, List, [], ◌∷◌, ◌++◌, length, map, All,
  length-append, ltb, ◌≡◌, refl, sym, ap, ◌∙◌, subst, arith,
}
use mathlib.Core.List.{append_assoc, append-nil}
use evolution078ots.FileLoader.PropStream.{
  PropWriteStream, empty_stream, add_uchar, add_value, append_bytes, to_bytes, get_uchar, get_value,
}
use evolution078ots.FileLoader.PropStream.Stream.{
  length-to_bytes, get_value-to_bytes, value1, value4,
}
use evolution078ots.Condition.{
  Condition, Class, generic, regeneration, soul, damage, speed, light, Interval, Damage, add_word,
  serialize_base, add_intervals, serialize_class, serialize, get_into, get_interval,
  unserialize_prop, unserialize_damage, unserialize_loop, unserialize,
}

-- The fields of a stored condition: an attribute of 32 bits, of a byte, or an interval.
pub data Field : Type 0 where
  word : ℕ → ℕ → Field
  byte : ℕ → ℕ → Field
  interval : Interval → Field

abbrev pub attr : Field → ℕ
attr (word a v) = a
attr (byte a v) = a
attr (interval i) = 10

abbrev pub payload : Field → List ℕ
payload (word a v) = to_bytes 4 v
payload (byte a v) = to_bytes 1 v
payload (interval i) = to_bytes 4 i.time_left ++ (to_bytes 4 i.value ++ to_bytes 4 i.interval)

abbrev encode : List Field → List ℕ
encode [] = []
encode (f ∷ fs) = to_bytes 1 (attr f) ++ (payload f ++ encode fs)

abbrev pub class_fields : Class → List Field
class_fields generic = []
class_fields (regeneration r) =
    word 4 r.health_ticks ∷ word 5 r.health_gain ∷ word 6 r.mana_ticks ∷ word 7 r.mana_gain ∷ []
class_fields (soul r) = word 21 r.soul_gain ∷ word 20 r.soul_ticks ∷ []
class_fields (damage r) = byte 8 r.delayed ∷ word 9 r.owner ∷ map interval r.damage_list
class_fields (speed r) =
    word 11 r.speed_delta ∷ word 12 r.mina ∷ word 13 r.minb ∷ word 14 r.maxa ∷ word 15 r.maxb ∷ []
class_fields (light r) =
    word 16 r.color
    ∷ word 17 r.level
    ∷ word 18 r.internal_light_ticks
    ∷ word 19 r.light_change_interval
    ∷ []

abbrev pub fields : Condition → List Field
fields c = word 1 c.type ∷ word 2 c.id ∷ word 3 c.ticks ∷ class_fields c.class

abbrev add_field : PropWriteStream → Field → PropWriteStream
add_field s f = append_bytes (add_uchar s (attr f)) (payload f)

abbrev add_fields : PropWriteStream → List Field → PropWriteStream
add_fields s [] = s
add_fields s (f ∷ fs) = add_fields (add_field s f) fs

add_fields-encode :
    (s : PropWriteStream) (fs : List Field) → (add_fields s fs).buffer ≡ s.buffer ++ encode fs
unfolding append_bytes add_uchar add_value
add_fields-encode s [] = sym (append-nil s.buffer)
add_fields-encode s (f ∷ fs) =
    add_fields-encode (add_field s f) fs
    ∙ append_assoc (s.buffer ++ to_bytes 1 (attr f)) (payload f) (encode fs)
    ∙ append_assoc s.buffer (to_bytes 1 (attr f)) (payload f ++ encode fs)

add_intervals-add_fields :
    (s : PropWriteStream) (is : List Interval) → add_intervals s is ≡ add_fields s (map interval is)
unfolding add_intervals
add_intervals-add_fields s [] = refl
add_intervals-add_fields s (i ∷ is) = add_intervals-add_fields (add_field s (interval i)) is

serialize_class-add_fields :
    (k : Class) (s : PropWriteStream) → serialize_class k s ≡ add_fields s (class_fields k)
unfolding serialize_class add_word add_value
serialize_class-add_fields generic s = refl
serialize_class-add_fields (regeneration r) s = refl
serialize_class-add_fields (soul r) s = refl
serialize_class-add_fields (damage r) s =
    add_intervals-add_fields (add_field (add_field s (byte 8 r.delayed)) (word 9 r.owner))
      r.damage_list
serialize_class-add_fields (speed r) s = refl
serialize_class-add_fields (light r) s = refl

serialize-encode : (c : Condition) → (serialize c empty_stream).buffer ≡ encode (fields c)
unfolding serialize serialize_base add_word add_value empty_stream
serialize-encode c =
    ap (λ (s : PropWriteStream). s.buffer)
      (serialize_class-add_fields c.class (serialize_base c empty_stream))
    ∙ add_fields-encode empty_stream (fields c)

-- A field is read into a condition.
abbrev pub Step : Condition → Field → Condition → Type 0
Step c f c' =
    (rest : List ℕ) → unserialize_prop c c.class (attr f) (payload f ++ rest) ≡ some (c', rest)

-- Fields are read one after the other.
pub data Reads : Condition → List Field → Condition → Type 0 where
  done : (c : Condition) → Reads c [] c
  one_more :
      (c m : Condition) (f : Field) (fs : List Field) (c' : Condition)
      → attr f < 256
      → Step c f m
      → Reads m fs c'
      → Reads c (f ∷ fs) c'

unserialize_loop-Reads :
    (fuel : ℕ) (c : Condition) (fs : List Field) (c' : Condition)
    → Reads c fs c'
    → length fs < fuel
    → unserialize_loop fuel c (encode fs) ≡ some (c', true)
unfolding unserialize_loop get_uchar get_value
unserialize_loop-Reads zero c fs c' r h = absurd (omega (arith, h))
unserialize_loop-Reads (suc fuel) c [] c' (done _) h = refl
unserialize_loop-Reads (suc fuel) c (f ∷ fs) c' (one_more _ m _ _ _ small step r) h =
    rw
      (
        unserialize_loop,
        get_value-to_bytes 1 (attr f) (payload f ++ encode fs) (value1 (attr f) small),
      )
      (rw (step (encode fs)) (unserialize_loop-Reads fuel m fs c' r (omega (arith, h))))

length-encode : (fs : List Field) → length fs ≤ length (encode fs)
length-encode [] = omega arith
length-encode (f ∷ fs) = omega (
  arith,
  length-encode fs,
  length-append (to_bytes 1 (attr f)) (payload f ++ encode fs),
  length-append (payload f) (encode fs),
  length-to_bytes 1 (attr f),
)

pub unserialize-Reads :
    (c c0 c' : Condition)
    → Reads c0 (fields c) c'
    → unserialize c0 (serialize c empty_stream).buffer ≡ some (c', true)
unfolding unserialize
unserialize-Reads c c0 c' r =
    ap (λ p. unserialize_loop (length p + 1) c0 p) (serialize-encode c)
    ∙ unserialize_loop-Reads (length (encode (fields c)) + 1) c0 (fields c) c' r
        (omega (arith, length-encode (fields c)))

get_into-word :
    (v : ℕ) (rest : List ℕ) (set : ℕ → Condition)
    → v < 4294967296
    → get_into 4 (to_bytes 4 v ++ rest) set ≡ some (set v, rest)
unfolding get_into
get_into-word v rest set h = rw (get_into, get_value-to_bytes 4 v rest (value4 v h)) refl

get_into-byte :
    (v : ℕ) (rest : List ℕ) (set : ℕ → Condition)
    → v < 256
    → get_into 1 (to_bytes 1 v ++ rest) set ≡ some (set v, rest)
unfolding get_into
get_into-byte v rest set h = rw (get_into, get_value-to_bytes 1 v rest (value1 v h)) refl

abbrev pub Word : ℕ → Type 0
Word v = v < 4294967296

pub Reads-word :
    {c c' : Condition} {a v : ℕ} {fs : List Field} (set : ℕ → Condition)
    → ((p : List ℕ) → unserialize_prop c c.class a p ≡ get_into 4 p set)
    → a < 256
    → Word v
    → Reads (set v) fs c'
    → Reads c (word a v ∷ fs) c'
Reads-word {v = v} set same small h r =
    one_more _ (set v) _ _ _ small
      (λ rest. same (to_bytes 4 v ++ rest) ∙ get_into-word v rest set h) r

pub Reads-byte :
    {c c' : Condition} {a v : ℕ} {fs : List Field} (set : ℕ → Condition)
    → ((p : List ℕ) → unserialize_prop c c.class a p ≡ get_into 1 p set)
    → a < 256
    → v < 256
    → Reads (set v) fs c'
    → Reads c (byte a v ∷ fs) c'
Reads-byte {v = v} set same small h r =
    one_more _ (set v) _ _ _ small
      (λ rest. same (to_bytes 1 v ++ rest) ∙ get_into-byte v rest set h) r

-- The values of the fields have their widths.
abbrev pub InRange : Field → Type 0
InRange (word a v) = Word v
InRange (byte a v) = v < 256
InRange (interval i) = Word i.time_left × Word i.value × Word i.interval

at_least : (n : ℕ) (rest : List ℕ) → ltb (n + length rest) n ≡ false
at_least n rest = ground arith

get_interval-payload :
    (i : Interval) (rest : List ℕ)
    → InRange (interval i)
    → get_interval (payload (interval i) ++ rest) ≡ some (i, rest)
unfolding get_interval to_bytes
get_interval-payload i rest h =
    ground (arith, value4 i.time_left h.0, value4 i.value h.1, value4 i.interval h.2)

pub Reads-intervals :
    (c : Condition) (r : Damage) (is : List Interval)
    → All InRange (map interval is)
    → Reads
        (record c { class = damage r })
        (map interval is)
        (record c { class = damage (record r { damage_list = r.damage_list ++ is }) })
unfolding unserialize_prop unserialize_damage
Reads-intervals c r [] h =
    subst
      (λ l.
        Reads (record c { class = damage r }) []
          (record c { class = damage (record r { damage_list = l }) }))
      (sym (append-nil r.damage_list)) (done _)
Reads-intervals c r (i ∷ is) h =
    let r' : Damage = record r { damage_list = r.damage_list ++ i ∷ [] } in
    one_more _ (record c { class = damage r' }) _ _ _ (omega arith)
      (λ rest. rw (get_interval-payload i rest h.0) refl)
      (subst
        (λ l.
          Reads (record c { class = damage r' }) (map interval is)
            (record c { class = damage (record r { damage_list = l }) }))
        (append_assoc r.damage_list (i ∷ []) is) (Reads-intervals c r' is h.1))
