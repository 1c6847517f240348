-- ===== src/Condition/Stored.antt =====
-- What comes back of a condition that is written and read.
use evolution078ots.Prelude.{true, some, ◌++◌, All, ◌≡◌, refl, arith}
use evolution078ots.FileLoader.PropStream.{empty_stream}
use evolution078ots.Condition.{
  Condition, Class, generic, regeneration, soul, damage, speed, light, Damage, Soul, Light,
  Regeneration, Speed, serialize, unserialize_prop, unserialize_base, unserialize_damage,
  unserialize_soul, unserialize_light, unserialize_regeneration, unserialize_speed, unserialize,
}
use evolution078ots.Condition.Fields.{
  fields, InRange, Reads, done, unserialize-Reads, Reads-word, Reads-byte, Reads-intervals,
}

-- A condition of a class that is stored in full, and the one that it is read into.
pub data Pair : Type 0 where
  generics : Pair
  souls : Soul → Soul → Pair
  damages : Damage → Damage → Pair
  lights : Light → Light → Pair

abbrev pub blank : Pair → Class
blank generics = generic
blank (souls r0 r) = soul r0
blank (damages r0 r) = damage r0
blank (lights r0 r) = light r0

abbrev pub stored : Pair → Class
stored generics = generic
stored (souls r0 r) = soul r
stored (damages r0 r) = damage r
stored (lights r0 r) = light r

abbrev pub restored : Pair → Class
restored generics = generic
restored (souls r0 r) = soul (record r0 { soul_gain = r.soul_gain; soul_ticks = r.soul_ticks })
restored (damages r0 r) = damage (record r0 {
  delayed = r.delayed;
  owner = r.owner;
  damage_list = r0.damage_list ++ r.damage_list;
})
restored (lights r0 r) = light r

Reads-stored :
    (c0 c : Condition) (p : Pair)
    → All InRange (fields (record c { class = stored p }))
    → Reads
        (record c0 { class = blank p })
        (fields (record c { class = stored p }))
        (record c { class = restored p })
unfolding unserialize_prop unserialize_base unserialize_soul unserialize_damage unserialize_light
Reads-stored c0 c generics (a, (b, (d, _))) =
    Reads-word _ (λ p. refl) (omega arith) a
      (Reads-word _ (λ p. refl) (omega arith) b (Reads-word _ (λ p. refl) (omega arith) d (done _)))
Reads-stored c0 c (souls r0 r) (a, (b, (d, (e, (f, _))))) =
    Reads-word _ (λ p. refl) (omega arith) a
      (Reads-word _ (λ p. refl) (omega arith) b
        (Reads-word _ (λ p. refl) (omega arith) d
          (Reads-word _ (λ p. refl) (omega arith) e
            (Reads-word _ (λ p. refl) (omega arith) f (done _)))))
Reads-stored c0 c (damages r0 r) (a, (b, (d, (e, (f, g))))) =
    Reads-word _ (λ p. refl) (omega arith) a
      (Reads-word _ (λ p. refl) (omega arith) b
        (Reads-word _ (λ p. refl) (omega arith) d
          (Reads-byte _ (λ p. refl) (omega arith) e
            (Reads-word _ (λ p. refl) (omega arith) f
              (Reads-intervals c (record r0 { delayed = r.delayed; owner = r.owner }) r.damage_list
                g)))))
Reads-stored c0 c (lights r0 r) (a, (b, (d, (e, (f, (g, (h, _))))))) =
    Reads-word _ (λ p. refl) (omega arith) a
      (Reads-word _ (λ p. refl) (omega arith) b
        (Reads-word _ (λ p. refl) (omega arith) d
          (Reads-word _ (λ p. refl) (omega arith) e
            (Reads-word _ (λ p. refl) (omega arith) f
              (Reads-word _ (λ p. refl) (omega arith) g
                (Reads-word _ (λ p. refl) (omega arith) h (done _)))))))

-- A condition of a class that is not read as it was written.
pub data LossyPair : Type 0 where
  regenerations : Regeneration → Regeneration → LossyPair
  speeds : Speed → Speed → LossyPair

abbrev pub lossy_blank : LossyPair → Class
lossy_blank (regenerations r0 r) = regeneration r0
lossy_blank (speeds r0 r) = speed r0

abbrev pub lossy_stored : LossyPair → Class
lossy_stored (regenerations r0 r) = regeneration r
lossy_stored (speeds r0 r) = speed r

abbrev pub left : LossyPair → Class
left (regenerations r0 r) =
    regeneration (record r0 { health_ticks = r.health_ticks; health_gain = r.mana_gain })
left (speeds r0 r) = speed (record r0 { speed_delta = r.speed_delta; mina = r.maxb })

Reads-lossy :
    (c0 c : Condition) (p : LossyPair)
    → All InRange (fields (record c { class = lossy_stored p }))
    → Reads
        (record c0 { class = lossy_blank p })
        (fields (record c { class = lossy_stored p }))
        (record c0 { class = left p })
unfolding unserialize_prop unserialize_regeneration unserialize_speed
Reads-lossy c0 c (regenerations r0 r) (a, (b, (d, (e, (f, (g, (h, _))))))) =
    Reads-word _ (λ p. refl) (omega arith) a
      (Reads-word _ (λ p. refl) (omega arith) b
        (Reads-word _ (λ p. refl) (omega arith) d
          (Reads-word _ (λ p. refl) (omega arith) e
            (Reads-word _ (λ p. refl) (omega arith) f
              (Reads-word _ (λ p. refl) (omega arith) g
                (Reads-word _ (λ p. refl) (omega arith) h (done _)))))))
Reads-lossy c0 c (speeds r0 r) (a, (b, (d, (e, (f, (g, (h, (i, _)))))))) =
    Reads-word _ (λ p. refl) (omega arith) a
      (Reads-word _ (λ p. refl) (omega arith) b
        (Reads-word _ (λ p. refl) (omega arith) d
          (Reads-word _ (λ p. refl) (omega arith) e
            (Reads-word _ (λ p. refl) (omega arith) f
              (Reads-word _ (λ p. refl) (omega arith) g
                (Reads-word _ (λ p. refl) (omega arith) h
                  (Reads-word _ (λ p. refl) (omega arith) i (done _))))))))

-- A condition of one of these classes that is written, and read into one of its class, is read without
-- an error: type, id, ticks and what its class stores are those that were written, where the intervals
-- of damage go behind those that are there already. The values have the widths of their types.
pub unserialize-serialize :
    (c0 c : Condition) (p : Pair)
    → All InRange (fields (record c { class = stored p }))
    → unserialize
        (record c0 { class = blank p })
        (serialize (record c { class = stored p }) empty_stream).buffer
      ≡ some (record c { class = restored p }, true)
unserialize-serialize c0 c p h =
    unserialize-Reads (record c { class = stored p }) (record c0 { class = blank p })
      (record c { class = restored p }) (Reads-stored c0 c p h)

-- A regeneration or a change of speed is read without an error, but not as it was written: type, id and
-- ticks stay as they were, of a regeneration only healthTicks comes back, with manaGain as healthGain,
-- and of a change of speed only speedDelta, with maxb as mina.
pub unserialize-serialize_lossy :
    (c0 c : Condition) (p : LossyPair)
    → All InRange (fields (record c { class = lossy_stored p }))
    → unserialize
        (record c0 { class = lossy_blank p })
        (serialize (record c { class = lossy_stored p }) empty_stream).buffer
      ≡ some (record c0 { class = left p }, true)
unserialize-serialize_lossy c0 c p h =
    unserialize-Reads (record c { class = lossy_stored p }) (record c0 { class = lossy_blank p })
      (record c0 { class = left p }) (Reads-lossy c0 c p h)
