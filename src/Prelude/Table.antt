-- ===== src/Prelude/Table.antt =====
-- std::map with keys that are numbers: the entries in the order of their keys.
use Prim.Native.Nat.{ℕ}
use mathlib.Core.Path.{◌≡◌}
use mathlib.Core.Option.{Option, none, some}
use mathlib.Core.List.{List, [], ◌∷◌}
use native.Mathlib.Omega.{arith}
use evolution078ots.Prelude.Tests.{ltb, ◌==◌, if◌then◌else◌}

abbrev pub Table {ℓ} : Type ℓ → Type ℓ
Table A = List (ℕ × A)

unfoldable pub find {ℓ} : {A : Type ℓ} → ℕ → Table A → Option A
find k [] = none
find k ((j, a) ∷ t) = let rest = find k t in if k == j then some a else rest

-- `t[k] = v`.
unfoldable pub assign {ℓ} : {A : Type ℓ} → ℕ → A → Table A → Table A
assign k v [] = (k, v) ∷ []
assign k v ((j, a) ∷ t) =
    let rest = assign k v t in
    if k == j then (k, v) ∷ t else if ltb k j then (k, v) ∷ (j, a) ∷ t else (j, a) ∷ rest

-- `t.erase(k)`.
unfoldable pub remove {ℓ} : {A : Type ℓ} → ℕ → Table A → Table A
remove k [] = []
remove k ((j, a) ∷ t) = let rest = remove k t in if k == j then rest else (j, a) ∷ rest

module _ {ℓ} {A : Type ℓ} (i k : ℕ) where
  pub find-assign :
      (v : A) (t : Table A) → find i (assign k v t) ≡ (if i == k then some v else find i t)
  unfolding find assign
  find-assign v [] = ground arith
  find-assign v ((j, a) ∷ t) = ground (arith, find-assign v t)

  pub find-remove : (t : Table A) → find i (remove k t) ≡ (if i == k then none else find i t)
  unfolding find remove
  find-remove [] = ground arith
  find-remove ((j, a) ∷ t) = ground (arith, find-remove t)
