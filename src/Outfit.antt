-- ===== src/Outfit.antt =====
-- The class OutfitList of source/outfit.cpp: the outfits that a player may wear.
use evolution078ots.Prelude.{
  ℕ, zero, suc, ◌+◌, ◌*◌, ◌/◌, ◌%◌, max, Bool, true, false, List, [], ◌∷◌, ◌==◌, if◌then◌else◌,
}
use evolution078ots.Prelude.Bits.{bit_or}
pub mod Finds
mod Examples

pub record Outfit : Type 0 where
  pub looktype : ℕ
  pub premium : ℕ

-- m_list is the list of the outfits that its pointers lead to.
unfoldable pub add_outfit : List Outfit → Outfit → List Outfit
add_outfit [] outfit = outfit ∷ []
add_outfit (o ∷ list) outfit =
    let rest = add_outfit list outfit in
    if o.looktype == outfit.looktype
    then record o { premium = bit_or 32 o.premium outfit.premium } ∷ list
    else o ∷ rest

unfoldable pub rem_outfit : List Outfit → Outfit → Bool × List Outfit
rem_outfit [] outfit = (false, [])
rem_outfit (o ∷ list) outfit =
    let (found, list') = rem_outfit list outfit in
    if o.looktype == outfit.looktype then (true, list) else (found, o ∷ list')

unfoldable pub is_in_list : List Outfit → ℕ → Bool
is_in_list [] looktype = false
is_in_list (o ∷ list) looktype =
    let rest = is_in_list list looktype in if o.looktype == looktype then true else rest
