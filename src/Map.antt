-- ===== src/Map.antt =====
-- std::map: the entries in the order of their keys, under the comparison `less` of the map's type.
-- Keys are the same where neither is less than the other, as in the library's search.
pub mod Order
pub mod Laws
pub mod Sorted
pub mod Entries
use kvnorcom.Prelude.{Bool, Option, none, some, List, [], ◌∷◌, if◌then◌else◌}

module _ {ℓ κ} {K : Type ℓ} {V : Type κ} (less : K → K → Bool) where
  -- map::find
  unfoldable pub find : K → List (K × V) → Option V
  find k [] = none
  find k ((j, v) ∷ m) = if less j k then find k m else if less k j then none else some v

  -- `f( m[k] )`: an absent key is put in with the value `d` first.
  unfoldable pub modify : K → V → (V → V) → List (K × V) → List (K × V)
  modify k d f [] = (k, f d) ∷ []
  modify k d f ((j, v) ∷ m) =
      if less j k
      then (j, v) ∷ modify k d f m
      else if less k j
      then (k, f d) ∷ (j, v) ∷ m
      else (j, f v) ∷ m

  -- map::erase of a key.
  unfoldable pub erase : K → List (K × V) → List (K × V)
  erase k [] = []
  erase k ((j, v) ∷ m) = if less j k then (j, v) ∷ erase k m else if less k j then (j, v) ∷ m else m
