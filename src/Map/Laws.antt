-- ===== src/Map/Laws.antt =====
-- What a search finds after a change, in `if` form.
use kvnorcom.Prelude.{◌≡◌, Bool, false, not, ◌&&◌, Option, none, some, List, [], ◌∷◌, arith}
use kvnorcom.Map.{find, modify}
use kvnorcom.Map.Order.{StrictWeakOrder}

module _ {ℓ κ} {K : Type ℓ} {V : Type κ} {less : K → K → Bool} (o : StrictWeakOrder less) where
  abbrev or_else : Option V → V → V
  or_else none d = d
  or_else (some v) d = v

  -- A key finds its new value.
  pub find-modify_self :
      (k : K) (d : V) (f : V → V) (m : List (K × V))
      → find less k (modify less k d f m) ≡ some (f (or_else (find less k m) d))
  unfolding find modify
  find-modify_self k d f [] = ground (arith, o.irrefl k)
  find-modify_self k d f ((j, v) ∷ m) = ground (arith, o.irrefl k, find-modify_self k d f m)

  -- Another key finds what it found.
  pub find-modify_ne :
      (k j : K) (d : V) (f : V → V) (m : List (K × V))
      → not (less k j) && not (less j k) ≡ false
      → find less j (modify less k d f m) ≡ find less j m
  unfolding find modify
  find-modify_ne k j d f [] h = ground arith
  find-modify_ne k j d f ((i, v) ∷ m) h = ground (
    arith,
    find-modify_ne k j d f m h,
    o.irrefl j,
    o.trans j k i,
    o.trans i j k,
    o.trans j i k,
    o.trans j i j,
    o.trans k i k,
    o.negative_trans k i j,
    o.negative_trans j i k,
  )
