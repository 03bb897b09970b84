-- ===== src/Map/Sorted.antt =====
-- std::map keeps its entries sorted, and what a search finds behind an erasure.
use kvnorcom.Prelude.{◌≡◌, refl, Bool, true, Bool-cases, inl, inr, none, List, [], ◌∷◌, ◌++◌, arith}
use kvnorcom.Map.{find, modify, erase}
use kvnorcom.Map.Order.{StrictWeakOrder}

module _ {ℓ κ} {K : Type ℓ} {V : Type κ} (less : K → K → Bool) where
  -- Every key is above `k`.
  abbrev pub IsAbove : K → List (K × V) → Type 0
  IsAbove k [] = Unit
  IsAbove k ((j, v) ∷ m) = (less k j ≡ true) × IsAbove k m

  abbrev pub IsSorted : List (K × V) → Type 0
  IsSorted [] = Unit
  IsSorted ((j, v) ∷ m) = IsAbove j m × IsSorted m

module _ {ℓ κ} {K : Type ℓ} {V : Type κ} {less : K → K → Bool} (o : StrictWeakOrder less) where
  pub IsAbove-trans :
      (j k : K) (m : List (K × V)) → less j k ≡ true → IsAbove less k m → IsAbove less j m
  IsAbove-trans j k [] h a = tt
  IsAbove-trans j k ((i, v) ∷ m) h (b, a) = (o.trans j k i h b, IsAbove-trans j k m h a)

  pub find-IsAbove : (k : K) (m : List (K × V)) → IsAbove less k m → find less k m ≡ none
  unfolding find
  find-IsAbove k [] a = refl
  find-IsAbove k ((j, v) ∷ m) (b, a) = ground (arith, o.irrefl k, o.trans k j k)

  modify-IsAbove :
      (j k : K) (d : V) (f : V → V) (m : List (K × V))
      → less j k ≡ true
      → IsAbove less j m
      → IsAbove less j (modify less k d f m)
  unfolding modify
  modify-IsAbove j k d f [] h a = (h, tt)
  modify-IsAbove j k d f ((i, v) ∷ m) h (b, a) = elim (Bool-cases (less i k)) [
    | inl below ↦ rw below (b, modify-IsAbove j k d f m h a)
    | inr other ↦ rw other (elim (Bool-cases (less k i)) [
      | inl above ↦ rw above (h, (b, a))
      | inr same ↦ rw same (b, a)
    ])
  ]

  pub modify-IsSorted :
      (k : K) (d : V) (f : V → V) (m : List (K × V))
      → IsSorted less m
      → IsSorted less (modify less k d f m)
  unfolding modify
  modify-IsSorted k d f [] s = (tt, tt)
  modify-IsSorted k d f ((j, v) ∷ m) (a, s) = elim (Bool-cases (less j k)) [
    | inl below ↦ rw below (modify-IsAbove j k d f m below a, modify-IsSorted k d f m s)
    | inr other ↦ rw other (elim (Bool-cases (less k j)) [
      | inl above ↦ rw above ((above, IsAbove-trans k j m above a), (a, s))
      | inr same ↦ rw same (a, s)
    ])
  ]

  erase-IsAbove : (j k : K) (m : List (K × V)) → IsAbove less j m → IsAbove less j (erase less k m)
  unfolding erase
  erase-IsAbove j k [] a = tt
  erase-IsAbove j k ((i, v) ∷ m) (b, a) = elim (Bool-cases (less i k)) [
    | inl below ↦ rw below (b, erase-IsAbove j k m a)
    | inr other ↦
        rw other
          (elim (Bool-cases (less k i)) [ inl above ↦ rw above (b, a) | inr same ↦ rw same a ])
  ]

  pub erase-IsSorted : (k : K) (m : List (K × V)) → IsSorted less m → IsSorted less (erase less k m)
  unfolding erase
  erase-IsSorted k [] s = tt
  erase-IsSorted k ((j, v) ∷ m) (a, s) = elim (Bool-cases (less j k)) [
    | inl below ↦ rw below (erase-IsAbove j k m a, erase-IsSorted k m s)
    | inr other ↦
        rw other
          (elim (Bool-cases (less k j)) [ inl above ↦ rw above (a, s) | inr same ↦ rw same s ])
  ]

  -- Every key is below `k`.
  abbrev pub IsBelow : K → List (K × V) → Type 0
  IsBelow k [] = Unit
  IsBelow k ((j, v) ∷ m) = (less j k ≡ true) × IsBelow k m

  pub IsBelow-trans : (k l : K) (m : List (K × V)) → less k l ≡ true → IsBelow k m → IsBelow l m
  IsBelow-trans k l [] h a = tt
  IsBelow-trans k l ((j, v) ∷ m) h (b, a) = (o.trans j k l b h, IsBelow-trans k l m h a)

  pub IsBelow-append : (k : K) (m n : List (K × V)) → IsBelow k m → IsBelow k n → IsBelow k (m ++ n)
  IsBelow-append k [] n a b = b
  IsBelow-append k ((j, v) ∷ m) n (h, a) b = (h, IsBelow-append k m n a b)

  -- A key above all others comes last.
  pub modify-IsBelow :
      (k : K) (d : V) (f : V → V) (m : List (K × V))
      → IsBelow k m
      → modify less k d f m ≡ m ++ (k, f d) ∷ []
  unfolding modify
  modify-IsBelow k d f [] a = refl
  modify-IsBelow k d f ((j, v) ∷ m) (b, a) = rw (b, modify-IsBelow k d f m a)
