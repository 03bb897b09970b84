-- ===== src/Map/Entries.antt =====
-- A property of every entry of a map, kept by its operations.
use mathlib.Core.Path.{subst}
use kvnorcom.Prelude.{◌≡◌, sym, Bool, false, Bool-cases, inl, inr, some, List, [], ◌∷◌, arith}
use kvnorcom.Map.{find, modify, erase}

module _ {ℓ κ} {K : Type ℓ} {V : Type κ} (P : K → V → Type 0) where
  abbrev pub Entries : List (K × V) → Type 0
  Entries [] = Unit
  Entries ((k, v) ∷ m) = P k v × Entries m

module _ {ℓ κ} {K : Type ℓ} {V : Type κ} {less : K → K → Bool}
    (total : (a b : K) → less a b ≡ false → less b a ≡ false → a ≡ b) (P : K → V → Type 0) where
  pub find-Entries :
      (k : K) (v : V) (m : List (K × V)) → Entries P m → find less k m ≡ some v → P k v
  unfolding find
  find-Entries k v [] h e = ground arith
  find-Entries k v ((j, u) ∷ m) (p, h) e = elim (Bool-cases (less j k)) [
    | inl below ↦ find-Entries k v m h (ground arith)
    | inr other ↦ elim (Bool-cases (less k j)) [
      | inl above ↦ absurd (ground arith)
      | inr same ↦
          subst (λ (i : K). P i v) (total j k other same)
            (subst (λ (a : V). P j a) (ground (arith, same, other)) p)
    ]
  ]

  pub modify-Entries :
      (k : K) (d : V) (f : V → V) (m : List (K × V))
      → Entries P m
      → P k (f d)
      → ((v : V) → P k v → P k (f v))
      → Entries P (modify less k d f m)
  unfolding modify
  modify-Entries k d f [] h new old = (new, tt)
  modify-Entries k d f ((j, v) ∷ m) (p, h) new old = elim (Bool-cases (less j k)) [
    | inl below ↦ rw below (p, modify-Entries k d f m h new old)
    | inr other ↦ rw other (elim (Bool-cases (less k j)) [
      | inl above ↦ rw above (new, (p, h))
      | inr same ↦ rw same (
        subst (λ (i : K). P i (f v)) (sym (total j k other same))
            (old v (subst (λ (i : K). P i v) (total j k other same) p)),
        h,
      )
    ])
  ]

  pub erase-Entries : (k : K) (m : List (K × V)) → Entries P m → Entries P (erase less k m)
  unfolding erase
  erase-Entries k [] h = tt
  erase-Entries k ((j, v) ∷ m) (p, h) = elim (Bool-cases (less j k)) [
    | inl below ↦ rw below (p, erase-Entries k m h)
    | inr other ↦
        rw other
          (elim (Bool-cases (less k j)) [ inl above ↦ rw above (p, h) | inr same ↦ rw same h ])
  ]
