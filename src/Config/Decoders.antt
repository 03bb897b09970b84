-- ===== src/Config/Decoders.antt =====
-- The types to collect and their decoders fit together.
use kvnorcom.Prelude.{
  ℕ, ltb, ap, sym, ◌∙◌, ◌≡◌, refl, Bool, true, false, ◌||◌, Bool-cases, inl, inr, ◌⊎◌, [], ◌∷◌,
  arith,
}
use kvnorcom.Raport.Kinds.{
  ordinal, WmoRaport, WmoRaports, contains, insert, less_raport, same_raport,
}
use kvnorcom.Config.{RaportDef, raports_to_collect, get_decoder}

or_swap : (a b x : Bool) → (a || (b || x)) ≡ (b || (a || x))
or_swap true b x = ground arith
or_swap false b x = refl

or_same : (a x : Bool) → (a || (a || x)) ≡ (a || x)
or_same true x = refl
or_same false x = refl

or_first : (a b x : Bool) → (a || (b || x)) ≡ ((b || a) || x)
or_first true true x = refl
or_first true false x = refl
or_first false true x = refl
or_first false false x = refl

or_not_false : (a x : Bool) → a ≡ true → (a || x) ≡ false → ⊥
or_not_false a x e h = ground arith

or_false : (a : Bool) → (a || false) ≡ a
or_false true = refl
or_false false = refl

same_ordinal : (m n : ℕ) → ltb m n ≡ false → ltb n m ≡ false → m ≡ n
same_ordinal m n h e = ground arith

-- An insertion adds its element and nothing else.
contains-insert :
    (r k : WmoRaport) (rs : WmoRaports)
    → contains (insert r rs) k ≡ (same_raport r k || contains rs k)
unfolding insert
contains-insert r k [] = refl
contains-insert r k (s ∷ rs) = elim (Bool-cases (less_raport s r)) [
  | inl behind ↦ rw behind (
      ap (◌||◌ (same_raport s k)) (contains-insert r k rs)
      ∙ or_swap (same_raport s k) (same_raport r k) (contains rs k))
  | inr not_behind ↦ rw not_behind (elim (Bool-cases (less_raport r s)) [
    | inl before ↦ rw before refl
    | inr not_before ↦
        rw (not_before, same_ordinal (ordinal r) (ordinal s) not_before not_behind)
          (sym (or_same (same_raport s k) (contains rs k)))
  ])
]

-- Whether a definition names the type.
unfoldable pub defined : WmoRaport → RaportDef → Bool
defined k [] = false
defined k ((decoder, j) ∷ ds) = same_raport j k || defined k ds

raports_to_collect-contains :
    (ds : RaportDef) (k : WmoRaport) (ret : WmoRaports)
    → contains (raports_to_collect ds ret) k ≡ (defined k ds || contains ret k)
unfolding raports_to_collect defined
raports_to_collect-contains [] k ret = refl
raports_to_collect-contains ((d, j) ∷ ds) k ret =
    raports_to_collect-contains ds k (insert j ret)
    ∙ ap (◌||◌ (defined k ds)) (contains-insert j k ret)
    ∙ or_first (defined k ds) (same_raport j k) (contains ret k)

-- A type that no definition names has no decoder.
pub get_decoder-undefined :
    (k : WmoRaport) (ds : RaportDef) → defined k ds ≡ false → get_decoder k ds ≡ []
unfolding get_decoder defined
get_decoder-undefined k [] h = refl
get_decoder-undefined k ((d, j) ∷ ds) h = elim (Bool-cases (same_raport j k)) [
  | inl same ↦ absurd (or_not_false (same_raport j k) (defined k ds) same h)
  | inr other ↦ rw other (get_decoder-undefined k ds (sym (ap (λ b. b || defined k ds) other) ∙ h))
]

-- The set of types to collect holds exactly those that a definition names; and each type is in
-- the set or has no decoder.
pub raports_to_collect-defined :
    (ds : RaportDef) (k : WmoRaport)
    → (contains (raports_to_collect ds []) k ≡ defined k ds)
      × ((contains (raports_to_collect ds []) k ≡ true) ⊎ (get_decoder k ds ≡ []))
raports_to_collect-defined ds k = (
  exact,
  elim (Bool-cases (defined k ds)) [
    | inl named ↦ inl (exact ∙ named)
    | inr other ↦ inr (get_decoder-undefined k ds other)
  ],
)
  where
    exact : contains (raports_to_collect ds []) k ≡ defined k ds
    exact = raports_to_collect-contains ds k [] ∙ or_false (defined k ds)
