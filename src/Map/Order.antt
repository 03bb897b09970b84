-- ===== src/Map/Order.antt =====
-- The orders that the program's maps go by.
use kvnorcom.Prelude.{◌≡◌, refl, Bool, true, false, ◌&&◌, ◌||◌, [], ◌∷◌, ltb, ◌==◌, arith}
use kvnorcom.Prelude.Bytes.{Bytes}

-- What std::map asks of its comparison.
pub record StrictWeakOrder {ℓ} {K : Type ℓ} (less : K → K → Bool) : Type ℓ where
  pub irrefl : (a : K) → less a a ≡ false
  pub trans : (a b c : K) → less a b ≡ true → less b c ≡ true → less a c ≡ true
  pub negative_trans : (a b c : K) → less a b ≡ false → less b c ≡ false → less a c ≡ false

-- operator< of two std::string: by the first unsigned char that differs.
unfoldable pub less : Bytes → Bytes → Bool
less a [] = false
less [] (y ∷ ys) = true
less (x ∷ xs) (y ∷ ys) = ltb x y || (x == y && less xs ys)

less_irrefl : (a : Bytes) → less a a ≡ false
unfolding less
less_irrefl [] = refl
less_irrefl (x ∷ xs) = ground (arith, less_irrefl xs)

less_trans : (a b c : Bytes) → less a b ≡ true → less b c ≡ true → less a c ≡ true
unfolding less
less_trans a [] c h e = ground arith
less_trans a (y ∷ ys) [] h e = ground arith
less_trans [] (y ∷ ys) (z ∷ zs) h e = refl
less_trans (x ∷ xs) (y ∷ ys) (z ∷ zs) h e = ground (arith, less_trans xs ys zs)

less-negative_trans : (a b c : Bytes) → less a b ≡ false → less b c ≡ false → less a c ≡ false
unfolding less
less-negative_trans a b [] h e = refl
less-negative_trans a [] (z ∷ zs) h e = ground arith
less-negative_trans [] (y ∷ ys) (z ∷ zs) h e = ground arith
less-negative_trans (x ∷ xs) (y ∷ ys) (z ∷ zs) h e = ground (arith, less-negative_trans xs ys zs)

pub less-StrictWeakOrder : StrictWeakOrder less
less-StrictWeakOrder = record {
  irrefl = less_irrefl;
  trans = less_trans;
  negative_trans = less-negative_trans;
}

-- Texts of which neither is less are the same.
pub less_total : (a b : Bytes) → less a b ≡ false → less b a ≡ false → a ≡ b
unfolding less
less_total [] [] h e = refl
less_total [] (y ∷ ys) h e = ground arith
less_total (x ∷ xs) [] h e = ground arith
less_total (x ∷ xs) (y ∷ ys) h e =
    let same : x ≡ y = ground arith in cc (less_total xs ys (ground arith) (ground arith))
