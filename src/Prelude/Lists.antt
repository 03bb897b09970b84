-- ===== src/Prelude/Lists.antt =====
-- Lists measured and indexed by native numbers, under the library's names.
use Prim.Native.Nat.{ℕ, zero, suc, ◌+◌, ◌≤◌, ◌<◌}
use mathlib.Core.Path.{◌≡◌, refl, sym, ap, ◌∙◌}
use mathlib.Core.Bool.{Bool, true, false, ◌&&◌, ◌||◌}
use mathlib.Core.List.{List, [], ◌∷◌, ◌++◌}
use mathlib.Core.Option.{Option, none, some}
use native.Mathlib.Omega.{arith}

module _ {ℓ} {A : Type ℓ} where
  abbrev pub length : List A → ℕ
  length [] = 0
  length (x ∷ xs) = suc (length xs)

  abbrev pub get_elem? : List A → ℕ → Option A
  get_elem? [] i = none
  get_elem? (x ∷ xs) zero = some x
  get_elem? (x ∷ xs) (suc i) = get_elem? xs i

  abbrev pub get_or : List A → ℕ → A → A
  get_or [] i d = d
  get_or (x ∷ xs) zero d = x
  get_or (x ∷ xs) (suc i) d = get_or xs i d

  abbrev pub take : ℕ → List A → List A
  take zero xs = []
  take (suc n) [] = []
  take (suc n) (x ∷ xs) = x ∷ take n xs

  abbrev pub drop : ℕ → List A → List A
  drop zero xs = xs
  drop (suc n) [] = []
  drop (suc n) (x ∷ xs) = drop n xs

  abbrev pub is_empty : List A → Bool
  is_empty [] = true
  is_empty (x ∷ xs) = false

  -- Every element passes the test.
  abbrev pub all : (A → Bool) → List A → Bool
  all p [] = true
  all p (x ∷ xs) = p x && all p xs

  abbrev pub any : (A → Bool) → List A → Bool
  any p [] = false
  any p (x ∷ xs) = p x || any p xs

  -- A list with an element in it.
  pub is_empty-append : (xs ys : List A) (y : A) → is_empty (xs ++ y ∷ ys) ≡ false
  is_empty-append [] ys y = refl
  is_empty-append (x ∷ xs) ys y = refl

  pub length-append : (xs ys : List A) → length (xs ++ ys) ≡ length xs + length ys
  length-append [] ys = omega arith
  length-append (x ∷ xs) ys = omega (arith, length-append xs ys)

  pub take-append-drop : (n : ℕ) (xs : List A) → take n xs ++ drop n xs ≡ xs
  take-append-drop zero xs = refl
  take-append-drop (suc n) [] = refl
  take-append-drop (suc n) (x ∷ xs) = ap (◌∷◌ x) (take-append-drop n xs)

  pub take-append : (xs ys : List A) → take (length xs) (xs ++ ys) ≡ xs
  take-append [] ys = refl
  take-append (x ∷ xs) ys = ap (◌∷◌ x) (take-append xs ys)

  pub length-take : (n : ℕ) (xs : List A) → n ≤ length xs → length (take n xs) ≡ n
  length-take zero xs h = refl
  length-take (suc n) [] h = absurd (omega arith)
  length-take (suc n) (x ∷ xs) h = omega (arith, length-take n xs (omega arith))

  pub drop-append : (xs ys : List A) → drop (length xs) (xs ++ ys) ≡ ys
  drop-append [] ys = refl
  drop-append (x ∷ xs) ys = drop-append xs ys

  pub take_all : (n : ℕ) (xs : List A) → length xs < n → take n xs ≡ xs
  take_all zero xs h = absurd (omega arith)
  take_all (suc n) [] h = refl
  take_all (suc n) (x ∷ xs) h = ap (◌∷◌ x) (take_all n xs (omega arith))

  pub drop_all : (n : ℕ) (xs : List A) → length xs ≤ n → drop n xs ≡ []
  drop_all zero [] h = refl
  drop_all zero (x ∷ xs) h = absurd (omega arith)
  drop_all (suc n) [] h = refl
  drop_all (suc n) (x ∷ xs) h = drop_all n xs (omega arith)

  pub all-head : (p : A → Bool) (x : A) (xs : List A) → all p (x ∷ xs) ≡ true → p x ≡ true
  all-head p x xs h = ground arith

  pub all-tail : (p : A → Bool) (x : A) (xs : List A) → all p (x ∷ xs) ≡ true → all p xs ≡ true
  all-tail p x xs h = ground arith

  -- One round for each element, and then `f` more.
  abbrev pub rounds : List A → ℕ → ℕ
  rounds [] f = f
  rounds (x ∷ xs) f = suc (rounds xs f)

  pub rounds-of :
      (xs : List A) (n : ℕ) → length xs ≤ n → (f : ℕ) × (n ≡ rounds xs f) × (f + length xs ≡ n)
  rounds-of [] n h = (n, refl, omega arith)
  rounds-of (x ∷ xs) zero h = absurd (omega arith)
  rounds-of (x ∷ xs) (suc n) h =
      let (f, e, s) = rounds-of xs n (omega arith) in (f, ap suc e, omega arith)

  pub rounds-append : (xs ys : List A) (f : ℕ) → rounds (xs ++ ys) f ≡ rounds xs (rounds ys f)
  rounds-append [] ys f = refl
  rounds-append (x ∷ xs) ys f = ap suc (rounds-append xs ys f)

  -- A list that is not empty has a last element.
  pub concat-of : (x : A) (xs : List A) → (ys : List A) × (y : A) × (x ∷ xs ≡ ys ++ y ∷ [])
  concat-of x [] = ([], x, refl)
  concat-of x (y ∷ xs) = let (ys, z, e) = concat-of y xs in (x ∷ ys, z, ap (◌∷◌ x) e)

  pub rounds-suc : (xs : List A) (f : ℕ) → rounds xs (suc f) ≡ suc (rounds xs f)
  rounds-suc [] f = refl
  rounds-suc (x ∷ xs) f = ap suc (rounds-suc xs f)

  -- Fuel above the length of a list: a round for each element, and one more at least.
  pub fuel-of : (xs : List A) (n : ℕ) → length xs < n → (f : ℕ) × (n ≡ rounds xs (suc f))
  fuel-of xs zero h = absurd (omega arith)
  fuel-of xs (suc n) h =
      let (f, e, s) = rounds-of xs n (omega arith) in (f, ap suc e ∙ sym (rounds-suc xs f))
