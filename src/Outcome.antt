-- ===== src/Outcome.antt =====
-- What a call of the program comes to: it returns a value; it makes an access out of bounds or
-- raises an exception that nobody catches; or the rounds given to its loops were not enough.
use mathlib.Core.Path.{subst}
use kvnorcom.Prelude.{◌≡◌, refl, ap, Option, none, some}
use kvnorcom.Prelude.Bytes.{Bytes}

pub data Outcome {ℓ} (A : Type ℓ) : Type ℓ where
  returns : A → Outcome A
  fault : Outcome A
  running : Outcome A

infixl 5 ◌>>=◌
abbrev pub ◌>>=◌ {ℓ κ} : {A : Type ℓ} {B : Type κ} → Outcome A → (A → Outcome B) → Outcome B
returns a >>= f = f a
fault >>= f = fault
running >>= f = running

-- A read of an array: out of bounds it is a fault.
abbrev pub or_fault {ℓ} : {A : Type ℓ} → Option A → Outcome A
or_fault none = fault
or_fault (some a) = returns a

-- The call returns, and its value is in `P`.
abbrev pub Returns {ℓ} : {A : Type ℓ} → (A → Type 0) → Outcome A → Type 0
Returns P (returns a) = P a
Returns P fault = ⊥
Returns P running = ⊥

pub Returns-bind {ℓ κ} :
    {A : Type ℓ} {B : Type κ} (P : A → Type 0) (Q : B → Type 0) (m : Outcome A) (f : A → Outcome B)
    → Returns P m
    → ((a : A) → P a → Returns Q (f a))
    → Returns Q (m >>= f)
Returns-bind P Q (returns a) f h k = k a h
Returns-bind P Q fault f h k = absurd h
Returns-bind P Q running f h k = absurd h

-- The value is known.
pub Returns-exact : {A : Type 0} (m : Outcome A) (a : A) → Returns (λ b. b ≡ a) m → m ≡ returns a
Returns-exact (returns b) a h = ap returns h
Returns-exact fault a h = absurd h
Returns-exact running a h = absurd h

pub Returns-map {ℓ} :
    {A : Type ℓ} (P Q : A → Type 0) (m : Outcome A)
    → ((a : A) → P a → Q a)
    → Returns P m
    → Returns Q m
Returns-map P Q (returns a) k h = k a h
Returns-map P Q fault k h = absurd h
Returns-map P Q running k h = absurd h

-- Where the call returns, its value is in `P`.
abbrev pub Yields {ℓ} : {A : Type ℓ} → (A → Type 0) → Outcome A → Type 0
Yields P (returns a) = P a
Yields P fault = Unit
Yields P running = Unit

pub Yields-bind {ℓ κ} :
    {A : Type ℓ} {B : Type κ} (P : A → Type 0) (Q : B → Type 0) (m : Outcome A) (f : A → Outcome B)
    → Yields P m
    → ((a : A) → P a → Yields Q (f a))
    → Yields Q (m >>= f)
Yields-bind P Q (returns a) f h k = k a h
Yields-bind P Q fault f h k = tt
Yields-bind P Q running f h k = tt

pub Yields-map {ℓ} :
    {A : Type ℓ} (P Q : A → Type 0) (m : Outcome A)
    → ((a : A) → P a → Q a)
    → Yields P m
    → Yields Q m
Yields-map P Q (returns a) k h = k a h
Yields-map P Q fault k h = tt
Yields-map P Q running k h = tt

pub Returns-Yields {ℓ} : {A : Type ℓ} (P : A → Type 0) (m : Outcome A) → Returns P m → Yields P m
Returns-Yields P (returns a) h = h
Returns-Yields P fault h = absurd h
Returns-Yields P running h = absurd h

-- A call of which nothing is known.
pub Yields-any {ℓ κ} :
    {A : Type ℓ} {B : Type κ} (Q : B → Type 0) (m : Outcome A) (f : A → Outcome B)
    → ((a : A) → Yields Q (f a))
    → Yields Q (m >>= f)
Yields-any Q (returns a) f k = k a
Yields-any Q fault f k = tt
Yields-any Q running f k = tt

pub Yields-self : {A : Type 0} (m : Outcome A) → Yields (λ (a : A). m ≡ returns a) m
Yields-self (returns a) = refl
Yields-self fault = tt
Yields-self running = tt

pub Yields-of {ℓ} :
    {A : Type ℓ} (P : A → Type 0) (m : Outcome A) (a : A) → Yields P m → m ≡ returns a → P a
Yields-of P m a h e = subst (Yields P) e h

pub Returns-both {ℓ} :
    {A : Type ℓ} (P Q : A → Type 0) (m : Outcome A)
    → Returns P m
    → Yields Q m
    → Returns (λ (a : A). P a × Q a) m
Returns-both P Q (returns a) h k = (h, k)
Returns-both P Q fault h k = absurd h
Returns-both P Q running h k = absurd h

-- What a try block comes to: its value, or a std::exception with its text.
pub data Tried {ℓ} (A : Type ℓ) : Type ℓ where
  gives : A → Tried A
  raises : Bytes → Tried A

abbrev pub map_tried {ℓ κ} : {A : Type ℓ} {B : Type κ} → (A → B) → Tried A → Tried B
map_tried f (gives a) = gives (f a)
map_tried f (raises what) = raises what

-- The block with a clause that catches its exceptions behind it.
abbrev pub caught {ℓ} : {A : Type ℓ} → (Bytes → A) → Tried A → Tried A
caught clause (gives a) = gives a
caught clause (raises what) = gives (clause what)
