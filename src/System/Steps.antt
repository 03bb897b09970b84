-- ===== src/System/Steps.antt =====
-- Properties of the results of calls made one behind the other.
use kvnorcom.Outcome.{Outcome, Returns, Returns-Yields, Yields, Yields-bind, Yields-any}
use kvnorcom.System.{Action, ◌>>=◌}

-- The value that a call gives where it returns.
abbrev pub Gives {ℓ} : {W : Type 0} {A : Type ℓ} → (A → Type 0) → Outcome (A × W) → Type 0
Gives {W = W} {A = A} P = Yields (λ (p : A × W). P p.0)

pub Gives-bind {ℓ κ} :
    {W : Type 0} {A : Type ℓ} {B : Type κ} (P : A → Type 0) (Q : B → Type 0) (m : Action W A)
    (f : A → Action W B) (w : W)
    → Gives P (m w)
    → ((a : A) (v : W) → P a → Gives Q (f a v))
    → Gives Q ((m >>= f) w)
Gives-bind P Q m f w h k =
    Yields-bind (λ p. P p.0) (λ p. Q p.0) (m w) (λ p. f p.0 p.1) h (λ p. k p.0 p.1)

-- A call of which nothing is known.
pub Gives-any {ℓ κ} :
    {W : Type 0} {A : Type ℓ} {B : Type κ} (Q : B → Type 0) (m : Action W A) (f : A → Action W B)
    (w : W)
    → ((a : A) (v : W) → Gives Q (f a v))
    → Gives Q ((m >>= f) w)
Gives-any Q m f w k = Yields-any (λ p. Q p.0) (m w) (λ p. f p.0 p.1) (λ p. k p.0 p.1)

pub Returns-Gives {ℓ} :
    {W : Type 0} {A : Type ℓ} (P : A → Type 0) (r : Outcome (A × W))
    → Returns (λ (p : A × W). P p.0) r
    → Gives P r
Returns-Gives P r h = Returns-Yields (λ p. P p.0) r h
