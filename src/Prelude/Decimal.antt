-- ===== src/Prelude/Decimal.antt =====
-- Decimal digits: what an ostream prints for a number, and the number that they spell.
use Prim.Native.Nat.{ℕ, zero, suc, ◌+◌, ◌-◌, ◌*◌, ◌/◌, ◌%◌, ◌<◌}
use mathlib.Core.Path.{◌≡◌, refl}
use mathlib.Core.Bool.{Bool, true, false, ◌&&◌}
use mathlib.Core.List.{[], ◌∷◌}
use native.Mathlib.Omega.{arith}
use kvnorcom.Prelude.Bytes.{Bytes, lacks}
use kvnorcom.Prelude.Lists.{all}
use kvnorcom.Prelude.Tests.{ltb, leb, if◌then◌else◌}

decimal_loop : ℕ → ℕ → Bytes → Bytes
decimal_loop zero n ds = ds
decimal_loop (suc fuel) n ds =
    let more = decimal_loop fuel (n / 10) ((b'0' + n % 10) ∷ ds) in
    if ltb n 10 then (b'0' + n) ∷ ds else more

-- The decimal digits of a number.
unfoldable pub decimal : ℕ → Bytes
unfolding decimal_loop
decimal n = decimal_loop (suc n) n []

abbrev pub is_digit : ℕ → Bool
is_digit c = leb b'0' c && leb c b'9'

-- The number that digits spell behind `n`.
abbrev pub value : ℕ → Bytes → ℕ
value n [] = n
value n (c ∷ cs) = value (n * 10 + (c - b'0')) cs

decimal_loop-digits :
    (fuel n : ℕ) (ds : Bytes)
    → all is_digit ds ≡ true
    → all is_digit (decimal_loop fuel n ds) ≡ true
unfolding decimal_loop
decimal_loop-digits zero n ds h = h
decimal_loop-digits (suc fuel) n ds h =
    ground (arith, decimal_loop-digits fuel (n / 10) ((b'0' + n % 10) ∷ ds))

value-decimal_loop :
    (fuel n : ℕ) (ds : Bytes) → n < fuel → value 0 (decimal_loop fuel n ds) ≡ value n ds
unfolding decimal_loop
value-decimal_loop zero n ds h = absurd (omega arith)
value-decimal_loop (suc fuel) n ds h =
    ground (arith, value-decimal_loop fuel (n / 10) ((b'0' + n % 10) ∷ ds))

pub decimal-digits : (n : ℕ) → all is_digit (decimal n) ≡ true
unfolding decimal
decimal-digits n = decimal_loop-digits (suc n) n [] refl

pub value-decimal : (n : ℕ) → value 0 (decimal n) ≡ n
unfolding decimal
value-decimal n = value-decimal_loop (suc n) n [] (omega arith)

-- Digits are none of the other characters.
pub digits-lacks :
    (c : ℕ) (ds : Bytes) → is_digit c ≡ false → all is_digit ds ≡ true → lacks c ds ≡ true
digits-lacks c [] h e = refl
digits-lacks c (d ∷ ds) h e = ground (arith, digits-lacks c ds)
