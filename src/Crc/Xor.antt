-- ===== src/Crc/Xor.antt =====
-- Laws of the exclusive or at variables, from its definition on binary digits.
use Prim.Native.Nat.{
  bit_xor, bit_and, digits, bitwise, differ, min, bit_xor-bitwise, bit_and-bitwise,
}
use native.Mathlib.Nat.{le_refl}
use kvnorcom.Prelude.{
  ℕ, zero, suc, ◌+◌, ◌-◌, ◌*◌, ◌/◌, ◌%◌, ◌≤◌, ◌<◌, ◌≡◌, refl, sym, ap, ◌∙◌, arith,
}

-- A count of digits that the first number's value bounds may be raised.
module _ (over : ℕ → ℕ) (op : ℕ → ℕ → ℕ) where
  one_spare :
      (count x y : ℕ) → x ≤ count → digits over op (suc count) x y ≡ digits over op count x y
  one_spare zero zero y h = refl
  one_spare zero (suc x) y h = absurd (omega arith)
  one_spare (suc count) zero y h = refl
  one_spare (suc count) (suc x) y h =
      ap (λ (rest : ℕ). rest * 2 + op (suc x % 2) (y % 2))
        (one_spare count (suc x / 2) (y / 2) (omega arith))

  spare_counts :
      (spare count x y : ℕ)
      → x ≤ count
      → digits over op (spare + count) x y ≡ digits over op count x y
  spare_counts zero count x y h = ap (λ (n : ℕ). digits over op n x y) (omega arith)
  spare_counts (suc spare) count x y h =
      ap (λ (n : ℕ). digits over op n x y) {y = suc (spare + count)} (omega arith)
      ∙ one_spare (spare + count) x y (omega arith)
      ∙ spare_counts spare count x y h

  lowest_digit :
      (x y : ℕ)
      → bitwise over op (suc x) y ≡ bitwise over op (suc x / 2) (y / 2) * 2 + op (suc x % 2) (y % 2)
  lowest_digit x y =
      let h = suc x / 2 in
      let split : x ≡ (x - h) + h = omega arith in
      ap (λ (rest : ℕ). rest * 2 + op (suc x % 2) (y % 2))
        (ap (λ (count : ℕ). digits over op count h (y / 2)) split
          ∙ spare_counts (x - h) h h (y / 2) (omega arith))

differ_bits : (a b : ℕ) → a < 2 → b < 2 → differ a b ≡ (a + b) % 2
differ_bits zero zero p q = refl
differ_bits zero (suc zero) p q = refl
differ_bits (suc zero) zero p q = refl
differ_bits (suc zero) (suc zero) p q = refl
differ_bits zero (suc (suc b)) p q = absurd (omega arith)
differ_bits (suc zero) (suc (suc b)) p q = absurd (omega arith)
differ_bits (suc (suc a)) b p q = absurd (omega arith)

and_digit : (x y : ℕ) → bit_and x y ≡ min (x % 2) (y % 2) + 2 * bit_and (x / 2) (y / 2)
and_digit zero y = simp bit_and-bitwise (omega arith)
and_digit (suc x) y = simp bit_and-bitwise (omega (arith, lowest_digit (λ rest. 0) min x y))

-- The lowest digit, and the rest.
pub bit_xor_step : (a b : ℕ) → bit_xor a b ≡ bit_xor (a / 2) (b / 2) * 2 + (a % 2 + b % 2) % 2
bit_xor_step zero b = simp bit_xor-bitwise (omega arith)
bit_xor_step (suc a) b =
    rw (← differ_bits (suc a % 2) (b % 2) (omega arith) (omega arith))
      (simp bit_xor-bitwise (lowest_digit (λ rest. rest) differ a b))

pub halves :
    (a b : ℕ)
    → (bit_xor a b / 2 ≡ bit_xor (a / 2) (b / 2)) × (bit_xor a b % 2 ≡ (a % 2 + b % 2) % 2)
halves a b = let e = bit_xor_step a b in (omega arith, omega arith)

pub zero-bit_xor : (b : ℕ) → bit_xor 0 b ≡ b
zero-bit_xor b = bit_xor-bitwise 0 b

bit_xor-zero_fuel : (n a : ℕ) → a ≤ n → bit_xor a 0 ≡ a
bit_xor-zero_fuel n zero h = refl
bit_xor-zero_fuel zero (suc a) h = absurd (omega arith)
bit_xor-zero_fuel (suc n) (suc a) h =
    omega (arith, bit_xor_step (suc a) 0, bit_xor-zero_fuel n (suc a / 2) (omega arith))

pub bit_xor-zero : (a : ℕ) → bit_xor a 0 ≡ a
bit_xor-zero a = bit_xor-zero_fuel a a (le_refl a)

bit_xor_assoc_fuel : (n a b c : ℕ) → a ≤ n → bit_xor (bit_xor a b) c ≡ bit_xor a (bit_xor b c)
bit_xor_assoc_fuel n zero b c h = rw (zero-bit_xor b, zero-bit_xor (bit_xor b c))
bit_xor_assoc_fuel zero (suc a) b c h = absurd (omega arith)
bit_xor_assoc_fuel (suc n) (suc a) b c h =
    let x = bit_xor_step (suc a) b in
    let y = bit_xor_step b c in
    let left = halves (suc a) b in
    let right = halves b c in
    omega (
      arith,
      bit_xor_step (bit_xor (suc a) b) c,
      bit_xor_step (suc a) (bit_xor b c),
      ap (λ (t : ℕ). bit_xor t (c / 2)) left.0,
      ap (λ (t : ℕ). bit_xor (suc a / 2) t) right.0,
      left.1,
      right.1,
      bit_xor_assoc_fuel n (suc a / 2) (b / 2) (c / 2) (omega arith),
    )

pub bit_xor_assoc : (a b c : ℕ) → bit_xor (bit_xor a b) c ≡ bit_xor a (bit_xor b c)
bit_xor_assoc a b c = bit_xor_assoc_fuel a a b c (le_refl a)

bit_xor_self_fuel : (n a : ℕ) → a ≤ n → bit_xor a a ≡ 0
bit_xor_self_fuel n zero h = refl
bit_xor_self_fuel zero (suc a) h = absurd (omega arith)
bit_xor_self_fuel (suc n) (suc a) h =
    omega (arith, bit_xor_step (suc a) (suc a), bit_xor_self_fuel n (suc a / 2) (omega arith))

bit_xor_self : (a : ℕ) → bit_xor a a ≡ 0
bit_xor_self a = bit_xor_self_fuel a a (le_refl a)

bit_xor_twice : (a c : ℕ) → bit_xor (bit_xor a c) c ≡ a
bit_xor_twice a c =
    bit_xor_assoc a c c ∙ ap (λ (t : ℕ). bit_xor a t) (bit_xor_self c) ∙ bit_xor-zero a

pub bit_xor_cancel : (a b c : ℕ) → bit_xor a c ≡ bit_xor b c → a ≡ b
bit_xor_cancel a b c e = sym (bit_xor_twice a c) ∙ ap (λ (t : ℕ). bit_xor t c) e ∙ bit_xor_twice b c

bit_xor_comm_fuel : (n a b : ℕ) → a ≤ n → bit_xor a b ≡ bit_xor b a
bit_xor_comm_fuel n zero b h = zero-bit_xor b ∙ sym (bit_xor-zero b)
bit_xor_comm_fuel zero (suc a) b h = absurd (omega arith)
bit_xor_comm_fuel (suc n) (suc a) b h = omega (
  arith,
  bit_xor_step (suc a) b,
  bit_xor_step b (suc a),
  bit_xor_comm_fuel n (suc a / 2) (b / 2) (omega arith),
)

pub bit_xor_comm : (a b : ℕ) → bit_xor a b ≡ bit_xor b a
bit_xor_comm a b = bit_xor_comm_fuel a a b (le_refl a)

-- No digit is common to a number and 0.
nothing_common : (count x : ℕ) → digits (λ rest. 0) min count x 0 ≡ 0
nothing_common zero x = refl
nothing_common (suc count) zero = refl
nothing_common (suc count) (suc x) = omega (arith, nothing_common count (suc x / 2))

lowest_of : (x : ℕ) → bit_and x 1 ≡ x % 2
lowest_of x =
    omega (arith, and_digit x 1, bit_and-bitwise (x / 2) 0, nothing_common (x / 2) (x / 2))

pub bit_and_fifteen : (a : ℕ) → bit_and a 15 ≡ a % 16
bit_and_fifteen a =
    let second = and_digit (a / 2) 7 in
    let third = and_digit (a / 2 / 2) 3 in
    omega (arith, and_digit a 15, second, third, lowest_of (a / 2 / 2 / 2))
