-- ===== src/Crc/Digits.antt =====
-- The low and the high digits of an exclusive or, and how many there are.
use Prim.Native.Nat.{bit_xor}
use kvnorcom.Prelude.{ℕ, ◌+◌, ◌*◌, ◌/◌, ◌%◌, ◌<◌, ◌≡◌, sym, ap, ◌∙◌, arith}
use mathlib.Core.Path.{ap₂}
use kvnorcom.Crc.Xor.{bit_xor_step, halves, zero-bit_xor, bit_xor-zero}

-- The low digits of the result are those of the low digits: one digit more.
abbrev LowDigits : ℕ → Type 0
LowDigits m = (a b : ℕ) → bit_xor a b % m ≡ bit_xor (a % m) (b % m)

low_step : (m k : ℕ) → ((x : ℕ) → x % k ≡ x / 2 % m * 2 + x % 2) → LowDigits m → LowDigits k
low_step m k d low a b =
    let rest = halves a b in
    omega (
      arith,
      d (bit_xor a b),
      d a,
      d b,
      rest.1,
      ap (λ (t : ℕ). t % m) rest.0,
      low (a / 2) (b / 2),
      bit_xor_step (a % k) (b % k),
      ap₂ bit_xor (half a) (half b),
    )
  where
    half : (x : ℕ) → x % k / 2 ≡ x / 2 % m
    half x = omega (arith, d x)

low_two : LowDigits 2
low_two a b =
    omega (arith, halves a b, bit_xor_step (a % 2) (b % 2), ap₂ bit_xor (zeros a) (zeros b))
  where
    zeros : (x : ℕ) → x % 2 / 2 ≡ 0
    zeros x = omega arith

low_sixteen : LowDigits 16
low_sixteen =
    low_step 8 16 (λ x. omega arith)
      (low_step 4 8 (λ x. omega arith) (low_step 2 4 (λ x. omega arith) low_two))

low_byte : LowDigits 256
low_byte =
    low_step 128 256 (λ x. omega arith)
      (low_step 64 128 (λ x. omega arith)
        (low_step 32 64 (λ x. omega arith) (low_step 16 32 (λ x. omega arith) low_sixteen)))

pub bit_xor-mod_byte : (a b : ℕ) → bit_xor a b % 256 ≡ bit_xor (a % 256) (b % 256)
bit_xor-mod_byte = low_byte

-- The digits above the low ones.
abbrev HighDigits : ℕ → Type 0
HighDigits m = (a b : ℕ) → bit_xor a b / m ≡ bit_xor (a / m) (b / m)

high_two : HighDigits 2
high_two a b = (halves a b).0

high_step : (m k : ℕ) → ((x : ℕ) → x / k ≡ x / m / 2) → HighDigits m → HighDigits k
high_step m k d high a b =
    d (bit_xor a b)
    ∙ ap (λ (t : ℕ). t / 2) (high a b)
    ∙ (halves (a / m) (b / m)).0
    ∙ ap₂ bit_xor (sym (d a)) (sym (d b))

high_sixteen : HighDigits 16
high_sixteen =
    high_step 8 16 (λ x. omega arith)
      (high_step 4 8 (λ x. omega arith) (high_step 2 4 (λ x. omega arith) high_two))

pub bit_xor-div_byte : (a b : ℕ) → bit_xor a b / 256 ≡ bit_xor (a / 256) (b / 256)
bit_xor-div_byte =
    high_step 128 256 (λ x. omega arith)
      (high_step 64 128 (λ x. omega arith)
        (high_step 32 64 (λ x. omega arith) (high_step 16 32 (λ x. omega arith) high_sixteen)))

-- The sixteenth digit.
pub bit_xor-div_sign : (a b : ℕ) → bit_xor a b / 32768 ≡ bit_xor (a / 32768) (b / 32768)
bit_xor-div_sign =
    high_step 16384 32768 (λ x. omega arith)
      (high_step 8192 16384 (λ x. omega arith)
        (high_step 4096 8192 (λ x. omega arith)
          (high_step 2048 4096 (λ x. omega arith)
            (high_step 1024 2048 (λ x. omega arith)
              (high_step 512 1024 (λ x. omega arith)
                (high_step 256 512 (λ x. omega arith) bit_xor-div_byte))))))

pub bit_xor-lt_word : (a b : ℕ) → a < 65536 → b < 65536 → bit_xor a b < 65536
bit_xor-lt_word a b p q = omega (
  arith,
  bit_xor-div_byte a b,
  bit_xor-div_byte (a / 256) (b / 256),
  ap (λ (t : ℕ). t / 256) (bit_xor-div_byte a b),
  ap₂ bit_xor (gone a p) (gone b q),
)
  where
    gone : (x : ℕ) → x < 65536 → x / 256 / 256 ≡ 0
    gone x h = omega arith

-- Two numbers with no digit in common.
pub bit_xor_disjoint : (h l : ℕ) → l < 256 → bit_xor (256 * h) l ≡ 256 * h + l
bit_xor_disjoint h l q = omega (
  arith,
  bit_xor-div_byte (256 * h) l,
  bit_xor-mod_byte (256 * h) l,
  ap₂ bit_xor upper above,
  ap₂ bit_xor lower same,
  bit_xor-zero h,
  zero-bit_xor l,
)
  where
    above : l / 256 ≡ 0
    above = omega arith

    upper : 256 * h / 256 ≡ h
    upper = omega arith

    lower : 256 * h % 256 ≡ 0
    lower = omega arith

    same : l % 256 ≡ l
    same = omega arith
