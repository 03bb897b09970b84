-- ===== src/Crc/Bitwise.antt =====
-- The table-driven loop against the shift register that the tables stand for: the polynomial
-- x^16 + x^12 + x^5 + 1, lowest digit first.
use Prim.Native.Nat.{bit_xor, bit_and}
use mathlib.Core.Path.{ap₂}
use native.Mathlib.Nat.{pow-suc}
use kvnorcom.Prelude.{
  ℕ, zero, suc, ◌+◌, ◌*◌, ◌/◌, ◌%◌, ◌^◌, ◌<◌, ◌≤◌, ◌≡◌, refl, sym, ap, ◌∙◌, Bool, true, not, ◌&&◌,
  ◌++◌, all, [], ◌∷◌, arith, Bool-cases, inl, inr, ◌==◌, ==_iff, get_or, if◌then◌else◌,
}
use kvnorcom.Prelude.Bytes.{Bytes, AreBytes}
use kvnorcom.Crc.{
  ccitt_l, ccitt_h, sign_extend, crc_step, crc_loop, crc_ccitt, crc_c_str_loop, crc_ccitt_c_str,
}
use kvnorcom.Crc.Xor.{halves, bit_xor_assoc, bit_xor_comm, bit_and_fifteen, zero-bit_xor}
use kvnorcom.Crc.Digits.{bit_xor-mod_byte, bit_xor-div_byte, bit_xor_disjoint, bit_xor-lt_word}

-- One shift: the lowest digit leaves the register and, if it is set, the polynomial is added.
unfoldable pub shift : ℕ → ℕ
shift x = if x % 2 == 0 then x / 2 else bit_xor (x / 2) 0x8408

unfoldable pub shifts : ℕ → ℕ → ℕ
shifts zero x = x
shifts (suc k) x = shifts k (shift x)

-- The byte enters at the low end of the register, and is shifted out.
unfoldable pub register : ℕ → Bytes → ℕ
register crc [] = crc
register crc (c ∷ cs) = register (shifts 8 (bit_xor c crc)) cs

shift-bit_xor : (a b : ℕ) → shift (bit_xor (2 * a) b) ≡ bit_xor a (shift b)
unfolding shift
shift-bit_xor a b = elim (Bool-cases (b % 2 == 0)) [
  | inl even ↦ rw (even, same, even) upper
  | inr odd ↦
      rw (odd, same, odd) (ap (λ (t : ℕ). bit_xor t 0x8408) upper ∙ bit_xor_assoc a (b / 2) 0x8408)
]
  where
    same : bit_xor (2 * a) b % 2 ≡ b % 2
    same = omega (arith, (halves (2 * a) b).1)

    twice : 2 * a / 2 ≡ a
    twice = omega arith

    upper : bit_xor (2 * a) b / 2 ≡ bit_xor a (b / 2)
    upper = (halves (2 * a) b).0 ∙ ap (λ (t : ℕ). bit_xor t (b / 2)) twice

pub shifts-bit_xor : (k a b : ℕ) → shifts k (bit_xor (2 ^ k * a) b) ≡ bit_xor a (shifts k b)
unfolding shifts
shifts-bit_xor zero a b = ap (λ (t : ℕ). bit_xor t b) one
  where
    one : 2 ^ zero * a ≡ a
    one = omega arith
shifts-bit_xor (suc k) a b =
    ap (λ (t : ℕ). shifts k (shift (bit_xor t b))) double
    ∙ ap (shifts k) (shift-bit_xor (2 ^ k * a) b)
    ∙ shifts-bit_xor k a (shift b)
  where
    double : 2 ^ suc k * a ≡ 2 * (2 ^ k * a)
    double = grind (arith, pow-suc 2 k)

-- What the two tables give for the low byte of the register.
abbrev table : ℕ → ℕ
table l = bit_xor (get_or ccitt_l (l % 16) 0) (get_or ccitt_h (l / 16) 0)

-- Whether the tables and the shifts agree on `left` bytes from `byte` on.
agree : ℕ → ℕ → Bool
agree zero byte = true
agree (suc left) byte = table byte == shifts 8 byte && agree left (byte + 1)

agree-table :
    (left byte l : ℕ)
    → agree left byte ≡ true
    → byte ≤ l
    → l < byte + left
    → table l == shifts 8 l ≡ true
unfolding agree
agree-table zero byte l e low high = absurd (omega arith)
agree-table (suc left) byte l e low high = elim (Bool-cases (byte == l)) [
  | inl here ↦ rw (← (==_iff byte l).0 here) (ground arith)
  | inr later ↦ agree-table left (byte + 1) l (ground arith) (ground arith) (omega arith)
]

all_bytes : agree 256 0 ≡ true
unfolding agree shifts shift
all_bytes = refl

table-shifts : (l : ℕ) → l < 256 → table l ≡ shifts 8 l
table-shifts l h =
    (==_iff (table l) (shifts 8 l)).0 (agree-table 256 0 l all_bytes (omega arith) (omega arith))

-- The register is its low byte and its other digits, and eight shifts act on the low byte only.
shifts-table : (x : ℕ) → shifts 8 x ≡ bit_xor (table (x % 256)) (x / 256)
shifts-table x =
    ap (shifts 8) (split ∙ sym (bit_xor_disjoint (x / 256) (x % 256) low))
    ∙ shifts-bit_xor 8 (x / 256) (x % 256)
    ∙ ap (bit_xor (x / 256)) (sym (table-shifts (x % 256) low))
    ∙ bit_xor_comm (x / 256) (table (x % 256))
  where
    low : x % 256 < 256
    low = omega arith

    split : x ≡ 256 * (x / 256) + x % 256
    split = omega arith

-- The sign does not reach the digits that the tables are indexed by.
low_byte : (crc c : ℕ) → c < 256 → bit_xor (sign_extend c) crc % 256 ≡ bit_xor c crc % 256
low_byte crc c h =
    bit_xor-mod_byte (sign_extend c) crc
    ∙ ap (λ (t : ℕ). bit_xor t (crc % 256)) unsigned
    ∙ sym (bit_xor-mod_byte c crc)
  where
    unsigned : sign_extend c % 256 ≡ c % 256
    unsigned = unfold sign_extend in ground arith

-- One byte by the tables is eight shifts.
crc_step-shifts : (crc c : ℕ) → c < 256 → crc_step crc c ≡ shifts 8 (bit_xor c crc)
unfolding crc_step
crc_step-shifts crc c h =
    ap₂ bit_xor (ap₂ bit_xor (ap l_entry lower) (ap h_entry upper)) above
    ∙ sym (shifts-table (bit_xor c crc))
  where
    n : ℕ
    n = bit_xor (sign_extend c) crc

    l_entry : ℕ → ℕ
    l_entry i = get_or ccitt_l i 0

    h_entry : ℕ → ℕ
    h_entry i = get_or ccitt_h i 0

    lower : bit_and n 15 ≡ bit_xor c crc % 256 % 16
    lower = bit_and_fifteen n ∙ omega (arith, low_byte crc c h)

    upper : bit_and (n / 16) 15 ≡ bit_xor c crc % 256 / 16
    upper = bit_and_fifteen (n / 16) ∙ omega (arith, low_byte crc c h)

    above : crc / 256 ≡ bit_xor c crc / 256
    above =
        sym (zero-bit_xor (crc / 256))
        ∙ ap (λ (t : ℕ). bit_xor t (crc / 256)) gone
        ∙ sym (bit_xor-div_byte c crc)
      where
        gone : 0 ≡ c / 256
        gone = omega arith

crc_loop-register : (crc : ℕ) (buf : Bytes) → AreBytes buf → crc_loop crc buf ≡ register crc buf
unfolding crc_loop register
crc_loop-register crc [] h = refl
crc_loop-register crc (c ∷ cs) (h, hs) =
    ap (λ (t : ℕ). crc_loop t cs) (crc_step-shifts crc c h)
    ∙ crc_loop-register (shifts 8 (bit_xor c crc)) cs hs

-- The register keeps to sixteen digits.
pub shift-lt : (x : ℕ) → x < 2 ^ 16 → shift x < 2 ^ 16
unfolding shift
shift-lt x h = ground (arith, bit_xor-lt_word (x / 2) 0x8408)

pub shifts-lt : (k x : ℕ) → x < 2 ^ 16 → shifts k x < 2 ^ 16
unfolding shifts
shifts-lt zero x h = h
shifts-lt (suc k) x h = shifts-lt k (shift x) (shift-lt x h)

pub register-lt : (crc : ℕ) (buf : Bytes) → AreBytes buf → crc < 2 ^ 16 → register crc buf < 2 ^ 16
unfolding register
register-lt crc [] h lt = lt
register-lt crc (c ∷ cs) (h, hs) lt =
    register-lt (shifts 8 (bit_xor c crc)) cs hs
      (shifts-lt 8 (bit_xor c crc) (bit_xor-lt_word c crc (omega arith) lt))

-- The checksum of a buffer of bytes is what the shift register of the polynomial
-- x^16 + x^12 + x^5 + 1, started at 0, holds after the buffer: the two tables and the
-- sign-extended bytes compute the division by the polynomial, and no digit is lost by the cast.
pub crc_ccitt-register : (buf : Bytes) → AreBytes buf → crc_ccitt buf ≡ register 0 buf
unfolding crc_ccitt
crc_ccitt-register buf h =
    ap (λ (t : ℕ). t % 2 ^ 16) (crc_loop-register 0 buf h)
    ∙ omega (arith, register-lt 0 buf h (omega arith))

crc_c_str_loop-crc_loop :
    (crc : ℕ) (buf rest : Bytes)
    → all (λ c. not (c == 0)) buf ≡ true
    → crc_c_str_loop crc (buf ++ 0 ∷ rest) ≡ crc_loop crc buf
unfolding crc_c_str_loop crc_loop
crc_c_str_loop-crc_loop crc [] rest h = refl
crc_c_str_loop-crc_loop crc (c ∷ cs) rest h =
    ground (arith, crc_c_str_loop-crc_loop (crc_step crc c) cs rest)

-- The overload for C strings gives the checksum of the bytes in front of the terminator, if none
-- of them is NUL, whatever the memory holds behind it.
pub crc_ccitt_c_str-crc_ccitt :
    (buf rest : Bytes)
    → all (λ c. not (c == 0)) buf ≡ true
    → crc_ccitt_c_str (buf ++ 0 ∷ rest) ≡ crc_ccitt buf
unfolding crc_ccitt_c_str crc_ccitt
crc_ccitt_c_str-crc_ccitt buf rest h =
    ap (λ (t : ℕ). t % 2 ^ 16) (crc_c_str_loop-crc_loop 0 buf rest h)
