-- ===== src/Crc/Detect.antt =====
-- What the checksum tells apart.
use Prim.Native.Nat.{bit_xor}
use mathlib.Core.Path.{ap₂}
use kvnorcom.Prelude.{
  ℕ, zero, suc, ◌+◌, ◌*◌, ◌/◌, ◌^◌, ◌<◌, ◌≡◌, ◌≢◌, refl, sym, ap, ◌∙◌, ◌++◌, [], ◌∷◌, arith,
}
use kvnorcom.Prelude.Bytes.{Bytes, AreBytes}
use kvnorcom.Crc.{crc_ccitt}
use kvnorcom.Crc.Xor.{bit_xor_assoc, bit_xor_comm, bit_xor_cancel, zero-bit_xor}
use kvnorcom.Crc.Digits.{bit_xor-div_sign, bit_xor_disjoint, bit_xor-lt_word}
use kvnorcom.Crc.Bitwise.{
  shift, shifts, register, shift-lt, shifts-lt, register-lt, shifts-bit_xor, crc_ccitt-register,
}

-- The polynomial reaches the digit that the shift has left free.
sign_set : (y : ℕ) → y < 2 ^ 16 → bit_xor (y / 2) 0x8408 / 32768 ≡ 1
sign_set y h = bit_xor-div_sign (y / 2) 0x8408 ∙ ap (λ (t : ℕ). bit_xor t 1) low ∙ zero-bit_xor 1
  where
    low : y / 2 / 32768 ≡ 0
    low = omega arith

shift-injective : (x y : ℕ) → x < 2 ^ 16 → y < 2 ^ 16 → shift x ≡ shift y → x ≡ y
unfolding shift
shift-injective x y h k e =
    ground (arith, e, sign_set x h, sign_set y k, bit_xor_cancel (x / 2) (y / 2) 0x8408)

shifts-injective : (n x y : ℕ) → x < 2 ^ 16 → y < 2 ^ 16 → shifts n x ≡ shifts n y → x ≡ y
unfolding shifts
shifts-injective zero x y h k e = e
shifts-injective (suc n) x y h k e =
    shift-injective x y h k (shifts-injective n (shift x) (shift y) (shift-lt x h) (shift-lt y k) e)

register-append :
    (crc : ℕ) (xs ys : Bytes) → register crc (xs ++ ys) ≡ register (register crc xs) ys
unfolding register
register-append crc [] ys = refl
register-append crc (x ∷ xs) ys = register-append (shifts 8 (bit_xor x crc)) xs ys

register-injective :
    (x y : ℕ) (cs : Bytes)
    → x < 2 ^ 16
    → y < 2 ^ 16
    → AreBytes cs
    → register x cs ≡ register y cs
    → x ≡ y
unfolding register
register-injective x y [] h k bytes e = e
register-injective x y (c ∷ cs) h k (b, bytes) e = bit_xor_cancel x y c (
    bit_xor_comm x c
    ∙ shifts-injective 8 (bit_xor c x) (bit_xor c y) (entered x h) (entered y k) (
        register-injective (shifts 8 (bit_xor c x)) (shifts 8 (bit_xor c y)) cs
          (shifts-lt 8 (bit_xor c x) (entered x h)) (shifts-lt 8 (bit_xor c y) (entered y k)) bytes
          e)
    ∙ bit_xor_comm c y)
  where
    entered : (z : ℕ) → z < 2 ^ 16 → bit_xor c z < 2 ^ 16
    entered z l = bit_xor-lt_word c z (omega arith) l

AreBytes-append : (xs ys : Bytes) → AreBytes xs → AreBytes ys → AreBytes (xs ++ ys)
AreBytes-append [] ys h k = k
AreBytes-append (x ∷ xs) ys (b, h) k = (b, AreBytes-append xs ys h k)

-- Two bytes enter the register as one number.
two_bytes :
    (r a b : ℕ)
    → shifts 8 (bit_xor b (shifts 8 (bit_xor a r)))
      ≡ shifts 8 (shifts 8 (bit_xor (256 * b) (bit_xor a r)))
two_bytes r a b = ap (shifts 8) (sym (shifts-bit_xor 8 b (bit_xor a r)))

two_bytes-lt :
    (r a b : ℕ) → r < 2 ^ 16 → a < 256 → b < 256 → bit_xor (256 * b) (bit_xor a r) < 2 ^ 16
two_bytes-lt r a b h k l =
    bit_xor-lt_word (256 * b) (bit_xor a r) (omega arith) (bit_xor-lt_word a r (omega arith) h)

two_bytes_cancel :
    (r a b c d : ℕ)
    → a < 256
    → c < 256
    → bit_xor (256 * b) (bit_xor a r) ≡ bit_xor (256 * d) (bit_xor c r)
    → (a ≡ c) × (b ≡ d)
two_bytes_cancel r a b c d h k e = (omega (arith, number), omega (arith, number))
  where
    number : 256 * b + a ≡ 256 * d + c
    number =
        sym (bit_xor_disjoint b a h)
        ∙ bit_xor_cancel (bit_xor (256 * b) a) (bit_xor (256 * d) c) r
            (bit_xor_assoc (256 * b) a r ∙ e ∙ sym (bit_xor_assoc (256 * d) c r))
        ∙ bit_xor_disjoint d c k

-- The register behind a text with two bytes in it.
register-two_bytes :
    (xs ys : Bytes) (a b : ℕ)
    → register 0 (xs ++ a ∷ b ∷ ys)
      ≡ register (shifts 8 (shifts 8 (bit_xor (256 * b) (bit_xor a (register 0 xs))))) ys
unfolding register
register-two_bytes xs ys a b =
    register-append 0 xs (a ∷ b ∷ ys)
    ∙ ap (λ (t : ℕ). register t ys) (two_bytes (register 0 xs) a b)

crc_ccitt-two_bytes :
    (xs ys : Bytes) (a b c d : ℕ)
    → AreBytes xs
    → AreBytes ys
    → AreBytes (a ∷ b ∷ [])
    → AreBytes (c ∷ d ∷ [])
    → crc_ccitt (xs ++ a ∷ b ∷ ys) ≡ crc_ccitt (xs ++ c ∷ d ∷ ys)
    → (a ≡ c) × (b ≡ d)
crc_ccitt-two_bytes xs ys a b c d before behind (ha, (hb, u)) (hc, (hd, v)) e =
    two_bytes_cancel (register 0 xs) a b c d ha hc (
      shifts-injective 8 x y p q (
        shifts-injective 8 (shifts 8 x) (shifts 8 y) (shifts-lt 8 x p) (shifts-lt 8 y q) (
          register-injective (shifts 8 (shifts 8 x)) (shifts 8 (shifts 8 y)) ys
            (shifts-lt 8 (shifts 8 x) (shifts-lt 8 x p))
            (shifts-lt 8 (shifts 8 y) (shifts-lt 8 y q)) behind
            (sym (value a b ha hb) ∙ e ∙ value c d hc hd))))
  where
    r : ℕ
    r = register 0 xs

    small : r < 2 ^ 16
    small = register-lt 0 xs before (omega arith)

    x : ℕ
    x = bit_xor (256 * b) (bit_xor a r)

    y : ℕ
    y = bit_xor (256 * d) (bit_xor c r)

    p : x < 2 ^ 16
    p = two_bytes-lt r a b small ha hb

    q : y < 2 ^ 16
    q = two_bytes-lt r c d small hc hd

    value :
        (i j : ℕ)
        → i < 256
        → j < 256
        → crc_ccitt (xs ++ i ∷ j ∷ ys)
          ≡ register (shifts 8 (shifts 8 (bit_xor (256 * j) (bit_xor i r)))) ys
    value i j hi hj =
        crc_ccitt-register (xs ++ i ∷ j ∷ ys)
          (AreBytes-append xs (i ∷ j ∷ ys) before (hi, (hj, behind)))
        ∙ register-two_bytes xs ys i j

-- Two buffers of bytes that differ only in two neighbouring bytes, in one of them or in both, have
-- different checksums.
pub crc_ccitt-neighbours :
    (xs ys : Bytes) (a b c d : ℕ)
    → AreBytes xs
    → AreBytes ys
    → AreBytes (a ∷ b ∷ [])
    → AreBytes (c ∷ d ∷ [])
    → a ∷ b ∷ [] ≢ c ∷ d ∷ []
    → crc_ccitt (xs ++ a ∷ b ∷ ys) ≢ crc_ccitt (xs ++ c ∷ d ∷ ys)
crc_ccitt-neighbours xs ys a b c d before behind h k different e =
    let (first, second) = crc_ccitt-two_bytes xs ys a b c d before behind h k e in
    different (ap₂ (λ (x y : ℕ). x ∷ y ∷ []) first second)
