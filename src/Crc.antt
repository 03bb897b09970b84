-- ===== src/Crc.antt =====
-- The checksum of src/crc_ccitt.cc.
pub mod Xor
pub mod Digits
pub mod Bitwise
pub mod Detect
use Prim.Native.Nat.{bit_and, bit_xor}
use kvnorcom.Prelude.{ℕ, ◌+◌, ◌-◌, ◌/◌, ◌%◌, ◌^◌, List, [], ◌∷◌, ltb, ◌==◌, get_or, if◌then◌else◌}
use kvnorcom.Prelude.Bytes.{Bytes}

abbrev pub ccitt_h : List ℕ
ccitt_h =
    0x0000 ∷ 0x1081 ∷ 0x2102 ∷ 0x3183 ∷ 0x4204 ∷ 0x5285 ∷ 0x6306 ∷ 0x7387 ∷ 0x8408 ∷ 0x9489 ∷ 0xa50a
    ∷ 0xb58b ∷ 0xc60c ∷ 0xd68d ∷ 0xe70e ∷ 0xf78f ∷ []

abbrev pub ccitt_l : List ℕ
ccitt_l =
    0x0000 ∷ 0x1189 ∷ 0x2312 ∷ 0x329b ∷ 0x4624 ∷ 0x57ad ∷ 0x6536 ∷ 0x74bf ∷ 0x8c48 ∷ 0x9dc1 ∷ 0xaf5a
    ∷ 0xbed3 ∷ 0xca6c ∷ 0xdbe5 ∷ 0xe97e ∷ 0xf8f7 ∷ []

-- `*it` is a signed char: promoted to int and converted to unsigned int it is extended by its sign.
unfoldable pub sign_extend : ℕ → ℕ
sign_extend c = if ltb c 128 then c else 2 ^ 32 - 256 + c

-- The body of the loop; `n` and `crc` are unsigned ints.
unfoldable pub crc_step : ℕ → ℕ → ℕ
unfolding sign_extend
crc_step crc c =
    let n = bit_xor (sign_extend c) crc in
    bit_xor
      (bit_xor (get_or ccitt_l (bit_and n 0x0f) 0) (get_or ccitt_h (bit_and (n / 2 ^ 4) 0x0f) 0))
      (crc / 2 ^ 8)

unfoldable pub crc_loop : ℕ → Bytes → ℕ
crc_loop crc [] = crc
crc_loop crc (c ∷ cs) = crc_loop (crc_step crc c) cs

-- crc_ccitt of a std::string; the cast to unsigned short is the remainder.
unfoldable pub crc_ccitt : Bytes → ℕ
crc_ccitt buf = crc_loop 0 buf % 2 ^ 16

-- The loop of crc_ccitt of a char*: `while( *in )` stops at the first NUL byte.
unfoldable pub crc_c_str_loop : ℕ → Bytes → ℕ
crc_c_str_loop crc [] = crc
crc_c_str_loop crc (c ∷ cs) =
    let rest = crc_c_str_loop (crc_step crc c) cs in if c == 0 then crc else rest

unfoldable pub crc_ccitt_c_str : Bytes → ℕ
crc_ccitt_c_str buf = crc_c_str_loop 0 buf % 2 ^ 16
