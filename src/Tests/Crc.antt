-- ===== src/Tests/Crc.antt =====
-- crc_ccitt.cc on concrete buffers.
use kvnorcom.Prelude.{[], ◌++◌, ◌∷◌, ◌≡◌, ◌≢◌, refl, arith}
use kvnorcom.Prelude.Bytes.{codes}
use kvnorcom.Crc.{crc_ccitt, crc_ccitt_c_str, crc_c_str_loop, crc_loop, crc_step}
use kvnorcom.Crc.Detect.{crc_ccitt-neighbours}
use kvnorcom.Crc.Bitwise.{register, crc_ccitt-register}

-- The check value of this checksum.
crc_check : crc_ccitt (codes "123456789") ≡ 0x2189
unfolding crc_ccitt crc_loop crc_step
crc_check = refl

crc_ccitt-register_example : crc_ccitt (228 ∷ codes "AAXX") ≡ register 0 (228 ∷ codes "AAXX")
crc_ccitt-register_example = crc_ccitt-register (228 ∷ codes "AAXX") (omega arith)

crc_ccitt_c_str_test : crc_ccitt_c_str (codes "NIL" ++ 0 ∷ 7 ∷ []) ≡ crc_ccitt (codes "NIL")
unfolding crc_ccitt_c_str crc_c_str_loop crc_ccitt crc_loop crc_step
crc_ccitt_c_str_test = refl

crc_ccitt-neighbours_example :
    crc_ccitt (codes "AA" ++ b'X' ∷ b'X' ∷ codes " 1")
    ≢ crc_ccitt (codes "AA" ++ b'X' ∷ b'Y' ∷ codes " 1")
crc_ccitt-neighbours_example =
    crc_ccitt-neighbours (codes "AA") (codes " 1") b'X' b'X' b'X' b'Y' (omega arith) (omega arith)
      (omega arith) (omega arith) (λ e. absurd (ground (arith, e)))
