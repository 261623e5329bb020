-- ===== src/Tests/Encoder.antt =====
-- mnc_tx.c: one packet of five bytes in blocks of two.
use mac.Base.{◌+◌, ◌*◌, ◌%◌, ◌≡◌, bit_xor, arith, Matrix}
use mac.Mnc.Substitute.{Vector}
use mac.Mnc.Encode.{code_blocks}
use mac.Mnc.Encode.Blocks.{coded, code_blocks-coded}

abbrev packet : Vector
packet o = (31 * o + 7) % 256

abbrev coefficients : Matrix
coefficients i j = 5 + 3 * i + j

abbrev header : Vector
header o = o % 256

code_blocks-coded_example :
    code_blocks 2 5 packet coefficients 11 header (11 + 4)
    ≡ bit_xor (header (11 + 4)) (coded 2 packet coefficients 4)
code_blocks-coded_example =
    code_blocks-coded 2 5 packet coefficients 11 header 4 (omega arith) (omega arith)
