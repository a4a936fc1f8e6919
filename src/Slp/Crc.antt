-- ===== src/Slp/Crc.antt =====
-- libpisock/utils.c: crc16. A shift of an `int` wraps at 32 bits.
use pilot_link.Base.{ℕ, ◌*◌, ◌/◌, ◌%◌, ◌^◌, ◌<◌, ◌==◌, List, [], ◌∷◌, arith, if◌then◌else◌}
use Prim.Native.Nat.{bit_xor}

unfoldable pub crc_bit : ℕ → ℕ
crc_bit crc = if crc / 2 ^ 15 % 2 == 1 then bit_xor (crc * 2 % 2 ^ 32) 0x1021 else crc * 2 % 2 ^ 32

unfoldable pub crc_byte : ℕ → ℕ → ℕ
crc_byte crc byte = crc_bit (
    crc_bit (
      crc_bit
        (crc_bit (crc_bit (crc_bit (crc_bit (crc_bit (bit_xor crc (byte * 2 ^ 8 % 2 ^ 32)))))))))

unfoldable pub crc_loop : ℕ → List ℕ → ℕ
crc_loop crc [] = crc
crc_loop crc (byte ∷ bytes) = crc_loop (crc_byte crc byte) bytes

unfoldable pub crc16 : List ℕ → ℕ
crc16 bytes = crc_loop 0 bytes % 2 ^ 16

pub crc16-lt : (bytes : List ℕ) → crc16 bytes < 2 ^ 16
unfolding crc16
crc16-lt bytes = omega arith
