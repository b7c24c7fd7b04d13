-- ===== src/ZigZag.antt =====
-- src/encoding/zigzag/zigzag.c: the zigzag code of 64-bit integers. An `int64_t` is its bit pattern, a
-- number below 2 ^ 64; `to_int` is the integer that the pattern stands for. `>>` of an `int64_t` is
-- arithmetic, as every compiler of the program has it. `main` only prints a table and is not modelled.
pub mod Laws
mod Tests
use Prim.Native.Nat.{bit_and, bit_xor}
use tpt.Common.{ℕ, ◌-◌, ◌*◌, ◌/◌, ◌%◌, ◌^◌, ltb, if◌then◌else◌}

-- `num << 1` in 64 bits.
shift_left_one : ℕ → ℕ
shift_left_one num = num * 2 % 2 ^ 64

-- `num >> 63` of an `int64_t`: copies of the sign.
sign_mask : ℕ → ℕ
sign_mask num = if ltb num (2 ^ 63) then 0 else 2 ^ 64 - 1

-- `-(num & 0x1)` in 64 bits.
negated_bit : ℕ → ℕ
negated_bit num = (2 ^ 64 - bit_and num 1) % 2 ^ 64

pub zigzag_encode_int64 : ℕ → ℕ
unfolding shift_left_one sign_mask
zigzag_encode_int64 num = bit_xor (shift_left_one num) (sign_mask num)

pub zigzag_decode_uint64 : ℕ → ℕ
unfolding negated_bit
zigzag_decode_uint64 num = bit_xor (num / 2) (negated_bit num)
