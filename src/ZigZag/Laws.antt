-- ===== src/ZigZag/Laws.antt =====
-- What zigzag_encode_int64 and zigzag_decode_uint64 compute, and that they undo one another.
use tpt.Common.{
  ℕ, suc, ◌+◌, ◌-◌, ◌*◌, ◌/◌, ◌%◌, ◌^◌, ◌≤◌, ◌<◌, ◌≡◌, ◌∙◌, ◌↔◌, arith, ltb, inl, inr, Bool-cases,
  if◌then◌else◌, ℤ, pos, negsuc,
}
use tpt.Common.Bits.{bit_xor-zero, bit_xor_ones, bit_and_mask}
use tpt.ZigZag.{zigzag_encode_int64, zigzag_decode_uint64}

-- The integer of a 64-bit pattern in two's complement.
abbrev pub to_int : ℕ → ℤ
to_int x = if ltb x (2 ^ 63) then pos x else negsuc (2 ^ 64 - 1 - x)

-- Where the zigzag order 0, -1, 1, -2, 2, ... has an integer.
pub place : ℤ → ℕ
place (pos n) = 2 * n
place (negsuc n) = 2 * n + 1

-- The code by cases on the sign.
encode_cases :
    (x : ℕ)
    → x < 2 ^ 64
    → zigzag_encode_int64 x ≡ (if ltb x (2 ^ 63) then x * 2 else 2 ^ 65 - 1 - x * 2)
unfolding zigzag_encode_int64
encode_cases x h = elim (Bool-cases (ltb x (2 ^ 63))) [
  | inl small ↦ rw small (bit_xor-zero 64 (x * 2 % 2 ^ 64) (omega arith) ∙ ground arith)
  | inr large ↦ rw large (bit_xor_ones 64 (x * 2 % 2 ^ 64) (omega arith) ∙ ground arith)
]

-- The value of a code by its last digit.
decode_cases :
    (y : ℕ)
    → y < 2 ^ 64
    → zigzag_decode_uint64 y ≡ (if ltb (y % 2) 1 then y / 2 else 2 ^ 64 - 1 - y / 2)
unfolding zigzag_decode_uint64
decode_cases y h = elim (Bool-cases (ltb (y % 2) 1)) [
  | inl even ↦
      let mask : (2 ^ 64 - y % 2) % 2 ^ 64 ≡ 0 = ground arith in
      rw (even, bit_and_mask 1 y, mask) (bit_xor-zero 64 (y / 2) (omega arith))
  | inr odd ↦
      let mask : (2 ^ 64 - y % 2) % 2 ^ 64 ≡ 2 ^ 64 - 1 = ground arith in
      rw (odd, bit_and_mask 1 y, mask) (bit_xor_ones 64 (y / 2) (omega arith))
]

-- For every 64-bit pattern the code is the place of its integer in the zigzag order: twice an
-- integer that is not negative, and twice the distance below -1, plus one, of a negative one.
pub zigzag_encode_int64-place : (x : ℕ) → x < 2 ^ 64 → zigzag_encode_int64 x ≡ place (to_int x)
unfolding place
zigzag_encode_int64-place x h = ground (arith, encode_cases x h)

encode-lt : (x : ℕ) → x < 2 ^ 64 → zigzag_encode_int64 x < 2 ^ 64
encode-lt x h = ground (arith, encode_cases x h)

-- On 64-bit patterns the two functions are inverse to one another, and the code fits in 64 bits:
-- decoding a code gives the integer back, and coding a decoded value gives the code back.
pub zigzag_decode_uint64-zigzag_encode_int64 :
    (x : ℕ)
    → x < 2 ^ 64
    → (zigzag_decode_uint64 (zigzag_encode_int64 x) ≡ x)
      × (zigzag_encode_int64 (zigzag_decode_uint64 x) ≡ x)
      × (zigzag_encode_int64 x < 2 ^ 64)
zigzag_decode_uint64-zigzag_encode_int64 x h = (
  ground (arith, encode_cases x h, decode_cases (zigzag_encode_int64 x) (encode-lt x h)),
  ground (arith, decode_cases x h, encode_cases (zigzag_decode_uint64 x)),
  encode-lt x h,
)

-- The absolute value, for the bound below.
abbrev pub magnitude : ℤ → ℕ
magnitude (pos n) = n
magnitude (negsuc n) = suc n

-- Integers near zero have small codes: for every 64-bit pattern and every `b`, the absolute value is
-- at most `b` exactly when the code is at most `2 * b`.
pub zigzag_encode_int64-le :
    (x b : ℕ) → x < 2 ^ 64 → (magnitude (to_int x) ≤ b) ↔ (zigzag_encode_int64 x ≤ 2 * b)
zigzag_encode_int64-le x b h =
    (λ near. ground (arith, encode_cases x h), λ small. ground (arith, encode_cases x h))
