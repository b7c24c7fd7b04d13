-- ===== src/ZigZag/Tests.antt =====
-- zigzag.c at small integers, and the instances of its laws.
use tpt.Common.{ℕ, ◌-◌, ◌^◌, ◌<◌, ◌≡◌, refl, arith}
use tpt.ZigZag.{zigzag_encode_int64, zigzag_decode_uint64}
use tpt.ZigZag.Laws.{
  to_int, place, zigzag_encode_int64-place, zigzag_decode_uint64-zigzag_encode_int64,
}

-- The pattern of -7.
abbrev minus_seven : ℕ
minus_seven = 2 ^ 64 - 7

codes_of_seven : (zigzag_encode_int64 minus_seven ≡ 13) × (zigzag_encode_int64 7 ≡ 14)
unfolding zigzag_encode_int64
codes_of_seven = (refl, refl)

zigzag_encode_int64-place_example : zigzag_encode_int64 minus_seven ≡ place (to_int minus_seven)
zigzag_encode_int64-place_example = zigzag_encode_int64-place minus_seven (omega arith)

zigzag_decode_uint64-zigzag_encode_int64_example :
    (zigzag_decode_uint64 (zigzag_encode_int64 minus_seven) ≡ minus_seven)
    × (zigzag_encode_int64 (zigzag_decode_uint64 minus_seven) ≡ minus_seven)
    × (zigzag_encode_int64 minus_seven < 2 ^ 64)
zigzag_decode_uint64-zigzag_encode_int64_example =
    zigzag_decode_uint64-zigzag_encode_int64 minus_seven (omega arith)
