-- ===== src/Int2Bits.antt =====
-- src/other/int2bits.c: the 16 binary digits of a short int as text. A `short int` is an integer from -2 ^ 15 to
-- 2 ^ 15 - 1; `>>` is arithmetic, as every compiler of the program has it. malloc is taken to succeed, since the
-- function does not test it.
pub mod Laws
mod Tests
use tpt.Common.{ℕ, zero, suc, ◌+◌, ◌-◌, ◌/◌, ◌%◌, List, [], ◌∷◌, ◌++◌, ℤ, pos, negsuc}

-- `a & 1`
abbrev pub low_bit : ℤ → ℕ
low_bit (pos n) = n % 2
low_bit (negsuc n) = 1 - n % 2

-- `a >> 1`
abbrev pub shift_right : ℤ → ℤ
shift_right (pos n) = pos (n / 2)
shift_right (negsuc n) = negsuc (n / 2)

-- The rest of the loop, with i + 1 and the characters from index i + 1 on.
pub digit_loop : (left : ℕ) → ℤ → (buf : List ℕ) → List ℕ
digit_loop zero a buf = buf
digit_loop (suc i) a buf = digit_loop i (shift_right a) ((low_bit a + 48) ∷ buf)

-- The 17 characters of the block.
pub shortint2bin : ℤ → List ℕ
unfolding digit_loop
shortint2bin a = digit_loop 16 a [] ++ (0 ∷ [])
