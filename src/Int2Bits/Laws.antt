-- ===== src/Int2Bits/Laws.antt =====
-- The text of shortint2bin read back as a binary number.
use tpt.Common.{
  ℕ, zero, suc, ◌+◌, ◌-◌, ◌*◌, ◌/◌, ◌%◌, ◌^◌, ◌<◌, ◌≡◌, ap, ◌∙◌, List, [], ◌∷◌, ◌++◌, ℤ, pos,
  negsuc, arith,
}
use native.Mathlib.Nat.{pow-suc}
use tpt.Int2Bits.{digit_loop, shortint2bin}

-- The number of a text of digits behind the digits of `v`; the text ends at a 0.
pub read_binary : (v : ℕ) → List ℕ → ℕ
read_binary v [] = v
read_binary v (zero ∷ ds) = v
read_binary v (suc d ∷ ds) = read_binary (2 * v + (suc d - 48)) ds

-- What a short int is in two's complement with `k` digits.
pub pattern_of : (k : ℕ) → ℤ → ℕ
pattern_of k (pos n) = n
pattern_of k (negsuc n) = 2 ^ k - 1 - n

read_digit : (d v : ℕ) (ds : List ℕ) → read_binary v ((d + 48) ∷ ds) ≡ read_binary (2 * v + d) ds
unfolding read_binary
read_digit d v ds =
    let plus : d + 48 ≡ suc (d + 47) = omega arith in
    rw plus (ap (λ (n : ℕ). read_binary n ds) (omega arith))

-- The number of the digits that are left goes before the digits that stand.
module _ (end : List ℕ) where
  digit_loop-pos :
      (k n : ℕ) (buf : List ℕ)
      → n < 2 ^ k
      → read_binary 0 (digit_loop k (pos n) buf ++ end) ≡ read_binary n (buf ++ end)
  unfolding digit_loop
  digit_loop-pos zero n buf h = ap (λ (v : ℕ). read_binary v (buf ++ end)) (omega arith)
  digit_loop-pos (suc k) n buf h =
      digit_loop-pos k (n / 2) ((n % 2 + 48) ∷ buf) (omega (arith, pow-suc 2 k))
      ∙ read_digit (n % 2) (n / 2) (buf ++ end)
      ∙ ap (λ (v : ℕ). read_binary v (buf ++ end)) (omega arith)

  digit_loop-negsuc :
      (k n : ℕ) (buf : List ℕ)
      → n < 2 ^ k
      → read_binary 0 (digit_loop k (negsuc n) buf ++ end)
        ≡ read_binary (2 ^ k - 1 - n) (buf ++ end)
  unfolding digit_loop
  digit_loop-negsuc zero n buf h = ap (λ (v : ℕ). read_binary v (buf ++ end)) (omega arith)
  digit_loop-negsuc (suc k) n buf h =
      digit_loop-negsuc k (n / 2) ((1 - n % 2 + 48) ∷ buf) (omega (arith, pow-suc 2 k))
      ∙ read_digit (1 - n % 2) (2 ^ k - 1 - n / 2) (buf ++ end)
      ∙ ap (λ (v : ℕ). read_binary v (buf ++ end)) (omega (arith, pow-suc 2 k))

-- The integers of a short int.
pub IsShort : ℤ → Type 0
IsShort (pos n) = n < 2 ^ 15
IsShort (negsuc n) = n < 2 ^ 15

-- For every short int, the text of shortint2bin reads as its pattern of 16 digits in two's complement.
pub shortint2bin-pattern_of : (a : ℤ) → IsShort a → read_binary 0 (shortint2bin a) ≡ pattern_of 16 a
unfolding shortint2bin read_binary pattern_of IsShort
shortint2bin-pattern_of (pos n) h = digit_loop-pos (0 ∷ []) 16 n [] (omega arith)
shortint2bin-pattern_of (negsuc n) h = digit_loop-negsuc (0 ∷ []) 16 n [] (omega arith)
