-- ===== src/Common/Bits.antt =====
-- The bit operations of C by their lowest digit, and what they do to the operands that the sources
-- give them: fields that do not overlap, a mask of low bits, and the masks 0 and all ones.
use Prim.Native.Nat.{ℕ, zero, suc, ◌+◌, ◌-◌, ◌*◌, ◌/◌, ◌%◌, ◌^◌, ◌≤◌, ◌<◌, min, max}
use Prim.Native.Nat.{bit_and, bit_or, bit_xor, differ, digits, bitwise}
use Prim.Native.Nat.{bit_and-bitwise, bit_or-bitwise, bit_xor-bitwise}
use mathlib.Core.Path.{◌≡◌, refl, sym, ap, ◌∙◌}
use native.Mathlib.Nat.{pow-suc, one-le-pow}
use native.Mathlib.Omega.{arith}

module _ (end : ℕ → ℕ) (op : ℕ → ℕ → ℕ) where
  -- Any fuel that covers the first operand gives the same digits.
  digits_fuel : (k a b l : ℕ) → a ≤ k → a ≤ l → digits end op k a b ≡ digits end op l a b
  digits_fuel zero zero b zero p q = refl
  digits_fuel zero zero b (suc l) p q = refl
  digits_fuel zero (suc a) b l p q = absurd (omega arith)
  digits_fuel (suc k) zero b zero p q = refl
  digits_fuel (suc k) zero b (suc l) p q = refl
  digits_fuel (suc k) (suc a) b zero p q = absurd (omega arith)
  digits_fuel (suc k) (suc a) b (suc l) p q =
      ap (λ (t : ℕ). t * 2 + op (suc a % 2) (b % 2))
        (digits_fuel k (suc a / 2) (b / 2) l (omega arith) (omega arith))

  bitwise-suc :
      (a b : ℕ)
      → bitwise end op (suc a) b ≡ bitwise end op (suc a / 2) (b / 2) * 2 + op (suc a % 2) (b % 2)
  bitwise-suc a b =
      ap (λ (t : ℕ). t * 2 + op (suc a % 2) (b % 2))
        (digits_fuel a (suc a / 2) (b / 2) (suc a / 2) (omega arith) (omega arith))

pub bit_and_step : (m n : ℕ) → bit_and m n ≡ min (m % 2) (n % 2) + bit_and (m / 2) (n / 2) * 2
bit_and_step zero n = simp bit_and-bitwise (omega arith)
bit_and_step (suc m) n = simp bit_and-bitwise (omega (arith, bitwise-suc (λ _. 0) min m n))

bit_xor_step : (m n : ℕ) → bit_xor m n ≡ differ (m % 2) (n % 2) + bit_xor (m / 2) (n / 2) * 2
bit_xor_step zero n = simp bit_xor-bitwise (omega arith)
bit_xor_step (suc m) n = simp bit_xor-bitwise (omega (arith, bitwise-suc (λ y. y) differ m n))

bit_or_step : (m n : ℕ) → bit_or m n ≡ max (m % 2) (n % 2) + bit_or (m / 2) (n / 2) * 2
bit_or_step zero n = simp bit_or-bitwise (omega arith)
bit_or_step (suc m) n = simp bit_or-bitwise (omega (arith, bitwise-suc (λ y. y) max m n))

-- Induction on a bound, since the number halves.
bit_or-zero : (bound a : ℕ) → a ≤ bound → bit_or a 0 ≡ a
bit_or-zero bound zero h = refl
bit_or-zero zero (suc a) h = absurd (omega arith)
bit_or-zero (suc bound) (suc a) h =
    omega (arith, bit_or_step (suc a) 0, bit_or-zero bound (suc a / 2) (omega arith))

bit_and-zero : (bound a : ℕ) → a ≤ bound → bit_and a 0 ≡ 0
bit_and-zero bound zero h = refl
bit_and-zero zero (suc a) h = absurd (omega arith)
bit_and-zero (suc bound) (suc a) h =
    omega (arith, bit_and_step (suc a) 0, bit_and-zero bound (suc a / 2) (omega arith))

differ-zero : (x : ℕ) → differ x 0 ≡ x
differ-zero zero = refl
differ-zero (suc x) = refl

-- `a ^ 0`.
pub bit_xor-zero : (k a : ℕ) → a < 2 ^ k → bit_xor a 0 ≡ a
bit_xor-zero zero zero h = refl
bit_xor-zero zero (suc a) h = absurd (omega arith)
bit_xor-zero (suc k) a h = omega (
  arith,
  bit_xor_step a 0,
  differ-zero (a % 2),
  bit_xor-zero k (a / 2) (omega (arith, pow-suc 2 k)),
)

differ-one : (x : ℕ) → x < 2 → differ x 1 ≡ 1 - x
differ-one zero h = refl
differ-one (suc zero) h = refl
differ-one (suc (suc x)) h = absurd (omega arith)

-- All ones, a digit at a time.
halves_of_ones :
    (k : ℕ) → ((2 ^ suc k - 1) / 2 ≡ 2 ^ k - 1) × ((2 ^ suc k - 1) % 2 ≡ 1) × (1 ≤ 2 ^ k)
halves_of_ones k =
    let p : 1 ≤ 2 ^ k = one-le-pow k 2 (omega arith) in
    let e : 2 ^ suc k ≡ 2 ^ k * 2 = pow-suc 2 k in (omega arith, omega arith, p)

-- `a ^ ~0` in a word of `k` bits is the complement of `a`.
pub bit_xor_ones : (k a : ℕ) → a < 2 ^ k → bit_xor a (2 ^ k - 1) ≡ 2 ^ k - 1 - a
bit_xor_ones zero zero h = refl
bit_xor_ones zero (suc a) h = absurd (omega arith)
bit_xor_ones (suc k) a h =
    let e : 2 ^ suc k ≡ 2 ^ k * 2 = pow-suc 2 k in
    let (half, last, p) = halves_of_ones k in
    let rest = bit_xor_ones k (a / 2) (omega arith) in
    let digit = differ-one (a % 2) (omega arith) in
    bit_xor_step a (2 ^ suc k - 1) ∙ rw (half, last, rest, digit) (omega arith)

-- A field that starts one digit higher is twice the field.
field-suc : (k q : ℕ) → q * 2 ^ suc k ≡ q * 2 ^ k * 2
field-suc k q = omega (arith, ap (λ (t : ℕ). q * t) (pow-suc 2 k))

-- `(q << k) | r` is a sum when `r` fits in `k` bits.
pub bit_or_fields : (k q r : ℕ) → r < 2 ^ k → bit_or (q * 2 ^ k) r ≡ q * 2 ^ k + r
bit_or_fields zero q r fits =
    let none_left : r ≡ 0 = omega arith in
    rw none_left (bit_or-zero (q * 2 ^ 0) _ (omega arith) ∙ omega arith)
bit_or_fields (suc k) q r fits =
    let e : 2 ^ suc k ≡ 2 ^ k * 2 = pow-suc 2 k in
    let f : q * 2 ^ suc k ≡ q * 2 ^ k * 2 = field-suc k q in
    let half : q * 2 ^ suc k / 2 ≡ q * 2 ^ k = omega arith in
    let last : q * 2 ^ suc k % 2 ≡ 0 = omega arith in
    let rest = bit_or_fields k q (r / 2) (omega arith) in
    bit_or_step (q * 2 ^ suc k) r ∙ rw (half, last, rest) (omega arith)

bit_and_fields : (k q r : ℕ) → r < 2 ^ k → bit_and (q * 2 ^ k + r) (2 ^ k - 1) ≡ r
bit_and_fields zero q r fits = bit_and-zero (q * 2 ^ 0 + r) _ (omega arith) ∙ omega arith
bit_and_fields (suc k) q r fits =
    let e : 2 ^ suc k ≡ 2 ^ k * 2 = pow-suc 2 k in
    let f : q * 2 ^ suc k ≡ q * 2 ^ k * 2 = field-suc k q in
    let half : (q * 2 ^ suc k + r) / 2 ≡ q * 2 ^ k + r / 2 = omega arith in
    let digit : (q * 2 ^ suc k + r) % 2 ≡ r % 2 = omega arith in
    let (half_mask, last, p) = halves_of_ones k in
    let rest = bit_and_fields k q (r / 2) (omega arith) in
    bit_and_step (q * 2 ^ suc k + r) (2 ^ suc k - 1)
    ∙ rw (half, digit, half_mask, last, rest) (omega arith)

-- `a & ((1 << k) - 1)` is the remainder.
pub bit_and_mask : (k a : ℕ) → bit_and a (2 ^ k - 1) ≡ a % 2 ^ k
bit_and_mask k a =
    let p : 1 ≤ 2 ^ k = one-le-pow k 2 (omega arith) in
    let split : a / 2 ^ k * 2 ^ k + a % 2 ^ k ≡ a = grind arith in
    ap (λ (t : ℕ). bit_and t (2 ^ k - 1)) (sym split)
    ∙ bit_and_fields k (a / 2 ^ k) (a % 2 ^ k) (grind arith)
