-- ===== src/Common/Family.antt =====
-- Families `ℕ → A` indexed by thread or by fork: the update of one member, sums of a weight over the
-- first `n` members, and the search for a member below `n`.
use Prim.Native.Nat.{ℕ, zero, suc, ◌+◌, ◌*◌, ◌≤◌, ◌<◌}
use mathlib.Core.Path.{◌≡◌, refl}
use mathlib.Core.Logic.{◌⊎◌, inl, inr}
use native.Mathlib.Decide.{dec_lt, ℕ_discrete}
use native.Mathlib.Omega.{arith}
use tpt.Common.Tests.{◌==◌, if◌then◌else◌}

abbrev pub update {ℓ} : {A : Type ℓ} → (ℕ → A) → ℕ → A → ℕ → A
update f i a j = if i == j then a else f j

module _ {ℓ} {A : Type ℓ} (weight : A → ℕ) where
  pub total : ℕ → (ℕ → A) → ℕ
  total zero f = 0
  total (suc n) f = weight (f n) + total n f

  total-update_above :
      (n : ℕ) (f : ℕ → A) (i : ℕ) (a : A) → n ≤ i → total n (update f i a) ≡ total n f
  unfolding total
  total-update_above zero f i a above = refl
  total-update_above (suc n) f i a above = ground (arith, total-update_above n f i a)

  -- An update below `n` exchanges one weight for another.
  pub total-update :
      (n : ℕ) (f : ℕ → A) (i : ℕ) (a : A)
      → i < n
      → total n (update f i a) + weight (f i) ≡ total n f + weight a
  unfolding total
  total-update zero f i a below = absurd (omega arith)
  total-update (suc n) f i a below = elim (dec_lt i n) [
    | yes inside ↦ ground (arith, total-update n f i a inside)
    | no last ↦ ground (arith, total-update_above n f i a)
  ]

  -- A member below `n` weighs at most the sum.
  pub weight-le-total : (n : ℕ) (f : ℕ → A) (i : ℕ) → i < n → weight (f i) ≤ total n f
  unfolding total
  weight-le-total zero f i below = absurd (omega arith)
  weight-le-total (suc n) f i below = elim (ℕ_discrete i n) [
    | yes last ↦ rw last (omega arith)
    | no other ↦ omega (arith, weight-le-total n f i)
  ]

  -- Members that all weigh `c`.
  pub total-const : (n c : ℕ) (f : ℕ → A) → ((i : ℕ) → i < n → weight (f i) ≡ c) → total n f ≡ n * c
  unfolding total
  total-const zero c f same = omega arith
  total-const (suc n) c f same =
      omega (arith, same n (omega arith), total-const n c f (λ i below. same i (omega arith)))

-- Either some index below `n` has `P`, or all of them have `Q`.
pub search_below {ℓ κ} :
    {P : ℕ → Type ℓ} {Q : ℕ → Type κ}
    → ((i : ℕ) → P i ⊎ Q i)
    → (n : ℕ) → ((i : ℕ) × (i < n) × P i) ⊎ ((i : ℕ) → i < n → Q i)
search_below decide zero = inr (λ i below. absurd (omega arith))
search_below {P} {Q} decide (suc n) = go (search_below decide n) (decide n)
  where
    go :
        ((i : ℕ) × (i < n) × P i) ⊎ ((i : ℕ) → i < n → Q i)
        → P n ⊎ Q n
        → ((i : ℕ) × (i < suc n) × P i) ⊎ ((i : ℕ) → i < suc n → Q i)
    go (inl (i, below, p)) last = inl (i, omega arith, p)
    go (inr all) (inl p) = inl (n, omega arith, p)
    go (inr all) (inr q) =
        inr
          λ i below. elim (ℕ_discrete i n) [ yes here ↦ rw here q | no other ↦ all i (omega arith) ]
