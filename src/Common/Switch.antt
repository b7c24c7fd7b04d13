-- ===== src/Common/Switch.antt =====
-- A C `switch` over error codes that returns the name of the code, as a walk through its cases.
use Prim.Native.String.{String}
use mathlib.Core.Path.{◌≡◌, refl}
use mathlib.Core.Logic.{◌⊎◌, inl, inr}
use mathlib.Core.Bool.{false}
use mathlib.Core.Option.{Option, none, some}
use mathlib.Core.List.{List, [], ◌∷◌}
use tpt.Common.Tests.{if◌then◌else◌, Bool-cases}
use tpt.Common.Int.{ℤ, int_eq, int_eq_iff}

-- `e` is one of the cases.
abbrev pub Listed : {E : Type 0} → E → List E → Type 0
Listed e [] = ⊥
Listed e (x ∷ xs) = (e ≡ x) ⊎ Listed e xs

module _ {E : Type 0} (code : E → ℤ) (name : E → String) where
  -- `none` is the NULL of `default`.
  abbrev pub switch : ℤ → List E → Option String
  switch c [] = none
  switch c (e ∷ es) = if int_eq c (code e) then some (name e) else switch c es

  -- The name of the case that the number fits, or NULL if it fits none.
  pub switch_cases :
      (c : ℤ) (es : List E)
      → ((e : E) × Listed e es × (c ≡ code e) × (switch c es ≡ some (name e)))
        ⊎ (((e : E) → Listed e es → int_eq c (code e) ≡ false) × (switch c es ≡ none))
  switch_cases c [] = inr ((λ e l. absurd l), refl)
  switch_cases c (x ∷ es) = elim (Bool-cases (int_eq c (code x))) [
    | inl hit ↦ inl (x, inl refl, (int_eq_iff c (code x)).0 hit, rw hit refl)
    | inr miss ↦ later miss (switch_cases c es)
  ]
    where
      later :
          int_eq c (code x) ≡ false
          → ((e : E) × Listed e es × (c ≡ code e) × (switch c es ≡ some (name e)))
            ⊎ (((e : E) → Listed e es → int_eq c (code e) ≡ false) × (switch c es ≡ none))
          → ((e : E) × Listed e (x ∷ es) × (c ≡ code e) × (switch c (x ∷ es) ≡ some (name e)))
            ⊎ (((e : E) → Listed e (x ∷ es) → int_eq c (code e) ≡ false)
                × (switch c (x ∷ es) ≡ none))
      later miss (inl (e, l, same, found)) = inl (e, inr l, same, rw miss found)
      later miss (inr (none_fits, nothing)) = inr (
        (λ e l. elim l [ inl here ↦ rw here miss | inr rest ↦ none_fits e rest ]),
        rw miss nothing,
      )
