-- ===== src/Common/Cells.antt =====
-- Chains of cells on an explicit heap: a cell holds a value and the address of the next cell. A command that
-- dereferences NULL, or an address that holds no cell, is a fault, `none`.
use Prim.Native.Nat.{ℕ}
use mathlib.Core.Path.{◌≡◌, refl}
use mathlib.Core.Logic.{◌≢◌}
use mathlib.Core.Bool.{Bool, true, false, ◌||◌}
use mathlib.Core.Option.{Option, none, some}
use mathlib.Core.List.{List, [], ◌∷◌, ◌++◌}
use native.Mathlib.Omega.{arith}
use tpt.Common.Tests.{◌==◌, if◌then◌else◌}

abbrev pub Ptr : Type 0
Ptr = ℕ

abbrev pub null : Ptr
null = 0

module _ (V : Type 0) where
  abbrev pub Heap : Type 0
  Heap = Ptr → Option (V × Ptr)

  -- Address and value of each cell.
  abbrev pub Cells : Type 0
  Cells = List (Ptr × V)

module _ {V : Type 0} where
  abbrev pub write : Heap V → Ptr → Option (V × Ptr) → Heap V
  write h p c a = if p == a then c else h a

  -- `*p`
  abbrev pub load : Heap V → Ptr → Option (V × Ptr)
  load h p = if p == null then none else h p

  abbrev pub has : Ptr → Cells V → Bool
  has a [] = false
  has a ((p, _) ∷ xs) = (p == a) || has a xs

  abbrev pub values : Cells V → List V
  values [] = []
  values ((_, v) ∷ xs) = v ∷ values xs

  -- From `p` the cells lead through distinct addresses to NULL.
  abbrev pub Chain : Heap V → Ptr → Cells V → Type 0
  Chain h p [] = p ≡ null
  Chain h p ((a, v) ∷ xs) =
      (p ≡ a) × (a ≢ null) × (has a xs ≡ false) × ((q : Ptr) × (h a ≡ some (v, q)) × Chain h q xs)

  -- The heaps differ at most at the addresses of `xs`.
  abbrev pub SameOutside : Cells V → Heap V → Heap V → Type 0
  SameOutside xs h g = (a : Ptr) → has a xs ≡ false → g a ≡ h a

  -- Nothing is left at the addresses of `xs`, and all else is as before.
  abbrev pub Freed : Cells V → Heap V → Heap V → Type 0
  Freed xs h g = (a : Ptr) → g a ≡ (if has a xs then none else h a)

  pub Chain-frame :
      (h g : Heap V) (p : Ptr) (xs : Cells V)
      → ((a : Ptr) → has a xs ≡ true → g a ≡ h a)
      → Chain h p xs
      → Chain g p xs
  Chain-frame h g p [] same c = c
  Chain-frame h g p ((a, v) ∷ xs) same (e, na, out, (q, at, rest)) = (
    e,
    na,
    out,
    (q, ground (arith, same a), Chain-frame h g q xs (λ b i. same b (ground arith)) rest),
  )

  pub not-has_of_none :
      (h : Heap V) (p a : Ptr) (xs : Cells V) → Chain h p xs → h a ≡ none → has a xs ≡ false
  not-has_of_none h p a [] c free = refl
  not-has_of_none h p a ((b, v) ∷ xs) (e, na, out, (q, at, rest)) free =
      ground (arith, not-has_of_none h q a xs rest free)

  pub has-append :
      (a : Ptr) (xs : Cells V) (b : Ptr) (v : V)
      → has a (xs ++ (b, v) ∷ []) ≡ (has a xs || (b == a))
  has-append a [] b v = ground arith
  has-append a ((p, w) ∷ xs) b v = ground (arith, has-append a xs b v)

  -- A chain behind its freed head.
  pub Chain-tail :
      (h : Heap V) (a q : Ptr) (xs : Cells V)
      → has a xs ≡ false
      → Chain h q xs
      → Chain (write h a none) q xs
  Chain-tail h a q xs out rest = Chain-frame h _ q xs (λ b i. ground arith) rest

  pub load-at :
      (h : Heap V) (p a : Ptr) (v : V) (q : Ptr)
      → p ≡ a
      → a ≢ null
      → h a ≡ some (v, q)
      → load h p ≡ some (v, q)
  load-at h p a v q e na at = rw e (ground arith)

  -- A chain with a cell does not begin at NULL.
  pub null-ne_of_cons :
      (h : Heap V) (p : Ptr) (x : Ptr × V) (xs : Cells V) → Chain h p (x ∷ xs) → (p == null) ≡ false
  null-ne_of_cons h p (a, v) xs (e, na, _, _) = ground arith
