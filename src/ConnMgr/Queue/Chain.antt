-- ===== src/ConnMgr/Queue/Chain.antt =====
-- The chain of items that a queue of conn_mgr_queue.c stands for.
use tpt.Common.{
  ◌≡◌, refl, ◌≢◌, Bool, true, false, ◌||◌, none, some, List, [], ◌∷◌, ◌++◌, arith, ◌==◌,
  if◌then◌else◌,
}
use tpt.ConnMgr.Queue.{Ptr, null, item_of, Queue, Heap}

-- Address and data of each item, from the head on.
abbrev pub Cells : Type 0
Cells = List (Ptr × Ptr)

abbrev pub has : Ptr → Cells → Bool
has a [] = false
has a ((p, _) ∷ xs) = (p == a) || has a xs

-- From `p` the items lead through the distinct addresses of the cells to NULL.
abbrev pub Chain : Heap → Ptr → Cells → Type 0
Chain h p [] = p ≡ null
Chain h p ((a, d) ∷ xs) =
    (p ≡ a)
    × (a ≢ null)
    × (d ≢ null)
    × (has a xs ≡ false)
    × ((q : Ptr) × (h a ≡ some (item_of d q)) × Chain h q xs)

-- The address of the last cell.
abbrev pub last_address : Cells → Ptr
last_address [] = null
last_address ((a, _) ∷ []) = a
last_address (_ ∷ x ∷ xs) = last_address (x ∷ xs)

pub record IsQueue (h : Heap) (q : Queue) (xs : Cells) : Type 0 where
  pub chain : Chain h q.head xs
  pub last : q.tail ≡ last_address xs

-- A chain survives what happens elsewhere.
pub Chain-frame :
    (h g : Heap) (p : Ptr) (xs : Cells)
    → ((a : Ptr) → has a xs ≡ true → g a ≡ h a)
    → Chain h p xs
    → Chain g p xs
Chain-frame h g p [] same c = c
Chain-frame h g p ((a, d) ∷ xs) same (e, na, nd, out, (q, at, rest)) = (
  e,
  na,
  nd,
  out,
  (q, ground (arith, same a), Chain-frame h g q xs (λ b i. same b (ground arith)) rest),
)

-- An address that holds no item is not in the chain.
pub not-has_of_none :
    (h : Heap) (p a : Ptr) (xs : Cells) → Chain h p xs → h a ≡ none → has a xs ≡ false
not-has_of_none h p a [] c free = refl
not-has_of_none h p a ((b, d) ∷ xs) (e, na, nd, out, (q, at, rest)) free =
    ground (arith, not-has_of_none h q a xs rest free)

last_address-ne_null :
    (h : Heap) (p : Ptr) (x : Ptr × Ptr) (xs : Cells)
    → Chain h p (x ∷ xs)
    → last_address (x ∷ xs) ≢ null
last_address-ne_null h p (a, d) [] (_, na, _, _, _) = na
last_address-ne_null h p (a, d) (y ∷ xs) (_, _, _, _, (q, _, rest)) =
    last_address-ne_null h q y xs rest

-- In front of a chain, the last address stays unless there was none.
pub last_address-cons :
    (a d : Ptr) (h : Heap) (p : Ptr) (xs : Cells)
    → Chain h p xs
    → last_address ((a, d) ∷ xs) ≡ (if last_address xs == null then a else last_address xs)
last_address-cons a d h p [] c = refl
last_address-cons a d h p (x ∷ xs) c = ground (arith, last_address-ne_null h p x xs c)

pub has-last_address : (x : Ptr × Ptr) (xs : Cells) → has (last_address (x ∷ xs)) (x ∷ xs) ≡ true
has-last_address (a, d) [] = ground arith
has-last_address (a, d) (y ∷ xs) = ground (arith, has-last_address y xs)

pub last_address-append : (xs : Cells) (a d : Ptr) → last_address (xs ++ (a, d) ∷ []) ≡ a
last_address-append [] a d = refl
last_address-append (x ∷ []) a d = refl
last_address-append (x ∷ y ∷ xs) a d = last_address-append (y ∷ xs) a d

has-append : (a : Ptr) (xs : Cells) (b d : Ptr) → has a (xs ++ (b, d) ∷ []) ≡ (has a xs || (b == a))
has-append a [] b d = ground arith
has-append a ((p, e) ∷ xs) b d = ground (arith, has-append a xs b d)

-- What becomes of a chain when its last item is linked to a new one.
pub Chain-snoc :
    (h g : Heap) (item d : Ptr)
    → item ≢ null
    → d ≢ null
    → g item ≡ some (item_of d null)
    → (p : Ptr) (x : Ptr × Ptr) (xs : Cells) → has item (x ∷ xs) ≡ false
    → ((a : Ptr) → has a (x ∷ xs) ≡ true → a ≢ last_address (x ∷ xs) → g a ≡ h a)
    → ((e q : Ptr)
        → h (last_address (x ∷ xs)) ≡ some (item_of e q)
        → g (last_address (x ∷ xs)) ≡ some (item_of e item))
    → Chain h p (x ∷ xs)
    → Chain g p ((x ∷ xs) ++ (item, d) ∷ [])
Chain-snoc h g item d ni nd new p (a, e) [] out same link (here, na, ne, _, (q, at, end)) =
    (here, na, ne, ground arith, (item, link e q at, (refl, ni, nd, refl, (null, new, refl))))
Chain-snoc h g item d ni nd new p (a, e) (y ∷ xs) out same link
      (here, na, ne, apart, (q, at, rest)) =
    (
      here,
      na,
      ne,
      ground (arith, has-append a (y ∷ xs) item d),
      (
        q,
        ground (arith, same a, has-last_address y xs),
        Chain-snoc h g item d ni nd new q y xs (ground arith) (λ b i far. same b (ground arith) far)
            link rest,
      ),
    )

-- The last cell holds an item.
pub last_address-item :
    (h : Heap) (p : Ptr) (x : Ptr × Ptr) (xs : Cells)
    → Chain h p (x ∷ xs)
    → (e : Ptr) × (q : Ptr) × (h (last_address (x ∷ xs)) ≡ some (item_of e q))
      × (last_address (x ∷ xs) ≢ null)
last_address-item h p (a, d) [] (_, na, _, _, (q, at, _)) = (d, q, at, na)
last_address-item h p (a, d) (y ∷ xs) (_, _, _, _, (q, _, rest)) = last_address-item h q y xs rest
