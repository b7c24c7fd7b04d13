-- ===== src/MemPool/FreeList.antt =====
-- The free list that __mp_free_list_init threads through a new slab.
use Prim.Native.Nat.{bit_or}
use tpt.Common.{
  ℕ_discrete, ℕ, zero, suc, ◌+◌, ◌*◌, ◌%◌, ◌^◌, ◌≤◌, ◌<◌, ◌≡◌, refl, ap, sym, subst, ◌∙◌, List, [],
  ◌∷◌, ◌++◌, arith, ◌==◌, if◌then◌else◌, length,
}
use tpt.MemPool.{Words, write, offset_invalid, list_loop, shifted}
use tpt.MemPool.Places.{peek, place_lem, peek-write}

-- How often a place stands in a list of places.
unfoldable pub count : ℕ → List ℕ → ℕ
count a [] = 0
count a (m ∷ ms) = (if m == a then 1 else 0) + count a ms

pub count-append : (a : ℕ) (ms ns : List ℕ) → count a (ms ++ ns) ≡ count a ms + count a ns
unfolding count
count-append a [] ns = omega arith
count-append a (m ∷ ms) ns = omega (arith, count-append a ms ns)

-- From `free` on, the words lead through the places to a place with the invalid offset.
abbrev pub Chain : Words → ℕ → List ℕ → Type 0
Chain words free [] = free % 2 ^ 28 ≡ offset_invalid
Chain words free (m ∷ ms) = (free ≡ m) × Chain words (peek words m) ms

pub Chain-frame :
    (words words' : Words) (free : ℕ) (ms : List ℕ)
    → ((m : ℕ) → 0 < count m ms → peek words' m ≡ peek words m)
    → Chain words free ms
    → Chain words' free ms
unfolding count
Chain-frame words words' free [] same c = c
Chain-frame words words' free (m ∷ ms) same (here, rest) = (
  here,
  rw (same m (ground arith))
      (Chain-frame words words' (peek words m) ms (λ a i. same a (omega arith)) rest),
)

-- The places of `1 + rounds` objects from an offset on.
unfoldable pub places : (slab sz offset rounds : ℕ) → List ℕ
places slab sz offset zero = (slab * 2 ^ 28 + offset) ∷ []
places slab sz offset (suc rounds) = (slab * 2 ^ 28 + offset) ∷ places slab sz (offset + sz) rounds

pub places-cons :
    (slab sz o k : ℕ) → (rest : List ℕ) × (places slab sz o k ≡ (slab * 2 ^ 28 + o) ∷ rest)
unfolding places
places-cons slab sz o zero = ([], refl)
places-cons slab sz o (suc k) = (places slab sz (o + sz) k, refl)

pub length-places : (slab sz o k : ℕ) → length (places slab sz o k) ≡ suc k
unfolding places
length-places slab sz o zero = refl
length-places slab sz o (suc k) = ap suc (length-places slab sz (o + sz) k)

pub places_below : (slab sz o k a : ℕ) → a < slab * 2 ^ 28 + o → count a (places slab sz o k) ≡ 0
unfolding places count
places_below slab sz o zero a below = ground arith
places_below slab sz o (suc k) a below = ground (arith, places_below slab sz (o + sz) k a)

pub places_single : (slab sz o k a : ℕ) → 0 < sz → count a (places slab sz o k) ≤ 1
unfolding places count
places_single slab sz o zero a some_size = ground arith
places_single slab sz o (suc k) a some_size =
    ground (arith, places_single slab sz (o + sz) k a, places_below slab sz (o + sz) k a)

-- A place among them is that of one of the objects.
pub places_member :
    (slab sz o k a : ℕ)
    → 0 < count a (places slab sz o k)
    → (j : ℕ) × (j ≤ k) × (a ≡ slab * 2 ^ 28 + o + j * sz)
unfolding places count
places_member slab sz o zero a i = (0, omega arith, ground arith)
places_member slab sz o (suc k) a i = elim (ℕ_discrete (slab * 2 ^ 28 + o) a) [
  | yes here ↦ (0, omega arith, omega arith)
  | no later ↦
      let (j, below, at) = places_member slab sz (o + sz) k a (ground arith) in
      (suc j, omega arith, omega arith)
]

-- The loop writes at its offset and above, in its slab alone.
pub list_loop_frame :
    (k slab sz o nf : ℕ) (words : Words) (a : ℕ)
    → o + k * sz < 2 ^ 28
    → a < slab * 2 ^ 28 + o
    → peek (list_loop k slab sz o nf words) a ≡ peek words a
unfolding list_loop
list_loop_frame zero slab sz o nf words a fits below =
    peek-write words slab o _ a (omega arith) ∙ ground arith
list_loop_frame (suc k) slab sz o nf words a fits below =
    list_loop_frame k slab sz (o + sz) _ _ a (omega arith) (omega arith)
    ∙ peek-write words slab o _ a (omega arith)
    ∙ ground arith

-- A round of the loop, where the sum does not wrap.
list_loop-suc :
    (k slab sz o : ℕ) (words : Words)
    → o + sz < 2 ^ 64
    → list_loop (suc k) slab sz o o words
      ≡ list_loop k slab sz (o + sz) (o + sz) (write words slab o (bit_or (shifted slab) (o + sz)))
unfolding list_loop
list_loop-suc k slab sz o words small =
    ap (λ (t : ℕ). list_loop k slab sz (o + sz) t (write words slab o (bit_or (shifted slab) t)))
      (omega arith)

-- The loop leaves a list through its objects, in their order.
pub list_loop-Chain :
    (k slab sz o : ℕ) (words : Words)
    → slab ≤ 4096
    → 0 < sz
    → o + k * sz < 2 ^ 28
    → Chain (list_loop k slab sz o o words) (slab * 2 ^ 28 + o) (places slab sz o k)
unfolding list_loop places
list_loop-Chain zero slab sz o words few pos fits = (refl, last)
  where
    last : peek (list_loop zero slab sz o o words) (slab * 2 ^ 28 + o) % 2 ^ 28 ≡ offset_invalid
    last = ground (
      arith,
      peek-write words slab o (bit_or (shifted slab) offset_invalid) (slab * 2 ^ 28 + o)
          (omega arith),
      place_lem slab offset_invalid few (omega arith),
    )
list_loop-Chain (suc k) slab sz o words few pos fits =
    let words' = write words slab o (bit_or (shifted slab) (o + sz)) in
    let at : peek (list_loop k slab sz (o + sz) (o + sz) words') (slab * 2 ^ 28 + o)
        ≡ slab * 2 ^ 28 + (o + sz) =
      list_loop_frame k slab sz (o + sz) (o + sz) words' (slab * 2 ^ 28 + o) (omega arith)
        (omega arith)
      ∙ ground (
        arith,
        peek-write words slab o (bit_or (shifted slab) (o + sz)) (slab * 2 ^ 28 + o) (omega arith),
        place_lem slab (o + sz) few (omega arith),
      ) in
    subst (λ ws. Chain ws (slab * 2 ^ 28 + o) (places slab sz o (suc k)))
      (sym (list_loop-suc k slab sz o words (omega arith)))
      (refl, rw at (list_loop-Chain k slab sz (o + sz) words' few pos (omega arith)))
