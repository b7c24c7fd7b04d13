-- ===== src/LinkedList/Laws.antt =====
-- The list that addNode makes, and what cleanup leaves of it.
use tpt.Common.{
  ℕ, zero, suc, ◌+◌, ◌<◌, ◌≡◌, refl, ◌≢◌, ◌∙◌, Bool, true, false, ◌||◌, none, some, List, [], ◌∷◌,
  ◌++◌, length, ℤ, pos, arith, ◌==◌,
}
use tpt.Common.Cells.{
  Ptr, null, Heap, Cells, write, has, values, Chain, SameOutside, Freed, Chain-frame,
  not-has_of_none, has-append, Chain-tail, load-at, null-ne_of_cons,
}
use tpt.LinkedList.{link_loop, add_node, disp, cleanup, add_loop, main}

module _ (new_node : Ptr) (n : ℤ) where
  link_loop-Chain :
      (k : ℕ) (h : Heap ℤ) (p : Ptr) (x : Ptr × ℤ) (xs : Cells ℤ)
      → Chain h p (x ∷ xs)
      → has new_node (x ∷ xs) ≡ false
      → new_node ≢ null
      → h new_node ≡ some (n, null)
      → length (x ∷ xs) < k
      → (g : Heap ℤ) × (link_loop k new_node p h ≡ some (tt, g))
        × Chain g p ((x ∷ xs) ++ (new_node, n) ∷ [])
        × SameOutside (x ∷ xs) h g
  unfolding link_loop
  link_loop-Chain zero h p x xs c out nn at fuel = absurd (omega arith)
  link_loop-Chain (suc k) h p (a, v) [] (e, na, _, (q, here, end)) out nn at fuel = (
    write h p (some (v, new_node)),
    (let at_end : (q == null) ≡ true = ground arith in
        rw (load-at h p a v q e na here, at_end, link_loop) refl),
    (e, na, ground arith, (new_node, ground arith, (refl, nn, refl, (null, ground arith, refl)))),
    λ b far. ground arith,
  )
  link_loop-Chain (suc k) h p (a, v) (y ∷ xs) (e, na, apart, (q, here, rest)) out nn at fuel =
      let (g, run, chain, same) =
        link_loop-Chain k h q y xs rest (ground arith) nn at (omega arith) in
      (
        g,
        rw (load-at h p a v q e na here, null-ne_of_cons h q y xs rest, link_loop, run) refl,
        (e, na, ground (arith, has-append a (y ∷ xs) new_node n), (q, same a apart ∙ here, chain)),
        λ b far. same b (ground arith),
      )

-- With a new node, addNode appends the number to the list, in place and with the nodes before it in their order, and
-- changes the last of them and the new one only in what they are.
pub add_node-append :
    (k : ℕ) (h : Heap ℤ) (head new_node : Ptr) (n : ℤ) (xs : Cells ℤ)
    → Chain h head xs
    → h new_node ≡ none
    → new_node ≢ null
    → length xs < k
    → (head' : Ptr) × (g : Heap ℤ) × (add_node k new_node head n h ≡ some (head', g))
      × Chain g head' (xs ++ (new_node, n) ∷ [])
      × SameOutside (xs ++ (new_node, n) ∷ []) h g
unfolding add_node
add_node-append k h head new_node n [] c free nn fuel = (
  new_node,
  write h new_node (some (n, null)),
  ground arith,
  (refl, nn, refl, (null, ground arith, refl)),
  λ a far. ground arith,
)
add_node-append k h head new_node n (x ∷ xs) c free nn fuel =
    let new_given : (new_node == null) ≡ false = ground arith in
    let out = not-has_of_none h head new_node (x ∷ xs) c free in
    let h' = write h new_node (some (n, null)) in
    let kept = Chain-frame h h' head (x ∷ xs) (λ a i. ground arith) c in
    let (g, run, chain, same) =
      link_loop-Chain new_node n k h' head x xs kept out nn (ground arith) fuel in
    (
      head,
      g,
      rw (new_given, null-ne_of_cons h head x xs c, run) refl,
      chain,
      λ a far. ground (arith, has-append a (x ∷ xs) new_node n, same a),
    )

-- The numbers of a list.
pub disp-values :
    (k : ℕ) (h : Heap ℤ) (head : Ptr) (xs : Cells ℤ)
    → Chain h head xs
    → length xs < k
    → disp k head h ≡ some (values xs, h)
unfolding disp
disp-values zero h head xs c fuel = absurd (omega arith)
disp-values (suc k) h head [] c fuel =
    let empty : (head == null) ≡ true = ground arith in rw empty refl
disp-values (suc k) h head ((a, v) ∷ xs) (e, na, out, (q, at, rest)) fuel =
    rw
      (
        load-at h head a v q e na at,
        null-ne_of_cons h head (a, v) xs (e, na, out, (q, at, rest)),
        disp-values k h q xs rest (omega arith),
      )
      refl

-- cleanup frees every node of its list once, and nothing else.
pub cleanup-Freed :
    (k : ℕ) (h : Heap ℤ) (head : Ptr) (xs : Cells ℤ)
    → Chain h head xs
    → length xs < k
    → (g : Heap ℤ) × (cleanup k head h ≡ some (tt, g)) × Freed xs h g
unfolding cleanup
cleanup-Freed zero h head xs c fuel = absurd (omega arith)
cleanup-Freed (suc k) h head [] c fuel =
    let empty : (head == null) ≡ true = ground arith in (h, rw empty refl, λ a. refl)
cleanup-Freed (suc k) h head ((a, v) ∷ xs) (e, na, out, (q, at, rest)) fuel =
    let (g, run, freed) =
      cleanup-Freed k (write h head none) q xs (Chain-tail h head q xs (rw e out) rest)
        (omega arith) in
    (
      g,
      rw
          (
            load-at h head a v q e na at,
            null-ne_of_cons h head (a, v) xs (e, na, out, (q, at, rest)),
            run,
          )
          refl,
      λ b. ground (arith, freed b),
    )

-- The nodes with the numbers from `i` on.
abbrev pub numbered : (i : ℕ) → List Ptr → Cells ℤ
numbered i [] = []
numbered i (p ∷ ps) = (p, pos i) ∷ numbered (i + 1) ps

abbrev pub among : Ptr → List Ptr → Bool
among a [] = false
among a (p ∷ ps) = (p == a) || among a ps

-- The addresses are distinct, and hold no node.
abbrev pub AreNew : Heap ℤ → List Ptr → Type 0
AreNew h [] = Unit {0}
AreNew h (p ∷ ps) = (h p ≡ none) × (p ≢ null) × (among p ps ≡ false) × AreNew h ps

-- A run of main: its list, at `head`, is displayed and given up node by node, `head` is not NULL and leads to a
-- node that is no longer there, and displaying it again faults, at this fuel and any other.
abbrev pub UsesFreed : (k : ℕ) → (shown : List ℤ) → (new_nodes : List Ptr) → Heap ℤ → Type 0
UsesFreed k shown new_nodes h =
    (head : Ptr) × (g g' : Heap ℤ) × (add_loop k new_nodes 0 null h ≡ some (head, g))
    × (disp k head g ≡ some (shown, g))
    × (cleanup k head g ≡ some (tt, g'))
    × (head ≢ null)
    × (g' head ≡ none)
    × ((j : ℕ) → disp j head g' ≡ none)
    × (main k new_nodes h ≡ none)
