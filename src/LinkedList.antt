-- ===== src/LinkedList.antt =====
-- src/other/linkedlist.c: a singly linked list of ints, over an explicit heap. What calloc returns is an argument, 0
-- for NULL. The walks run on fuel.
pub mod Laws
mod Tests
use tpt.Common.{
  ℕ, zero, suc, ◌+◌, Bool, true, false, Option, none, some, List, [], ◌∷◌, ℤ, pos, ◌==◌,
  if◌then◌else◌,
}
use tpt.Common.Cells.{Ptr, null, Heap, write, load}

-- `none` is a fault.
abbrev pub Cmd : Type 0 → Type 0
Cmd A = Heap ℤ → Option (A × Heap ℤ)

-- From `tmp` to the last node, whose `next` becomes the new node.
link_loop : (fuel : ℕ) → (new_node tmp : Ptr) → Cmd (Unit {0})
link_loop zero new_node tmp h = none
link_loop (suc k) new_node tmp h = elim (load h tmp) [
  | none ↦ none
  | some (num, next) ↦
      let rest = link_loop k new_node next h in
      if next == null then some (tt, write h tmp (some (num, new_node))) else rest
]

-- Returns what is in `*head` behind it. A NULL from calloc is written through.
pub add_node : (fuel : ℕ) → (new_node : Ptr) → (head : Ptr) → (n : ℤ) → Cmd Ptr
unfolding link_loop
add_node fuel new_node head n h =
    let h' = write h new_node (some (n, null)) in
    if new_node == null
    then none
    else if head == null
    then some (new_node, h')
    else elim (link_loop fuel new_node head h') [ none ↦ none | some (_, g) ↦ some (head, g) ]

-- The numbers that are printed.
pub disp : (fuel : ℕ) → (head : Ptr) → Cmd (List ℤ)
disp zero head h = none
disp (suc k) head h = if head == null then some ([], h) else elim (load h head) [
  | none ↦ none
  | some (num, next) ↦ elim (disp k next h) [ none ↦ none | some (nums, g) ↦ some (num ∷ nums, g) ]
]

-- `head` is a copy of the caller's pointer.
pub cleanup : (fuel : ℕ) → (head : Ptr) → Cmd (Unit {0})
cleanup zero head h = none
cleanup (suc k) head h =
    if head == null
    then some (tt, h)
    else elim (load h head) [ none ↦ none | some (num, next) ↦ cleanup k next (write h head none) ]

pub add_loop : (fuel : ℕ) → (new_nodes : List Ptr) → (i : ℕ) → (head : Ptr) → Cmd Ptr
add_loop fuel [] i head h = some (head, h)
add_loop fuel (new_node ∷ more) i head h = elim (add_node fuel new_node head (pos i) h) [
  | none ↦ none
  | some (head', g) ↦ add_loop fuel more (i + 1) head' g
]

-- `new_nodes` are what the calls of calloc return. The result is what is printed by each call of disp.
pub main : (fuel : ℕ) → (new_nodes : List Ptr) → Cmd (List ℤ × List ℤ)
main fuel new_nodes h = elim (add_loop fuel new_nodes 0 null h) [
  | none ↦ none
  | some (head, g) ↦ elim (disp fuel head g) [
    | none ↦ none
    | some (first, g1) ↦ elim (cleanup fuel head g1) [
      | none ↦ none
      | some (_, g2) ↦ elim (disp fuel head g2) [
        | none ↦ none
        | some (second, g3) ↦ elim (cleanup fuel head g3) [
          | none ↦ none
          | some (_, g4) ↦ some ((first, second), g4)
        ]
      ]
    ]
  ]
]
