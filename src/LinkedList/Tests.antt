-- ===== src/LinkedList/Tests.antt =====
-- Five nodes on an empty heap, and the theorems at them.
use tpt.Common.{◌≡◌, refl, none, some, [], ◌∷◌, ◌++◌, ℤ, pos, arith}
use tpt.Common.Cells.{Ptr, Heap, Cells, Chain, SameOutside, Freed, write}
use tpt.LinkedList.{add_node, disp, cleanup}
use tpt.LinkedList.Laws.{add_node-append, cleanup-Freed}

abbrev nowhere : Heap ℤ
nowhere a = none

-- 7 and 8, at 10 and 20.
abbrev two_nodes : Heap ℤ
two_nodes = write (write nowhere 10 (some (pos 7, 20))) 20 (some (pos 8, 0))

abbrev two_cells : Cells ℤ
two_cells = (10, pos 7) ∷ (20, pos 8) ∷ []

two_cells-Chain : Chain two_nodes 10 two_cells
two_cells-Chain = (refl, omega arith, refl, (20, refl, (refl, omega arith, refl, (0, refl, refl))))

add_node-append_example :
    (head : Ptr) × (g : Heap ℤ) × (add_node 3 30 10 (pos 9) two_nodes ≡ some (head, g))
    × Chain g head (two_cells ++ (30, pos 9) ∷ [])
    × SameOutside (two_cells ++ (30, pos 9) ∷ []) two_nodes g
add_node-append_example =
    add_node-append 3 two_nodes 10 30 (pos 9) two_cells two_cells-Chain refl (omega arith)
      (omega arith)

cleanup-Freed_example :
    (g : Heap ℤ) × (cleanup 3 10 two_nodes ≡ some (tt, g)) × Freed two_cells two_nodes g
cleanup-Freed_example = cleanup-Freed 3 two_nodes 10 two_cells two_cells-Chain (omega arith)

shown : ((g : Heap ℤ) × (disp 3 10 two_nodes ≡ some (pos 7 ∷ pos 8 ∷ [], g)))
unfolding disp
shown = (two_nodes, refl)
