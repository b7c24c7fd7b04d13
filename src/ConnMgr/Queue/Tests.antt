-- ===== src/ConnMgr/Queue/Tests.antt =====
-- A run of conn_mgr_queue.c, and the instances of its theorems along it.
use tpt.Common.{◌≡◌, refl, ◌||◌, none, some, [], ◌∷◌, ◌++◌, arith, ◌==◌}
use tpt.ConnMgr.Queue.{null, item_of, Queue, Heap, write, init, push_tail, pop_head}
use tpt.ConnMgr.Queue.Chain.{Cells, IsQueue}
use tpt.ConnMgr.Queue.Refinement.{Leaves, Popped, push_tail-append, pop_head-Popped}

abbrev empty_heap : Heap
empty_heap a = none

abbrev empty_queue : Queue
empty_queue = record { head = null; tail = null }

empty_queue-init : init (some (record { head = 8; tail = 9 })) ≡ some empty_queue
unfolding init
empty_queue-init = refl

empty_queue-IsQueue : IsQueue empty_heap empty_queue []
empty_queue-IsQueue = record { chain = refl; last = refl }

-- 70 at address 10, then 80 behind it at address 20.
abbrev two_heap : Heap
two_heap = write (write empty_heap 10 (some (item_of 70 20))) 20 (some (item_of 80 null))

abbrev two_items : Queue
two_items = record { head = 10; tail = 20 }

abbrev two_cells : Cells
two_cells = (10, 70) ∷ (20, 80) ∷ []

two_items-IsQueue : IsQueue two_heap two_items two_cells
two_items-IsQueue = record {
  chain = (
    refl,
    (λ e. omega arith),
    (λ e. omega arith),
    refl,
    (20, refl, (refl, (λ e. omega arith), (λ e. omega arith), refl, (null, refl, refl))),
  );
  last = refl;
}

pop_two :
    pop_head (some two_items) two_heap
    ≡ some ((70, some (record { head = 20; tail = 20 })), write two_heap 10 none)
unfolding pop_head
pop_two = refl

push_tail-append_example :
    Leaves
      (λ a. (30 == a) || (20 == a))
      two_heap
      (two_cells ++ (30, 60) ∷ [])
      (push_tail 30 (some two_items) 60 two_heap)
push_tail-append_example =
    push_tail-append two_heap two_items two_cells 30 60 two_items-IsQueue refl (λ e. omega arith)
      (λ e. omega arith)

pop_head-Popped_example : Popped two_heap two_items two_cells (pop_head (some two_items) two_heap)
pop_head-Popped_example = pop_head-Popped two_heap two_items two_cells two_items-IsQueue
