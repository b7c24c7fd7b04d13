-- ===== src/ConnMgr/Queue/Walks.antt =====
-- The two walks of conn_mgr_queue.c over a queue.
use tpt.Common.{
  ℕ, zero, suc, ◌+◌, ◌%◌, ◌^◌, ◌<◌, ◌≡◌, ◌∙◌, ap, refl, true, some, List, [], ◌∷◌, arith, length,
  map,
}
use tpt.ConnMgr.Queue.{Ptr, Queue, Heap, get_length, length_loop, print, print_loop}
use tpt.ConnMgr.Queue.Chain.{Cells, Chain, IsQueue}

-- The data pointers of the cells, from the head on.
abbrev pub contents : Cells → List Ptr
contents = map (λ c. c.1)

length_loop-length :
    (h : Heap) (k : ℕ) (p : Ptr) (xs : Cells) (count : ℕ)
    → Chain h p xs
    → length xs < k
    → count < 2 ^ 32
    → length_loop k p count h ≡ some ((count + length xs) % 2 ^ 32, h)
unfolding length_loop
length_loop-length h zero p xs count c fuel small = absurd (omega arith)
length_loop-length h (suc k) p [] count c fuel small =
    rw c (ap (λ (n : ℕ). some (n, h)) (omega arith))
length_loop-length h (suc k) p ((a, d) ∷ xs) count (e, na, nd, out, (q, at, rest)) fuel small =
    let step : length_loop (suc k) p count h ≡ length_loop k q ((count + 1) % 2 ^ 32) h =
      ground arith in
    step
    ∙ length_loop-length h k q xs ((count + 1) % 2 ^ 32) rest (omega arith) (omega arith)
    ∙ ap (λ (n : ℕ). some (n, h)) (omega arith)

-- With more rounds than items, conn_mgr_queue_get_length returns the number of items modulo 2 ^ 32, and
-- changes nothing.
pub get_length-length :
    (h : Heap) (q : Queue) (xs : Cells) (fuel : ℕ)
    → IsQueue h q xs
    → length xs < fuel
    → get_length fuel (some q) h ≡ some (length xs % 2 ^ 32, h)
unfolding get_length
get_length-length h q xs fuel is enough =
    length_loop-length h fuel q.head xs 0 is.chain enough (omega arith)
    ∙ ap (λ (n : ℕ). some (n, h)) (omega arith)

print_loop-contents :
    (h : Heap) (k : ℕ) (p : Ptr) (xs : Cells)
    → Chain h p xs
    → length xs < k
    → print_loop k p h ≡ some (contents xs, h)
unfolding print_loop
print_loop-contents h zero p xs c fuel = absurd (omega arith)
print_loop-contents h (suc k) p [] c fuel = rw c refl
print_loop-contents h (suc k) p ((a, d) ∷ xs) (e, na, nd, out, (q, at, rest)) fuel =
    ground (arith, print_loop-contents h k q xs rest (omega arith))

-- With more rounds than items, conn_mgr_queue_print calls the callback on the data pointers of the queue
-- from its head to its tail, and changes nothing.
pub print-contents :
    (h : Heap) (q : Queue) (xs : Cells) (fuel : ℕ)
    → IsQueue h q xs
    → length xs < fuel
    → print fuel true (some q) h ≡ some (contents xs, h)
unfolding print
print-contents h q xs fuel is enough = print_loop-contents h fuel q.head xs is.chain enough
