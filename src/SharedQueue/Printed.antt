-- ===== src/SharedQueue/Printed.antt =====
-- What queue_print shows.
use tpt.Common.{
  ℕ, zero, suc, ◌+◌, ◌%◌, ◌<◌, ◌≡◌, refl, ap, ◌∙◌, true, false, some, List, [], ◌∷◌, length, pos,
  int_eq, ltb, lt→ltb, arith,
}
use tpt.SharedQueue.Ring.{queue_size, Queue, print_loop, queue_print}
use tpt.SharedQueue.Holds.{Cells, Holds, Cells-around, ==_of, ==_not_of}

print_loop-items :
    (q : Queue) (h x k : ℕ) (xs : List ℕ)
    → h < queue_size
    → q.tail ≡ pos ((h + length xs) % queue_size)
    → length xs < queue_size
    → length xs < k
    → Cells q.arr h (x ∷ xs)
    → print_loop k (pos h) q ≡ some (x ∷ xs)
unfolding print_loop
print_loop-items q h x zero xs below tail few enough c = absurd (omega arith)
print_loop-items q h x (suc k) [] below tail few enough (here, _) =
    let last : int_eq (pos h) q.tail ≡ true = rw tail (==_of h _ (omega arith)) in
    let inside : ltb h queue_size ≡ true = lt→ltb _ _ below in
    let first : q.arr h ≡ x = ap q.arr (omega arith) ∙ here in
    rw (print_loop, inside, first, last) refl
print_loop-items q h x (suc k) (y ∷ xs) below tail few enough (here, cells) =
    let j = (h + 1) % queue_size in
    let more : int_eq (pos h) q.tail ≡ false = rw tail (==_not_of h _ (λ e. omega arith)) in
    let inside : ltb h queue_size ≡ true = lt→ltb _ _ below in
    let first : q.arr h ≡ x = ap q.arr (omega arith) ∙ here in
    let rest =
      print_loop-items q j y k xs (omega arith) (tail ∙ ap pos (omega arith)) (omega arith)
        (omega arith) (Cells-around q.arr (suc h) j (y ∷ xs) (omega arith) cells) in
    rw (print_loop, inside, first, more, rest) refl

-- queue_print ends after four rounds at most and shows the numbers of the ring in order.
pub queue_print-items :
    (q : Queue) (xs : List ℕ) → Holds q xs → queue_print queue_size (some q) ≡ some (pos 0, xs)
unfolding queue_print
queue_print-items q [] (head, tail) = rw head refl
queue_print-items q (x ∷ xs) (h, below, head, tail, few, cells) =
    rw (head, print_loop-items q h x queue_size xs below tail few few cells) refl
