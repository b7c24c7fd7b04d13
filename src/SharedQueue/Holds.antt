-- ===== src/SharedQueue/Holds.antt =====
-- The numbers in the ring, in order, and what queue_add and queue_delete make of them.
use tpt.Common.{
  ℕ, suc, ◌+◌, ◌%◌, ◌<◌, ◌≡◌, ◌≢◌, refl, sym, ap, ◌∙◌, true, false, some, List, [], ◌∷◌, ◌++◌,
  length, pos, minus, int_eq, ltb, lt→ltb, ◌==◌, arith,
}
use tpt.Common.Family.{update}
use tpt.SharedQueue.Ring.{queue_size, Queue, next, read, queue_add, queue_delete}

-- The numbers stand from place `h` on, around the ring.
abbrev pub Cells : (ℕ → ℕ) → ℕ → List ℕ → Type 0
Cells arr h [] = Unit {0}
Cells arr h (x ∷ xs) = (arr (h % queue_size) ≡ x) × Cells arr (suc h) xs

-- The queue holds `xs`: with -1 in both indices if there are none, and else with `head` at the first and `tail` at the last.
abbrev pub Holds : Queue → List ℕ → Type 0
Holds q [] = (q.head ≡ minus 1) × (q.tail ≡ minus 1)
Holds q (x ∷ xs) =
    (h : ℕ) × (h < queue_size)
    × (q.head ≡ pos h)
    × (q.tail ≡ pos ((h + length xs) % queue_size))
    × (length xs < queue_size)
    × Cells q.arr h (x ∷ xs)

pub Cells-around :
    (arr : ℕ → ℕ) (h k : ℕ) (xs : List ℕ)
    → h % queue_size ≡ k % queue_size
    → Cells arr h xs
    → Cells arr k xs
Cells-around arr h k [] e c = tt
Cells-around arr h k (x ∷ xs) e (here, rest) =
    (ap arr (sym e) ∙ here, Cells-around arr (suc h) (suc k) xs (omega arith) rest)

update-at : (arr : ℕ → ℕ) (j v k : ℕ) → j ≡ k → update arr j v k ≡ v
update-at arr j v k e = ground arith

update-away : (arr : ℕ → ℕ) (j v k : ℕ) → j ≢ k → update arr j v k ≡ arr k
update-away arr j v k ne = ground arith

-- A number that is put behind fewer than four.
Cells-append :
    (arr : ℕ → ℕ) (h j v : ℕ) (xs : List ℕ)
    → (h + length xs) % queue_size ≡ j
    → length xs < queue_size
    → Cells arr h xs
    → Cells (update arr j v) h (xs ++ v ∷ [])
Cells-append arr h j v [] at few c = (update-at arr j v (h % queue_size) (omega arith), tt)
Cells-append arr h j v (x ∷ xs) at few (here, rest) = (
  update-away arr j v (h % queue_size) (λ e. omega arith) ∙ here,
  Cells-append arr (suc h) j v xs (omega arith) (omega arith) rest,
)

pub ==_not_of : (m n : ℕ) → m ≢ n → (m == n) ≡ false
==_not_of m n h = ground arith

pub ==_of : (m n : ℕ) → m ≡ n → (m == n) ≡ true
==_of m n h = ground arith

pub length-snoc : (xs : List ℕ) (v : ℕ) → length (xs ++ v ∷ []) ≡ suc (length xs)
length-snoc [] v = refl
length-snoc (x ∷ xs) v = ap suc (length-snoc xs v)

pub queue_add-Holds :
    (q : Queue) (xs : List ℕ) (v : ℕ)
    → Holds q xs
    → length xs < queue_size
    → (q' : Queue) × (queue_add (some q) v ≡ some (false, (pos 0, some q')))
      × Holds q' (xs ++ v ∷ [])
unfolding queue_add
queue_add-Holds q [] v (head, tail) few = (
  record { arr = update q.arr 0 v; head = pos 0; tail = pos 0 },
  rw (head, tail) refl,
  (0, omega arith, refl, refl, omega arith, (refl, tt)),
)
queue_add-Holds q (x ∷ xs) v (h, below, head, tail, _, cells) few =
    let j = ((h + length xs) % queue_size + 1) % queue_size in
    let free : (j == h) ≡ false = ==_not_of j h (λ e. omega arith) in
    let inside : ltb j queue_size ≡ true = lt→ltb _ _ (omega arith) in
    (
      record { arr = update q.arr j v; head = q.head; tail = pos j },
      rw (head, tail, free, inside) refl,
      (
        h,
        below,
        head,
        ap pos (omega (arith, length-snoc xs v)),
        omega (arith, length-snoc xs v),
        Cells-append q.arr h j v (x ∷ xs) (omega arith) few cells,
      ),
    )

-- The first number is read, unless both indices are -1.
first-read :
    (q : Queue) (x h : ℕ)
    → h < queue_size
    → q.head ≡ pos h
    → q.arr (h % queue_size) ≡ x
    → (int_eq q.head (minus 1) ≡ false) × (read q.head q ≡ some x)
first-read q x h below head here =
    let inside : ltb h queue_size ≡ true = lt→ltb _ _ below in
    (rw head refl, rw (head, inside) (ap some (ap q.arr (omega arith) ∙ here)))

pub queue_delete-Holds :
    (q : Queue) (x : ℕ) (xs : List ℕ)
    → Holds q (x ∷ xs)
    → (q' : Queue) × (queue_delete (some q) ≡ some (some x, (pos 0, some q'))) × Holds q' xs
unfolding queue_delete
queue_delete-Holds q x [] (h, below, head, tail, few, (here, _)) =
    let (full, first) = first-read q x h below head here in
    let last : int_eq q.head q.tail ≡ true = rw (head, tail) (==_of h _ (omega arith)) in
    (
      record { arr = q.arr; head = minus 1; tail = minus 1 },
      rw (full, first, last) refl,
      (refl, refl),
    )
queue_delete-Holds q x (y ∷ xs) (h, below, head, tail, few, (here, cells)) =
    let k = (h + 1) % queue_size in
    let (full, first) = first-read q x h below head here in
    let more : int_eq q.head q.tail ≡ false = rw (head, tail) (==_not_of h _ (λ e. omega arith)) in
    (
      record { arr = q.arr; head = pos k; tail = q.tail },
      rw (full, first, more)
          (ap
            (λ i.
              some (some x, (pos 0, some (record { arr = q.arr; head = next i; tail = q.tail }))))
            head),
      (
        k,
        omega arith,
        refl,
        tail ∙ ap pos (omega arith),
        omega arith,
        Cells-around q.arr (suc h) k (y ∷ xs) (omega arith) cells,
      ),
    )
