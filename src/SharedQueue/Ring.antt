-- ===== src/SharedQueue/Ring.antt =====
-- The ring of system/ipc/sharedmemory: queue_init, queue_add and queue_print of shm_producer.c, queue_delete of
-- shm_consumer.c.
use tpt.Common.{
  ℕ, zero, suc, ◌+◌, ◌%◌, Bool, true, false, ◌&&◌, Option, none, some, List, [], ◌∷◌, ℤ, pos,
  negsuc, minus, int_eq, ltb, if◌then◌else◌,
}
use mathlib.Core.Option
use tpt.Common.Family.{update}

abbrev pub queue_size : ℕ
queue_size = 4

-- struct queue. The array has the members below queue_size.
pub record Queue : Type 0 where
  pub arr : ℕ → ℕ
  pub head : ℤ
  pub tail : ℤ

-- NULL is `none`. Each function returns its result and the queue, behind what it prints.
unfoldable pub queue_init : Option Queue → ℤ × Option Queue
queue_init none = (minus 1, none)
queue_init (some q) = (pos 0, some (record q { head = minus 1; tail = minus 1 }))

-- (i + 1) % QUEUE_SIZE; the result of C's `%` has the sign of its first argument.
abbrev pub next : ℤ → ℤ
next (pos n) = pos ((n + 1) % queue_size)
next (negsuc n) = minus (n % queue_size)

-- q->arr[i] = val; `none` is a write outside of the array.
abbrev pub put : (val : ℕ) → (i : ℤ) → Queue → Option Queue
put val (pos i) q = if ltb i queue_size then some (record q { arr = update q.arr i val }) else none
put val (negsuc i) q = none

-- q->arr[i]
abbrev pub read : (i : ℤ) → Queue → Option ℕ
read (pos i) q = if ltb i queue_size then some (q.arr i) else none
read (negsuc i) q = none

-- Whether it prints that the queue is full; `none` is an access outside of the array.
abbrev pub Added : Type 0
Added = Option (Bool × (ℤ × Option Queue))

abbrev pub stored : Option Queue → Added
stored none = none
stored (some q) = some (false, (pos 0, some q))

unfoldable pub queue_add : Option Queue → (val : ℕ) → Added
queue_add none val = some (false, (minus 1, none))
queue_add (some q) val =
    if int_eq (next q.tail) q.head
    then some (true, (pos 0, some q))
    else if int_eq q.head (minus 1) && int_eq q.tail (minus 1)
    then stored (put val (pos 0) (record q { head = pos 0; tail = pos 0 }))
    else stored (put val (next q.tail) (record q { tail = next q.tail }))

-- The number that it prints, or `none` when it prints that the queue is empty; an outer `none` is an access
-- outside of the array.
abbrev pub Deleted : Type 0
Deleted = Option (Option ℕ × (ℤ × Option Queue))

unfoldable pub queue_delete : Option Queue → Deleted
queue_delete none = some (none, (minus 1, none))
queue_delete (some q) =
    if int_eq q.head (minus 1) then some (none, (pos 0, some q)) else elim (read q.head q) [
      | none ↦ none
      | some x ↦
          if int_eq q.head q.tail
          then some (some x, (pos 0, some (record q { head = minus 1; tail = minus 1 })))
          else some (some x, (pos 0, some (record q { head = next q.head })))
    ]

-- The numbers from place `i` to `tail`; an outer `none` is an access outside of the array, or too little fuel.
unfoldable pub print_loop : (fuel : ℕ) → (i : ℤ) → Queue → Option (List ℕ)
print_loop zero i q = none
print_loop (suc k) i q =
    let rest = print_loop k (next i) q in
    elim (read i q) [
      | none ↦ none
      | some x ↦ if int_eq i q.tail then some (x ∷ []) else Option.map (λ (l : List ℕ). x ∷ l) rest
    ]

-- The result with the numbers that it prints.
unfoldable pub queue_print : (fuel : ℕ) → Option Queue → Option (ℤ × List ℕ)
unfolding print_loop
queue_print fuel none = some (minus 1, [])
queue_print fuel (some q) =
    if int_eq q.head (minus 1)
    then some (pos 0, [])
    else Option.map (λ (l : List ℕ). (pos 0, l)) (print_loop fuel q.head q)
