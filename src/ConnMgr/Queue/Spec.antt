-- ===== src/ConnMgr/Queue/Spec.antt =====
-- What conn_mgr_queue.c promises its client conn_mgr_pool.c: the queue is a list of data pointers, and
-- the operations that the pool calls are those of a stack on it.
use tpt.Common.{
  ◌≡◌, refl, Bool, true, false, Option, none, some, List, [], ◌∷◌, arith, ◌==◌, if◌then◌else◌, inl,
  inr, Bool-cases, ==_iff,
}
use tpt.ConnMgr.Queue.{Ptr, null, Queue, Heap, write, push_head, pop_head}
use tpt.ConnMgr.Queue.Chain.{Cells, IsQueue}
use tpt.ConnMgr.Queue.Refinement.{push_head-cons, pop_head-Popped, push_rejected}
use tpt.ConnMgr.Queue.Walks.{contents}

-- The data pointer in front, NULL if there is none, and the rest.
abbrev pub pop_list : List Ptr → Ptr × List Ptr
pop_list [] = (null, [])
pop_list (d ∷ ds) = (d, ds)

-- `memory` says whether an item can be allocated.
abbrev pub push_list : (memory : Bool) → List Ptr → Ptr → List Ptr
push_list memory ds d = if d == null then ds else if memory then d ∷ ds else ds

-- A run that returns `out` and leaves a queue with the data `ds`.
abbrev pub Holds : {A : Type 0} → A → List Ptr → Option ((A × Option Queue) × Heap) → Type 0
Holds out ds r =
    (q : Queue) × (g : Heap) × (xs : Cells) × (r ≡ some ((out, some q), g))
    × IsQueue g q xs
    × (contents xs ≡ ds)

-- conn_mgr_queue_pop_head returns what `pop_list` takes off the data of the queue, and leaves what it leaves.
pub pop_head-pop_list :
    (h : Heap) (q : Queue) (xs : Cells)
    → IsQueue h q xs
    → Holds (pop_list (contents xs)).0 (pop_list (contents xs)).1 (pop_head (some q) h)
pop_head-pop_list h q [] is = (q, h, [], pop_head-Popped h q [] is, is, refl)
pop_head-pop_list h q ((a, d) ∷ xs) is =
    let (q', runs, is') = pop_head-Popped h q ((a, d) ∷ xs) is in
    (q', write h a none, xs, runs, is', refl)

-- conn_mgr_queue_push_head with an address from `malloc` that holds no item, or with NULL from it, leaves
-- the data that `push_list` leaves.
pub push_head-push_list :
    (h : Heap) (q : Queue) (xs : Cells) (item d : Ptr)
    → IsQueue h q xs
    → h item ≡ none
    → (q' : Queue) × (g : Heap) × (ys : Cells) × (push_head item (some q) d h ≡ some (some q', g))
      × IsQueue g q' ys
      × (contents ys ≡ push_list (if item == null then false else true) (contents xs) d)
push_head-push_list h q xs item d is free = elim (Bool-cases (d == null)) [
  | inl no_data ↦ (
    q,
    h,
    xs,
    (push_rejected h (some q) item d (inr (inl ((==_iff d null).0 no_data)))).0,
    is,
    rw no_data refl,
  )
  | inr given ↦ elim (Bool-cases (item == null)) [
    | inl no_memory ↦ (
      q,
      h,
      xs,
      (push_rejected h (some q) item d (inr (inr ((==_iff item null).0 no_memory)))).0,
      is,
      rw (no_memory, given) refl,
    )
    | inr found ↦
        let (q', g, runs, is', same) =
          push_head-cons h q xs item d is free (λ e. ground arith) (λ e. ground arith) in
        (q', g, (item, d) ∷ xs, runs, is', rw (found, given) refl)
  ]
]
