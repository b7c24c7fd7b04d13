-- ===== src/ConnMgr/Queue/Refinement.antt =====
-- The pushes and the pop of conn_mgr_queue.c implement a double-ended list of data pointers.
use tpt.Common.{
  ◌≡◌, sym, ◌⊎◌, refl, ◌≢◌, Bool, false, ◌||◌, Option, none, some, [], ◌∷◌, ◌++◌, arith, ◌==◌,
  if◌then◌else◌,
}
use tpt.ConnMgr.Queue.{Ptr, null, item_of, Queue, Heap, write, push_head, push_tail, pop_head}
use tpt.ConnMgr.Queue.Chain.{
  Cells, Chain, last_address, IsQueue, Chain-frame, not-has_of_none, last_address-cons, Chain-snoc,
  has-last_address, last_address-append, last_address-item,
}

-- A run that returns the queue `xs`, and changes no address but those that `near` allows.
abbrev pub Leaves : (Ptr → Bool) → Heap → Cells → Option (Option Queue × Heap) → Type 0
Leaves near h xs r =
    (q : Queue) × (g : Heap) × (r ≡ some (some q, g))
    × IsQueue g q xs
    × ((a : Ptr) → near a ≡ false → g a ≡ h a)

-- Given an address that holds no item, conn_mgr_queue_push_head puts the data in front of the queue and
-- writes nowhere else.
pub push_head-cons :
    (h : Heap) (q : Queue) (xs : Cells) (item d : Ptr)
    → IsQueue h q xs
    → h item ≡ none
    → item ≢ null
    → d ≢ null
    → Leaves (λ a. item == a) h ((item, d) ∷ xs) (push_head item (some q) d h)
unfolding push_head
push_head-cons h q xs item d is free ni nd = (
  record { head = item; tail = if q.tail == null then item else q.tail },
  write h item (some (item_of d q.head)),
  ground arith,
  record {
    chain = (
      refl,
      ni,
      nd,
      not-has_of_none h q.head item xs is.chain free,
      (
        q.head,
        ground arith,
        Chain-frame h _ q.head xs
            (λ a i. ground (arith, not-has_of_none h q.head item xs is.chain free)) is.chain,
      ),
    );
    last = ground (arith, is.last, last_address-cons item d h q.head xs is.chain);
  },
  λ a far. ground arith,
)

push_tail_empty :
    (h : Heap) (q : Queue) (item d : Ptr)
    → IsQueue h q []
    → item ≢ null
    → d ≢ null
    → Leaves (λ a. (item == a) || (q.tail == a)) h ((item, d) ∷ []) (push_tail item (some q) d h)
unfolding push_tail
push_tail_empty h q item d is ni nd = (
  record { head = item; tail = item },
  write h item (some (item_of d null)),
  ground (arith, is.last),
  record { chain = (refl, ni, nd, refl, (null, ground arith, refl)); last = refl },
  λ a far. ground arith,
)

push_tail_cons :
    (h : Heap) (q : Queue) (x : Ptr × Ptr) (xs : Cells) (item d : Ptr)
    → IsQueue h q (x ∷ xs)
    → h item ≡ none
    → item ≢ null
    → d ≢ null
    → Leaves
        (λ a. (item == a) || (q.tail == a))
        h
        ((x ∷ xs) ++ (item, d) ∷ [])
        (push_tail item (some q) d h)
unfolding push_tail
push_tail_cons h q x xs item d is free ni nd =
    let (e, r, at, nl) = last_address-item h q.head x xs is.chain in
    let out = not-has_of_none h q.head item (x ∷ xs) is.chain free in
    let here : h q.tail ≡ some (item_of e r) = rw is.last at in
    let far : (item == q.tail) ≡ false = ground (arith, is.last, has-last_address x xs) in
    let some_tail : (q.tail == null) ≡ false = ground (arith, is.last) in
    (
      record { head = q.head; tail = item },
      write (write h item (some (item_of d null))) q.tail (some (item_of e item)),
      ground arith,
      record {
        chain =
            Chain-snoc h _ item d ni nd (ground arith) q.head x xs out
              (λ a i ne. ground (arith, is.last)) (λ e' q' at'. ground (arith, is.last)) is.chain;
        last = sym (last_address-append (x ∷ xs) item d);
      },
      λ a away. ground arith,
    )

-- Given an address that holds no item, conn_mgr_queue_push_tail puts the data behind the queue, and
-- writes nowhere else but in the item that was the last.
pub push_tail-append :
    (h : Heap) (q : Queue) (xs : Cells) (item d : Ptr)
    → IsQueue h q xs
    → h item ≡ none
    → item ≢ null
    → d ≢ null
    → Leaves
        (λ a. (item == a) || (q.tail == a))
        h
        (xs ++ (item, d) ∷ [])
        (push_tail item (some q) d h)
push_tail-append h q [] item d is free ni nd = push_tail_empty h q item d is ni nd
push_tail-append h q (x ∷ xs) item d is free ni nd = push_tail_cons h q x xs item d is free ni nd

-- What conn_mgr_queue_pop_head leaves of the queue `xs`: NULL and everything as it was if `xs` is empty,
-- else the first data pointer, the rest of the queue, and the first item freed and no other written.
abbrev pub Popped : Heap → Queue → Cells → Option ((Ptr × Option Queue) × Heap) → Type 0
Popped h q [] r = r ≡ some ((null, some q), h)
Popped h q ((a, d) ∷ xs) r =
    (q' : Queue) × (r ≡ some ((d, some q'), write h a none)) × IsQueue (write h a none) q' xs

last_address-tail :
    (h : Heap) (r a d : Ptr) (xs : Cells) (tail : Ptr)
    → Chain h r xs
    → tail ≡ last_address ((a, d) ∷ xs)
    → (if r == null then null else tail) ≡ last_address xs
last_address-tail h r a d [] tail e last = rw e refl
last_address-tail h r a d (y ∷ xs) tail (e, ne, _, _, _) last = ground arith

-- conn_mgr_queue_pop_head takes the first data pointer off the queue and frees its item, and returns NULL
-- and changes nothing if the queue is empty.
pub pop_head-Popped :
    (h : Heap) (q : Queue) (xs : Cells) → IsQueue h q xs → Popped h q xs (pop_head (some q) h)
unfolding pop_head
pop_head-Popped h q [] is = ground (arith, is.chain)
pop_head-Popped h q ((a, d) ∷ xs) is =
    let (here, na, nd, out, (r, at, rest)) = is.chain in
    (
      record { head = r; tail = if r == null then null else q.tail },
      ground arith,
      record {
        chain = Chain-frame h _ r xs (λ b i. ground arith) rest;
        last = last_address-tail h r a d xs q.tail rest is.last;
      },
    )

-- With a NULL queue, NULL data or no memory neither push changes the queue or the heap.
pub push_rejected :
    (h : Heap) (queue : Option Queue) (item d : Ptr)
    → (queue ≡ none) ⊎ (d ≡ null) ⊎ (item ≡ null)
    → (push_head item queue d h ≡ some (queue, h)) × (push_tail item queue d h ≡ some (queue, h))
unfolding push_head push_tail
push_rejected h queue item d why = ground arith
