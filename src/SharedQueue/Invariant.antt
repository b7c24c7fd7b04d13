-- ===== src/SharedQueue/Invariant.antt =====
-- The semaphores count the places of the ring, and what the two processes print is what goes through it.
use tpt.Common.{
  ℕ, ◌+◌, ◌≡◌, sym, ap, ◌∙◌, false, some, List, [], ◌∷◌, ◌++◌, length, ◌==◌, arith, if◌then◌else◌,
  Bool-cases, inl, inr,
}
use mathlib.Core.List.{append_assoc, append-nil}
use tpt.SharedQueue.{
  At, starts, waits, locks, critical, unlocks, posts, State, Move, blocked, moves, fault,
  behind_add, producer_step,
}
use tpt.SharedQueue.Ring.{queue_size, queue_add}
use tpt.SharedQueue.Holds.{Holds, length-snoc, queue_add-Holds}

-- The process is in its critical section.
abbrev pub in_section : At → ℕ
in_section critical = 1
in_section unlocks = 1
in_section _ = 0

-- It has got its first semaphore and has not yet changed the queue.
abbrev pub reserves : At → ℕ
reserves locks = 1
reserves critical = 1
reserves _ = 0

-- It has changed the queue and has not yet told so by its last semaphore.
abbrev pub owes : At → ℕ
owes unlocks = 1
owes posts = 1
owes _ = 0

-- The producer's number, from its line of output to queue_add.
abbrev pub pending : At → ℕ → List ℕ
pending waits val = val ∷ []
pending locks val = val ∷ []
pending critical val = val ∷ []
pending _ val = []

pub record Inv (s : State) : Type 0 where
  pub items : List ℕ
  pub holds : Holds s.queue items
  pub lock : s.mutex + in_section s.producer + in_section s.consumer ≡ 1
  pub room : s.empty + length items + reserves s.producer + owes s.consumer ≡ queue_size
  pub stock : s.full + reserves s.consumer + owes s.producer ≡ length items
  pub order : s.produced ≡ s.deleted ++ (items ++ pending s.producer s.val)
  pub quiet : s.complaints ≡ 0

-- A step that does not fault and leaves the invariant.
abbrev pub Keeps : Move → Type 0
Keeps blocked = Unit {0}
Keeps (moves t) = Inv t
Keeps fault = ⊥

append_snoc : (d xs : List ℕ) (v : ℕ) → (d ++ (xs ++ [])) ++ v ∷ [] ≡ d ++ (xs ++ v ∷ [])
append_snoc d xs v =
    ap (λ (l : List ℕ). (d ++ l) ++ v ∷ []) (append-nil xs) ∙ append_assoc d xs (v ∷ [])

pub guarded-Keeps :
    (n : ℕ) (t : State) → ((n == 0) ≡ false → Inv t) → Keeps (if n == 0 then blocked else moves t)
guarded-Keeps n t i = elim (Bool-cases (n == 0)) [
  | inl none_left ↦ rw none_left tt
  | inr more ↦ rw more (i more)
]

add-Keeps :
    (s : State)
    → Inv (record s { producer = critical })
    → Keeps (behind_add (queue_add (some s.queue) s.val) s)
unfolding behind_add
add-Keeps s i =
    let (q, e, holds) = queue_add-Holds s.queue i.items s.val i.holds (omega (arith, i.room)) in
    let more = length-snoc i.items s.val in
    rw e (record {
      items = i.items ++ s.val ∷ [];
      holds = holds;
      lock = i.lock;
      room = omega (arith, i.room, more);
      stock = omega (arith, i.stock, more);
      order =
          i.order ∙ ap (λ (l : List ℕ). s.deleted ++ l) (sym (append-nil (i.items ++ s.val ∷ [])));
      quiet = omega (arith, i.quiet);
    })

pub producer_step-Keeps :
    (p : At) (rand : ℕ) (s : State)
    → Inv (record s { producer = p })
    → Keeps (producer_step p rand (record s { producer = p }))
unfolding producer_step
producer_step-Keeps starts rand s i = record {
  items = i.items;
  holds = i.holds;
  lock = i.lock;
  room = i.room;
  stock = i.stock;
  order = ap (λ (l : List ℕ). l ++ rand ∷ []) i.order ∙ append_snoc s.deleted i.items rand;
  quiet = i.quiet;
}
producer_step-Keeps waits rand s i = guarded-Keeps s.empty _ (λ some_room. record {
  items = i.items;
  holds = i.holds;
  lock = i.lock;
  room = ground (arith, i.room);
  stock = i.stock;
  order = i.order;
  quiet = i.quiet;
})
producer_step-Keeps locks rand s i = guarded-Keeps s.mutex _ (λ free. record {
  items = i.items;
  holds = i.holds;
  lock = ground (arith, i.lock);
  room = i.room;
  stock = i.stock;
  order = i.order;
  quiet = i.quiet;
})
producer_step-Keeps critical rand s i = add-Keeps (record s { producer = critical }) i
producer_step-Keeps unlocks rand s i = record {
  items = i.items;
  holds = i.holds;
  lock = omega (arith, i.lock);
  room = i.room;
  stock = i.stock;
  order = i.order;
  quiet = i.quiet;
}
producer_step-Keeps posts rand s i = record {
  items = i.items;
  holds = i.holds;
  lock = i.lock;
  room = i.room;
  stock = omega (arith, i.stock);
  order = i.order;
  quiet = i.quiet;
}
