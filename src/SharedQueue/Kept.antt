-- ===== src/SharedQueue/Kept.antt =====
-- Every step of the two processes keeps the invariant, and none of them faults.
use tpt.Common.{ℕ, ◌≡◌, ◌≢◌, refl, sym, ap, subst, ◌∙◌, some, List, [], ◌∷◌, ◌++◌, length, arith}
use mathlib.Core.List.{append_assoc}
use tpt.SharedQueue.{
  At, starts, waits, locks, critical, unlocks, posts, State, fault, behind_delete, producer_step,
  consumer_step, Step, produce, consume,
}
use tpt.SharedQueue.Ring.{queue_delete}
use tpt.SharedQueue.Holds.{Holds, queue_delete-Holds}
use tpt.SharedQueue.Invariant.{Inv, Keeps, pending, guarded-Keeps, producer_step-Keeps}

delete-Keeps :
    (s : State)
    → Inv (record s { consumer = critical })
    → Keeps (behind_delete (queue_delete (some s.queue)) s)
unfolding behind_delete
delete-Keeps s i = taken i.items refl
  where
    taken : (xs : List ℕ) → i.items ≡ xs → Keeps (behind_delete (queue_delete (some s.queue)) s)
    taken [] e = absurd (omega (arith, i.stock, ap length e))
    taken (x ∷ xs) e =
        let (q, f, holds) = queue_delete-Holds s.queue x xs (subst (Holds s.queue) e i.holds) in
        let fewer = ap length e in
        rw f (record {
          items = xs;
          holds = holds;
          lock = i.lock;
          room = omega (arith, i.room, fewer);
          stock = omega (arith, i.stock, fewer);
          order =
              i.order
              ∙ ap (λ (l : List ℕ). s.deleted ++ (l ++ pending s.producer s.val)) e
              ∙ sym (append_assoc s.deleted (x ∷ []) (xs ++ pending s.producer s.val));
          quiet = i.quiet;
        })

consumer_step-Keeps :
    (p : At) (s : State)
    → Inv (record s { consumer = p })
    → Keeps (consumer_step p (record s { consumer = p }))
unfolding consumer_step
consumer_step-Keeps starts s i = record {
  items = i.items;
  holds = i.holds;
  lock = i.lock;
  room = i.room;
  stock = i.stock;
  order = i.order;
  quiet = i.quiet;
}
consumer_step-Keeps waits s i = guarded-Keeps s.full _ (λ some_left. record {
  items = i.items;
  holds = i.holds;
  lock = i.lock;
  room = i.room;
  stock = ground (arith, i.stock);
  order = i.order;
  quiet = i.quiet;
})
consumer_step-Keeps locks s i = guarded-Keeps s.mutex _ (λ free. record {
  items = i.items;
  holds = i.holds;
  lock = ground (arith, i.lock);
  room = i.room;
  stock = i.stock;
  order = i.order;
  quiet = i.quiet;
})
consumer_step-Keeps critical s i = delete-Keeps (record s { consumer = critical }) i
consumer_step-Keeps unlocks s i = record {
  items = i.items;
  holds = i.holds;
  lock = omega (arith, i.lock);
  room = i.room;
  stock = i.stock;
  order = i.order;
  quiet = i.quiet;
}
consumer_step-Keeps posts s i = record {
  items = i.items;
  holds = i.holds;
  lock = i.lock;
  room = omega (arith, i.room);
  stock = i.stock;
  order = i.order;
  quiet = i.quiet;
}

pub Step-Inv : {s t : State} → Step s t → Inv s → Inv t
Step-Inv {s} (produce rand t e) i = subst Keeps e (producer_step-Keeps s.producer rand s i)
Step-Inv {s} (consume t e) i = subst Keeps e (consumer_step-Keeps s.consumer s i)

pub no_fault :
    (rand : ℕ) (s : State)
    → Inv s
    → (producer_step s.producer rand s ≢ fault) × (consumer_step s.consumer s ≢ fault)
no_fault rand s i = (
  λ e. subst Keeps e (producer_step-Keeps s.producer rand s i),
  λ e. subst Keeps e (consumer_step-Keeps s.consumer s i),
)
