-- ===== src/SharedQueue/Laws.antt =====
-- What the two processes do from the start on, in any order of their steps.
use tpt.Common.{
  ℕ, ◌≤◌, ◌≡◌, ◌≢◌, refl, sym, ap, subst, ◌∙◌, ◌⊎◌, inl, inr, Bool, true, false, Option, some, none,
  List, [], ◌++◌, length, ◌==◌, ◌&&◌, not, minus, is_neg, ◌||◌, pos, int_eq, arith, if◌then◌else◌,
  Bool-cases,
}
use tpt.SharedQueue.{
  At, starts, waits, locks, critical, unlocks, posts, State, Move, blocked, moves, fault,
  producer_step, consumer_step, Step, produce, consume, Calls, Named, looping, producer_main,
  behind_add, behind_delete,
}
use tpt.SharedQueue.Ring.{queue_size, Queue, queue_init, queue_add, queue_delete, Added, Deleted}
use tpt.SharedQueue.Holds.{Holds}
use tpt.SharedQueue.Invariant.{in_section, reserves, owes, pending, Inv}
use tpt.SharedQueue.Kept.{Step-Inv, no_fault}

-- The states that any number of steps of the two processes leads to.
pub data Reach (s : State) : State → Type 0 where
  start : Reach s s
  later : {t u : State} → Reach s t → Step t u → Reach s u

-- No semaphore is there before.
abbrev pub unnamed : Named
unnamed = record { full = none; empty = none; mutex = none }

abbrev emptied : Queue → Queue
emptied q = record { arr = q.arr; head = minus 1; tail = minus 1 }

looping-Inv : (memory : Queue) → Inv (looping unnamed (emptied memory))
unfolding looping
looping-Inv memory = record {
  items = [];
  holds = (refl, refl);
  lock = refl;
  room = refl;
  stock = refl;
  order = refl;
  quiet = refl;
}

guarded : (b : Bool) (x : Option State) (s : State) → (if b then none else x) ≡ some s → x ≡ some s
guarded true x s e = absurd (ground arith)
guarded false x s e = e

abbrev some_or : State → Option State → State
some_or t none = t
some_or t (some s) = s

producer_main-Inv :
    (c : Calls) (memory : Queue) (s : State) → producer_main c unnamed memory ≡ some s → Inv s
unfolding producer_main queue_init
producer_main-Inv c memory s e =
    let e1 = guarded (not (int_eq c.sigaction (pos 0))) _ s e in
    let e2 = guarded (is_neg c.ftok) _ s e1 in
    let e3 = guarded (is_neg c.shmget && (not c.exists || is_neg c.shmget_again)) _ s e2 in
    let e4 = guarded (not c.shmat) _ s e3 in
    let same : looping unnamed (emptied memory) ≡ s =
      ap (λ (o : Option State). some_or (looping unnamed (emptied memory)) o) e4 in
    subst Inv same (looping-Inv memory)

Reach-Inv : {s t : State} → Inv s → Reach s t → Inv t
Reach-Inv i start = i
Reach-Inv i (later r step) = Step-Inv step (Reach-Inv i r)

not_true : false ≡ true → ⊥
not_true e = ground arith

-- What holds a process up: a mutex that is taken, or no place (no number) to begin with.
abbrev Held : At → (mutex own : ℕ) → Type 0
Held p mutex own =
    (in_section p ≡ 0) × (owes p ≡ 0) × ((mutex ≡ 0) ⊎ ((own ≡ 0) × (reserves p ≡ 0)))

abbrev is_blocked : Move → Bool
is_blocked blocked = true
is_blocked (moves t) = false
is_blocked fault = false

guarded-zero : (n : ℕ) (t : State) → is_blocked (if n == 0 then blocked else moves t) ≡ true → n ≡ 0
guarded-zero n t e = elim (Bool-cases (n == 0)) [
  | inl none_left ↦ ground arith
  | inr more ↦
      absurd
        (not_true (sym (ap (λ (b : Bool). is_blocked (if b then blocked else moves t)) more) ∙ e))
]

add_runs : (a : Added) (s : State) → is_blocked (behind_add a s) ≡ false
unfolding behind_add
add_runs none s = refl
add_runs (some (told, (ret, none))) s = refl
add_runs (some (told, (ret, some q))) s = refl

delete_runs : (d : Deleted) (s : State) → is_blocked (behind_delete d s) ≡ false
unfolding behind_delete
delete_runs none s = refl
delete_runs (some (printed, (ret, none))) s = refl
delete_runs (some (none, (ret, some q))) s = refl
delete_runs (some (some x, (ret, some q))) s = refl

producer-Held :
    (p : At) (rand : ℕ) (s : State)
    → is_blocked (producer_step p rand s) ≡ true
    → Held p s.mutex s.empty
unfolding producer_step
producer-Held starts rand s e = absurd (not_true e)
producer-Held waits rand s e = (refl, refl, inr (guarded-zero _ _ e, refl))
producer-Held locks rand s e = (refl, refl, inl (guarded-zero _ _ e))
producer-Held critical rand s e =
    absurd (not_true (sym (add_runs (queue_add (some s.queue) s.val) s) ∙ e))
producer-Held unlocks rand s e = absurd (not_true e)
producer-Held posts rand s e = absurd (not_true e)

consumer-Held : (p : At) (s : State) → is_blocked (consumer_step p s) ≡ true → Held p s.mutex s.full
unfolding consumer_step
consumer-Held starts s e = absurd (not_true e)
consumer-Held waits s e = (refl, refl, inr (guarded-zero _ _ e, refl))
consumer-Held locks s e = (refl, refl, inl (guarded-zero _ _ e))
consumer-Held critical s e =
    absurd (not_true (sym (delete_runs (queue_delete (some s.queue)) s) ∙ e))
consumer-Held unlocks s e = absurd (not_true e)
consumer-Held posts s e = absurd (not_true e)

-- The two are never held up at once.
not_both :
    (s : State) → Inv s → Held s.producer s.mutex s.empty → Held s.consumer s.mutex s.full → ⊥
not_both s i (a, b, inl m) (c, d, w) = omega (arith, i.lock)
not_both s i (a, b, inr (m, m')) (c, d, inl n) = omega (arith, i.lock)
not_both s i (a, b, inr (m, m')) (c, d, inr (n, n')) = omega (arith, i.room, i.stock)

goes : (m : Move) → is_blocked m ≡ false → m ≢ fault → (t : State) × (m ≡ moves t)
goes blocked e f = absurd (not_true (sym e))
goes (moves t) e f = (t, refl)
goes fault e f = absurd (f refl)

-- On new semaphores, from where the producer comes to its loop, in whatever order the two processes go on: what the
-- producer has printed as produced is what the consumer has printed as deleted, followed by what is in the ring, in
-- its order, and by the number that the producer has not yet put there; the ring holds at most four numbers, and neither
-- process has ever found it full or empty.
pub Reach-order :
    (c : Calls) (memory : Queue) (s t : State)
    → producer_main c unnamed memory ≡ some s
    → Reach s t
    → (items : List ℕ) × Holds t.queue items
      × (length items ≤ queue_size)
      × (t.produced ≡ t.deleted ++ (items ++ pending t.producer t.val))
      × (t.complaints ≡ 0)
Reach-order c memory s t e r =
    let i = Reach-Inv (producer_main-Inv c memory s e) r in
    (i.items, i.holds, omega (arith, i.room), i.order, i.quiet)

-- In every such state, whatever rand() returns, one of the two processes can go on, and no step of either leaves the array.
pub Reach-goes_on :
    (c : Calls) (memory : Queue) (s t : State) (rand : ℕ)
    → producer_main c unnamed memory ≡ some s
    → Reach s t
    → ((u : State) × Step t u)
      × (producer_step t.producer rand t ≢ fault)
      × (consumer_step t.consumer t ≢ fault)
Reach-goes_on c memory s t rand e r =
    let i = Reach-Inv (producer_main-Inv c memory s e) r in
    let (producer_fine, consumer_fine) = no_fault rand t i in
    (
      elim (Bool-cases (is_blocked (producer_step t.producer rand t))) [
        | inr free ↦ let (u, f) = goes _ free producer_fine in (u, produce rand u f)
        | inl held ↦ elim (Bool-cases (is_blocked (consumer_step t.consumer t))) [
          | inr free ↦ let (u, f) = goes _ free consumer_fine in (u, consume u f)
          | inl held' ↦ absurd (
              not_both t i (producer-Held t.producer rand t held)
                (consumer-Held t.consumer t held'))
        ]
      ],
      producer_fine,
      consumer_fine,
    )
