-- ===== src/SharedQueue.antt =====
-- system/ipc/sharedmemory: shm_producer.c and shm_consumer.c, two processes over a ring of four numbers in shared memory,
-- with three named semaphores. What the calls answer is an argument; the steps of the two come in any order.
pub mod Ring
mod Holds
mod Invariant
mod Kept
mod Laws
mod Printed
mod Tests
use tpt.Common.{
  ℕ, zero, suc, ◌+◌, ◌-◌, ◌%◌, ◌≡◌, Bool, true, false, not, ◌&&◌, ◌||◌, Option, none, some, List,
  [], ◌∷◌, ◌++◌, ℤ, pos, negsuc, minus, is_neg, int_eq, ltb, ◌==◌, if◌then◌else◌,
}
use mathlib.Core.Option
use tpt.Common.Family.{update}
use tpt.SharedQueue.Ring.{queue_size, Queue, queue_init, queue_add, queue_delete, Added, Deleted}

-- Where a process stands in its loop: before it prints its first line, before sem_wait of `empty` (of `full` in the
-- consumer), before that of `mutex`, behind it, before sem_post of `mutex`, and before that of `full` (of `empty`).
pub data At : Type 0 where
  starts : At
  waits : At
  locks : At
  critical : At
  unlocks : At
  posts : At

-- The queue and the semaphores, where the processes stand, the producer's `val`, the numbers that the two have printed
-- as produced and as deleted, and how often the queue was said to be full or empty. queue_print
-- only prints.
pub record State : Type 0 where
  pub queue : Queue
  pub full : ℕ
  pub empty : ℕ
  pub mutex : ℕ
  pub producer : At
  pub consumer : At
  pub val : ℕ
  pub produced : List ℕ
  pub deleted : List ℕ
  pub complaints : ℕ

pub data Move : Type 0 where
  blocked : Move
  moves : State → Move
  fault : Move

abbrev pub one : Bool → ℕ
one b = if b then 1 else 0

unfoldable pub behind_add : Added → State → Move
behind_add none s = fault
behind_add (some (told, (ret, none))) s = fault
behind_add (some (told, (ret, some q))) s =
    moves (record s { queue = q; producer = unlocks; complaints = s.complaints + one told })

unfoldable pub behind_delete : Deleted → State → Move
behind_delete none s = fault
behind_delete (some (printed, (ret, none))) s = fault
behind_delete (some (none, (ret, some q))) s =
    moves (record s { queue = q; consumer = unlocks; complaints = s.complaints + 1 })
behind_delete (some (some x, (ret, some q))) s =
    moves (record s { queue = q; consumer = unlocks; deleted = s.deleted ++ x ∷ [] })

-- `rand` is what rand() returns.
unfoldable pub producer_step : At → (rand : ℕ) → State → Move
producer_step starts rand s =
    moves (record s { producer = waits; val = rand; produced = s.produced ++ rand ∷ [] })
producer_step waits rand s =
    if s.empty == 0 then blocked else moves (record s { empty = s.empty - 1; producer = locks })
producer_step locks rand s =
    if s.mutex == 0 then blocked else moves (record s { mutex = s.mutex - 1; producer = critical })
producer_step critical rand s = behind_add (queue_add (some s.queue) s.val) s
producer_step unlocks rand s = moves (record s { mutex = s.mutex + 1; producer = posts })
producer_step posts rand s = moves (record s { full = s.full + 1; producer = starts })

unfoldable pub consumer_step : At → State → Move
consumer_step starts s = moves (record s { consumer = waits })
consumer_step waits s =
    if s.full == 0 then blocked else moves (record s { full = s.full - 1; consumer = locks })
consumer_step locks s =
    if s.mutex == 0 then blocked else moves (record s { mutex = s.mutex - 1; consumer = critical })
consumer_step critical s = behind_delete (queue_delete (some s.queue)) s
consumer_step unlocks s = moves (record s { mutex = s.mutex + 1; consumer = posts })
consumer_step posts s = moves (record s { empty = s.empty + 1; consumer = starts })

pub data Step (s : State) : State → Type 0 where
  produce : (rand : ℕ) (t : State) → producer_step s.producer rand s ≡ moves t → Step s t
  consume : (t : State) → consumer_step s.consumer s ≡ moves t → Step s t

-- The results of sigaction, ftok, shmget, whether its errno is EEXIST, the second shmget, and whether shmat succeeds.
pub record Calls : Type 0 where
  pub sigaction : ℤ
  pub ftok : ℤ
  pub shmget : ℤ
  pub exists : Bool
  pub shmget_again : ℤ
  pub shmat : Bool

-- The semaphores that are there under their names, each with its value.
pub record Named : Type 0 where
  pub full : Option ℕ
  pub empty : Option ℕ
  pub mutex : Option ℕ

-- sem_open with O_CREAT takes the value for a new semaphore only.
abbrev pub sem_open : Option ℕ → ℕ → ℕ
sem_open none value = value
sem_open (some n) value = n

unfoldable pub looping : Named → Queue → State
looping sems q = record {
  queue = q;
  full = sem_open sems.full 0;
  empty = sem_open sems.empty queue_size;
  mutex = sem_open sems.mutex 1;
  producer = starts;
  consumer = starts;
  val = 0;
  produced = [];
  deleted = [];
  complaints = 0;
}

-- main of the producer up to its loop, with the consumer before its own; `memory` is what the shared memory holds,
-- and `none` is exit(1).
unfoldable pub producer_main : Calls → Named → (memory : Queue) → Option State
producer_main c sems memory =
    if not (int_eq c.sigaction (pos 0))
    then none
    else if is_neg c.ftok
    then none
    else if is_neg c.shmget && (not c.exists || is_neg c.shmget_again)
    then none
    else if not c.shmat
    then none
    else elim (queue_init (some memory)).1 [ none ↦ none | some q ↦ some (looping sems q) ]

-- Whether main of the consumer comes to its loop.
pub consumer_main : Calls → Bool
consumer_main c =
    if not (int_eq c.sigaction (pos 0))
    then false
    else if is_neg c.ftok
    then false
    else if is_neg c.shmget
    then false
    else c.shmat
