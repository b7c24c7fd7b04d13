-- ===== src/SharedQueue/Tests.antt =====
-- A number that is produced and one that waits, and a producer that starts again over old semaphores.
use tpt.Common.{ℕ, ◌≡◌, ◌≢◌, ◌≤◌, refl, true, false, some, List, ◌++◌, [], ◌∷◌, length, pos, minus}
use tpt.SharedQueue.{
  State, Named, Calls, Step, produce, fault, producer_step, consumer_step, producer_main, looping,
  moves, critical, locks, waits, starts, unlocks, behind_delete,
}
use tpt.SharedQueue.Ring.{Queue, queue_size, queue_init, queue_delete}
use tpt.SharedQueue.Holds.{Holds}
use tpt.SharedQueue.Laws.{Reach, start, later, unnamed, Reach-order, Reach-goes_on}

abbrev all_fine : Calls
all_fine = record {
  sigaction = pos 0;
  ftok = pos 1;
  shmget = pos 5;
  exists = false;
  shmget_again = pos 0;
  shmat = true;
}

abbrev zeros : Queue
zeros = record { arr = λ i. 0; head = pos 0; tail = pos 0 }

abbrev begun : State
begun = record {
  queue = record { arr = λ i. 0; head = minus 1; tail = minus 1 };
  full = 0;
  empty = 4;
  mutex = 1;
  producer = starts;
  consumer = starts;
  val = 0;
  produced = [];
  deleted = [];
  complaints = 0;
}

begun-main : producer_main all_fine unnamed zeros ≡ some begun
unfolding producer_main queue_init looping
begun-main = refl

abbrev produced_one : State
produced_one = record begun { producer = waits; val = 7; produced = 7 ∷ [] }

produced_one-Reach : Reach begun produced_one
unfolding producer_step
produced_one-Reach = later start (produce 7 produced_one refl)

Reach-order_example :
    (items : List ℕ) × Holds produced_one.queue items
    × (length items ≤ queue_size)
    × (produced_one.produced ≡ items ++ 7 ∷ [])
    × (produced_one.complaints ≡ 0)
Reach-order_example = Reach-order all_fine zeros begun produced_one begun-main produced_one-Reach

Reach-goes_on_example :
    ((u : State) × Step produced_one u)
    × (producer_step waits 8 produced_one ≢ fault)
    × (consumer_step starts produced_one ≢ fault)
Reach-goes_on_example =
    Reach-goes_on all_fine zeros begun produced_one 8 begun-main produced_one-Reach

-- The semaphores that an earlier run has left with a number in the ring.
abbrev left_over : Named
left_over = record { full = some 1; empty = some 3; mutex = some 1 }

abbrev restarted : State
restarted = record begun { full = 1; empty = 3 }

restarted-main : producer_main all_fine left_over zeros ≡ some restarted
unfolding producer_main queue_init looping
restarted-main = refl

-- The consumer gets through both semaphores and finds the ring empty.
abbrev inside : State
inside = record restarted { full = 0; mutex = 0; consumer = critical }

gets_in :
    (consumer_step waits (record restarted { consumer = waits })
      ≡ moves (record restarted { full = 0; consumer = locks }))
    × (consumer_step locks (record restarted { full = 0; consumer = locks }) ≡ moves inside)
unfolding consumer_step
gets_in = (refl, refl)

finds_nothing :
    consumer_step critical inside ≡ moves (record inside { consumer = unlocks; complaints = 1 })
unfolding consumer_step behind_delete queue_delete
finds_nothing = refl
