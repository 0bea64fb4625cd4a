-- ===== src/ThreadPool/Signals.antt =====
-- The condition variables of src/tpool.c: which threads sleep, and whom a signal wakes. A worker
-- sleeps on `pool->cv` in `pool_worker`, a caller of `ccpool_wait` on `pool->idle_cv`.
pub mod Invariant
pub mod Kept
pub mod Progress
pub mod Refinement
pub mod Rest
pub mod Served
pub mod Waited
mod Tests
use ccore.Base.{
  ℕ, ◌+◌, ◌≡◌, Bool, true, false, List, [], ◌∷◌, ◌++◌, map, if◌then◌else◌, replicate, weigh,
}
use ccore.ThreadPool.{
  Pool, Worker, at_head, running, exited, System, create, worker_head, worker_tail, wait_ends,
}

-- A worker that is awake is at the head of its loop; one that is asleep waits there for a signal.
pub data Thread (T : Type 0) : Type 0 where
  awake : Thread T
  asleep : Thread T
  busy : T → Thread T
  gone : Thread T

-- A thread that calls `ccpool_wait`: about to test the loop's condition, asleep, or back from its last
-- call.
pub data Client : Type 0 where
  checking waiting returned : Client

pub record Room (T : Type 0) : Type 0 where
  pub pool : Pool T
  pub threads : List (Thread T)
  pub clients : List Client
  pub submitted : List T
  pub started : List T
  pub finished : List T
  pub dropped : List T

-- `pthread_cond_signal`: one of those who sleep wakes up, or nobody sleeps.
pub data Signal {A : Type 0} (sleeps : A → ℕ) (woken : A) (xs ys : List A) : Type 0 where
  one :
      (before : List A) (sleeper : A) (after : List A)
      → sleeps sleeper ≡ 1
      → xs ≡ before ++ sleeper ∷ after
      → ys ≡ before ++ woken ∷ after
      → Signal sleeps woken xs ys
  nobody : weigh sleeps xs ≡ 0 → ys ≡ xs → Signal sleeps woken xs ys

abbrev pub waits : Client → ℕ
waits waiting = 1
waits checking = 0
waits returned = 0

abbrev pub checks : Client → ℕ
checks checking = 1
checks waiting = 0
checks returned = 0

module _ {T : Type 0} where
  abbrev pub sleeps : Thread T → ℕ
  sleeps asleep = 1
  sleeps awake = 0
  sleeps (busy task) = 0
  sleeps gone = 0

  abbrev pub is_active : Thread T → ℕ
  is_active awake = 1
  is_active (busy task) = 1
  is_active asleep = 0
  is_active gone = 0

  abbrev pub is_busy : Thread T → ℕ
  is_busy (busy task) = 1
  is_busy awake = 0
  is_busy asleep = 0
  is_busy gone = 0

  abbrev pub rouse : Thread T → Thread T
  rouse asleep = awake
  rouse awake = awake
  rouse (busy task) = busy task
  rouse gone = gone

  -- Where a worker is behind the section at the head of its loop.
  abbrev pub thread_of : Worker T → Thread T
  thread_of at_head = asleep
  thread_of (running task) = busy task
  thread_of exited = gone

  unfoldable pub open_room : ℕ → Room T
  unfolding create
  open_room num_threads =
      let s : System T = create num_threads in
      record {
        pool = s.pool;
        threads = replicate num_threads awake;
        clients = [];
        submitted = [];
        started = [];
        finished = [];
        dropped = [];
      }

  unfoldable pub head_room : Room T → List (Thread T) → List (Thread T) → Room T
  unfolding worker_head
  head_room r before after =
      let (pool, (worker, taken)) = worker_head r.pool in
      record r {
        pool = pool;
        threads = before ++ thread_of worker ∷ after;
        started = r.started ++ taken;
      }

  -- The end of the loop's body, with its signal on `idle_cv`.
  unfoldable pub tail_room : Room T → List (Thread T) → T → List (Thread T) → List Client → Room T
  unfolding worker_tail
  tail_room r before task after clients = record r {
    pool = worker_tail r.pool;
    threads = before ++ awake ∷ after;
    clients = clients;
    finished = r.finished ++ task ∷ [];
  }

  -- The test of the loop in `ccpool_wait`.
  unfoldable pub check_room : Room T → List Client → List Client → Room T
  unfolding wait_ends
  check_room r before after = record r {
    clients = before ++ (if wait_ends r.pool then returned else waiting) ∷ after;
  }

  unfoldable pub submit_room : Room T → T → List (Thread T) → Room T
  submit_room r task threads = record r {
    pool = record r.pool { tasks = r.pool.tasks ++ task ∷ [] };
    threads = threads;
    submitted = r.submitted ++ task ∷ [];
  }

  unfoldable pub stop_room : Room T → Room T
  stop_room r = record r {
    pool = record r.pool { stop = true; tasks = [] };
    threads = map rouse r.threads;
    dropped = r.dropped ++ r.pool.tasks;
  }

  -- What the threads that are awake do by themselves.
  pub data Move (r u : Room T) : Type 0 where
    head :
        (before after : List (Thread T))
        → r.threads ≡ before ++ awake ∷ after
        → u ≡ head_room r before after
        → Move r u
    tail :
        (before : List (Thread T)) (task : T) (after : List (Thread T)) (clients : List Client)
        → r.threads ≡ before ++ busy task ∷ after
        → Signal waits checking r.clients clients
        → u ≡ tail_room r before task after clients
        → Move r u
    check :
        (before after : List Client)
        → r.clients ≡ before ++ checking ∷ after
        → u ≡ check_room r before after
        → Move r u

  -- These, the calls of `ccpool_submit`, `ccpool_wait` and `ccpool_stop`, and the wake-ups with no
  -- signal that POSIX allows.
  pub data Event (r u : Room T) : Type 0 where
    moved : Move r u → Event r u
    submitting :
        (task : T) (threads : List (Thread T))
        → Signal sleeps awake r.threads threads
        → u ≡ submit_room r task threads
        → Event r u
    arriving : u ≡ record r { clients = r.clients ++ checking ∷ [] } → Event r u
    stopping : u ≡ stop_room r → Event r u
    worker_woken :
        (before after : List (Thread T))
        → r.threads ≡ before ++ asleep ∷ after
        → u ≡ record r { threads = before ++ awake ∷ after }
        → Event r u
    calling_again :
        (before after : List Client)
        → r.clients ≡ before ++ returned ∷ after
        → u ≡ record r { clients = before ++ checking ∷ after }
        → Event r u
    client_woken :
        (before after : List Client)
        → r.clients ≡ before ++ waiting ∷ after
        → u ≡ record r { clients = before ++ checking ∷ after }
        → Event r u

  pub data Visits (r : Room T) : Room T → Type 0 where
    here : Visits r r
    next : {t u : Room T} → Visits r t → Event t u → Visits r u
