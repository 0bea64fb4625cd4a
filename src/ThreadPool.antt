-- ===== src/ThreadPool.antt =====
-- src/tpool.c and src/tpool.h: the thread pool. The queue is a `cclist_t` that is only appended to
-- and taken from at its front; it stands here as the sequence of its tasks. Each section of code
-- under `pool->mt` is one function, and one step of the system. A thread in `pthread_cond_wait` may
-- wake at any time, as POSIX allows, so a worker at the head of its loop may run it at any time.
pub mod Invariant
pub mod Quiet
pub mod Signals
mod Tests
use ccore.Base.{
  ℕ, ◌+◌, ◌%◌, ◌<◌, ◌≡◌, Bool, true, false, ◌&&◌, Option, none, some, List, [], ◌∷◌, ◌++◌, ◌==◌,
  if◌then◌else◌, take, replicate,
}
use ccore.Base.Outcome.{Build, Outcome, ok, ◌>>=◌, ◌>>◌, assert}

-- `T` is a task: the function and its argument.
pub record Pool (T : Type 0) : Type 0 where
  pub tasks : List T
  pub stop : Bool
  -- `uint8_t`
  pub in_work : ℕ
  -- `uint8_t`
  pub thread_count : ℕ

-- Where a worker is: at the head of its loop (or asleep there), in `task->fn`, or past the loop.
pub data Worker (T : Type 0) : Type 0 where
  at_head : Worker T
  running : T → Worker T
  exited : Worker T

-- The pool with its threads, and the history of its tasks, in the order in which they were
-- submitted, taken from the queue, finished by a worker, and freed by `task_destructor`.
pub record System (T : Type 0) : Type 0 where
  pub pool : Pool T
  pub workers : List (Worker T)
  pub submitted : List T
  pub started : List T
  pub finished : List T
  pub dropped : List T

abbrev pub byte_mod : ℕ
byte_mod = 256

module _ {T : Type 0} where
  -- `ccpool_start` without a pool: `num_threads` threads are created, and a byte counts them.
  unfoldable pub create : ℕ → System T
  create num_threads = record {
    pool = record { tasks = []; stop = false; in_work = 0; thread_count = num_threads % byte_mod };
    workers = replicate num_threads at_head;
    submitted = [];
    started = [];
    finished = [];
    dropped = [];
  }

  -- `ccpool_start`, where `none` is `pool == NULL`
  unfoldable pub start : Option (System T) → ℕ → Option (System T)
  unfolding create
  start none num_threads = some (create num_threads)
  start (some s) num_threads = some s

  -- The head of the loop in `pool_worker`, up to the unlock, and the task that is taken.
  unfoldable pub worker_head : Pool T → Pool T × (Worker T × List T)
  worker_head pool = if pool.stop then (pool, (exited, [])) else elim pool.tasks [
    | [] ↦ (pool, (at_head, []))
    | task ∷ tasks ↦ (
      record pool { tasks = tasks; in_work = (pool.in_work + 1) % byte_mod },
      (running task, task ∷ []),
    )
  ]

  unfoldable pub head_step : System T → List (Worker T) → List (Worker T) → System T
  unfolding worker_head
  head_step s before after =
      let (pool, (worker, taken)) = worker_head s.pool in
      record s { pool = pool; workers = before ++ worker ∷ after; started = s.started ++ taken }

  -- The end of the loop's body, behind `task->fn(task->refcon)`.
  unfoldable pub worker_tail : Pool T → Pool T
  worker_tail pool = record pool { in_work = (pool.in_work + 255) % byte_mod }

  unfoldable pub tail_step : System T → List (Worker T) → T → List (Worker T) → System T
  unfolding worker_tail
  tail_step s before task after = record s {
    pool = worker_tail s.pool;
    workers = before ++ at_head ∷ after;
    finished = s.finished ++ task ∷ [];
  }

  unfoldable pub submit : System T → T → System T
  submit s task = record s {
    pool = record s.pool { tasks = s.pool.tasks ++ task ∷ [] };
    submitted = s.submitted ++ task ∷ [];
  }

  -- `ccpool_stop` up to its first unlock of `pool->mt`.
  unfoldable pub stop : System T → System T
  stop s = record s {
    pool = record s.pool { stop = true; tasks = [] };
    dropped = s.dropped ++ s.pool.tasks;
  }

  unfoldable pub has_exited : Worker T → Bool
  has_exited exited = true
  has_exited at_head = false
  has_exited (running task) = false

  unfoldable pub all_exited : List (Worker T) → Bool
  unfolding has_exited
  all_exited [] = true
  all_exited (w ∷ ws) = has_exited w && all_exited ws

  -- The `pthread_join` loop of `ccpool_stop` gets through: then the pool is freed.
  unfoldable pub can_free : System T → Bool
  unfolding all_exited
  can_free s = all_exited (take s.pool.thread_count s.workers)

  -- The end of `ccpool_stop`, behind the joins: `none` is `pool == NULL`.
  unfoldable pub stop_end : System T → Option (System T)
  unfolding can_free
  stop_end s = if can_free s then none else some s

  -- The loop of `ccpool_wait` ends: `!(pool->in_work || pool->tasks.size)`
  unfoldable pub wait_ends : Pool T → Bool
  wait_ends pool = elim pool.tasks [ [] ↦ pool.in_work == 0 | task ∷ tasks ↦ false ]

  -- A step of some thread.
  pub data Step (s u : System T) : Type 0 where
    head :
        (before after : List (Worker T))
        → s.workers ≡ before ++ at_head ∷ after
        → u ≡ head_step s before after
        → Step s u
    tail :
        (before : List (Worker T)) (task : T) (after : List (Worker T))
        → s.workers ≡ before ++ running task ∷ after
        → u ≡ tail_step s before task after
        → Step s u
    submitting : (task : T) → u ≡ submit s task → Step s u
    stopping : u ≡ stop s → Step s u

  pub data Reach (s : System T) : System T → Type 0 where
    here : Reach s s
    next : {t u : System T} → Reach s t → Step t u → Reach s u
