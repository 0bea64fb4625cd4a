-- ===== src/ThreadPool/Signals/Served.antt =====
-- src/tpool.c: what a room of threads and callers keeps up, and the head of the loop of a worker.
use ccore.Base.{
  ℕ, ◌+◌, ◌%◌, ◌<◌, ◌≤◌, ◌≡◌, refl, ◌⊎◌, inl, inr, Bool, true, false, List, [], ◌∷◌, ◌++◌, ◌==◌,
  if◌then◌else◌, length, length-append, arith, weigh, weigh-append,
}
use ccore.ThreadPool.{Pool, Worker, byte_mod, worker_head, wait_ends}
use ccore.ThreadPool.Signals.{
  Client, checking, waiting, returned, Room, waits, sleeps, is_active, is_busy, thread_of,
}

waits-le : (cs : List Client) → weigh waits cs ≤ length cs
waits-le [] = omega arith
waits-le (checking ∷ cs) = omega (arith, waits-le cs)
waits-le (waiting ∷ cs) = omega (arith, waits-le cs)
waits-le (returned ∷ cs) = omega (arith, waits-le cs)

-- No other caller sleeps when a single one does not.
pub not_alone :
    (front : List Client) (c : Client) (back : List Client)
    → waits c ≡ 0
    → length (front ++ c ∷ back) ≤ 1
    → 0 < weigh waits (front ++ c ∷ back)
    → ⊥
not_alone front c back awake_one single sleeper = omega (
  arith,
  weigh-append waits front c back,
  waits-le front,
  waits-le back,
  length-append front (c ∷ back),
)

pub goes_on :
    (b : Bool) (before after : List Client)
    → length (before ++ (if b then returned else waiting) ∷ after) ≤ 1
    → 0 < weigh waits (before ++ (if b then returned else waiting) ∷ after)
    → b ≡ false
goes_on false before after single sleeper = refl
goes_on true before after single sleeper =
    absurd (not_alone before returned after refl single sleeper)

module _ {T : Type 0} where
  pub record IsServed (n : ℕ) (r : Room T) : Type 0 where
    pub present : r.pool.stop ≡ false → weigh sleeps r.threads + weigh is_active r.threads ≡ n
    pub served :
        r.pool.stop ≡ false → 0 < n → 0 < length r.pool.tasks → 0 < weigh is_active r.threads
    pub tended :
        r.pool.stop ≡ false
        → n < byte_mod
        → length r.clients ≤ 1
        → 0 < weigh waits r.clients
        → 0 < length r.pool.tasks + weigh is_busy r.threads

  -- The caller that finds that the loop's condition holds has something to wait for.
  pub wait_ends-in_work :
      (pool : Pool T) (k : ℕ)
      → pool.in_work ≡ k % byte_mod
      → wait_ends pool ≡ false
      → 0 < length pool.tasks + k
  unfolding wait_ends
  wait_ends-in_work pool k counted h =
      elim pool.tasks
          as (λ ts.
            elim ts [ [] ↦ pool.in_work == 0 | t ∷ ts' ↦ false ] ≡ false → 0 < length ts + k) [
              | [] ↦ λ busy. ground arith
              | t ∷ ts ↦ λ busy. omega arith
            ]
        h

  -- What the head of the loop does to the numbers of threads and tasks.
  pub record IsTurn (pool : Pool T) (out : Pool T × (Worker T × List T)) : Type 0 where
    pub stop_eq : out.0.stop ≡ pool.stop
    pub there : pool.stop ≡ false → sleeps (thread_of out.1.0) + is_active (thread_of out.1.0) ≡ 1
    pub lively : pool.stop ≡ false → (is_active (thread_of out.1.0) ≡ 1) ⊎ (length out.0.tasks ≡ 0)
    pub kept :
        pool.stop ≡ false → length out.0.tasks + is_busy (thread_of out.1.0) ≡ length pool.tasks

  fields-IsTurn :
      (tasks : List T) (b : Bool) (w c : ℕ)
      → IsTurn
          (record { tasks = tasks; stop = b; in_work = w; thread_count = c })
          (worker_head (record { tasks = tasks; stop = b; in_work = w; thread_count = c }))
  unfolding worker_head
  fields-IsTurn tasks true w c = record {
    stop_eq = refl;
    there = λ h. cc;
    lively = λ h. cc;
    kept = λ h. cc;
  }
  fields-IsTurn [] false w c = record {
    stop_eq = refl;
    there = λ h. refl;
    lively = λ h. inr refl;
    kept = λ h. refl;
  }
  fields-IsTurn (t ∷ ts) false w c = record {
    stop_eq = refl;
    there = λ h. refl;
    lively = λ h. inl refl;
    kept = λ h. omega arith;
  }

  pub worker_head-IsTurn : (pool : Pool T) → IsTurn pool (worker_head pool)
  worker_head-IsTurn pool = fields-IsTurn pool.tasks pool.stop pool.in_work pool.thread_count
