-- ===== src/ThreadPool/Signals/Invariant.antt =====
-- src/tpool.c: what holds in a room between any two events.
use ccore.Base.{
  ℕ, zero, suc, ◌*◌, ◌%◌, ◌≡◌, refl, ap, ◌∙◌, List, [], ◌∷◌, length, map, replicate, arith, weigh,
}
use ccore.ThreadPool.{byte_mod}
use ccore.ThreadPool.Invariant.{in_progress, Reach-IsPool}
use ccore.ThreadPool.Signals.{
  Thread, awake, asleep, busy, gone, Room, sleeps, is_active, is_busy, open_room, head, tail, check,
  Event, moved, submitting, arriving, stopping, worker_woken, client_woken, calling_again, Visits,
  here, next,
}
use ccore.ThreadPool.Signals.Refinement.{worker_of, forget-Reach}
use ccore.ThreadPool.Signals.Served.{IsServed}
use ccore.ThreadPool.Signals.Kept.{
  head-IsServed, tail-IsServed, stop-IsServed, submit-IsServed, worker_woken-IsServed,
  arriving-IsServed, client_woken-IsServed, check-IsServed,
}

module _ {T : Type 0} where
  -- The counter of the pool is the number of threads that are busy, modulo `2^8`.
  length-in_progress :
      (ws : List (Thread T)) → length (in_progress (map worker_of ws)) ≡ weigh is_busy ws
  length-in_progress [] = refl
  length-in_progress (awake ∷ ws) = omega (arith, length-in_progress ws)
  length-in_progress (asleep ∷ ws) = omega (arith, length-in_progress ws)
  length-in_progress (busy task ∷ ws) = omega (arith, length-in_progress ws)
  length-in_progress (gone ∷ ws) = omega (arith, length-in_progress ws)

  pub in_work-busy :
      (n : ℕ) {r : Room T}
      → Visits (open_room n) r
      → r.pool.in_work ≡ weigh is_busy r.threads % byte_mod
  in_work-busy n {r} v =
      (Reach-IsPool n (forget-Reach n v)).counted
      ∙ ap (λ k. k % byte_mod) (length-in_progress r.threads)

  Event-IsServed :
      {n : ℕ} {r u : Room T}
      → r.pool.in_work ≡ weigh is_busy r.threads % byte_mod
      → IsServed n r
      → Event r u
      → IsServed n u
  Event-IsServed {n} {r} counted is (moved (head before after at e)) =
      rw e (head-IsServed r is before after at)
  Event-IsServed {n} {r} counted is (moved (tail before task after clients at signal e)) =
      rw e (tail-IsServed r is before task after clients at signal)
  Event-IsServed {n} {r} counted is (moved (check before after at e)) =
      rw e (check-IsServed r is counted before after)
  Event-IsServed {n} {r} counted is (submitting task threads signal e) =
      rw e (submit-IsServed r is task threads signal)
  Event-IsServed {n} {r} counted is (arriving e) = rw e (arriving-IsServed r is)
  Event-IsServed {n} {r} counted is (stopping e) = rw e (stop-IsServed r is)
  Event-IsServed {n} {r} counted is (worker_woken before after at e) =
      rw e (worker_woken-IsServed r is before after at)
  Event-IsServed {n} {r} counted is (client_woken before after at e) =
      rw e (client_woken-IsServed r is before after)
  Event-IsServed {n} {r} counted is (calling_again before after at e) =
      rw e (client_woken-IsServed r is before after)

  weigh-replicate : (w : Thread T → ℕ) (n : ℕ) → weigh w (replicate n awake) ≡ n * w awake
  weigh-replicate w zero = omega arith
  weigh-replicate w (suc n) = omega (arith, weigh-replicate w n)

  open_room-IsServed : (n : ℕ) → IsServed {T = T} n (open_room n)
  unfolding open_room
  open_room-IsServed n = record {
    present = λ h. omega (arith, weigh-replicate sleeps n, weigh-replicate is_active n);
    served = λ h some task. absurd (omega (arith, task));
    tended = λ h few single sleeper. absurd (omega (arith, sleeper));
  }

  -- Whatever happens in a pool of `n` threads: while it is not stopped, every worker is asleep or
  -- active; when a task is in the queue and `0 < n`, some worker is active; and where one thread at
  -- most calls `ccpool_wait`, any number of times, and `n < 2^8`, it sleeps there only while a task is
  -- in the queue or in progress.
  pub Visits-IsServed : (n : ℕ) {r : Room T} → Visits (open_room n) r → IsServed n r
  Visits-IsServed n here = open_room-IsServed n
  Visits-IsServed n (next v e) = Event-IsServed (in_work-busy n v) (Visits-IsServed n v) e
