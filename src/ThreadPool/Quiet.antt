-- ===== src/ThreadPool/Quiet.antt =====
-- What is known when `ccpool_wait` returns, and when `ccpool_stop` frees the pool.
use ccore.Base.{
  ℕ, ◌*◌, ◌%◌, ◌<◌, ◌≤◌, ◌≡◌, refl, sym, ap, ◌∙◌, ◌↔◌, Bool, true, false, List, [], ◌∷◌, ◌++◌,
  length, take, arith, take_all,
}
use ccore.ThreadPool.{
  Worker, at_head, running, exited, System, byte_mod, create, has_exited, all_exited, can_free,
  wait_ends, Reach,
}
use ccore.ThreadPool.Invariant.{count, count-append, in_progress, Reach-IsPool}

module _ {T : Type 0} where
  wait_ends-cases :
      (tasks : List T) (b : Bool) (w c : ℕ)
      → (wait_ends (record { tasks = tasks; stop = b; in_work = w; thread_count = c }) ≡ true)
        ↔ ((tasks ≡ []) × (w ≡ 0))
  unfolding wait_ends
  wait_ends-cases [] b w c = (λ h. (refl, ground arith), λ h. ground arith)
  wait_ends-cases (t ∷ ts) b w c = (λ h. cc, λ h. cc)

  -- In a pool of `n` threads, `ccpool_wait` returns exactly when the queue is empty and the number
  -- of tasks in progress is a multiple of `2^8`.
  wait_ends_iff :
      (n : ℕ) {s : System T}
      → Reach (create n) s
      → (wait_ends s.pool ≡ true)
        ↔ ((s.pool.tasks ≡ []) × (length (in_progress s.workers) % byte_mod ≡ 0))
  wait_ends_iff n {s} r =
      let counted = (Reach-IsPool n r).counted in
      let ends = wait_ends-cases s.pool.tasks s.pool.stop s.pool.in_work s.pool.thread_count in
      (λ h. ((ends.0 h).0, sym counted ∙ (ends.0 h).1), λ h. ends.1 (h.0, counted ∙ h.1))

  length-in_progress-le : (ws : List (Worker T)) → length (in_progress ws) ≤ length ws
  length-in_progress-le [] = omega arith
  length-in_progress-le (at_head ∷ ws) = omega (arith, length-in_progress-le ws)
  length-in_progress-le (exited ∷ ws) = omega (arith, length-in_progress-le ws)
  length-in_progress-le (running t ∷ ws) = omega (arith, length-in_progress-le ws)

  empty_of_length : (ts : List T) → length ts ≡ 0 → ts ≡ []
  empty_of_length [] h = refl
  empty_of_length (t ∷ ts) h = absurd (omega arith)

  -- In a pool of less than `2^8` threads that is not stopped, when `ccpool_wait` returns, each task
  -- that was submitted has finished, once.
  pub wait_finished :
      (n : ℕ) {s : System T}
      → n < byte_mod
      → Reach (create n) s
      → s.pool.stop ≡ false
      → wait_ends s.pool ≡ true
      → (p : T → Bool) → count p s.submitted ≡ count p s.finished
  wait_finished n {s} few r live ends p =
      let is = Reach-IsPool n r in
      let (none_left, idle) = (wait_ends_iff n r).0 ends in
      let quiet =
        empty_of_length (in_progress s.workers)
          (omega (arith, idle, length-in_progress-le s.workers, is.threads_eq)) in
      omega (
        arith,
        ap (count p) is.in_order,
        count-append p s.started (s.dropped ++ s.pool.tasks),
        count-append p s.dropped s.pool.tasks,
        ap (count p) (is.kept live),
        ap (count p) none_left,
        is.balanced p,
        ap (count p) quiet,
      )

  all_exited-in_progress : (ws : List (Worker T)) → all_exited ws ≡ true → in_progress ws ≡ []
  unfolding all_exited has_exited
  all_exited-in_progress [] h = refl
  all_exited-in_progress (at_head ∷ ws) h = cc
  all_exited-in_progress (exited ∷ ws) h = all_exited-in_progress ws h
  all_exited-in_progress (running t ∷ ws) h = cc

  -- In a pool of less than `2^8` threads, `ccpool_stop` frees the pool only when every worker is
  -- past its loop, and then each task that was taken from the queue has finished, once.
  can_free_finished :
      (n : ℕ) {s : System T}
      → n < byte_mod
      → Reach (create n) s
      → can_free s ≡ true
      → (all_exited s.workers ≡ true) × ((p : T → Bool) → count p s.started ≡ count p s.finished)
  unfolding can_free
  can_free_finished n {s} few r free =
      let is = Reach-IsPool n r in
      let all : s.pool.thread_count ≡ length s.workers =
        omega (arith, is.threads_eq, is.thread_count_eq) in
      let done : all_exited s.workers ≡ true =
        sym (ap all_exited (ap (λ k. take k s.workers) all ∙ take_all s.workers)) ∙ free in
      let quiet = all_exited-in_progress s.workers done in
      (done, λ p. omega (arith, is.balanced p, ap (count p) quiet))

  -- In a pool whose number of threads is a multiple of `2^8`, `ccpool_stop` frees the pool whatever
  -- its workers are doing.
  pub can_free_early : (k : ℕ) {s : System T} → Reach (create (k * byte_mod)) s → can_free s ≡ true
  unfolding can_free all_exited
  can_free_early k {s} r =
      let no_count : s.pool.thread_count ≡ 0 =
        omega (arith, (Reach-IsPool (k * byte_mod) r).thread_count_eq) in
      rw no_count refl
