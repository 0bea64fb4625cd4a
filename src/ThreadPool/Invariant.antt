-- ===== src/ThreadPool/Invariant.antt =====
-- What holds between any two steps of the threads.
use ccore.Base.{
  ℕ, zero, suc, ◌+◌, ◌%◌, ◌≡◌, refl, sym, ap, ◌∙◌, Bool, true, false, List, [], ◌∷◌, ◌++◌,
  if◌then◌else◌, length, replicate, arith, length-append, length-replicate,
}
use mathlib.Core.List.{append_assoc, append-nil}
use ccore.ThreadPool.{
  Pool, Worker, at_head, running, exited, System, byte_mod, create, worker_head, head_step,
  worker_tail, tail_step, submit, stop, Step, head, tail, submitting, stopping, Reach, here, next,
}

module _ {T : Type 0} where
  -- How many of the tasks pass a test.
  abbrev pub count : (T → Bool) → List T → ℕ
  count p [] = 0
  count p (t ∷ ts) = if p t then suc (count p ts) else count p ts

  -- The tasks that workers are running.
  abbrev pub in_progress : List (Worker T) → List T
  in_progress [] = []
  in_progress (at_head ∷ ws) = in_progress ws
  in_progress (exited ∷ ws) = in_progress ws
  in_progress (running t ∷ ws) = t ∷ in_progress ws

  pub count-append : (p : T → Bool) (xs ys : List T) → count p (xs ++ ys) ≡ count p xs + count p ys
  count-append p [] ys = omega arith
  count-append p (x ∷ xs) ys = ground (arith, count-append p xs ys)

  count-in_progress :
      (p : T → Bool) (before : List (Worker T)) (w : Worker T) (after : List (Worker T))
      → count p (in_progress (before ++ w ∷ after))
        ≡ count p (in_progress before)
          + count p (in_progress (w ∷ []))
          + count p (in_progress after)
  count-in_progress p [] at_head after = omega arith
  count-in_progress p [] exited after = omega arith
  count-in_progress p [] (running t) after = ground arith
  count-in_progress p (at_head ∷ before) w after = count-in_progress p before w after
  count-in_progress p (exited ∷ before) w after = count-in_progress p before w after
  count-in_progress p (running t ∷ before) w after =
      ground (arith, count-in_progress p before w after)

  length-in_progress :
      (before : List (Worker T)) (w : Worker T) (after : List (Worker T))
      → length (in_progress (before ++ w ∷ after))
        ≡ length (in_progress before) + length (in_progress (w ∷ [])) + length (in_progress after)
  length-in_progress [] at_head after = omega arith
  length-in_progress [] exited after = omega arith
  length-in_progress [] (running t) after = omega arith
  length-in_progress (at_head ∷ before) w after = length-in_progress before w after
  length-in_progress (exited ∷ before) w after = length-in_progress before w after
  length-in_progress (running t ∷ before) w after = omega (arith, length-in_progress before w after)

  pub record IsPool (threads : ℕ) (s : System T) : Type 0 where
    -- Tasks are taken in the order in which they are submitted, and none is dropped or taken twice.
    pub in_order : s.submitted ≡ s.started ++ (s.dropped ++ s.pool.tasks)
    pub kept : s.pool.stop ≡ false → s.dropped ≡ []
    -- A task that was taken is in progress or has finished, once.
    pub balanced :
        (p : T → Bool) → count p s.started ≡ count p (in_progress s.workers) + count p s.finished
    -- The counter is the number of workers that run a task, modulo `2^8`.
    pub counted : s.pool.in_work ≡ length (in_progress s.workers) % byte_mod
    pub threads_eq : length s.workers ≡ threads
    pub thread_count_eq : s.pool.thread_count ≡ threads % byte_mod

  in_progress-replicate : (n : ℕ) → in_progress (replicate n at_head) ≡ []
  in_progress-replicate zero = refl
  in_progress-replicate (suc n) = in_progress-replicate n

  create-IsPool : (n : ℕ) → IsPool n (create n)
  unfolding create
  create-IsPool n = record {
    in_order = refl;
    kept = λ h. refl;
    balanced = λ p. rw (in_progress-replicate n) refl;
    counted = rw (in_progress-replicate n) refl;
    threads_eq = length-replicate n at_head;
    thread_count_eq = refl;
  }

  -- What a worker takes at the head of its loop.
  record IsTaken (pool : Pool T) (out : Pool T × (Worker T × List T)) : Type 0 where
    stop_eq : out.0.stop ≡ pool.stop
    thread_count_eq : out.0.thread_count ≡ pool.thread_count
    front :
        (dropped : List T)
        → (pool.stop ≡ false → dropped ≡ [])
        → dropped ++ pool.tasks ≡ out.1.1 ++ (dropped ++ out.0.tasks)
    progress : in_progress (out.1.0 ∷ []) ≡ out.1.1
    bumped : (k : ℕ) → pool.in_work ≡ k % byte_mod → out.0.in_work ≡ (k + length out.1.1) % byte_mod

  fields-IsTaken :
      (tasks : List T) (b : Bool) (w c : ℕ)
      → IsTaken
          (record { tasks = tasks; stop = b; in_work = w; thread_count = c })
          (worker_head (record { tasks = tasks; stop = b; in_work = w; thread_count = c }))
  unfolding worker_head
  fields-IsTaken tasks true w c = record {
    stop_eq = refl;
    thread_count_eq = refl;
    front = λ d h. refl;
    progress = refl;
    bumped = λ k h. omega arith;
  }
  fields-IsTaken [] false w c = record {
    stop_eq = refl;
    thread_count_eq = refl;
    front = λ d h. refl;
    progress = refl;
    bumped = λ k h. omega arith;
  }
  fields-IsTaken (t ∷ ts) false w c = record {
    stop_eq = refl;
    thread_count_eq = refl;
    front = λ d h. rw (h refl) refl;
    progress = refl;
    bumped = λ k h. omega arith;
  }

  worker_head-IsTaken : (pool : Pool T) → IsTaken pool (worker_head pool)
  worker_head-IsTaken pool = fields-IsTaken pool.tasks pool.stop pool.in_work pool.thread_count

  module _ {n : ℕ} (s : System T) (is : IsPool n s) where
    length-around :
        (before : List (Worker T)) (w v : Worker T) (after : List (Worker T))
        → length (before ++ w ∷ after) ≡ length (before ++ v ∷ after)
    length-around before w v after =
        length-append before (w ∷ after) ∙ sym (length-append before (v ∷ after))

    head-IsPool :
        (before after : List (Worker T))
        → s.workers ≡ before ++ at_head ∷ after
        → IsPool n (head_step s before after)
    unfolding head_step
    head-IsPool before after at =
        let out = worker_head s.pool in
        let took = worker_head-IsTaken s.pool in
        record {
          in_order =
              is.in_order
              ∙ ap (λ l. s.started ++ l) (took.front s.dropped is.kept)
              ∙ sym (append_assoc s.started out.1.1 (s.dropped ++ out.0.tasks));
          kept = λ h. is.kept (sym took.stop_eq ∙ h);
          balanced = λ p.
              let was =
                is.balanced p ∙ ap (λ ws. count p (in_progress ws) + count p s.finished) at in
              omega (
                arith,
                was,
                count-in_progress p before at_head after,
                count-in_progress p before out.1.0 after,
                ap (count p) took.progress,
                count-append p s.started out.1.1,
              );
          counted =
              took.bumped (length (in_progress s.workers)) is.counted
              ∙ ap (λ k. k % byte_mod)
                  (omega (
                    arith,
                    ap (λ ws. length (in_progress ws)) at,
                    ap length took.progress,
                    length-in_progress before at_head after,
                    length-in_progress before out.1.0 after,
                  ));
          threads_eq =
              length-around before out.1.0 at_head after ∙ sym (ap length at) ∙ is.threads_eq;
          thread_count_eq = took.thread_count_eq ∙ is.thread_count_eq;
        }

    tail-IsPool :
        (before : List (Worker T)) (t : T) (after : List (Worker T))
        → s.workers ≡ before ++ running t ∷ after
        → IsPool n (tail_step s before t after)
    unfolding tail_step worker_tail
    tail-IsPool before t after at = record {
      in_order = is.in_order;
      kept = is.kept;
      balanced = λ p.
          let was = is.balanced p ∙ ap (λ ws. count p (in_progress ws) + count p s.finished) at in
          omega (
            arith,
            was,
            count-in_progress p before (running t) after,
            count-in_progress p before at_head after,
            count-append p s.finished (t ∷ []),
          );
      counted =
          let was = is.counted ∙ ap (λ ws. length (in_progress ws) % byte_mod) at in
          omega (
            arith,
            was,
            length-in_progress before (running t) after,
            length-in_progress before at_head after,
          );
      threads_eq =
          length-around before at_head (running t) after ∙ sym (ap length at) ∙ is.threads_eq;
      thread_count_eq = is.thread_count_eq;
    }

    submit-IsPool : (t : T) → IsPool n (submit s t)
    unfolding submit
    submit-IsPool t = record {
      in_order =
          ap (λ l. l ++ t ∷ []) is.in_order
          ∙ append_assoc s.started (s.dropped ++ s.pool.tasks) (t ∷ [])
          ∙ ap (λ l. s.started ++ l) (append_assoc s.dropped s.pool.tasks (t ∷ []));
      kept = is.kept;
      balanced = is.balanced;
      counted = is.counted;
      threads_eq = is.threads_eq;
      thread_count_eq = is.thread_count_eq;
    }

    stop-IsPool : IsPool n (stop s)
    unfolding stop
    stop-IsPool = record {
      in_order =
          is.in_order ∙ ap (λ l. s.started ++ l) (sym (append-nil (s.dropped ++ s.pool.tasks)));
      kept = λ h. cc;
      balanced = is.balanced;
      counted = is.counted;
      threads_eq = is.threads_eq;
      thread_count_eq = is.thread_count_eq;
    }

  Step-IsPool : {n : ℕ} {s u : System T} → IsPool n s → Step s u → IsPool n u
  Step-IsPool {n} {s} is (head before after at e) = rw e (head-IsPool s is before after at)
  Step-IsPool {n} {s} is (tail before t after at e) = rw e (tail-IsPool s is before t after at)
  Step-IsPool {n} {s} is (submitting t e) = rw e (submit-IsPool s is t)
  Step-IsPool {n} {s} is (stopping e) = rw e (stop-IsPool s is)

  Reach-from : {n : ℕ} {s u : System T} → IsPool n s → Reach s u → IsPool n u
  Reach-from is here = is
  Reach-from is (next r st) = Step-IsPool (Reach-from is r) st

  -- However the workers of a pool of `n` threads and the threads that call `ccpool_submit` and
  -- `ccpool_stop` interleave: tasks start in the order of their submission, and each that starts is
  -- in progress or has finished, once; what does not start is in the queue or was dropped by
  -- `ccpool_stop`; and `in_work` is the number of tasks in progress modulo `2^8`.
  pub Reach-IsPool : (n : ℕ) {s : System T} → Reach (create n) s → IsPool n s
  Reach-IsPool n r = Reach-from (create-IsPool n) r
