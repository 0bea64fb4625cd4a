-- ===== src/ThreadPool/Tests.antt =====
-- Two runs of a pool whose tasks are numbers, and the theorems at such runs.
use ccore.Base.{ℕ, ◌*◌, ◌≡◌, refl, true, false, [], ◌∷◌, replicate, arith}
use ccore.ThreadPool.{
  at_head, System, byte_mod, create, worker_head, head_step, worker_tail, tail_step, submit, stop,
  has_exited, all_exited, can_free, wait_ends, head, tail, submitting, stopping, Reach, here, next,
}
use ccore.ThreadPool.Invariant.{count, IsPool, Reach-IsPool}
use ccore.ThreadPool.Quiet.{wait_finished, can_free_early}

abbrev given : ℕ → System ℕ
given n = submit (create n) 7

-- The first of two workers has taken task 7.
abbrev taken : System ℕ
taken = head_step (given 2) [] (at_head ∷ [])

taken-Reach : Reach (create 2) taken
unfolding create submit
taken-Reach = next (next here (submitting 7 refl)) (head [] (at_head ∷ []) refl refl)

-- It has run it.
abbrev ran : System ℕ
ran = tail_step taken [] 7 (at_head ∷ [])

ran-Reach : Reach (create 2) ran
unfolding create submit head_step worker_head
ran-Reach = next taken-Reach (tail [] 7 (at_head ∷ []) refl refl)

ran_idle : wait_ends ran.pool ≡ true
unfolding create submit head_step worker_head tail_step worker_tail wait_ends
ran_idle = refl

-- The only worker of a pool sees that it is stopped.
abbrev stopped : System ℕ
stopped = head_step (stop (given 1)) [] []

stopped-Reach : Reach (create 1) stopped
unfolding create submit stop
stopped-Reach = next (next (next here (submitting 7 refl)) (stopping refl)) (head [] [] refl refl)

stopped_free : can_free stopped ≡ true
unfolding create submit stop head_step worker_head can_free all_exited has_exited
stopped_free = refl

-- One of 256 workers has taken task 7.
abbrev crowded : System ℕ
crowded = head_step (given 256) [] (replicate 255 at_head)

crowded-Reach : Reach (create (1 * byte_mod)) crowded
unfolding create submit
crowded-Reach = next (next here (submitting 7 refl)) (head [] (replicate 255 at_head) refl refl)

Reach-IsPool_example : IsPool 2 ran
Reach-IsPool_example = Reach-IsPool 2 ran-Reach

ran_live : ran.pool.stop ≡ false
unfolding create submit head_step worker_head tail_step worker_tail
ran_live = refl

wait_finished_example : count (λ t. true) ran.submitted ≡ count (λ t. true) ran.finished
wait_finished_example = wait_finished 2 (omega arith) ran-Reach ran_live ran_idle (λ t. true)

can_free_early_example : can_free crowded ≡ true
can_free_early_example = can_free_early 1 crowded-Reach
