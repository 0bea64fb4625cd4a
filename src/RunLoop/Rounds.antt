-- ===== src/RunLoop/Rounds.antt =====
-- src/run_loop.c: the thread of a run loop, over the times at which its waits end, and what other
-- threads do to the loop meanwhile.
pub mod Missed
use ccore.Base.{ℕ, zero, ◌+◌, ◌%◌, ◌≡◌, Bool, true, false, List, [], ◌∷◌, if◌then◌else◌}
use ccore.Base.Outcome.{Outcome, ok, ◌>>=◌}
use ccore.Base.Words.{size_mod}
use ccore.RunLoop.{
  Program, RunLoop, Round, run_programs, run_round, run_loop_register, without, run_loop_unregister,
}

-- A call of `cc_run_loop_register` or `cc_run_loop_unregister`.
pub data Change (M : Type 0) : Type 0 where
  registering : (handle : ℕ) (main : M) (interval : ℕ) (random : ℕ) → Change M
  unregistering : (handle : ℕ) → Change M

-- The end of a wait: the calls before it, `rl->stop`, and the time.
pub record Wake (M : Type 0) : Type 0 where
  pub changes : List (Change M)
  pub stopped : Bool
  pub time : ℕ

-- A round: the time until which the thread waits for it, when it is, and the calls of `main`.
pub record Turn (M : Type 0) : Type 0 where
  pub deadline : ℕ
  pub time : ℕ
  pub calls : List M

pub record Turns (M : Type 0) : Type 0 where
  pub loop : RunLoop M
  pub turns : List (Turn M)

module _ {M : Type 0} where
  unfoldable pub changed : List (Change M) → RunLoop M → Outcome (RunLoop M)
  unfolding run_loop_register run_loop_unregister
  changed [] rl = ok rl
  changed (registering handle main interval random ∷ cs) rl = do
    rl' ← run_loop_register rl handle main interval random
    changed cs rl'
  changed (unregistering handle ∷ cs) rl = do rl' ← run_loop_unregister rl handle; changed cs rl'

  -- The loop, from a wait until `t + interval` on; it still waits when there are no more wakes.
  unfoldable pub loop_turns : ℕ → ℕ → RunLoop M → List (Wake M) → Outcome (Turns M)
  unfolding changed run_round
  loop_turns t interval rl [] = ok (record { loop = rl; turns = [] })
  loop_turns t interval rl (w ∷ ws) = do
    rl' ← changed w.changes rl
    let round = run_round t w.time rl'.programs
    let rest = loop_turns w.time round.wait (record rl' { programs = round.programs }) ws
    elim w.stopped [
      | true ↦ ok (record { loop = record rl' { stop = true; is_running = false }; turns = [] })
      | false ↦ do
        out ← rest
        ok (record out {
          turns =
              record { deadline = (t + interval) % size_mod; time = w.time; calls = round.calls }
              ∷ out.turns;
        })
    ]

  unfoldable pub loop_thread : ℕ → RunLoop M → List (Wake M) → Outcome (Turns M)
  unfolding loop_turns
  loop_thread t rl wakes = loop_turns t 0 (record rl { is_running = true }) wakes
