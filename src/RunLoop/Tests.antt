-- ===== src/RunLoop/Tests.antt =====
-- A round over two programs, and a run loop with a long name.
use ccore.Base.{ℕ, ◌+◌, ◌-◌, ◌%◌, ◌≡◌, false, List, [], ◌∷◌, map, take, arith}
use ccore.Base.Outcome.{ok}
use ccore.Base.Words.{size_mod}
use ccore.RunLoop.{Program, RunLoop, max_rloop_wait, run_round}
use ccore.RunLoop.Rounds.{Turns, loop_thread}
use ccore.RunLoop.Rounds.Missed.{tick, calls_of, missed_never_called}
use ccore.RunLoop.Ticks.{IsRound, run_round-IsRound}

-- The first is due in 5 microseconds, the second in 20.
abbrev programs : List (Program ℕ)
programs =
    record { handle = 64; main = 1; acc = 5; interval = 10 }
    ∷ record { handle = 128; main = 2; acc = 20; interval = 20 }
    ∷ []

-- The clock turns over between the two rounds, and the first program is late.
run_round-IsRound_example :
    IsRound 8 programs max_rloop_wait
      (run_round (size_mod - 3) ((size_mod - 3 + 8) % size_mod) programs)
run_round-IsRound_example =
    run_round-IsRound (size_mod - 3) 8 programs (omega arith) (omega arith) (ground arith)

abbrev loop : RunLoop ℕ
loop = record { is_running = false; stop = false; name = []; programs = programs }

abbrev third : Program ℕ
third = record { handle = 192; main = 3; acc = 9; interval = 9 }

-- The second program has 20 microseconds left at 100, and the first round is at 121.
missed_never_called_example :
    (out : Turns ℕ) × (out' : Turns ℕ) × (loop_thread 100 loop (map tick (121 ∷ 130 ∷ 150 ∷ []))
      ≡ ok out)
    × (loop_thread 100
          (record loop { programs = take 1 programs })
          (map tick (121 ∷ 130 ∷ 150 ∷ []))
        ≡ ok out')
    × (calls_of out ≡ calls_of out')
missed_never_called_example =
    missed_never_called 100 121 loop (take 1 programs) []
      (record { handle = 128; main = 2; acc = 20; interval = 20 }) (130 ∷ 150 ∷ []) (omega arith)
      (ground arith) (ground arith) (omega arith)
