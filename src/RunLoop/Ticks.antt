-- ===== src/RunLoop/Ticks.antt =====
-- Which programs a round calls, and what a new run loop is called.
use ccore.Base.{
  ℕ, ◌+◌, ◌-◌, ◌%◌, ◌<◌, ◌≤◌, ◌≡◌, refl, ap, inl, inr, false, List, [], ◌∷◌, ◌++◌, ◌==◌, ltb,
  if◌then◌else◌, length, replicate, take, arith, Bool-cases,
}
use ccore.Base.CString.{CString}
use ccore.Base.Outcome.{Build, Returns}
use ccore.Base.Words.{size_mod}
use ccore.Strings.Copy.{string_copy-take}
use ccore.RunLoop.{
  Program, Round, max_rloop_wait, name_size, counted_down, is_due, rearmed, lesser, run_programs,
  run_round, run_loop_new,
}

lesser-le : (a b : ℕ) → (lesser a b ≤ a) × (lesser a b ≤ b)
unfolding lesser
lesser-le a b = ground arith

module _ {M : Type 0} where
  -- The programs' times are 64-bit numbers.
  abbrev pub AreTimed : List (Program M) → Type 0
  AreTimed [] = Unit {0}
  AreTimed (p ∷ ps) = (p.acc < size_mod) × (p.interval < size_mod) × AreTimed ps

  -- The programs whose time to wait is exactly the time that has passed.
  abbrev pub due : ℕ → List (Program M) → List M
  due delta [] = []
  due delta (p ∷ ps) = if p.acc == delta then p.main ∷ due delta ps else due delta ps

  -- Such a program waits for its interval again; one that has time left waits for that; one whose
  -- time is over waits for `2^64` microseconds, less the time by which it is late.
  abbrev pub next_acc : ℕ → Program M → ℕ
  next_acc delta p =
      if p.acc == delta
      then p.interval
      else if ltb delta p.acc
      then p.acc - delta
      else size_mod + p.acc - delta

  abbrev pub waiting : ℕ → List (Program M) → List (Program M)
  waiting delta [] = []
  waiting delta (p ∷ ps) = record p { acc = next_acc delta p } ∷ waiting delta ps

  abbrev pub NotAfter : ℕ → List (Program M) → Type 0
  NotAfter wait [] = Unit {0}
  NotAfter wait (p ∷ ps) = (wait ≤ p.acc) × NotAfter wait ps

  pub record IsRound (delta : ℕ) (ps : List (Program M)) (least : ℕ) (r : Round M) : Type 0 where
    pub called : r.calls ≡ due delta ps
    pub left : r.programs ≡ waiting delta ps
    pub soon : NotAfter r.wait r.programs
    pub bounded : r.wait ≤ least

  -- One turn of the loop.
  turn-eq :
      (delta : ℕ) (p : Program M)
      → delta < size_mod
      → p.acc < size_mod
      → p.interval < size_mod
      → (is_due (counted_down delta p) ≡ (p.acc == delta))
        × ((if is_due (counted_down delta p)
              then rearmed (counted_down delta p)
              else counted_down delta p)
            ≡ record p { acc = next_acc delta p })
  unfolding is_due counted_down rearmed
  turn-eq delta p small acc interval = elim (Bool-cases (p.acc == delta)) [
    | inl now ↦
        let zero_left : (p.acc + size_mod - delta) % size_mod ≡ 0 = ground arith in
        let again : (0 + p.interval) % size_mod ≡ p.interval = omega arith in
        (rw (now, zero_left) refl, rw (now, zero_left) (ap (λ a. record p { acc = a }) again))
    | inr later ↦
        let some_left : ((p.acc + size_mod - delta) % size_mod == 0) ≡ false = ground arith in
        let left : (p.acc + size_mod - delta) % size_mod
            ≡ (if ltb delta p.acc then p.acc - delta else size_mod + p.acc - delta) =
          ground arith in
        (rw (later, some_left) refl, rw (later, some_left) (ap (λ a. record p { acc = a }) left))
  ]

  run_programs-IsRound :
      (delta least : ℕ) (ps : List (Program M))
      → delta < size_mod
      → AreTimed ps
      → IsRound delta ps least (run_programs delta least ps)
  unfolding run_programs
  run_programs-IsRound delta least [] small timed = record {
    called = refl;
    left = refl;
    soon = tt;
    bounded = omega arith;
  }
  run_programs-IsRound delta least (p ∷ ps) small (acc, interval, timed) =
      let (is, next) = turn-eq delta p small acc interval in
      let p'' = record p { acc = next_acc delta p } in
      let rest = run_programs-IsRound delta (lesser p''.acc least) ps small timed in
      let below = lesser-le p''.acc least in
      rw (next, is)
        (record {
          called = ap (λ calls. if p.acc == delta then p.main ∷ calls else calls) rest.called;
          left = ap (λ l. p'' ∷ l) rest.left;
          soon = (omega (arith, rest.bounded, below.0), rest.soon);
          bounded = omega (arith, rest.bounded, below.1);
        })

  -- A round at `new_t`, less than `2^64` microseconds after the one at `t`, calls just the programs
  -- whose time to wait is exactly the time since then, in the order of the list, and these wait for
  -- their interval again; a program with more time left has it reduced, and one with less is not
  -- called, but waits for `2^64` microseconds more. The thread then waits for one second at most, and
  -- not past the time of any program.
  pub run_round-IsRound :
      (t delta : ℕ) (ps : List (Program M))
      → t < size_mod
      → delta < size_mod
      → AreTimed ps
      → IsRound delta ps max_rloop_wait (run_round t ((t + delta) % size_mod) ps)
  unfolding run_round
  run_round-IsRound t delta ps now small timed =
      let since : ((t + delta) % size_mod + size_mod - t) % size_mod ≡ delta = omega arith in
      let round = run_programs-IsRound delta (size_mod - 1) ps small timed in
      let r = run_programs delta (size_mod - 1) ps in
      let below = lesser-le r.wait max_rloop_wait in
      rw since (record {
        called = round.called;
        left = round.left;
        soon = sooner (lesser r.wait max_rloop_wait) r.wait r.programs below.0 round.soon;
        bounded = below.1;
      })
    where
      sooner : (w v : ℕ) (ps : List (Program M)) → w ≤ v → NotAfter v ps → NotAfter w ps
      sooner w v [] le before = tt
      sooner w v (p ∷ ps) le (first, before) = (omega arith, sooner w v ps le before)

  -- The name of a new run loop is the first seven bytes of the one that is asked for, since its
  -- buffer of 20 bytes is filled up to the size of a pointer.
  run_loop_new-name :
      (build : Build) (garbage : ℕ) (name : CString)
      → Returns
          (run_loop_new {M = M} build garbage name)
          λ rl. (left : List ℕ) × (rl.name ≡ take 7 name ++ 0 ∷ left) × (length rl.name ≡ name_size)
  unfolding run_loop_new
  run_loop_new-name build garbage name =
      let buffer = replicate name_size garbage in
      let (out, run, shape) = string_copy-take build buffer name 7 (omega arith) (ground arith) in
      (record { is_running = false; stop = false; name = out; programs = [] }, rw run refl, shape)
