-- ===== src/RunLoop/Rounds/Missed.antt =====
-- src/run_loop.c: the rounds of the thread when one comes late for a program.
use ccore.Base.{
  ℕ, ◌+◌, ◌-◌, ◌%◌, ◌<◌, ◌≤◌, ◌≡◌, refl, sym, ap, ◌∙◌, ◌⊎◌, inl, inr, true, false, List, [], ◌∷◌,
  ◌++◌, ◌==◌, map, arith,
}
use ccore.Base.Outcome.{ok}
use ccore.Base.Words.{size_mod}
use ccore.RunLoop.{Program, RunLoop, max_rloop_wait, run_round}
use ccore.RunLoop.Ticks.{AreTimed, due, next_acc, waiting, IsRound, run_round-IsRound}
use ccore.RunLoop.Rounds.{Wake, Turn, Turns, changed, loop_turns, loop_thread}

-- The times of the rounds on a clock that does not go back.
abbrev pub Clock : ℕ → List ℕ → Type 0
Clock t [] = Unit {0}
Clock t (u ∷ us) = (t ≤ u) × (u < size_mod) × Clock u us

-- The time of the program has passed before `u`, or before that, in which case it wrapped.
abbrev Lost : ℕ → ℕ → ℕ → Type 0
Lost t u acc = (acc + t < u) ⊎ (size_mod ≤ acc + t)

module _ {M : Type 0} where
  -- The end of a wait at a time, with no calls of other threads before it.
  abbrev pub tick : ℕ → Wake M
  tick time = record { changes = []; stopped = false; time = time }

  abbrev pub calls_of : Turns M → List (List M)
  calls_of out = map (λ u. u.calls) out.turns

  abbrev round_calls : ℕ → List (Program M) → List ℕ → List (List M)
  round_calls t ps [] = []
  round_calls t ps (u ∷ us) =
      let round = run_round t u ps in round.calls ∷ round_calls u round.programs us

  loop_turns-tick :
      (t interval : ℕ) (rl : RunLoop M) (times : List ℕ)
      → (out : Turns M) × (loop_turns t interval rl (map tick times) ≡ ok out)
        × (calls_of out ≡ round_calls t rl.programs times)
  unfolding loop_turns changed
  loop_turns-tick t interval rl [] = (record { loop = rl; turns = [] }, refl, refl)
  loop_turns-tick t interval rl (u ∷ us) =
      let round = run_round t u rl.programs in
      let (out, run, calls) =
        loop_turns-tick u round.wait (record rl { programs = round.programs }) us in
      let turn : Turn M = record {
        deadline = (t + interval) % size_mod;
        time = u;
        calls = round.calls;
      } in
      (record out { turns = turn ∷ out.turns }, rw run refl, ap (λ l. round.calls ∷ l) calls)

  due-append : (d : ℕ) (ps qs : List (Program M)) → due d (ps ++ qs) ≡ due d ps ++ due d qs
  due-append d [] qs = refl
  due-append d (p ∷ ps) qs = ground (arith, due-append d ps qs)

  waiting-append :
      (d : ℕ) (ps qs : List (Program M)) → waiting d (ps ++ qs) ≡ waiting d ps ++ waiting d qs
  waiting-append d [] qs = refl
  waiting-append d (p ∷ ps) qs =
      ap (λ l. record p { acc = next_acc d p } ∷ l) (waiting-append d ps qs)

  waiting-AreTimed : (d : ℕ) (ps : List (Program M)) → AreTimed ps → AreTimed (waiting d ps)
  waiting-AreTimed d [] timed = tt
  waiting-AreTimed d (p ∷ ps) (acc, interval, timed) =
      (ground arith, interval, waiting-AreTimed d ps timed)

  AreTimed-append : (ps qs : List (Program M)) → AreTimed ps → AreTimed qs → AreTimed (ps ++ qs)
  AreTimed-append [] qs ts us = us
  AreTimed-append (p ∷ ps) qs (acc, interval, ts) us = (acc, interval, AreTimed-append ps qs ts us)

  -- A round at `u`, on the same clock as the one at `t`.
  run_at :
      (t u : ℕ) (ps : List (Program M))
      → t ≤ u
      → u < size_mod
      → AreTimed ps
      → IsRound (u - t) ps max_rloop_wait (run_round t u ps)
  run_at t u ps le small timed =
      let e : (t + (u - t)) % size_mod ≡ u = omega arith in
      rw e at (run_round-IsRound t (u - t) ps (omega arith) (omega arith) timed)

  pass_over :
      (t u : ℕ) (p : Program M)
      → t ≤ u
      → u < size_mod
      → Lost t u p.acc
      → ((p.acc == u - t) ≡ false) × (size_mod ≤ next_acc (u - t) p + u)
  pass_over t u p le small (inl late) = ground arith
  pass_over t u p le small (inr wrapped) = ground arith

  abbrev later : ℕ → Program M → Program M
  later d p = record p { acc = next_acc d p }

  passed_round :
      (t u : ℕ) (pre post : List (Program M)) (p : Program M)
      → t ≤ u
      → u < size_mod
      → AreTimed pre
      → AreTimed (p ∷ post)
      → Lost t u p.acc
      → ((run_round t u (pre ++ p ∷ post)).calls ≡ (run_round t u (pre ++ post)).calls)
        × ((run_round t u (pre ++ p ∷ post)).programs
            ≡ waiting (u - t) pre ++ later (u - t) p ∷ waiting (u - t) post)
        × ((run_round t u (pre ++ post)).programs ≡ waiting (u - t) pre ++ waiting (u - t) post)
  passed_round t u pre post p le small timed (acc, interval, timed') lost =
      let d = u - t in
      let all =
        run_at t u (pre ++ p ∷ post) le small
          (AreTimed-append pre (p ∷ post) timed (acc, interval, timed')) in
      let others = run_at t u (pre ++ post) le small (AreTimed-append pre post timed timed') in
      let passed_over : due d (p ∷ post) ≡ due d post =
        rw ((pass_over t u p le small lost).0) refl in
      (
        all.called
            ∙ due-append d pre (p ∷ post)
            ∙ ap (λ l. due d pre ++ l) passed_over
            ∙ sym (others.called ∙ due-append d pre post),
        all.left ∙ waiting-append d pre (p ∷ post),
        others.left ∙ waiting-append d pre post,
      )

  -- What the rounds call is what they call without the program, by the list behind the first round.
  after_round :
      (t u : ℕ) (pre post : List (Program M)) (p : Program M) (us : List ℕ)
      → t ≤ u
      → u < size_mod
      → AreTimed pre
      → AreTimed (p ∷ post)
      → Lost t u p.acc
      → round_calls u (waiting (u - t) pre ++ later (u - t) p ∷ waiting (u - t) post) us
        ≡ round_calls u (waiting (u - t) pre ++ waiting (u - t) post) us
      → round_calls t (pre ++ p ∷ post) (u ∷ us) ≡ round_calls t (pre ++ post) (u ∷ us)
  after_round t u pre post p us le small timed timed' lost rest =
      let (same, all, others) = passed_round t u pre post p le small timed timed' lost in
      let calls = (run_round t u (pre ++ post)).calls in
      ap (λ c. c ∷ round_calls u (run_round t u (pre ++ p ∷ post)).programs us) same
      ∙ ap (λ (c : List (List M)). calls ∷ c)
          (ap (λ ps. round_calls u ps us) all ∙ rest ∙ sym (ap (λ ps. round_calls u ps us) others))

  wrapped_calls :
      (t : ℕ) (pre post : List (Program M)) (p : Program M) (us : List ℕ)
      → Clock t us
      → AreTimed pre
      → AreTimed (p ∷ post)
      → size_mod ≤ p.acc + t
      → round_calls t (pre ++ p ∷ post) us ≡ round_calls t (pre ++ post) us
  wrapped_calls t pre post p [] clock timed timed' wrapped = refl
  wrapped_calls t pre post p (u ∷ us) (le, small, clock) timed timed' wrapped =
      let d = u - t in
      after_round t u pre post p us le small timed timed' (inr wrapped) (
        wrapped_calls u (waiting d pre) (waiting d post) (later d p) us clock
          (waiting-AreTimed d pre timed) (waiting-AreTimed d (p ∷ post) timed')
          (pass_over t u p le small (inr wrapped)).1)

  -- A run loop whose first round at `u` comes when the time that program `p` has left is over, be it
  -- by a microsecond: in that round and in all rounds that follow, on a clock that does not go back,
  -- the thread makes the calls, in order, that it makes when `p` is not registered at all. All times
  -- are 64-bit numbers, and no program is registered or removed meanwhile.
  pub missed_never_called :
      (t u : ℕ) (rl : RunLoop M) (pre post : List (Program M)) (p : Program M) (us : List ℕ)
      → Clock t (u ∷ us)
      → AreTimed pre
      → AreTimed (p ∷ post)
      → p.acc < u - t
      → (out : Turns M) × (out' : Turns M) × (loop_thread t
            (record rl { programs = pre ++ p ∷ post })
            (map tick (u ∷ us))
          ≡ ok out)
        × (loop_thread t (record rl { programs = pre ++ post }) (map tick (u ∷ us)) ≡ ok out')
        × (calls_of out ≡ calls_of out')
  unfolding loop_thread
  missed_never_called t u rl pre post p us (le, small, clock) timed timed' late =
      let d = u - t in
      let lost : Lost t u p.acc = inl (omega arith) in
      let (out, run, calls) =
        loop_turns-tick t 0 (record rl { is_running = true; programs = pre ++ p ∷ post })
          (u ∷ us) in
      let (out', run', calls') =
        loop_turns-tick t 0 (record rl { is_running = true; programs = pre ++ post }) (u ∷ us) in
      let same = after_round t u pre post p us le small timed timed' lost (
        wrapped_calls u (waiting d pre) (waiting d post) (later d p) us clock
          (waiting-AreTimed d pre timed) (waiting-AreTimed d (p ∷ post) timed')
          (pass_over t u p le small lost).1) in
      (out, out', run, run', calls ∙ same ∙ sym calls')
