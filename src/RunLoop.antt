-- ===== src/RunLoop.antt =====
-- src/run_loop.c: the programs of a run loop, and one round of its thread over them. The circular
-- list of entries stands here as the sequence of its entries from `programs.next` on.
pub mod Handles
pub mod Rounds
pub mod Ticks
mod Tests
use ccore.Base.{
  ℕ, zero, suc, ◌+◌, ◌-◌, ◌*◌, ◌%◌, Bool, true, false, not, List, [], ◌∷◌, ◌++◌, ◌==◌, ltb,
  if◌then◌else◌, length, map, replicate,
}
use ccore.Base.CString.{CString}
use ccore.Base.Outcome.{Build, Outcome, ok, fault, ◌>>=◌, ◌>>◌, assert}
use ccore.Base.Words.{size_mod}
use ccore.Strings.{string_copy}

-- `rl_entry_t`: its address, which is the handle, and `main` with `data`. Times are microseconds;
-- `acc` is a `uint64_t`.
pub record Program (M : Type 0) : Type 0 where
  pub handle : ℕ
  pub main : M
  pub acc : ℕ
  pub interval : ℕ

-- `struct cc_run_loop_t`
pub record RunLoop (M : Type 0) : Type 0 where
  pub is_running : Bool
  pub stop : Bool
  pub name : List ℕ
  pub programs : List (Program M)

-- What a round over the programs leaves: them, the calls of `main`, and the time to wait.
pub record Round (M : Type 0) : Type 0 where
  pub programs : List (Program M)
  pub calls : List M
  pub wait : ℕ

abbrev pub max_rloop_wait : ℕ
max_rloop_wait = 1000000

-- `char name[20]`
abbrev pub name_size : ℕ
name_size = 20

-- `sizeof(name)`, where `name` is a pointer
abbrev pub pointer_size : ℕ
pointer_size = 8

-- `a < b ? a : b`
unfoldable pub lesser : ℕ → ℕ → ℕ
lesser a b = if ltb a b then a else b

module _ {M : Type 0} where
  -- `prog->acc -= delta;`
  unfoldable pub counted_down : ℕ → Program M → Program M
  counted_down delta p = record p { acc = (p.acc + size_mod - delta) % size_mod }

  -- `prog->acc <= 0`, on an unsigned number
  unfoldable pub is_due : Program M → Bool
  is_due p = p.acc == 0

  -- `prog->acc += prog->interval;`
  unfoldable pub rearmed : Program M → Program M
  rearmed p = record p { acc = (p.acc + p.interval) % size_mod }

  -- The `for` loop, with the least `acc` before it.
  unfoldable pub run_programs : ℕ → ℕ → List (Program M) → Round M
  unfolding counted_down is_due rearmed lesser
  run_programs delta least [] = record { programs = []; calls = []; wait = least }
  run_programs delta least (p ∷ ps) =
      let p' = counted_down delta p in
      let p'' = if is_due p' then rearmed p' else p' in
      let rest = run_programs delta (lesser p''.acc least) ps in
      record rest {
        programs = p'' ∷ rest.programs;
        calls = if is_due p' then p'.main ∷ rest.calls else rest.calls;
      }

  -- The round of `loop_thread` at the time `new_t`, when the one before was at `t`.
  unfoldable pub run_round : ℕ → ℕ → List (Program M) → Round M
  unfolding run_programs lesser
  run_round t new_t programs =
      let round = run_programs ((new_t + size_mod - t) % size_mod) (size_mod - 1) programs in
      record round { wait = lesser round.wait max_rloop_wait }

  -- `cc_run_loop_new`, up to the start of the thread; the bytes of the name before are `garbage`.
  unfoldable pub run_loop_new : Build → ℕ → CString → Outcome (RunLoop M)
  run_loop_new build garbage name = do
    name' ← string_copy build (replicate name_size garbage) name pointer_size
    ok (record { is_running = false; stop = false; name = name'; programs = [] })

  -- `cc_run_loop_register`, where `cc_alloc` returns `handle`, `1e6 / freq` is `interval`, and
  -- `rand()` is `random`; the remainder by zero is undefined.
  unfoldable pub run_loop_register : RunLoop M → ℕ → M → ℕ → ℕ → Outcome (RunLoop M)
  run_loop_register rl handle main interval random =
      if interval == 0
      then fault
      else ok (record rl {
        programs =
            rl.programs
            ++ record { handle = handle; main = main; acc = random % interval; interval = interval }
              ∷ [];
      })

  unfoldable pub without : ℕ → List (Program M) → Outcome (List (Program M))
  without handle [] = fault
  without handle (p ∷ ps) =
      let later : Outcome (List (Program M)) = (do rest ← without handle ps; ok (p ∷ rest)) in
      if p.handle == handle then ok ps else later

  -- `cc_run_loop_unregister`; a handle that is not in the list is a pointer to no entry.
  unfoldable pub run_loop_unregister : RunLoop M → ℕ → Outcome (RunLoop M)
  unfolding without
  run_loop_unregister rl handle = do
    programs ← without handle rl.programs
    ok (record rl { programs = programs })

  -- `cc_run_loop_delete`: the entries that are freed, in order.
  unfoldable pub run_loop_delete : Build → RunLoop M → Outcome (List ℕ)
  run_loop_delete build rl = assert build (not rl.stop) >> ok (map (λ p. p.handle) rl.programs)
