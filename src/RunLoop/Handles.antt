-- ===== src/RunLoop/Handles.antt =====
-- What registering a program, removing it and deleting the run loop do to the entries.
use mathlib.Core.List.{append_assoc}
use ccore.Base.{ℕ, ◌%◌, ◌≡◌, ◌≢◌, refl, ap, ◌∙◌, List, [], ◌∷◌, ◌++◌, ==_ne, ==_refl}
use ccore.Base.Outcome.{ok, ◌>>=◌}
use ccore.RunLoop.{Program, RunLoop, run_loop_register, without, run_loop_unregister}

module _ {M : Type 0} where
  -- The block of the entry is none of theirs.
  abbrev pub IsFresh : ℕ → List (Program M) → Type 0
  IsFresh handle [] = Unit {0}
  IsFresh handle (p ∷ ps) = (p.handle ≢ handle) × IsFresh handle ps

  without-append :
      (ps : List (Program M)) (p : Program M) (qs : List (Program M))
      → IsFresh p.handle ps
      → without p.handle (ps ++ p ∷ qs) ≡ ok (ps ++ qs)
  unfolding without
  without-append [] p qs fresh = rw (==_refl p.handle) refl
  without-append (q ∷ ps) p qs (ne, fresh) =
      rw (==_ne q.handle p.handle ne, without-append ps p qs fresh) refl

  -- A program with a frequency of 1 MHz at most and a new block is registered behind the others. It is
  -- then taken out by its handle, also when more programs follow it, and all others stay in order.
  unregister-register :
      (rl : RunLoop M) (handle : ℕ) (main : M) (interval random : ℕ) (qs : List (Program M))
      → IsFresh handle rl.programs
      → interval ≢ 0
      → (with_new : RunLoop M) × (run_loop_register rl handle main interval random ≡ ok with_new)
        × (run_loop_unregister (record with_new { programs = with_new.programs ++ qs }) handle
            ≡ ok (record rl { programs = rl.programs ++ qs }))
  unfolding run_loop_register run_loop_unregister
  unregister-register rl handle main interval random qs fresh some_time =
      let p : Program M = record {
        handle = handle;
        main = main;
        acc = random % interval;
        interval = interval;
      } in
      (
        record rl { programs = rl.programs ++ p ∷ [] },
        rw (==_ne interval 0 some_time) refl,
        ap
              (λ ps. without handle ps >>= λ (found : List (Program M)).
                ok (record rl { programs = found }))
              (append_assoc rl.programs (p ∷ []) qs)
            ∙ rw (without-append rl.programs p qs fresh) refl,
      )
