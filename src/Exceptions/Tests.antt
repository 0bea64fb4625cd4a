-- ===== src/Exceptions/Tests.antt =====
-- The theorems for a program that ignores floating-point exceptions and handles nothing else.
use ccore.Base.{◌≡◌, refl, false, true, [], ◌∷◌}
use ccore.Base.Outcome.{debug, release, ok, fault, Returns, ◌>>=◌}
use ccore.Exceptions.{
  Signal, sigfpe, sigint, sigterm, SigAction, Actions, get, State, except_init, except_fini,
  SigInfo, printed, stack_printed, called, exited, message, handle_posix_sig,
}
use ccore.Exceptions.Handlers.{except_fini-init, except_init-release, handle_posix_sig-init}

abbrev default : SigAction
default = record { handler = 0; siginfo = false }

abbrev ignored : SigAction
ignored = record { handler = 1; siginfo = false }

abbrev defaults : Actions
defaults = record {
  segv = default;
  abrt = default;
  fpe = ignored;
  int = default;
  ill = default;
  term = default;
}

abbrev plain : SigAction
plain = record { handler = 8192; siginfo = false }

abbrev fresh : State
fresh = record { inited = false; old = defaults; kernel = defaults; alternate_stack = false }

abbrev overflow : SigInfo
overflow = record { si_addr = 4096; si_code = 4 }

except_fini-init_example :
    Returns
      (except_init 64 true debug fresh >>= except_fini debug)
      λ s'. (s'.inited ≡ false) × (s'.kernel ≡ defaults)
except_fini-init_example = except_fini-init 64 fresh refl

except_init-release_example :
    Returns
      (except_init 64 true release fresh)
      λ s'. (s'.inited ≡ true) × ((sig : Signal) → get sig s'.kernel ≡ get sig defaults)
except_init-release_example = except_init-release 64 fresh true

handle_posix_sig-init_example : Returns (except_init 64 true debug fresh) λ s'.
    (handle_posix_sig s' sigfpe overflow ≡ fault)
    × (handle_posix_sig s' sigint overflow
        ≡ ok (printed (message sigint overflow) ∷ stack_printed ∷ exited ∷ []))
handle_posix_sig-init_example = handle_posix_sig-init 64 fresh overflow sigfpe refl (λ e. cc)

-- The same program with a handler of its own for `SIGTERM`.
abbrev with_term : State
with_term = record fresh { kernel = record defaults { term = plain } }

plain_called : Returns (except_init 64 true debug with_term) λ s'.
    (handle_posix_sig s' sigterm overflow
      ≡ ok (printed (message sigterm overflow) ∷ stack_printed ∷ called 8192 ∷ exited ∷ []))
    × (handle_posix_sig s' sigint overflow
        ≡ ok (printed (message sigint overflow) ∷ stack_printed ∷ exited ∷ []))
plain_called = handle_posix_sig-init 64 with_term overflow sigterm refl (λ e. cc)
