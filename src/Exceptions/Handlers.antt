-- ===== src/Exceptions/Handlers.antt =====
-- Which actions the signals have after `cc_except_init` and `cc_except_fini`, and what a caught
-- signal does.
use ccore.Base.{ℕ, zero, suc, ◌≡◌, refl, Bool, true, false, List, [], ◌∷◌, ◌++◌, ==_ne, arith}
use ccore.Base.Outcome.{Outcome, debug, release, ok, aborted, fault, ◌>>=◌, Returns}
use ccore.Exceptions.{
  Signal, sigsegv, sigabrt, sigfpe, sigint, sigill, sigterm, SigAction, get, State, install,
  restore, signal_handler_init, except_init, signal_handler_fini, except_fini, SigInfo, Message,
  Event, printed, stack_printed, called_with_info, called, exited, message, signal_forward,
  forwarded, handle_posix_sig,
}

module _ (ours : ℕ) where
  -- Every signal has the handler, and the action before is kept.
  pub record IsInstalled (s s' : State) : Type 0 where
    pub started : s'.inited ≡ true
    pub handled : (sig : Signal) → get sig s'.kernel ≡ record { handler = ours; siginfo = true }
    pub saved : (sig : Signal) → get sig s'.old ≡ get sig s.kernel

  abbrev ready : State → State
  ready s =
      let a : SigAction = record { handler = ours; siginfo = true } in
      record {
        inited = true;
        old = s.kernel;
        kernel = record { segv = a; abrt = a; fpe = a; int = a; ill = a; term = a };
        alternate_stack = true;
      }

  ready-IsInstalled : (s : State) → IsInstalled s (ready s)
  ready-IsInstalled s = record { started = refl; handled = handled; saved = λ sig. refl }
    where
      handled :
          (sig : Signal) → get sig (ready s).kernel ≡ record { handler = ours; siginfo = true }
      handled sigsegv = refl
      handled sigabrt = refl
      handled sigfpe = refl
      handled sigint = refl
      handled sigill = refl
      handled sigterm = refl

  except_init-ready : (s : State) → s.inited ≡ false → except_init ours true debug s ≡ ok (ready s)
  unfolding except_init signal_handler_init install
  except_init-ready s fresh = rw fresh refl

  -- With assertions, where `sigaltstack` succeeds, the first call of `cc_except_init` gives each of
  -- the six signals the handler and keeps the action that each had, and a second call aborts.
  except_init-IsInstalled :
      (s : State)
      → s.inited ≡ false
      → Returns
          (except_init ours true debug s)
          λ s'. IsInstalled s s' × (except_init ours true debug s' ≡ aborted)
  unfolding except_init
  except_init-IsInstalled s fresh =
      (ready s, except_init-ready s fresh, (ready-IsInstalled s, refl))

  -- With assertions, where `sigaltstack` succeeds, `cc_except_fini` gives each signal back the
  -- action that it had before `cc_except_init`.
  pub except_fini-init :
      (s : State)
      → s.inited ≡ false
      → Returns
          (except_init ours true debug s >>= except_fini debug)
          λ s'. (s'.inited ≡ false) × (s'.kernel ≡ s.kernel)
  unfolding except_fini signal_handler_fini restore
  except_fini-init s fresh =
      let s' : State = record {
        inited = false;
        old = s.kernel;
        kernel = s.kernel;
        alternate_stack = true;
      } in
      (s', rw (except_init-ready s fresh) refl, (refl, refl))

  -- With `NDEBUG`, `cc_except_init` leaves the action of every signal as it is: the calls of
  -- `sigaction` are inside `CCASSERT`.
  pub except_init-release :
      (s : State) (stack_ok : Bool)
      → Returns
          (except_init ours stack_ok release s)
          λ s'. (s'.inited ≡ true) × ((sig : Signal) → get sig s'.kernel ≡ get sig s.kernel)
  unfolding except_init signal_handler_init
  except_init-release s stack_ok = (_, refl, (refl, λ sig. refl))

  -- What a caught signal does whose action from before is at this address, with `SA_SIGINFO` or not:
  -- nothing more for `SIG_DFL`, undefined behaviour for `SIG_IGN`, and else a call of the function.
  abbrev pub response : Message → ℕ → Bool → Outcome (List Event)
  response m zero siginfo = ok (printed m ∷ stack_printed ∷ exited ∷ [])
  response m (suc zero) siginfo = fault
  response m (suc (suc n)) true =
      ok (printed m ∷ stack_printed ∷ called_with_info (suc (suc n)) ∷ exited ∷ [])
  response m (suc (suc n)) false =
      ok (printed m ∷ stack_printed ∷ called (suc (suc n)) ∷ exited ∷ [])

  signal_forward-response :
      (m : Message) (handler : ℕ) (siginfo : Bool)
      → (signal_forward (record { handler = handler; siginfo = siginfo }) >>= λ calls.
          ok (printed m ∷ stack_printed ∷ (calls ++ exited ∷ [])))
        ≡ response m handler siginfo
  unfolding signal_forward
  signal_forward-response m zero siginfo = refl
  signal_forward-response m (suc zero) true = refl
  signal_forward-response m (suc zero) false = refl
  signal_forward-response m (suc (suc n)) true =
      rw (==_ne (suc (suc n)) 0 (omega arith), ==_ne (suc (suc n)) 1 (omega arith)) refl
  signal_forward-response m (suc (suc n)) false =
      rw (==_ne (suc (suc n)) 0 (omega arith), ==_ne (suc (suc n)) 1 (omega arith)) refl

  ready-forwarded :
      (s : State) (sig : Signal)
      → ¬ (sig ≡ sigint)
      → forwarded (ready s) sig ≡ signal_forward (get sig s.kernel)
  unfolding forwarded
  ready-forwarded s sigsegv other = refl
  ready-forwarded s sigabrt other = refl
  ready-forwarded s sigfpe other = refl
  ready-forwarded s sigint other = absurd (other refl)
  ready-forwarded s sigill other = refl
  ready-forwarded s sigterm other = refl

  -- With assertions, where `sigaltstack` succeeds, behind the first `cc_except_init`: a signal other
  -- than `SIGINT` is printed when it is caught, with a stack trace; then the handler that it had
  -- before, if any, is called as its flags say, and, where that returns, the program exits. For a
  -- signal that was ignored this call is undefined behaviour, and for `SIGINT` there is no call.
  pub handle_posix_sig-init :
      (s : State) (info : SigInfo) (sig : Signal)
      → s.inited ≡ false
      → ¬ (sig ≡ sigint)
      → Returns (except_init ours true debug s) λ s'.
        (handle_posix_sig s' sig info
          ≡ response (message sig info) (get sig s.kernel).handler (get sig s.kernel).siginfo)
        × (handle_posix_sig s' sigint info
            ≡ ok (printed (message sigint info) ∷ stack_printed ∷ exited ∷ []))
  unfolding handle_posix_sig
  handle_posix_sig-init s info sig fresh other =
      let a = get sig s.kernel in
      (
        ready s,
        except_init-ready s fresh,
        (
          rw (ready-forwarded s sig other)
              (signal_forward-response (message sig info) a.handler a.siginfo),
          unfold forwarded in refl,
        ),
      )
