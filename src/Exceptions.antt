-- ===== src/Exceptions.antt =====
-- src/except.c on POSIX systems: the handlers of fatal signals. The kernel's table of signal actions
-- is part of the state; `sigaction` on one of the six signals, all valid, does not fail.
pub mod Handlers
mod Tests
use Prim.Native.String.{String}
use ccore.Base.{
  ℕ, zero, suc, Bool, true, false, ◌&&◌, not, List, [], ◌∷◌, ◌++◌, ◌==◌, if◌then◌else◌,
}
use ccore.Base.Outcome.{Build, debug, release, Outcome, ok, aborted, fault, ◌>>=◌, ◌>>◌, assert}

-- The signals that get a handler.
pub data Signal : Type 0 where
  sigsegv sigabrt sigfpe sigint sigill sigterm : Signal

-- `struct sigaction`: the address in the union of `sa_handler` and `sa_sigaction`, which is 0 for
-- `SIG_DFL` and 1 for `SIG_IGN`, and `sa_flags & SA_SIGINFO`.
pub record SigAction : Type 0 where
  pub handler : ℕ
  pub siginfo : Bool

-- One action for each signal.
pub record Actions : Type 0 where
  pub segv : SigAction
  pub abrt : SigAction
  pub fpe : SigAction
  pub int : SigAction
  pub ill : SigAction
  pub term : SigAction

abbrev pub get : Signal → Actions → SigAction
get sigsegv t = t.segv
get sigabrt t = t.abrt
get sigfpe t = t.fpe
get sigint t = t.int
get sigill t = t.ill
get sigterm t = t.term

abbrev pub put : Signal → SigAction → Actions → Actions
put sigsegv a t = record t { segv = a }
put sigabrt a t = record t { abrt = a }
put sigfpe a t = record t { fpe = a }
put sigint a t = record t { int = a }
put sigill a t = record t { ill = a }
put sigterm a t = record t { term = a }

-- The static variables of the file, the kernel's actions, and whether the alternate stack is set.
pub record State : Type 0 where
  pub inited : Bool
  pub old : Actions
  pub kernel : Actions
  pub alternate_stack : Bool

-- `sigaction(sig, &sig_action, &old_...)`
unfoldable pub install : SigAction → Signal → State → State
install action sig s = record s {
  old = put sig (get sig s.kernel) s.old;
  kernel = put sig action s.kernel;
}

-- `sigaction(sig, &old_..., NULL)`
unfoldable pub restore : Signal → State → State
restore sig s = record s { kernel = put sig (get sig s.old) s.kernel }

-- `CCASSERT(call == 0)`: the call is part of the assertion, and is compiled with it only.
abbrev pub asserted : Build → Bool → (State → State) → State → Outcome State
asserted release succeeds call s = ok s
asserted debug true call s = ok (call s)
asserted debug false call s = aborted

-- `ours` is the address of `handle_posix_sig`, and `stack_ok` whether `sigaltstack` succeeds.
module _ (ours : ℕ) (stack_ok : Bool) (build : Build) where
  unfoldable pub signal_handler_init : State → Outcome State
  unfolding install
  signal_handler_init s₀ =
      let action : SigAction = record { handler = ours; siginfo = true } in
      do
        s₁ ← asserted build stack_ok (λ s. record s { alternate_stack = true }) s₀
        s₂ ← asserted build true (install action sigsegv) s₁
        s₃ ← asserted build true (install action sigabrt) s₂
        s₄ ← asserted build true (install action sigfpe) s₃
        s₅ ← asserted build true (install action sigint) s₄
        s₆ ← asserted build true (install action sigill) s₅
        asserted build true (install action sigterm) s₆

  unfoldable pub except_init : State → Outcome State
  unfolding signal_handler_init
  except_init s = assert build (not s.inited) >> signal_handler_init (record s { inited = true })

unfoldable pub signal_handler_fini : Build → State → Outcome State
unfolding restore
signal_handler_fini build s₀ = do
  s₁ ← asserted build true (restore sigsegv) s₀
  s₂ ← asserted build true (restore sigabrt) s₁
  s₃ ← asserted build true (restore sigfpe) s₂
  s₄ ← asserted build true (restore sigint) s₃
  s₅ ← asserted build true (restore sigill) s₄
  asserted build true (restore sigterm) s₅

unfoldable pub except_fini : Build → State → Outcome State
unfolding signal_handler_fini
except_fini build s =
    if s.inited then signal_handler_fini build (record s { inited = false }) else ok s

-- The codes have the values of `<signal.h>` on Linux.
unfoldable pub sigfpe2str : ℕ → String
sigfpe2str si_code =
    if si_code == 1
    then "integer divide by zero"
    else if si_code == 2
    then "integer overflow"
    else if si_code == 3
    then "floating-point divide by zero"
    else if si_code == 4
    then "floating-point overflow"
    else if si_code == 5
    then "floating-point underflow"
    else if si_code == 6
    then "floating-point inexact result"
    else if si_code == 7
    then "floating-point invalid operation"
    else if si_code == 8
    then "subscript out of range"
    else "general arithmetic exception"

unfoldable pub sigill2str : ℕ → String
sigill2str si_code =
    if si_code == 1
    then "illegal opcode"
    else if si_code == 2
    then "illegal operand"
    else if si_code == 3
    then "illegal addressing mode"
    else if si_code == 4
    then "illegal trap"
    else if si_code == 5
    then "privileged opcode"
    else if si_code == 6
    then "privileged register"
    else if si_code == 7
    then "coprocessor error"
    else if si_code == 8
    then "internal stack error"
    else "unknown error"

-- `siginfo_t`
pub record SigInfo : Type 0 where
  pub si_addr : ℕ
  pub si_code : ℕ

pub data Message : Type 0 where
  segmentation_fault abort_at : (si_addr : ℕ) → Message
  floating_point_exception illegal_instruction : (reason : String) → Message
  terminated : Message
  caught : Signal → Message

-- What the handler does, in order.
pub data Event : Type 0 where
  printed : Message → Event
  stack_printed : Event
  -- a call of the address with the signal, the information and the context, or the signal alone
  called_with_info called : (address : ℕ) → Event
  exited : Event

unfoldable pub message : Signal → SigInfo → Message
unfolding sigfpe2str sigill2str
message sigsegv info = segmentation_fault info.si_addr
message sigabrt info = abort_at info.si_addr
message sigfpe info = floating_point_exception (sigfpe2str info.si_code)
message sigill info = illegal_instruction (sigill2str info.si_code)
message sigterm info = terminated
message sigint info = caught sigint

-- `SIGNAL_FORWARD(sigact)`. A call through `SIG_IGN` is a call of no function; one of a function
-- is taken to return.
unfoldable pub signal_forward : SigAction → Outcome (List Event)
signal_forward a =
    if not (a.handler == 0) && a.siginfo
    then (if a.handler == 1 then fault else ok (called_with_info a.handler ∷ []))
    else if not (a.handler == 0)
    then (if a.handler == 1 then fault else ok (called a.handler ∷ []))
    else ok []

-- The second `switch` of the handler
unfoldable pub forwarded : State → Signal → Outcome (List Event)
unfolding signal_forward
forwarded s sigsegv = signal_forward s.old.segv
forwarded s sigabrt = signal_forward s.old.abrt
forwarded s sigfpe = signal_forward s.old.fpe
forwarded s sigill = signal_forward s.old.ill
forwarded s sigterm = signal_forward s.old.term
forwarded s sigint = ok []

unfoldable pub handle_posix_sig : State → Signal → SigInfo → Outcome (List Event)
unfolding message forwarded
handle_posix_sig s sig info = do
  calls ← forwarded s sig
  ok (printed (message sig info) ∷ stack_printed ∷ (calls ++ exited ∷ []))
