-- ===== src/Log.antt =====
-- src/log.c: the messages of `cc_log`, `cc_printf` and `cc_print`, and the threads that print them
-- under `stream_mutex`. `vsnprintf` on the arguments is the text that a call carries.
pub mod Whole
mod Tests
use ccore.Base.{ℕ, ◌≡◌, Bool, true, false, List, [], ◌∷◌, ◌++◌, ltb, if◌then◌else◌, take}
use ccore.Base.CString.{CString}

pub data Level : Type 0 where
  debug info warn error : Level

-- The order of `log_level_t`.
unfoldable pub rank : Level → ℕ
rank debug = 0
rank info = 1
rank warn = 2
rank error = 3

unfoldable pub level_string : Level → CString
level_string debug = b'd' ∷ b'e' ∷ b'b' ∷ b'u' ∷ b'g' ∷ []
level_string info = b'i' ∷ b'n' ∷ b'f' ∷ b'o' ∷ []
level_string warn = b'w' ∷ b'a' ∷ b'r' ∷ b'n' ∷ b'i' ∷ b'n' ∷ b'g' ∷ []
level_string error = b'e' ∷ b'r' ∷ b'r' ∷ b'o' ∷ b'r' ∷ []

-- A call of `cc_log`, `cc_printf` or `cc_print`, with its text.
pub data Message : Type 0 where
  log : (level : Level) (function text : CString) → Message
  printf : CString → Message
  print : CString → Message

-- What is handed to `log_printer`, one piece after the other; `snprintf` keeps what fits the buffer.
unfoldable pub pieces : CString → Message → List CString
unfolding level_string
pieces log_name (log level function text) =
    take 511 (
      b'['
      ∷ (log_name
          ++ (b' '
              ∷ (level_string level
                  ++ (b']' ∷ b' ' ∷ (function ++ (b'(' ∷ b')' ∷ b':' ∷ b' ' ∷ [])))))))
    ∷ take 511 text
    ∷ (10 ∷ [])
    ∷ []
pieces log_name (printf text) = take 2047 text ∷ []
pieces log_name (print text) = text ∷ []

-- `if(level < LOG_LEVEL) return;`
unfoldable pub is_shown : Level → Message → Bool
unfolding rank
is_shown log_level (log level function text) =
    if ltb (rank level) (rank log_level) then false else true
is_shown log_level (printf text) = true
is_shown log_level (print text) = true

-- Where a thread is: outside, behind the lock of the mutex, or with pieces left to print.
pub data Writer : Type 0 where
  outside : Writer
  locked : Message → Writer
  printing : List CString → Writer

-- `log_name`, `log_printer` (as a number), the mutex, the threads, what was printed by which printer,
-- and, for the theorems, the pieces of the messages in the order of their locks.
pub record Stream : Type 0 where
  pub log_name : CString
  pub log_printer : ℕ
  pub is_held : Bool
  pub writers : List Writer
  pub printed : List (ℕ × CString)
  pub begun : List (List CString)

-- `cc_set_log_name` and `cc_set_printer` take no lock.
unfoldable pub set_log_name : Stream → CString → Stream
set_log_name s name = record s { log_name = name }

unfoldable pub set_printer : Stream → ℕ → Stream
set_printer s printer = record s { log_printer = printer }

unfoldable pub lock : Stream → List Writer → Message → List Writer → Stream
lock s before m after = record s { is_held = true; writers = before ++ locked m ∷ after }

-- The first text is formatted.
unfoldable pub begin : Stream → List Writer → Message → List Writer → Stream
unfolding pieces
begin s before m after = record s {
  writers = before ++ printing (pieces s.log_name m) ∷ after;
  begun = s.begun ++ pieces s.log_name m ∷ [];
}

-- `log_printer(buffer);`
unfoldable pub print_piece : Stream → List Writer → CString → List CString → List Writer → Stream
print_piece s before piece rest after = record s {
  writers = before ++ printing rest ∷ after;
  printed = s.printed ++ (s.log_printer, piece) ∷ [];
}

unfoldable pub unlock : Stream → List Writer → List Writer → Stream
unlock s before after = record s { is_held = false; writers = before ++ outside ∷ after }

-- A step of some thread.
pub data Step (log_level : Level) (s u : Stream) : Type 0 where
  locking :
      (before : List Writer) (m : Message) (after : List Writer)
      → s.writers ≡ before ++ outside ∷ after
      → s.is_held ≡ false
      → is_shown log_level m ≡ true
      → u ≡ lock s before m after
      → Step log_level s u
  beginning :
      (before : List Writer) (m : Message) (after : List Writer)
      → s.writers ≡ before ++ locked m ∷ after
      → u ≡ begin s before m after
      → Step log_level s u
  piece :
      (before : List Writer) (text : CString) (rest : List CString) (after : List Writer)
      → s.writers ≡ before ++ printing (text ∷ rest) ∷ after
      → u ≡ print_piece s before text rest after
      → Step log_level s u
  unlocking :
      (before after : List Writer)
      → s.writers ≡ before ++ printing [] ∷ after
      → u ≡ unlock s before after
      → Step log_level s u
  naming : (name : CString) → u ≡ set_log_name s name → Step log_level s u
  redirecting : (printer : ℕ) → u ≡ set_printer s printer → Step log_level s u

pub data Reach (log_level : Level) (s : Stream) : Stream → Type 0 where
  here : Reach log_level s s
  next : {t u : Stream} → Reach log_level s t → Step log_level t u → Reach log_level s u

-- The program at its start, with some threads.
unfoldable pub fresh : CString → ℕ → List Writer → Stream
fresh name printer writers = record {
  log_name = name;
  log_printer = printer;
  is_held = false;
  writers = writers;
  printed = [];
  begun = [];
}
